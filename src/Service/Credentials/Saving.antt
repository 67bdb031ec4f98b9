-- ===== src/Service/Credentials/Saving.antt =====
-- The dict of a store after it is saved with sorted keys and loaded, and the search for a digest in it.
use netscope_x.Prelude.{
  false, some, [], ◌∷◌, ◌||◌, Text, ◌==◌, ==_iff, ==_comm, nat_ord, list_ord, if◌then◌else◌, Dict,
  keys, contains, AreDistinct, lookup, place, sort_by, ◌≡◌, refl, ap, ◌∙◌, arith, Bool-cases, inl,
  inr,
}
use netscope_x.Service.Credentials.{key_le, save}

module _ {A : Type 0} where
  contains-place :
      (e : Text × A) (d : Dict Text A) (k : Text)
      → contains (keys (place key_le e d)) k ≡ (e.0 == k || contains (keys d) k)
  unfolding place
  contains-place e [] k = refl
  contains-place e (f ∷ d) k = ground (arith, contains-place e d k)

  pub contains-save :
      (d : Dict Text A) (k : Text) → contains (keys (save d)) k ≡ contains (keys d) k
  unfolding sort_by
  contains-save [] k = refl
  contains-save (e ∷ d) k =
      contains-place e (save d) k ∙ ap (λ b. e.0 == k || b) (contains-save d k)

  place-AreDistinct :
      (e : Text × A) (d : Dict Text A)
      → contains (keys d) e.0 ≡ false
      → AreDistinct (keys d)
      → AreDistinct (keys (place key_le e d))
  unfolding place
  place-AreDistinct e [] h k = (refl, tt)
  place-AreDistinct e (f ∷ d) h (k, ks) = elim (Bool-cases (key_le e f)) [
    | inl p ↦ rw p (h, (k, ks))
    | inr p ↦ rw p (
      ground (arith, contains-place e d f.0, ==_comm e.0 f.0),
      place-AreDistinct e d (ground arith) ks,
    )
  ]

  pub save-AreDistinct : (d : Dict Text A) → AreDistinct (keys d) → AreDistinct (keys (save d))
  unfolding sort_by
  save-AreDistinct [] h = tt
  save-AreDistinct (e ∷ d) (h, hs) =
      place-AreDistinct e (save d) (contains-save d e.0 ∙ h) (save-AreDistinct d hs)

  lookup-place :
      (e : Text × A) (d : Dict Text A) (k : Text)
      → contains (keys d) e.0 ≡ false
      → lookup k (place key_le e d) ≡ (if e.0 == k then some e.1 else lookup k d)
  unfolding place lookup
  lookup-place e [] k h = refl
  lookup-place (j, v) ((i, w) ∷ d) k h =
      ground (arith, lookup-place (j, v) d k, ==_iff j k, ==_iff i k, ==_iff i j)

  pub lookup-save :
      (d : Dict Text A) (k : Text) → AreDistinct (keys d) → lookup k (save d) ≡ lookup k d
  unfolding sort_by lookup
  lookup-save [] k h = refl
  lookup-save ((j, v) ∷ d) k (h, hs) =
      lookup-place (j, v) (save d) k (contains-save d j ∙ h)
      ∙ ap (λ r. if j == k then some v else r) (lookup-save d k hs)

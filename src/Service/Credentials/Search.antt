-- ===== src/Service/Credentials/Search.antt =====
-- The search for a digest in the dict of a store.
use netscope_x.Prelude.{
  some-injective, false, Option, none, some, [], ◌∷◌, Text, ◌==◌, ==_iff, ==_self, nat_ord,
  list_ord, if◌then◌else◌, Dict, keys, contains, AreDistinct, lookup, insert, lookup-eq-none, place,
  sort_by, All, ◌≡◌, refl, sym, ap, ◌∙◌, arith, Bool-cases, inl, inr, ◌⊎◌,
}
use netscope_x.Service.Credentials.{key_le, save, find_last}

module _ {A : Type 0} (hash_of : A → Text) where
  lookup_later :
      (d : Dict Text A) (j cid : Text) (b c : A)
      → contains (keys d) j ≡ false
      → lookup cid d ≡ some c
      → lookup cid ((j, b) ∷ d) ≡ some c
  unfolding lookup
  lookup_later d j cid b c h e = elim (Bool-cases (j == cid)) [
    | inl p ↦ absurd (ground (arith, e, lookup-eq-none cid d (rw (← (==_iff j cid).0 p) h)))
    | inr p ↦ rw p e
  ]

  pub find_last-lookup :
      (digest : Text) (found : Option (Text × A)) (d : Dict Text A) (cid : Text) (c : A)
      → AreDistinct (keys d)
      → find_last hash_of digest found d ≡ some (cid, c)
      → (found ≡ some (cid, c)) ⊎ ((lookup cid d ≡ some c) × (hash_of c ≡ digest))
  unfolding find_last lookup
  find_last-lookup digest found [] cid c h e = inl e
  find_last-lookup digest found ((j, b) ∷ d) cid c (h, hs) e =
      elim (Bool-cases (hash_of b == digest)) [
        | inl p ↦ elim (find_last-lookup digest (some (j, b)) d cid c hs (rw p at e)) [
          | inl q ↦ inr (
            rw
                (
                  ap (λ x. x.0) (some-injective (j, b) (cid, c) q),
                  ap (λ x. x.1) (some-injective (j, b) (cid, c) q),
                )
                (rw (==_self cid) refl),
            ap (λ x. hash_of x.1) (some-injective (cid, c) (j, b) (sym q))
                ∙ (==_iff (hash_of b) digest).0 p,
          )
          | inr (q, r) ↦ inr (lookup_later d j cid b c h q, r)
        ]
        | inr p ↦ elim (find_last-lookup digest found d cid c hs (rw p at e)) [
          | inl q ↦ inl q
          | inr (q, r) ↦ inr (lookup_later d j cid b c h q, r)
        ]
      ]

  -- no entry has this digest
  abbrev pub IsFresh : Text → Dict Text A → Type 0
  IsFresh digest = All (λ e. (hash_of e.1 == digest) ≡ false)

  find_last-place :
      (digest : Text) (found : Option (Text × A)) (cid : Text) (c : A) (d : Dict Text A)
      → (hash_of c == digest) ≡ false
      → find_last hash_of digest found (place key_le (cid, c) d) ≡ find_last hash_of digest found d
  unfolding place find_last
  find_last-place digest found cid c [] h = rw h refl
  find_last-place digest found cid c ((j, b) ∷ d) h = elim (Bool-cases (key_le (cid, c) (j, b))) [
    | inl p ↦
        rw p
          (ap (λ t. find_last hash_of digest (if t then some (cid, c) else found) ((j, b) ∷ d)) h)
    | inr p ↦
        rw p (find_last-place digest (if hash_of b == digest then some (j, b) else found) cid c d h)
  ]

  pub find_last-created :
      (digest cid : Text) (c : A) (d : Dict Text A)
      → hash_of c ≡ digest
      → IsFresh digest d
      → contains (keys d) cid ≡ false
      → find_last hash_of digest none (save (insert cid c d)) ≡ some (cid, c)
  unfolding sort_by insert place find_last
  find_last-created digest cid c [] h f k = rw h (rw (==_self digest) refl)
  find_last-created digest cid c ((j, b) ∷ d) h (f, fs) k =
      let differ : (j == cid) ≡ false = ground arith in
      rw differ (
        find_last-place digest none j b (save (insert cid c d)) f
        ∙ find_last-created digest cid c d h fs (ground arith))

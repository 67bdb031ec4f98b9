-- ===== src/DigitalTwin/Merge.antt =====
-- How `sync_digital_twin` merges fingerprints (backend/digital_twin/sync.py): the last one of each
-- node and window, in the order of the keys.
use netscope_x.Prelude.{
  Bool, true, false, Option, none, some, List, [], ◌∷◌, ◌++◌, Text, ◌==◌, ==_iff, if◌then◌else◌,
  nat_ord, list_ord, pair_ord, Dict, lookup, insert, lookup-insert, keys, values, sort_by,
  sort_by-All, by_key, AreDistinct, insert-AreDistinct, lookup-sort_by, sort_by-IsAscending,
  ascending_ext, ascending-AreDistinct, lookup-eq-none, All, ◌≡◌, refl, sym, ap, ◌∙◌, Bool-cases,
  inl, inr,
}
use netscope_x.Models.Behavior.{BehavioralFingerprint, window_value}

abbrev pub Key : Type 0
Key = Text × Text

module _ {F : Type 0} where
  -- `_fingerprint_key`
  unfoldable pub fingerprint_key : BehavioralFingerprint F → Key
  fingerprint_key fp = (fp.node_id, window_value fp.window)

  -- `d[_fingerprint_key(fp)] = fp` for each fingerprint
  unfoldable pub record_all :
      Dict Key (BehavioralFingerprint F)
      → List (BehavioralFingerprint F)
      → Dict Key (BehavioralFingerprint F)
  record_all d [] = d
  record_all d (fp ∷ fps) = record_all (insert (fingerprint_key fp) fp d) fps

  -- `[d[key] for key in sorted(d.keys(), key=...)]`
  unfoldable pub in_key_order : Dict Key (BehavioralFingerprint F) → List (BehavioralFingerprint F)
  in_key_order d = values (sort_by by_key d)

  -- the fingerprints of the rebuilt twin, from the previous and the new ones
  unfoldable pub merged_fingerprints :
      List (BehavioralFingerprint F)
      → List (BehavioralFingerprint F)
      → List (BehavioralFingerprint F)
  unfolding record_all in_key_order
  merged_fingerprints previous new = in_key_order (record_all (record_all [] previous) new)

  abbrev pub or_else :
      Option (BehavioralFingerprint F)
      → Option (BehavioralFingerprint F)
      → Option (BehavioralFingerprint F)
  or_else none b = b
  or_else (some a) b = some a

  pub or_else_assoc :
      (a b c : Option (BehavioralFingerprint F)) → or_else (or_else a b) c ≡ or_else a (or_else b c)
  or_else_assoc none b c = refl
  or_else_assoc (some a) b c = refl

  or_else-none : (a : Option (BehavioralFingerprint F)) → or_else a none ≡ a
  or_else-none none = refl
  or_else-none (some a) = refl

  -- the last fingerprint with the key
  unfoldable pub newest : Key → List (BehavioralFingerprint F) → Option (BehavioralFingerprint F)
  newest k [] = none
  newest k (fp ∷ fps) = or_else (newest k fps) (if fingerprint_key fp == k then some fp else none)

  pub newest-append :
      (k : Key) (as' bs : List (BehavioralFingerprint F))
      → newest k (as' ++ bs) ≡ or_else (newest k bs) (newest k as')
  unfolding newest
  newest-append k [] bs = sym (or_else-none (newest k bs))
  newest-append k (a ∷ as') bs =
      ap (λ r. or_else r (if fingerprint_key a == k then some a else none)) (newest-append k as' bs)
      ∙ or_else_assoc (newest k bs) (newest k as') (if fingerprint_key a == k then some a else none)

  lookup-record_all :
      (k : Key) (d : Dict Key (BehavioralFingerprint F)) (fps : List (BehavioralFingerprint F))
      → lookup k (record_all d fps) ≡ or_else (newest k fps) (lookup k d)
  unfolding record_all newest
  lookup-record_all k d [] = refl
  lookup-record_all k d (fp ∷ fps) =
      lookup-record_all k (insert (fingerprint_key fp) fp d) fps
      ∙ ap (or_else (newest k fps)) (lookup-insert (fingerprint_key fp) k fp d)
      ∙ last_step (newest k fps) (fingerprint_key fp == k)
    where
      last_step :
          (a : Option (BehavioralFingerprint F)) (b : Bool)
          → or_else a (if b then some fp else lookup k d)
            ≡ or_else (or_else a (if b then some fp else none)) (lookup k d)
      last_step none true = refl
      last_step none false = refl
      last_step (some a) b = refl

  -- each key once, with a fingerprint that has the key
  abbrev pub IsTable : Dict Key (BehavioralFingerprint F) → Type 0
  IsTable d = AreDistinct (keys d) × All (λ e. fingerprint_key e.1 ≡ e.0) d

  insert-All :
      (fp : BehavioralFingerprint F) (d : Dict Key (BehavioralFingerprint F))
      → All (λ e. fingerprint_key e.1 ≡ e.0) d
      → All (λ e. fingerprint_key e.1 ≡ e.0) (insert (fingerprint_key fp) fp d)
  unfolding insert
  insert-All fp [] h = (refl, tt)
  insert-All fp ((j, w) ∷ d) (p, h) = elim (Bool-cases (j == fingerprint_key fp)) [
    | inl e ↦ rw e (sym ((==_iff j (fingerprint_key fp)).0 e), h)
    | inr e ↦ rw e (p, insert-All fp d h)
  ]

  pub record_all-IsTable :
      (d : Dict Key (BehavioralFingerprint F)) (fps : List (BehavioralFingerprint F))
      → IsTable d
      → IsTable (record_all d fps)
  unfolding record_all
  record_all-IsTable d [] h = h
  record_all-IsTable d (fp ∷ fps) (h, k) =
      record_all-IsTable (insert (fingerprint_key fp) fp d) fps
        (insert-AreDistinct (fingerprint_key fp) fp d h, insert-All fp d k)

  -- the values of a table have the newest fingerprints that the table has
  newest-values :
      (k : Key) (d : Dict Key (BehavioralFingerprint F))
      → IsTable d
      → newest k (values d) ≡ lookup k d
  unfolding newest lookup
  newest-values k [] h = refl
  newest-values k ((j, fp) ∷ d) ((n, ns), (e, es)) = elim (Bool-cases (j == k)) [
    | inl m ↦
        let absent : lookup k d ≡ none = rw (← (==_iff j k).0 m) (lookup-eq-none j d n) in
        ap (λ r. or_else r (if fingerprint_key fp == k then some fp else none))
          (newest-values k d (ns, es) ∙ absent)
        ∙ rw e (rw m)
    | inr m ↦
        ap (λ r. or_else r (if fingerprint_key fp == k then some fp else none))
          (newest-values k d (ns, es))
        ∙ rw e (rw m (or_else-none (lookup k d)))
  ]

  values-sorted :
      (k : Key) (d : Dict Key (BehavioralFingerprint F))
      → IsTable d
      → newest k (in_key_order d) ≡ lookup k d
  unfolding in_key_order
  values-sorted k d (h, e) =
      newest-values k (sort_by by_key d) (
        ascending-AreDistinct (sort_by by_key d) (sort_by-IsAscending d h),
        sort_by-All by_key (λ e. fingerprint_key e.1 ≡ e.0) d e,
      )
      ∙ lookup-sort_by d k h

  table :
      (previous new : List (BehavioralFingerprint F))
      → IsTable (record_all (record_all [] previous) new)
  table previous new =
      record_all-IsTable (record_all [] previous) new (record_all-IsTable [] previous (tt, tt))

  -- a merge has the newest fingerprint of each node and window
  pub newest-merged :
      (k : Key) (previous new : List (BehavioralFingerprint F))
      → newest k (merged_fingerprints previous new) ≡ or_else (newest k new) (newest k previous)
  unfolding merged_fingerprints lookup
  newest-merged k previous new =
      values-sorted k (record_all (record_all [] previous) new) (table previous new)
      ∙ lookup-record_all k (record_all [] previous) new
      ∙ ap (or_else (newest k new))
          (lookup-record_all k [] previous ∙ or_else-none (newest k previous))

  -- and it depends on nothing else
  pub merged_ext :
      (p q n m : List (BehavioralFingerprint F))
      → ((k : Key) → or_else (newest k n) (newest k p) ≡ or_else (newest k m) (newest k q))
      → merged_fingerprints p n ≡ merged_fingerprints q m
  unfolding merged_fingerprints in_key_order
  merged_ext p q n m h = ap values (
      ascending_ext (sort_by by_key (record_all (record_all [] p) n))
        (sort_by by_key (record_all (record_all [] q) m))
        (sort_by-IsAscending (record_all (record_all [] p) n) (table p n).0)
        (sort_by-IsAscending (record_all (record_all [] q) m) (table q m).0)
        (λ k. found k p n ∙ h k ∙ sym (found k q m)))
    where
      found :
          (k : Key) (p n : List (BehavioralFingerprint F))
          → lookup k (sort_by by_key (record_all (record_all [] p) n))
            ≡ or_else (newest k n) (newest k p)
      found k p n =
          lookup-sort_by (record_all (record_all [] p) n) k (table p n).0
          ∙ sym (values-sorted k (record_all (record_all [] p) n) (table p n))
          ∙ newest-merged k p n

  -- the values of a dictionary of fingerprints are as good as the fingerprints
  pub newest-recorded :
      (k : Key) (fps : List (BehavioralFingerprint F))
      → newest k (values (record_all [] fps)) ≡ newest k fps
  unfolding lookup
  newest-recorded k fps =
      newest-values k (record_all [] fps) (record_all-IsTable [] fps (tt, tt))
      ∙ lookup-record_all k [] fps
      ∙ or_else-none (newest k fps)

  -- what a table has at a key has the key
  pub key-lookup :
      (d : Dict Key (BehavioralFingerprint F)) (k : Key) (a : BehavioralFingerprint F)
      → IsTable d
      → lookup k d ≡ some a
      → fingerprint_key a ≡ k
  unfolding lookup
  key-lookup [] k a h e = absurd (cc)
  key-lookup ((j, b) ∷ d) k a ((n, ns), (p, ps)) e = elim (Bool-cases (j == k)) [
    | inl m ↦ let same : b ≡ a = from_some b a (rw m at e) in rw (← same) (p ∙ (==_iff j k).0 m)
    | inr m ↦ key-lookup d k a (ns, ps) (rw m at e)
  ]
    where
      from_some : (x y : BehavioralFingerprint F) → some x ≡ some y → x ≡ y
      from_some x y h = cc

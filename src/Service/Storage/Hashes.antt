-- ===== src/Service/Storage/Hashes.antt =====
-- What `commit` records of the files, and `verify` of backend/app/storage/replicated.py.
use netscope_x.Prelude.{
  Bool, true, false, not, Option, none, some, List, [], ◌∷◌, Text, ◌==◌, ==_iff, ==_self, nat_ord,
  list_ord, Dict, keys, lookup, insert, lookup-insert, lookup-eq-some, any, any-sort_by, contains,
  All, All-imp, keep_if, sort_by-All, All-keep_if, ◌≡◌, refl, sym, ap, ◌∙◌, arith, Bool-cases, inl,
  inr,
}
use netscope_x.Service.Storage.Roots.{Hashing, File, Root, hashes, files_of, by_commit, text_le}
use netscope_x.Service.Storage.Commit.{
  record_hash, record_hashes, sorted_files, committed, is_stale, merge_one, merge, is_intact,
  verify,
}
use netscope_x.Service.Storage.Steps.{Matches}

pub All-self : (xs : List Text) → All (λ k. contains xs k ≡ true) xs
All-self [] = tt
All-self (x ∷ xs) = (
  ground (arith, ==_self x),
  All-imp (λ k. contains xs k ≡ true) (λ k. contains (x ∷ xs) k ≡ true) xs (λ k c. ground arith)
      (All-self xs),
)

keep_none : (p : Text → Bool) (xs : List Text) → any p xs ≡ false → keep_if p xs ≡ []
keep_none p [] h = refl
keep_none p (x ∷ xs) h = ground (arith, keep_none p xs)

any_none : (p : Text → Bool) (xs : List Text) → All (λ x. p x ≡ false) xs → any p xs ≡ false
any_none p [] h = refl
any_none p (x ∷ xs) (e, h) = ground (arith, any_none p xs h)

module _ {C : Type 0} (h : Hashing C) where
  -- what the hashes `d` say of a file of the primary is right
  abbrev pub IsRecorded : Root C → Dict Text Text → Text → Type 0
  IsRecorded primary d rel =
      (f : File C) × (lookup rel primary.files ≡ some f)
      × (lookup rel d ≡ some (h.digest f.content))

  record_hash-keeps :
      (primary : Root C) (d : Dict Text Text) (rel k : Text)
      → IsRecorded primary d k
      → IsRecorded primary (record_hash h primary d rel) k
  unfolding record_hash
  record_hash-keeps primary d rel k (f, e, g) = go (lookup rel primary.files) refl
    where
      go :
          (o : Option (File C))
          → lookup rel primary.files ≡ o
          → IsRecorded primary (elim o [ none ↦ d | some f ↦ insert rel (h.digest f.content) d ]) k
      go none p = (f, e, g)
      go (some f') p = elim (Bool-cases (rel == k)) [
        | inl q ↦ (
          f',
          rw (← (==_iff rel k).0 q) p,
          lookup-insert rel k (h.digest f'.content) d ∙ rw q refl,
        )
        | inr q ↦ (f, e, lookup-insert rel k (h.digest f'.content) d ∙ rw q g)
      ]

  record_hash-lem :
      (primary : Root C) (d : Dict Text Text) (rel : Text) (f : File C)
      → lookup rel primary.files ≡ some f
      → IsRecorded primary (record_hash h primary d rel) rel
  unfolding record_hash
  record_hash-lem primary d rel f e = (
    f,
    e,
    rw (e, record_hash) (lookup-insert rel rel (h.digest f.content) d ∙ rw (==_self rel) refl),
  )

  record_hashes-keeps :
      (primary : Root C) (rels : List Text) (d : Dict Text Text) (k : Text)
      → IsRecorded primary d k
      → IsRecorded primary (record_hashes h primary rels d) k
  unfolding record_hashes
  record_hashes-keeps primary [] d k m = m
  record_hashes-keeps primary (rel ∷ rels) d k m =
      record_hashes-keeps primary rels (record_hash h primary d rel) k
        (record_hash-keeps primary d rel k m)

  abbrev IsThere : Root C → Text → Type 0
  IsThere primary rel = (f : File C) × (lookup rel primary.files ≡ some f)

  record_hashes-IsRecorded :
      (primary : Root C) (rels : List Text) (d : Dict Text Text)
      → All (IsThere primary) rels
      → All (IsRecorded primary (record_hashes h primary rels d)) rels
  unfolding record_hashes
  record_hashes-IsRecorded primary [] d t = tt
  record_hashes-IsRecorded primary (rel ∷ rels) d ((f, e), t) = (
    record_hashes-keeps primary rels (record_hash h primary d rel) rel
        (record_hash-lem primary d rel f e),
    record_hashes-IsRecorded primary rels (record_hash h primary d rel) t,
  )

  files_of-IsThere :
      (primary : Root C) (under : Option Text) → All (IsThere primary) (files_of primary under)
  unfolding files_of
  files_of-IsThere primary under = sort_by-All text_le (IsThere primary) _ (
      All-keep_if (IsThere primary) _ (keys primary.files) (
        All-imp (λ k. contains (keys primary.files) k ≡ true) (IsThere primary) (keys primary.files)
          (λ k c. lookup-eq-some k primary.files c) (All-self (keys primary.files))))

  pub sorted_files-IsRecorded :
      (primary : Root C) (under : Option Text)
      → let rels = sorted_files h primary under in
        All (IsRecorded primary (hashes (committed h primary rels))) rels
  sorted_files-IsRecorded primary under =
      record_hashes-IsRecorded primary (sorted_files h primary under) (hashes primary) (
        sort_by-All by_commit (IsThere primary) (files_of primary under)
          (files_of-IsThere primary under))

  is_intact-lem :
      (root : Root C) (rel : Text) (f : File C) (v : Text)
      → lookup rel root.files ≡ some f
      → lookup rel (hashes root) ≡ some v
      → h.digest f.content ≡ v
      → is_intact h root rel ≡ true
  unfolding is_intact
  is_intact-lem root rel f v e g q = rw e (rw g ((==_iff (h.digest f.content) v).1 q))

  -- After a commit of the whole primary, `verify` finds nothing wrong with it.
  pub verify-committed :
      (primary : Root C) → verify h (committed h primary (sorted_files h primary none)) ≡ []
  unfolding verify
  verify-committed primary =
      let rels = files_of primary none in
      let root = committed h primary (sorted_files h primary none) in
      let bad : Text → Bool = λ rel. not (is_intact h root rel) in
      keep_none bad rels (
        sym (any-sort_by by_commit bad rels)
        ∙ any_none bad (sorted_files h primary none) (
            All-imp (IsRecorded primary (hashes root)) (λ rel. bad rel ≡ false) _
              (λ rel (f, e, g). ap not (is_intact-lem root rel f _ e g refl))
              (sorted_files-IsRecorded primary none)))

  merge_one-keeps :
      (d : Dict Text Text) (k : Text) (a : Dict Text Text) (rel v : Text)
      → lookup rel d ≡ some v
      → lookup rel a ≡ some v
      → lookup rel (merge_one h d k a) ≡ some v
  unfolding merge_one
  merge_one-keeps d k a rel v p q = go (lookup k d) refl
    where
      go :
          (o : Option Text)
          → lookup k d ≡ o
          → lookup rel (elim o [ none ↦ a | some w ↦ insert k w a ]) ≡ some v
      go none e = q
      go (some w) e = lookup-insert k rel w a ∙ elim (Bool-cases (k == rel)) [
        | inl f ↦ rw f (sym e ∙ ap (λ x. lookup x d) ((==_iff k rel).0 f) ∙ p)
        | inr f ↦ rw f q
      ]

  merge_one-lem :
      (d : Dict Text Text) (a : Dict Text Text) (rel v : Text)
      → lookup rel d ≡ some v
      → lookup rel (merge_one h d rel a) ≡ some v
  unfolding merge_one
  merge_one-lem d a rel v p = rw (p, merge_one) (lookup-insert rel rel v a ∙ rw (==_self rel) refl)

  merge-keeps :
      (d : Dict Text Text) (rels : List Text) (a : Dict Text Text) (rel v : Text)
      → lookup rel d ≡ some v
      → lookup rel a ≡ some v
      → lookup rel (merge h d rels a) ≡ some v
  unfolding merge
  merge-keeps d [] a rel v p q = q
  merge-keeps d (k ∷ rels) a rel v p q =
      merge-keeps d rels (merge_one h d k a) rel v p (merge_one-keeps d k a rel v p q)

  merge-lem :
      (d : Dict Text Text) (rels : List Text) (a : Dict Text Text) (rel v : Text)
      → lookup rel d ≡ some v
      → contains rels rel ≡ true
      → lookup rel (merge h d rels a) ≡ some v
  unfolding merge
  merge-lem d [] a rel v p c = absurd (ground arith)
  merge-lem d (k ∷ rels) a rel v p c = elim (Bool-cases (k == rel)) [
    | inl e ↦
        merge-keeps d rels (merge_one h d k a) rel v p
          (rw ((==_iff k rel).0 e) (merge_one-lem d a rel v p))
    | inr e ↦ merge-lem d rels (merge_one h d k a) rel v p (ground arith)
  ]

  same_digest :
      (dst src : File C) → is_stale h dst src ≡ false → h.digest dst.content ≡ h.digest src.content
  unfolding is_stale
  same_digest dst src s = ground (arith, ==_iff (h.digest dst.content) (h.digest src.content))

  -- A file that the replica has as the primary, and that the primary has recorded, is intact in the
  -- replica once the hashes are merged.
  pub merged-intact :
      (primary r : Root C) (d : Dict Text Text) (rels : List Text) (rel : Text)
      → IsRecorded primary d rel
      → Matches h primary r rel
      → contains rels rel ≡ true
      → is_intact h (record r { recorded = some (merge h d rels (hashes r)) }) rel ≡ true
  merged-intact primary r d rels rel (f, e, g) (src, dst, p, q, s) c =
      is_intact-lem _ rel dst (h.digest f.content) q
        (merge-lem d rels (hashes r) rel (h.digest f.content) g c)
        (same_digest dst src s
          ∙ ap (λ o. elim o [ none ↦ h.digest f.content | some x ↦ h.digest x.content ])
              (sym p ∙ e))

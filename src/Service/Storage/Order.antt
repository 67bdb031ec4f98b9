-- ===== src/Service/Storage/Order.antt =====
-- The order in which `commit` of backend/app/storage/replicated.py writes the files of a replica.
use netscope_x.Prelude.{
  ℕ, zero, suc, true, false, Option, none, some, List, [], ◌∷◌, Text, ◌==◌, ==_iff, <=_total,
  <=_trans, nat_ord, list_ord, Dict, lookup, lookup-insert, contains, All, IsSorted,
  sort_by-IsSorted, ◌≡◌, ◌≢◌, refl, ap, ◌∙◌, arith, Bool-cases, inl, inr,
}
use netscope_x.Service.Storage.Roots.{Hashing, File, Root, files_of, is_commit_marker, by_commit}
use netscope_x.Service.Storage.Commit.{put_file, mirror_files, finish, mirror, sorted_files}
use netscope_x.Service.Storage.Steps.{
  Matches, put_file-Matches, mirror_files-step, mirror_files-keeps, mirror_files-Matches,
}

by_commit_total : (a b : Text) → by_commit a b ≡ false → by_commit b a ≡ true
unfolding by_commit
by_commit_total a b h = ground (arith, <=_total a b)

by_commit_trans :
    (a b c : Text) → by_commit a b ≡ true → by_commit b c ≡ true → by_commit a c ≡ true
unfolding by_commit
by_commit_trans a b c h k = ground (arith, <=_trans a b c)

-- no data file stands behind a marker
marker_last :
    (m d : Text) → by_commit m d ≡ true → is_commit_marker m ≡ true → is_commit_marker d ≡ true
unfolding by_commit
marker_last m d h k = ground arith

All-contains {κ} :
    (P : Text → Type κ) (xs : List Text) (a : Text) → All P xs → contains xs a ≡ true → P a
All-contains P [] a h k = absurd (ground arith)
All-contains P (x ∷ xs) a (p, h) k = elim (Bool-cases (x == a)) [
  | inl e ↦ rw (← (==_iff x a).0 e) p
  | inr e ↦ All-contains P xs a h (ground arith)
]

either {κ} :
    {A : Type κ} (x : Text) (xs : List Text) (a : Text)
    → contains (x ∷ xs) a ≡ true
    → (x ≡ a → A)
    → (contains xs a ≡ true → A)
    → A
either x xs a h f g = elim (Bool-cases (x == a)) [
  | inl e ↦ f ((==_iff x a).0 e)
  | inr e ↦ g (ground arith)
]

-- behind a marker there is no data
no_data :
    (rel : Text) (rels : List Text) (d : Text)
    → All (λ x. by_commit rel x ≡ true) rels
    → is_commit_marker rel ≡ true
    → is_commit_marker d ≡ false
    → contains (rel ∷ rels) d ≡ true
    → ⊥
no_data rel rels d s e b c =
    either rel rels d c (λ q. absurd (ground (arith, ap is_commit_marker q)))
      (λ q. absurd (
        ground
          (arith, marker_last rel d (All-contains (λ x. by_commit rel x ≡ true) rels d s q) e)))

module _ {C : Type 0} (h : Hashing C) where
  other_file :
      (rel m : Text) (src : File C) (r : Root C)
      → is_commit_marker rel ≡ false
      → is_commit_marker m ≡ true
      → lookup m (put_file h rel src r).files ≡ lookup m r.files
  other_file rel m src r e a = lookup-insert rel m src r.files ∙ rw (differ) refl
    where
      differ : (rel == m) ≡ false
      differ = ground (arith, ==_iff rel m, e, a)

  -- markers behind the data, from a list that is sorted
  data_first :
      (primary : Root C) (rels : List Text) (left : ℕ) (r : Root C) (m d : Text)
      → IsSorted by_commit rels
      → is_commit_marker m ≡ true
      → is_commit_marker d ≡ false
      → contains rels d ≡ true
      → lookup m (mirror_files h primary rels left r).0.files ≢ lookup m r.files
      → Matches h primary (mirror_files h primary rels left r).0 d
  unfolding mirror_files
  data_first primary [] left r m d s a b c = λ n. absurd (n refl)
  data_first primary (rel ∷ rels) left r m d (s, ss) a b c =
      elim (Bool-cases (is_commit_marker rel)) [
        | inl e ↦ λ n. absurd (no_data rel rels d s e b c)
        | inr e ↦
            mirror_files-step h
              (λ o. lookup m o.0.files ≢ lookup m r.files → Matches h primary o.0 d) primary r rel
              rels left (λ n. absurd (n refl))
              (λ g n.
                either rel rels d c (λ q. mirror_files-keeps h primary rels left r d (rw (← q) g))
                  (λ q. data_first primary rels left r m d ss a b q n))
              (λ src left' p n.
                either rel rels d c
                  (λ q.
                    mirror_files-keeps h primary rels left' (put_file h rel src r) d
                      (rw (← q) (put_file-Matches h primary r rel src p)))
                  (λ q.
                    data_first primary rels left' (put_file h rel src r) m d ss a b q
                      (λ same. n (same ∙ other_file rel m src r e a))))
      ]

  finish-files :
      (recorded : Dict Text Text) (rels : List Text) (o : Root C × Option ℕ)
      → (finish h recorded rels o).0.files ≡ o.0.files
  unfolding finish
  finish-files recorded rels (r, none) = refl
  finish-files recorded rels (r, some zero) = refl
  finish-files recorded rels (r, some (suc left)) = refl

  mirror-files :
      (primary : Root C) (recorded : Dict Text Text) (rels : List Text) (left : ℕ) (r : Root C)
      → (mirror h primary recorded rels left r).0.files
        ≡ (mirror_files h primary rels left r).0.files
  unfolding mirror
  mirror-files primary recorded rels left r =
      finish-files recorded rels (mirror_files h primary rels left r)

  -- what a reached replica holds
  pub mirror-Matches :
      (primary : Root C) (recorded : Dict Text Text) (rels : List Text) (left : ℕ) (r : Root C)
      → (mirror h primary recorded rels left r).1 ≡ true
      → All (Matches h primary (mirror h primary recorded rels left r).0) rels
  unfolding mirror
  mirror-Matches primary recorded rels left r =
      go (mirror_files h primary rels left r) (mirror_files-Matches h primary rels left r)
    where
      go :
          (o : Root C × Option ℕ)
          → ((k : ℕ) → o.1 ≡ some k → All (Matches h primary o.0) rels)
          → (finish h recorded rels o).1 ≡ true
          → All (Matches h primary (finish h recorded rels o).0) rels
      go (r', none) f e = absurd (ground arith)
      go (r', some zero) f e = absurd (ground arith)
      go (r', some (suc k)) f e = f (suc k) refl

  -- Wherever `commit` is cut short for a replica, by an OSError or by the end of the process: where it
  -- has changed a commit marker, every data file of the commit is in the replica, with the length and the
  -- digest that it has in the primary.
  pub mirror-data_first :
      (primary : Root C) (subtree : Option Text) (recorded : Dict Text Text) (left : ℕ) (r : Root C)
      (m d : Text)
      → is_commit_marker m ≡ true
      → is_commit_marker d ≡ false
      → contains (sorted_files h primary subtree) d ≡ true
      → lookup m (mirror h primary recorded (sorted_files h primary subtree) left r).0.files
        ≢ lookup m r.files
      → Matches h primary (mirror h primary recorded (sorted_files h primary subtree) left r).0 d
  mirror-data_first primary subtree recorded left r m d a b c n =
      let rels = sorted_files h primary subtree in
      let same = mirror-files primary recorded rels left r in
      rw same (
        data_first primary rels left r m d
          (sort_by-IsSorted by_commit by_commit_total by_commit_trans (files_of primary subtree)) a
          b c (λ e. n (ap (lookup m) same ∙ e)))

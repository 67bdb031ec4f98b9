-- ===== src/Service/Storage/Repair/Whole.antt =====
-- What `repair` of backend/app/storage/replicated.py leaves in the roots.
use netscope_x.Prelude.{
  true, false, Option, none, some, List, [], ◌∷◌, ◌++◌, Text, ◌==◌, ==_iff, nat_ord, list_ord, map,
  contains, AreDistinct, sort_by, All, ◌≡◌, refl, ap, ◌∙◌, inl, inr, arith, Bool-cases,
}
use netscope_x.Service.Storage.Roots.{Hashing, File, Root, text_le}
use netscope_x.Service.Storage.Repair.{
  RepairReport, good_copies, newest, fix_roots, repair_file, repair_files, seen_files, with_hashes,
  repair, no_repairs,
}
use netscope_x.Service.Storage.Repair.Copies.{newest-latest, good_copies-NoNewer, IsRepaired}
use netscope_x.Service.Storage.Repair.Rounds.{
  fix_roots-IsRepaired, fix_roots-keeps, fix_roots-good_copies,
}
use netscope_x.Service.Storage.Repair.Seen.{
  sort_by-contains, sort_by-AreDistinct, seen_files-AreDistinct,
}

module _ {C : Type 0} (h : Hashing C) where
  repair_file-found :
      (rel : Text) (src : File C) (rs : List (Root C)) (p : RepairReport)
      → newest h (good_copies h rel rs) ≡ some src
      → repair_file h rel (rs, p) ≡ fix_roots h rel src rs p
  unfolding repair_file
  repair_file-found rel src rs p e = rw (e, repair_file) refl

  repair_file-IsRepaired :
      (rel : Text) (src : File C) (rs : List (Root C)) (p : RepairReport)
      → newest h (good_copies h rel rs) ≡ some src
      → All (IsRepaired h rel src) (repair_file h rel (rs, p)).0
  repair_file-IsRepaired rel src rs p e = rw (repair_file-found rel src rs p e) (
      fix_roots-IsRepaired h rel src rs p
        (good_copies-NoNewer h rel src.mtime rs (newest-latest h (good_copies h rel rs) src e)))

  repair_file-keeps :
      (k rel : Text) (src : File C) (rs : List (Root C)) (p : RepairReport)
      → (k == rel) ≡ false
      → All (IsRepaired h rel src) rs
      → All (IsRepaired h rel src) (repair_file h k (rs, p)).0
  unfolding repair_file
  repair_file-keeps k rel src rs p d a = go (newest h (good_copies h k rs))
    where
      go :
          (o : Option (File C))
          → All
              (IsRepaired h rel src)
              (elim o as (λ x. List (Root C) × RepairReport) [
                | none ↦ (rs, record p { unrecoverable = p.unrecoverable ++ k ∷ [] })
                | some s ↦ fix_roots h k s rs p
              ]).0
      go none = a
      go (some s) = fix_roots-keeps h k rel src s rs p d a

  repair_file-good_copies :
      (k rel : Text) (rs : List (Root C)) (p : RepairReport)
      → (k == rel) ≡ false
      → good_copies h rel (repair_file h k (rs, p)).0 ≡ good_copies h rel rs
  unfolding repair_file
  repair_file-good_copies k rel rs p d = go (newest h (good_copies h k rs))
    where
      go :
          (o : Option (File C))
          → good_copies h rel
              (elim o as (λ x. List (Root C) × RepairReport) [
                | none ↦ (rs, record p { unrecoverable = p.unrecoverable ++ k ∷ [] })
                | some s ↦ fix_roots h k s rs p
              ]).0
            ≡ good_copies h rel rs
      go none = refl
      go (some s) = fix_roots-good_copies h k rel s rs p d

  repair_files-keeps :
      (rels : List Text) (rel : Text) (src : File C) (s : List (Root C) × RepairReport)
      → contains rels rel ≡ false
      → All (IsRepaired h rel src) s.0
      → All (IsRepaired h rel src) (repair_files h rels s).0
  unfolding repair_files
  repair_files-keeps [] rel src s n a = a
  repair_files-keeps (k ∷ rels) rel src (rs, p) n a =
      repair_files-keeps rels rel src (repair_file h k (rs, p)) (ground arith)
        (repair_file-keeps k rel src rs p (ground arith) a)

  repair_files-IsRepaired :
      (rels : List Text) (rel : Text) (src : File C) (s : List (Root C) × RepairReport)
      → AreDistinct rels
      → contains rels rel ≡ true
      → newest h (good_copies h rel s.0) ≡ some src
      → All (IsRepaired h rel src) (repair_files h rels s).0
  unfolding repair_files
  repair_files-IsRepaired [] rel src s d c e = absurd (ground arith)
  repair_files-IsRepaired (k ∷ rels) rel src (rs, p) (d, ds) c e = elim (Bool-cases (k == rel)) [
    | inl q ↦
        let same = (==_iff k rel).0 q in
        repair_files-keeps rels rel src (repair_file h k (rs, p)) (rw (← same) d)
          (rw same (repair_file-IsRepaired rel src rs p e))
    | inr q ↦
        repair_files-IsRepaired rels rel src (repair_file h k (rs, p)) ds (ground arith)
          (ap (newest h) (repair_file-good_copies k rel rs p q) ∙ e)
  ]

  with_hashes-All :
      (rel : Text) (src : File C) (rs : List (Root C))
      → All (IsRepaired h rel src) rs
      → All (IsRepaired h rel src) (map (with_hashes h) rs)
  with_hashes-All rel src [] a = tt
  with_hashes-All rel src (r ∷ rs) (a, as') = (a, with_hashes-All rel src rs as')

  -- After `repair`, every root has a copy of each file of which some root had a good one: the newest good
  -- copy, or one with its digest, or a copy that was changed at the same instant. The hash that is
  -- recorded is that of the newest good copy.
  pub repair-IsRepaired :
      (roots : List (Root C)) (rel : Text) (src : File C)
      → contains (seen_files h [] roots) rel ≡ true
      → newest h (good_copies h rel roots) ≡ some src
      → All (IsRepaired h rel src) (repair h roots).0
  unfolding repair
  repair-IsRepaired roots rel src c e =
      let rels = sort_by text_le (seen_files h [] roots) in
      with_hashes-All rel src (repair_files h rels (roots, no_repairs)).0 (
        repair_files-IsRepaired rels rel src (roots, no_repairs)
          (sort_by-AreDistinct (seen_files h [] roots) (seen_files-AreDistinct h [] roots tt))
          (sort_by-contains (seen_files h [] roots) rel ∙ c) e)

-- ===== src/Service/Storage/Repair.antt =====
-- `ReplicatedStore.repair` and `read_path` of backend/app/storage/replicated.py, where no copy raises
-- OSError.
pub mod Seen
pub mod Copies
pub mod Rounds
pub mod Whole
use netscope_x.Prelude.{
  ℕ, suc, ◌+◌, Bool, true, false, not, Option, none, some, List, [], ◌∷◌, ◌++◌, ◌&&◌, ◌||◌, Text,
  ◌==◌, nat_ord, list_ord, map, if◌then◌else◌, ltb, lookup, insert, contains, add, sort_by, Result,
  ok, raise, not_found_error,
}
use netscope_x.Service.Storage.Roots.{Hashing, File, Root, hashes, text_le, files_of}
use netscope_x.Service.Storage.Commit.{put_file, is_intact, verify}

pub record RepairReport : Type 0 where
  pub copied : ℕ
  pub corrupt_fixed : ℕ
  pub unrecoverable : List Text

abbrev pub no_repairs : RepairReport
no_repairs = record { copied = 0; corrupt_fixed = 0; unrecoverable = [] }

abbrev pub count_copied : RepairReport → RepairReport
count_copied p = record p { copied = suc p.copied }

abbrev pub count_fixed : RepairReport → RepairReport
count_fixed p = record p { corrupt_fixed = suc p.corrupt_fixed }

module _ {C : Type 0} (h : Hashing C) where
  -- the copies of `good`
  abbrev pub add_good : Option (File C) → Bool → List (File C) → List (File C)
  add_good none intact fs = fs
  add_good (some f) intact fs = if intact then f ∷ fs else fs

  unfoldable pub good_copies : Text → List (Root C) → List (File C)
  good_copies rel [] = []
  good_copies rel (r ∷ rs) = add_good (lookup rel r.files) (is_intact h r rel) (good_copies rel rs)

  -- `max(good, key=...)`, the first of the newest
  unfoldable pub newest_from : File C → List (File C) → File C
  newest_from best [] = best
  newest_from best (f ∷ fs) = newest_from (if ltb best.mtime f.mtime then f else best) fs

  unfoldable pub newest : List (File C) → Option (File C)
  unfolding newest_from
  newest [] = none
  newest (f ∷ fs) = some (newest_from f fs)

  abbrev pub note_hash : Text → File C → Root C → Root C
  note_hash rel src r = record r { recorded = some (insert rel (h.digest src.content) (hashes r)) }

  -- what the loop over the roots does where the root has a copy `f`, or none
  unfoldable pub fix_copy :
      Text → File C → Option (File C) → Root C × RepairReport → Root C × RepairReport
  fix_copy rel src none (r, p) = (put_file h rel src r, count_copied p)
  fix_copy rel src (some f) (r, p) =
      if not (is_intact h r rel)
      then (put_file h rel src r, count_fixed p)
      else if not (h.digest f.content == h.digest src.content) && ltb f.mtime src.mtime
      then (put_file h rel src r, count_copied p)
      else (r, p)

  -- the loop over the roots for one file
  unfoldable pub fix_roots :
      Text → File C → List (Root C) → RepairReport → List (Root C) × RepairReport
  unfolding fix_copy
  fix_roots rel src [] p = ([], p)
  fix_roots rel src (r ∷ rs) p =
      let (r', p') = fix_copy rel src (lookup rel r.files) (r, p) in
      let (rs', p'') = fix_roots rel src rs p' in (note_hash rel src r' ∷ rs', p'')

  unfoldable pub repair_file : Text → List (Root C) × RepairReport → List (Root C) × RepairReport
  unfolding newest good_copies fix_roots
  repair_file rel (rs, p) = elim (newest (good_copies rel rs)) [
    | none ↦ (rs, record p { unrecoverable = p.unrecoverable ++ rel ∷ [] })
    | some src ↦ fix_roots rel src rs p
  ]

  unfoldable pub repair_files :
      List Text → List (Root C) × RepairReport → List (Root C) × RepairReport
  unfolding repair_file
  repair_files [] s = s
  repair_files (rel ∷ rels) s = repair_files rels (repair_file rel s)

  -- `sorted({rel for r in roots for rel in _files(r)})`
  unfoldable pub add_all : List Text → List Text → List Text
  add_all found [] = found
  add_all found (rel ∷ rels) = add_all (add found rel) rels

  unfoldable pub seen_files : List Text → List (Root C) → List Text
  unfolding add_all files_of
  seen_files found [] = found
  seen_files found (r ∷ rs) = seen_files (add_all found (files_of r none)) rs

  abbrev pub with_hashes : Root C → Root C
  with_hashes r = record r { recorded = some (hashes r) }

  unfoldable pub repair : List (Root C) → List (Root C) × RepairReport
  unfolding repair_files seen_files
  repair roots =
      let (rs, p) = repair_files (sort_by text_le (seen_files [] roots)) (roots, no_repairs) in
      (map with_hashes rs, p)

  -- `read_path`: the primary is the first root
  unfoldable pub primary_of : List (Root C) → Option (Root C)
  primary_of [] = none
  primary_of (r ∷ rs) = some r

  abbrev pub has_file : Text → Option (Root C) → Bool
  has_file rel none = false
  has_file rel (some r) = elim (lookup rel r.files) [ none ↦ false | some f ↦ true ]

  abbrev pub is_corrupt : Text → Option (Root C) → Bool
  is_corrupt rel none = false
  is_corrupt rel (some r) = contains (verify h r) rel

  unfoldable pub read_path : Text → List (Root C) → List (Root C) × Result Text
  unfolding repair primary_of
  read_path rel roots =
      let p = primary_of roots in
      let after = if not (has_file rel p) || is_corrupt rel p then (repair roots).0 else roots in
      (after, if has_file rel (primary_of after) then ok rel else raise not_found_error)

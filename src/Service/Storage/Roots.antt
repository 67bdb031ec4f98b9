-- ===== src/Service/Storage/Roots.antt =====
-- The roots of a replicated store, and the files that it sees in them.
use netscope_x.Prelude.{
  ℕ, Bool, true, false, not, Option, none, some, List, [], ◌++◌, ◌&&◌, ◌||◌, Text, text, ◌<=◌,
  nat_ord, list_ord, if◌then◌else◌, Dict, keys, keep_if, sort_by,
}
use netscope_x.Service.Names.{starts_with, ends_with, has_part, last_name}

-- What the store asks of the contents of a file: its length, and its SHA-256.
pub record Hashing (C : Type 0) : Type 0 where
  pub size : C → ℕ
  pub digest : C → Text

-- a file: what it holds and when it was changed last
pub record File (C : Type 0) : Type 0 where
  pub content : C
  pub mtime : ℕ

-- A directory: its files by their relative paths, and what `_replication/hashes.json` holds, which is none
-- where that is missing or no JSON.
pub record Root (C : Type 0) : Type 0 where
  pub files : Dict Text (File C)
  pub recorded : Option (Dict Text Text)

-- the files that `_files` keeps: neither temporary nor of the store itself
abbrev pub is_seen : Text → Bool
is_seen rel = not (ends_with (text ".tmp-repl") rel) && not (starts_with (text "_replication/") rel)

abbrev pub is_under : Option Text → Text → Bool
is_under none rel = true
is_under (some dir) rel = starts_with (dir ++ text "/") rel

abbrev pub text_le : Text → Text → Bool
text_le a b = a <= b

module _ {C : Type 0} where
  -- `_hashes`
  abbrev pub hashes : Root C → Dict Text Text
  hashes r = elim (r.recorded) [ none ↦ [] | some d ↦ d ]

  -- `_files`
  unfoldable pub files_of : Root C → Option Text → List Text
  files_of r under =
      sort_by text_le (keep_if (λ rel. is_under under rel && is_seen rel) (keys r.files))

-- `_is_commit_marker`
unfoldable pub is_commit_marker : Text → Bool
unfolding last_name
is_commit_marker rel =
    let name = last_name rel rel in
    ends_with (text ".sha256") name || has_part (text "manifest") name

-- the order of `rels.sort` in `commit`
unfoldable pub by_commit : Text → Text → Bool
unfolding is_commit_marker
by_commit a b =
    if is_commit_marker a
    then (if is_commit_marker b then a <= b else false)
    else (if is_commit_marker b then true else a <= b)

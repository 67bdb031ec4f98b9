-- ===== src/Service/Storage/Commit.antt =====
-- `ReplicatedStore.commit` and `verify` of backend/app/storage/replicated.py. A write replaces a file
-- at once or not at all. A replica takes part with the number of writes after which its disk raises
-- OSError, or after which the process is killed.
use netscope_x.Prelude.{
  ℕ, zero, suc, Bool, true, false, not, Option, none, some, List, [], ◌∷◌, map, ◌&&◌, Text, ◌==◌,
  nat_ord, list_ord, if◌then◌else◌, ltb, length, Dict, lookup, insert, keep_if, sort_by, Result, ok,
  raise, os_error, quorum_error,
}
use netscope_x.Service.Storage.Roots.{Hashing, File, Root, hashes, files_of, by_commit}

-- a file of the primary is gone, or the replica has it, or it has to be copied
pub data Status (C : Type 0) : Type 0 where
  vanished up_to_date : Status C
  to_copy : File C → Status C

module _ {C : Type 0} (h : Hashing C) where
  -- `hashes[rel] = sha256_file(primary / rel)`
  unfoldable pub record_hash : Root C → Dict Text Text → Text → Dict Text Text
  record_hash primary d rel = elim (lookup rel primary.files) [
    | none ↦ d
    | some f ↦ insert rel (h.digest f.content) d
  ]

  unfoldable pub record_hashes : Root C → List Text → Dict Text Text → Dict Text Text
  unfolding record_hash
  record_hashes primary [] d = d
  record_hashes primary (rel ∷ rels) d = record_hashes primary rels (record_hash primary d rel)

  -- whether the copy `dst` has to be written again
  unfoldable pub is_stale : File C → File C → Bool
  is_stale dst src =
      not (h.size dst.content == h.size src.content && h.digest dst.content == h.digest src.content)

  abbrev pub put_file : Text → File C → Root C → Root C
  put_file rel f r = record r { files = insert rel f r.files }

  -- what the loop over `rels` finds for a file: in the primary, and in the replica
  unfoldable pub status_of : Option (File C) → Option (File C) → Status C
  unfolding is_stale
  status_of none dst = vanished
  status_of (some src) none = to_copy src
  status_of (some src) (some dst) = if is_stale dst src then to_copy src else up_to_date

  -- The loop over `rels` for one replica. It gives the replica, and how many writes are left; none is an
  -- OSError.
  unfoldable pub mirror_files : Root C → List Text → ℕ → Root C → Root C × Option ℕ
  unfolding status_of
  mirror_files primary [] left r = (r, some left)
  mirror_files primary (rel ∷ rels) left r =
      elim (status_of (lookup rel primary.files) (lookup rel r.files)) [
        | vanished ↦ (r, none)
        | up_to_date ↦ mirror_files primary rels left r
        | to_copy src ↦ (elim left [
          | zero ↦ (r, none)
          | suc left' ↦ mirror_files primary rels left' (put_file rel src r)
        ])
      ]

  -- `{**a, **{r: d[r] for r in rels}}`
  unfoldable pub merge_one : Dict Text Text → Text → Dict Text Text → Dict Text Text
  merge_one d rel a = elim (lookup rel d) [ none ↦ a | some v ↦ insert rel v a ]

  unfoldable pub merge : Dict Text Text → List Text → Dict Text Text → Dict Text Text
  unfolding merge_one
  merge d [] a = a
  merge d (rel ∷ rels) a = merge d rels (merge_one d rel a)

  -- the hashes are written last
  unfoldable pub finish : Dict Text Text → List Text → Root C × Option ℕ → Root C × Bool
  unfolding merge
  finish recorded rels (r, none) = (r, false)
  finish recorded rels (r, some zero) = (r, false)
  finish recorded rels (r, some (suc left)) =
      (record r { recorded = some (merge recorded rels (hashes r)) }, true)

  -- the body of the loop over the replicas, and whether the replica is reached
  unfoldable pub mirror : Root C → Dict Text Text → List Text → ℕ → Root C → Root C × Bool
  unfolding mirror_files finish
  mirror primary recorded rels left r = finish recorded rels (mirror_files primary rels left r)

  abbrev pub sorted_files : Root C → Option Text → List Text
  sorted_files primary subtree = sort_by by_commit (files_of primary subtree)

  abbrev pub committed : Root C → List Text → Root C
  committed primary rels = record primary {
    recorded = some (record_hashes primary rels (hashes primary));
  }

  unfoldable pub mirror_all :
      Root C → Dict Text Text → List Text → List (ℕ × Root C) → List (Root C × Bool)
  unfolding mirror
  mirror_all primary recorded rels [] = []
  mirror_all primary recorded rels ((left, r) ∷ rs) =
      mirror primary recorded rels left r ∷ mirror_all primary recorded rels rs

  unfoldable pub reached : List (Root C × Bool) → ℕ
  reached [] = 0
  reached ((r, b) ∷ rs) = if b then suc (reached rs) else reached rs

  abbrev pub quorum_of : ℕ → ℕ → ℕ
  quorum_of zero n = n
  quorum_of (suc k) n = suc k

  -- The roots afterwards, and what the call returns or raises. `writable` is whether the hashes of the
  -- primary can be written.
  unfoldable pub commit :
      Bool
      → ℕ
      → Option Text
      → Root C
      → List (ℕ × Root C)
      → (Root C × List (Root C × Bool)) × Result ℕ
  unfolding mirror_all reached record_hashes
  commit false min_replicas subtree primary replicas =
      ((primary, map (λ (left, r). (r, false)) replicas), raise os_error)
  commit true min_replicas subtree primary replicas =
      let rels = sorted_files primary subtree in
      let primary' = committed primary rels in
      let outcome = mirror_all primary' (hashes primary') rels replicas in
      let n = reached outcome in
      (
        (primary', outcome),
        if ltb n (quorum_of min_replicas (length replicas)) then raise quorum_error else ok n,
      )

  unfoldable pub intact_copy : Option (File C) → Option Text → Bool
  intact_copy none d = true
  intact_copy (some f) none = true
  intact_copy (some f) (some d) = h.digest f.content == d

  unfoldable pub is_intact : Root C → Text → Bool
  unfolding intact_copy
  is_intact root rel = intact_copy (lookup rel root.files) (lookup rel (hashes root))

  -- `verify`
  unfoldable pub verify : Root C → List Text
  unfolding is_intact files_of
  verify root = keep_if (λ rel. not (is_intact root rel)) (files_of root none)

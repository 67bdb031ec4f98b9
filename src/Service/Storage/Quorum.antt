-- ===== src/Service/Storage/Quorum.antt =====
-- What `commit` of backend/app/storage/replicated.py promises when it returns, and when it raises.
use netscope_x.Prelude.{
  ℕ, zero, suc, ◌≤◌, ◌<◌, Bool, true, false, Option, none, some, List, [], ◌∷◌, Text, if◌then◌else◌,
  if_split, ltb, length, Dict, contains, All, All-imp2, nat_ord, list_ord, Result, ok, raise,
  quorum_error, ◌≡◌, refl, arith,
}
use netscope_x.Service.Storage.Roots.{Hashing, Root, hashes}
use netscope_x.Service.Storage.Commit.{
  mirror_files, finish, mirror, mirror_all, reached, quorum_of, commit, sorted_files, committed,
  is_intact,
}
use netscope_x.Service.Storage.Steps.{Matches, mirror_files-Matches}
use netscope_x.Service.Storage.Hashes.{IsRecorded, sorted_files-IsRecorded, merged-intact, All-self}

module _ {C : Type 0} (h : Hashing C) where
  -- a replica that has every file of `rels` as the primary has it, and whose hashes say so
  abbrev pub IsMirror : Root C → List Text → Root C → Type 0
  IsMirror primary rels r = All (λ rel. Matches h primary r rel × (is_intact h r rel ≡ true)) rels

  -- the replicas that were reached, as they are afterwards
  abbrev pub reached_roots : List (Root C × Bool) → List (Root C)
  reached_roots [] = []
  reached_roots ((r, b) ∷ out) = if b then r ∷ reached_roots out else reached_roots out

  finish-IsMirror :
      (primary : Root C) (d : Dict Text Text) (rels : List Text) (o : Root C × Option ℕ)
      → All (IsRecorded h primary d) rels
      → ((k : ℕ) → o.1 ≡ some k → All (Matches h primary o.0) rels)
      → (finish h d rels o).1 ≡ true
      → IsMirror primary rels (finish h d rels o).0
  unfolding finish
  finish-IsMirror primary d rels (r, none) g f e = absurd (ground arith)
  finish-IsMirror primary d rels (r, some zero) g f e = absurd (ground arith)
  finish-IsMirror primary d rels (r, some (suc k)) g f e =
      let there : All (λ rel. contains rels rel ≡ true) rels = All-self rels in
      let both : All (λ rel. IsRecorded h primary d rel × Matches h primary r rel) rels =
        All-imp2 (IsRecorded h primary d) (Matches h primary r) _ rels (λ rel a b. (a, b)) g
          (f (suc k) refl) in
      All-imp2 (λ rel. IsRecorded h primary d rel × Matches h primary r rel)
        (λ rel. contains rels rel ≡ true) _ rels
        (λ rel (a, b) c. (b, merged-intact h primary r d rels rel a b c)) both there

  mirror-IsMirror :
      (primary : Root C) (d : Dict Text Text) (rels : List Text) (left : ℕ) (r : Root C)
      → All (IsRecorded h primary d) rels
      → (mirror h primary d rels left r).1 ≡ true
      → IsMirror primary rels (mirror h primary d rels left r).0
  unfolding mirror
  mirror-IsMirror primary d rels left r g =
      finish-IsMirror primary d rels (mirror_files h primary rels left r) g
        (mirror_files-Matches h primary rels left r)

  mirror_all-IsMirror :
      (primary : Root C) (d : Dict Text Text) (rels : List Text) (rs : List (ℕ × Root C))
      → All (IsRecorded h primary d) rels
      → All (IsMirror primary rels) (reached_roots (mirror_all h primary d rels rs))
  unfolding mirror_all
  mirror_all-IsMirror primary d rels [] g = tt
  mirror_all-IsMirror primary d rels ((left, r) ∷ rs) g =
      add_reached (mirror h primary d rels left r) (mirror_all h primary d rels rs)
        (mirror-IsMirror primary d rels left r g) (mirror_all-IsMirror primary d rels rs g)
    where
      add_reached :
          (o : Root C × Bool) (out : List (Root C × Bool))
          → (o.1 ≡ true → IsMirror primary rels o.0)
          → All (IsMirror primary rels) (reached_roots out)
          → All (IsMirror primary rels) (reached_roots (o ∷ out))
      add_reached (r, false) out k ks = ks
      add_reached (r, true) out k ks = (k refl, ks)

  length-reached_roots : (out : List (Root C × Bool)) → length (reached_roots out) ≡ reached h out
  unfolding reached
  length-reached_roots [] = refl
  length-reached_roots ((r, true) ∷ out) = omega (arith, length-reached_roots out)
  length-reached_roots ((r, false) ∷ out) = length-reached_roots out

  -- The count of the replicas reached, and what follows for each of them.
  abbrev Outcome : Type 0
  Outcome = (Root C × List (Root C × Bool)) × Result ℕ

  abbrev pub Promise : ℕ → Option Text → Root C → List (ℕ × Root C) → Outcome → Type 0
  Promise least subtree primary replicas ((p, out), ok n) =
      (quorum_of h least (length replicas) ≤ n)
      × (length (reached_roots out) ≡ n)
      × (p ≡ committed h primary (sorted_files h primary subtree))
      × All (IsMirror p (sorted_files h primary subtree)) (reached_roots out)
  Promise least subtree primary replicas ((p, out), raise e) =
      (e ≡ quorum_error) × (length (reached_roots out) < quorum_of h least (length replicas))

  -- A commit whose hashes can be written returns the number of replicas that it reached, which is at
  -- least the quorum, and each of these has every file of the commit with the digest and the length that
  -- it has in the primary, and passes the test of `verify` for it; or it raises QuorumError, and fewer
  -- replicas than the quorum are reached.
  pub commit-Promise :
      (least : ℕ) (subtree : Option Text) (primary : Root C) (replicas : List (ℕ × Root C))
      → Promise least subtree primary replicas (commit h true least subtree primary replicas)
  unfolding commit
  commit-Promise least subtree primary replicas =
      let rels = sorted_files h primary subtree in
      let p = committed h primary rels in
      let out = mirror_all h p (hashes p) rels replicas in
      if_split (λ res. Promise least subtree primary replicas ((p, out), res))
        (ltb (reached h out) (quorum_of h least (length replicas))) _ _
        (λ e. (refl, ground (arith, length-reached_roots out)))
        (λ e. (
          ground arith,
          length-reached_roots out,
          refl,
          mirror_all-IsMirror p (hashes p) rels replicas
              (sorted_files-IsRecorded h primary subtree),
        ))

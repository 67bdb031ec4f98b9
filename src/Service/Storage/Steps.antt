-- ===== src/Service/Storage/Steps.antt =====
-- The loop of `commit` of backend/app/storage/replicated.py over the files of one replica.
use netscope_x.Prelude.{
  ℕ, zero, suc, false, Option, none, some, List, [], ◌∷◌, Text, ◌==◌, ==_iff, ==_self, nat_ord,
  list_ord, lookup, lookup-insert, All, ◌≡◌, refl, ◌∙◌, arith, if_split, Bool-cases, inl, inr,
}
use netscope_x.Service.Storage.Roots.{Hashing, File, Root}
use netscope_x.Service.Storage.Commit.{
  Status, vanished, up_to_date, to_copy, status_of, is_stale, put_file, mirror_files,
}

module _ {C : Type 0} (h : Hashing C) where
  -- the replica's copy of a file has the digest and the length of the primary's
  abbrev pub Matches : Root C → Root C → Text → Type 0
  Matches primary r rel =
      (src : File C) × (dst : File C) × (lookup rel primary.files ≡ some src)
      × (lookup rel r.files ≡ some dst)
      × (is_stale h dst src ≡ false)

  fresh : (f : File C) → is_stale h f f ≡ false
  unfolding is_stale
  fresh f = ground (arith, ==_self (h.size f.content), ==_self (h.digest f.content))

  abbrev Means : Root C → Root C → Text → Status C → Type 0
  Means primary r rel vanished = Unit
  Means primary r rel up_to_date = Matches primary r rel
  Means primary r rel (to_copy src) = lookup rel primary.files ≡ some src

  status_of-Means :
      (primary r : Root C) (rel : Text) (o p : Option (File C))
      → lookup rel primary.files ≡ o
      → lookup rel r.files ≡ p
      → Means primary r rel (status_of h o p)
  unfolding status_of
  status_of-Means primary r rel none p e f = tt
  status_of-Means primary r rel (some src) none e f = e
  status_of-Means primary r rel (some src) (some dst) e f =
      if_split (Means primary r rel) (is_stale h dst src) _ _ (λ g. e) (λ g. (src, dst, e, f, g))

  -- the three ways in which the loop goes on from a file
  pub mirror_files-step {κ} :
      (P : Root C × Option ℕ → Type κ) (primary r : Root C) (rel : Text) (rels : List Text)
      (left : ℕ)
      → P (r, none)
      → (Matches primary r rel → P (mirror_files h primary rels left r))
      → ((src : File C) (left' : ℕ)
          → lookup rel primary.files ≡ some src
          → P (mirror_files h primary rels left' (put_file h rel src r)))
      → P (mirror_files h primary (rel ∷ rels) left r)
  unfolding mirror_files
  mirror_files-step P primary r rel rels left stop keep write =
      go (status_of h (lookup rel primary.files) (lookup rel r.files))
        (status_of-Means primary r rel (lookup rel primary.files) (lookup rel r.files) refl refl)
    where
      copy :
          (src : File C)
          → lookup rel primary.files ≡ some src
          → (left : ℕ)
          → P (elim left [
            | zero ↦ (r, none)
            | suc left' ↦ mirror_files h primary rels left' (put_file h rel src r)
          ])
      copy src e zero = stop
      copy src e (suc left') = write src left' e

      go :
          (s : Status C)
          → Means primary r rel s
          → P (elim s [
            | vanished ↦ (r, none)
            | up_to_date ↦ mirror_files h primary rels left r
            | to_copy src ↦ (elim left [
              | zero ↦ (r, none)
              | suc left' ↦ mirror_files h primary rels left' (put_file h rel src r)
            ])
          ])
      go vanished m = stop
      go up_to_date m = keep m
      go (to_copy src) m = copy src m left

  pub put_file-Matches :
      (primary r : Root C) (rel : Text) (src : File C)
      → lookup rel primary.files ≡ some src
      → Matches primary (put_file h rel src r) rel
  put_file-Matches primary r rel src e =
      (src, src, e, lookup-insert rel rel src r.files ∙ rw (==_self rel) refl, fresh src)

  put_file-keeps :
      (primary r : Root C) (rel d : Text) (src : File C)
      → lookup rel primary.files ≡ some src
      → Matches primary r d
      → Matches primary (put_file h rel src r) d
  put_file-keeps primary r rel d src e (s, f, p, q, t) = elim (Bool-cases (rel == d)) [
    | inl g ↦ rw (← (==_iff rel d).0 g) (put_file-Matches primary r rel src e)
    | inr g ↦ (s, f, p, lookup-insert rel d src r.files ∙ rw g q, t)
  ]

  -- a copy that matches goes on matching
  pub mirror_files-keeps :
      (primary : Root C) (rels : List Text) (left : ℕ) (r : Root C) (d : Text)
      → Matches primary r d
      → Matches primary (mirror_files h primary rels left r).0 d
  unfolding mirror_files
  mirror_files-keeps primary [] left r d m = m
  mirror_files-keeps primary (rel ∷ rels) left r d m =
      mirror_files-step (λ o. Matches primary o.0 d) primary r rel rels left m
        (λ n. mirror_files-keeps primary rels left r d m)
        (λ src left' e.
          mirror_files-keeps primary rels left' (put_file h rel src r) d
            (put_file-keeps primary r rel d src e m))

  -- What a loop that ends without an OSError has done.
  pub mirror_files-Matches :
      (primary : Root C) (rels : List Text) (left : ℕ) (r : Root C) (k : ℕ)
      → (mirror_files h primary rels left r).1 ≡ some k
      → All (Matches primary (mirror_files h primary rels left r).0) rels
  unfolding mirror_files
  mirror_files-Matches primary [] left r k = λ e. tt
  mirror_files-Matches primary (rel ∷ rels) left r k =
      mirror_files-step (λ o. o.1 ≡ some k → All (Matches primary o.0) (rel ∷ rels)) primary r rel
        rels left (λ e. absurd (cc))
        (λ m e. (
          mirror_files-keeps primary rels left r rel m,
          mirror_files-Matches primary rels left r k e,
        ))
        (λ src left' p e. (
          mirror_files-keeps primary rels left' (put_file h rel src r) rel
              (put_file-Matches primary r rel src p),
          mirror_files-Matches primary rels left' (put_file h rel src r) k e,
        ))

-- ===== src/Service/Storage/Repair/Copies.antt =====
-- What `repair` of backend/app/storage/replicated.py does to one root for one file.
use netscope_x.Prelude.{
  some-injective, ℕ, ◌≤◌, Bool, true, false, not, Option, none, some, List, [], ◌∷◌, ◌&&◌, Text,
  ◌==◌, ==_iff, ==_self, nat_ord, list_ord, if◌then◌else◌, if_split, ltb, lookup, lookup-insert,
  All, All-imp, ◌≡◌, refl, ap, ◌∙◌, ◌⊎◌, inl, inr, arith, Bool-cases,
}
use netscope_x.Service.Storage.Roots.{Hashing, File, Root, hashes}
use netscope_x.Service.Storage.Commit.{put_file, is_intact}
use netscope_x.Service.Storage.Repair.{
  RepairReport, add_good, good_copies, newest_from, newest, note_hash, fix_copy,
}

module _ {C : Type 0} (h : Hashing C) where
  -- the newest copy is no older than any
  newest_from-latest :
      (best : File C) (fs : List (File C))
      → (best.mtime ≤ (newest_from h best fs).mtime)
        × All (λ f. f.mtime ≤ (newest_from h best fs).mtime) fs
  unfolding newest_from
  newest_from-latest best [] = (omega arith, tt)
  newest_from-latest best (f ∷ fs) =
      let next = if ltb best.mtime f.mtime then f else best in
      let (a, b) = newest_from-latest next fs in
      let both = later best f in (omega (arith, a, both.0), (omega (arith, a, both.1), b))
    where
      later :
          (best f : File C)
          → (best.mtime ≤ (if ltb best.mtime f.mtime then f else best).mtime)
            × (f.mtime ≤ (if ltb best.mtime f.mtime then f else best).mtime)
      later best f =
          if_split (λ (n : File C). (best.mtime ≤ n.mtime) × (f.mtime ≤ n.mtime))
            (ltb best.mtime f.mtime) _ _ (λ e. (ground arith, ground arith))
            (λ e. (ground arith, ground arith))

  pub newest-latest :
      (fs : List (File C)) (src : File C)
      → newest h fs ≡ some src
      → All (λ f. f.mtime ≤ src.mtime) fs
  unfolding newest
  newest-latest [] src e = tt
  newest-latest (f ∷ fs) src e =
      let same : newest_from h f fs ≡ src = some-injective (newest_from h f fs) src e in
      let (a, b) = newest_from-latest f fs in
      let time = ap (λ (x : File C). x.mtime) same in
      (
        omega (arith, a, time),
        All-imp (λ (g : File C). g.mtime ≤ (newest_from h f fs).mtime) (λ g. g.mtime ≤ src.mtime) fs
            (λ g l. omega (arith, l, time)) b,
      )

  -- a good copy of the root is no newer than `t`
  abbrev pub NoNewer : Text → ℕ → Root C → Type 0
  NoNewer rel t r =
      (f : File C) → lookup rel r.files ≡ some f → is_intact h r rel ≡ true → f.mtime ≤ t

  add_good-All :
      (o : Option (File C)) (intact : Bool) (fs : List (File C)) (t : ℕ)
      → All (λ f. f.mtime ≤ t) (add_good h o intact fs)
      → ((f : File C) → o ≡ some f → intact ≡ true → f.mtime ≤ t) × All (λ f. f.mtime ≤ t) fs
  add_good-All none intact fs t k = (λ f e i. absurd (cc), k)
  add_good-All (some g) false fs t k = (λ f e i. absurd (cc), k)
  add_good-All (some g) true fs t (a, b) =
      (λ f e i. omega (arith, a, ap (λ (x : File C). x.mtime) (some-injective g f e)), b)

  pub good_copies-NoNewer :
      (rel : Text) (t : ℕ) (rs : List (Root C))
      → All (λ f. f.mtime ≤ t) (good_copies h rel rs)
      → All (NoNewer rel t) rs
  unfolding good_copies
  good_copies-NoNewer rel t [] k = tt
  good_copies-NoNewer rel t (r ∷ rs) k =
      let (a, b) =
        add_good-All (lookup rel r.files) (is_intact h r rel) (good_copies h rel rs) t k in
      (a, good_copies-NoNewer rel t rs b)

  -- the root has the file, its hash is that of the source, and the copy is that of the source or as new
  abbrev pub IsRepaired : Text → File C → Root C → Type 0
  IsRepaired rel src r =
      (f : File C) × (lookup rel r.files ≡ some f)
      × (lookup rel (hashes r) ≡ some (h.digest src.content))
      × ((h.digest f.content ≡ h.digest src.content) ⊎ (f.mtime ≡ src.mtime))

  pub fix_copy-IsRepaired :
      (rel : Text) (src : File C) (r : Root C) (p : RepairReport)
      → NoNewer rel src.mtime r
      → IsRepaired rel src (note_hash h rel src (fix_copy h rel src (lookup rel r.files) (r, p)).0)
  unfolding fix_copy
  fix_copy-IsRepaired rel src r p k = go (lookup rel r.files) refl
    where
      noted :
          (r' : Root C) → lookup rel (hashes (note_hash h rel src r')) ≡ some (h.digest src.content)
      noted r' = lookup-insert rel rel (h.digest src.content) (hashes r') ∙ rw (==_self rel) refl

      written : IsRepaired rel src (note_hash h rel src (put_file h rel src r))
      written = (
        src,
        lookup-insert rel rel src r.files ∙ rw (==_self rel) refl,
        noted (put_file h rel src r),
        inl refl,
      )

      go :
          (o : Option (File C))
          → lookup rel r.files ≡ o
          → IsRepaired rel src (note_hash h rel src (fix_copy h rel src o (r, p)).0)
      go none e = written
      go (some f) e =
          if_split (λ (s : Root C × RepairReport). IsRepaired rel src (note_hash h rel src s.0))
            (not (is_intact h r rel)) _ _ (λ q. written)
            (λ q.
              if_split (λ (s : Root C × RepairReport). IsRepaired rel src (note_hash h rel src s.0))
                (not (h.digest f.content == h.digest src.content) && ltb f.mtime src.mtime) _ _
                (λ t. written) (λ t. (f, e, noted r, kept f q t (k f e (ground arith)))))
        where
          kept :
              (f : File C)
              → not (is_intact h r rel) ≡ false
              → (not (h.digest f.content == h.digest src.content) && ltb f.mtime src.mtime) ≡ false
              → f.mtime ≤ src.mtime
              → (h.digest f.content ≡ h.digest src.content) ⊎ (f.mtime ≡ src.mtime)
          kept f q t l = elim (Bool-cases (h.digest f.content == h.digest src.content)) [
            | inl a ↦ inl ((==_iff (h.digest f.content) (h.digest src.content)).0 a)
            | inr a ↦ inr (ground arith)
          ]

-- ===== src/Service/Storage/Repair/Rounds.antt =====
-- What `repair` of backend/app/storage/replicated.py does to all roots for one file, and leaves of the others.
use netscope_x.Prelude.{
  false, not, Option, none, some, List, [], ◌∷◌, ◌&&◌, Text, ◌==◌, nat_ord, list_ord, if_split, ltb,
  lookup, lookup-insert, All, ◌≡◌, refl, ap, ◌∙◌,
}
use netscope_x.Service.Storage.Roots.{Hashing, File, Root, hashes}
use netscope_x.Service.Storage.Commit.{put_file, intact_copy, is_intact}
use netscope_x.Service.Storage.Repair.{
  RepairReport, add_good, good_copies, note_hash, fix_copy, fix_roots,
}
use netscope_x.Service.Storage.Repair.Copies.{NoNewer, IsRepaired, fix_copy-IsRepaired}

module _ {C : Type 0} (h : Hashing C) where
  -- nothing of the file `rel` is changed
  abbrev SameFor : Text → Root C → Root C → Type 0
  SameFor rel r r' =
      (lookup rel r'.files ≡ lookup rel r.files) × (lookup rel (hashes r') ≡ lookup rel (hashes r))

  is_intact-same :
      (rel : Text) (r r' : Root C) → SameFor rel r r' → is_intact h r' rel ≡ is_intact h r rel
  unfolding is_intact
  is_intact-same rel r r' (e, f) =
      ap (λ o. intact_copy h o (lookup rel (hashes r'))) e
      ∙ ap (intact_copy h (lookup rel r.files)) f

  fix_copy-SameFor :
      (k rel : Text) (src : File C) (o : Option (File C)) (r : Root C) (p : RepairReport)
      → (k == rel) ≡ false
      → SameFor rel r (note_hash h k src (fix_copy h k src o (r, p)).0)
  unfolding fix_copy
  fix_copy-SameFor k rel src o r p d = go o
    where
      noted : (r' : Root C) → lookup rel (hashes (note_hash h k src r')) ≡ lookup rel (hashes r')
      noted r' = lookup-insert k rel (h.digest src.content) (hashes r') ∙ rw d refl

      kept : SameFor rel r (note_hash h k src r)
      kept = (refl, noted r)

      written : SameFor rel r (note_hash h k src (put_file h k src r))
      written = (lookup-insert k rel src r.files ∙ rw d refl, noted (put_file h k src r))

      go : (o : Option (File C)) → SameFor rel r (note_hash h k src (fix_copy h k src o (r, p)).0)
      go none = written
      go (some f) =
          if_split (λ (s : Root C × RepairReport). SameFor rel r (note_hash h k src s.0))
            (not (is_intact h r k)) _ _ (λ q. written)
            (λ q.
              if_split (λ (s : Root C × RepairReport). SameFor rel r (note_hash h k src s.0))
                (not (h.digest f.content == h.digest src.content) && ltb f.mtime src.mtime) _ _
                (λ t. written) (λ t. kept))

  IsRepaired-same :
      (rel : Text) (src : File C) (r r' : Root C)
      → SameFor rel r r'
      → IsRepaired h rel src r
      → IsRepaired h rel src r'
  IsRepaired-same rel src r r' (a, b) (f, e, g, q) = (f, a ∙ e, b ∙ g, q)

  pub fix_roots-IsRepaired :
      (rel : Text) (src : File C) (rs : List (Root C)) (p : RepairReport)
      → All (NoNewer h rel src.mtime) rs
      → All (IsRepaired h rel src) (fix_roots h rel src rs p).0
  unfolding fix_roots
  fix_roots-IsRepaired rel src [] p k = tt
  fix_roots-IsRepaired rel src (r ∷ rs) p (k, ks) = (
    fix_copy-IsRepaired h rel src r p k,
    fix_roots-IsRepaired rel src rs (fix_copy h rel src (lookup rel r.files) (r, p)).1 ks,
  )

  pub fix_roots-keeps :
      (k rel : Text) (src src' : File C) (rs : List (Root C)) (p : RepairReport)
      → (k == rel) ≡ false
      → All (IsRepaired h rel src) rs
      → All (IsRepaired h rel src) (fix_roots h k src' rs p).0
  unfolding fix_roots
  fix_roots-keeps k rel src src' [] p d a = tt
  fix_roots-keeps k rel src src' (r ∷ rs) p d (a, as') = (
    IsRepaired-same rel src r (note_hash h k src' (fix_copy h k src' (lookup k r.files) (r, p)).0)
        (fix_copy-SameFor k rel src' (lookup k r.files) r p d) a,
    fix_roots-keeps k rel src src' rs (fix_copy h k src' (lookup k r.files) (r, p)).1 d as',
  )

  pub fix_roots-good_copies :
      (k rel : Text) (src : File C) (rs : List (Root C)) (p : RepairReport)
      → (k == rel) ≡ false
      → good_copies h rel (fix_roots h k src rs p).0 ≡ good_copies h rel rs
  unfolding fix_roots good_copies
  fix_roots-good_copies k rel src [] p d = refl
  fix_roots-good_copies k rel src (r ∷ rs) p d =
      let next = fix_copy h k src (lookup k r.files) (r, p) in
      let same = fix_copy-SameFor k rel src (lookup k r.files) r p d in
      let r' = note_hash h k src next.0 in
      ap
        (λ o. add_good h o (is_intact h r' rel) (good_copies h rel (fix_roots h k src rs next.1).0))
        same.0
      ∙ ap
          (λ b.
            add_good h (lookup rel r.files) b (good_copies h rel (fix_roots h k src rs next.1).0))
          (is_intact-same rel r r' same)
      ∙ ap (add_good h (lookup rel r.files) (is_intact h r rel))
          (fix_roots-good_copies k rel src rs next.1 d)

-- ===== src/Service/Storage/Repair/Seen.antt =====
-- The files that `repair` of backend/app/storage/replicated.py goes through.
use netscope_x.Prelude.{
  false, none, List, [], ◌∷◌, ◌||◌, Text, ◌==◌, ==_comm, nat_ord, list_ord, if_split, contains, add,
  snoc-AreDistinct, AreDistinct, place, sort_by, ◌≡◌, refl, ap, ◌∙◌, inl, inr, arith, Bool-cases,
}
use netscope_x.Service.Storage.Roots.{Hashing, Root, text_le, files_of}
use netscope_x.Service.Storage.Repair.{add_all, seen_files}

-- the files that are seen, each once
place-contains :
    (x : Text) (xs : List Text) (a : Text)
    → contains (place text_le x xs) a ≡ (x == a || contains xs a)
unfolding place
place-contains x [] a = refl
place-contains x (y ∷ ys) a = ground (arith, place-contains x ys a)

pub sort_by-contains : (xs : List Text) (a : Text) → contains (sort_by text_le xs) a ≡ contains xs a
unfolding sort_by
sort_by-contains [] a = refl
sort_by-contains (x ∷ xs) a =
    place-contains x (sort_by text_le xs) a ∙ ap (λ b. x == a || b) (sort_by-contains xs a)

place-AreDistinct :
    (x : Text) (xs : List Text)
    → contains xs x ≡ false
    → AreDistinct xs
    → AreDistinct (place text_le x xs)
unfolding place
place-AreDistinct x [] h k = (refl, tt)
place-AreDistinct x (y ∷ ys) h (k, ks) = elim (Bool-cases (text_le x y)) [
  | inl p ↦ rw p (h, (k, ks))
  | inr p ↦
      rw p (
        ground (arith, place-contains x ys y, ==_comm x y),
        place-AreDistinct x ys (ground arith) ks,
      )
]

pub sort_by-AreDistinct : (xs : List Text) → AreDistinct xs → AreDistinct (sort_by text_le xs)
unfolding sort_by
sort_by-AreDistinct [] h = tt
sort_by-AreDistinct (x ∷ xs) (h, hs) =
    place-AreDistinct x (sort_by text_le xs) (sort_by-contains xs x ∙ h) (sort_by-AreDistinct xs hs)

add-AreDistinct : (xs : List Text) (a : Text) → AreDistinct xs → AreDistinct (add xs a)
add-AreDistinct xs a h =
    if_split AreDistinct (contains xs a) _ _ (λ e. h) (λ e. snoc-AreDistinct xs a e h)

module _ {C : Type 0} (h : Hashing C) where
  add_all-AreDistinct :
      (found rels : List Text) → AreDistinct found → AreDistinct (add_all h found rels)
  unfolding add_all
  add_all-AreDistinct found [] d = d
  add_all-AreDistinct found (rel ∷ rels) d =
      add_all-AreDistinct (add found rel) rels (add-AreDistinct found rel d)

  pub seen_files-AreDistinct :
      (found : List Text) (rs : List (Root C))
      → AreDistinct found
      → AreDistinct (seen_files h found rs)
  unfolding seen_files
  seen_files-AreDistinct found [] d = d
  seen_files-AreDistinct found (r ∷ rs) d =
      seen_files-AreDistinct (add_all h found (files_of r none)) rs
        (add_all-AreDistinct found (files_of r none) d)

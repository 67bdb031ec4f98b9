-- ===== src/Samples/Repairs.antt =====
-- A primary with a corrupt copy and a replica with a good one, and the theorem on repair applied.
use netscope_x.Prelude.{
  ℕ, true, some, [], ◌∷◌, Text, text, nat_ord, list_ord, lookup, sort_by, place, contains, All, ◌≡◌,
  refl,
}
use netscope_x.Service.Names.{starts_with}
use netscope_x.Service.Storage.Roots.{File, Root, files_of}
use netscope_x.Service.Storage.Commit.{is_intact, intact_copy}
use netscope_x.Service.Storage.Repair.{
  good_copies, newest, newest_from, seen_files, add_all, repair,
}
use netscope_x.Service.Storage.Repair.Copies.{IsRepaired}
use netscope_x.Service.Storage.Repair.Whole.{repair-IsRepaired}
use netscope_x.Samples.Services.{plain}

abbrev flows_name : Text
flows_name = text "c/flows.json"

abbrev copy_of : Text → ℕ → File Text
copy_of t at = record { content = t; mtime = at }

abbrev corrupt : Root Text
corrupt = record {
  files = (flows_name, copy_of (text "f?") 9) ∷ [];
  recorded = some ((flows_name, text "f2") ∷ []);
}

abbrev sound : Root Text
sound = record {
  files = (flows_name, copy_of (text "f2") 5) ∷ [];
  recorded = some ((flows_name, text "f2") ∷ []);
}

flows_seen : contains (seen_files plain [] (corrupt ∷ sound ∷ [])) flows_name ≡ true
unfolding seen_files add_all files_of starts_with sort_by place
flows_seen = refl

is_newest :
    newest plain (good_copies plain flows_name (corrupt ∷ sound ∷ []))
    ≡ some (copy_of (text "f2") 5)
unfolding newest newest_from good_copies is_intact intact_copy lookup
is_newest = refl

repair-IsRepaired_example :
    All
      (IsRepaired plain flows_name (copy_of (text "f2") 5))
      (repair plain (corrupt ∷ sound ∷ [])).0
repair-IsRepaired_example =
    repair-IsRepaired plain (corrupt ∷ sound ∷ []) flows_name (copy_of (text "f2") 5) flows_seen
      is_newest

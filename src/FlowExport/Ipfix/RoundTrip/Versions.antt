-- ===== src/FlowExport/Ipfix/RoundTrip/Versions.antt =====
-- How `encode` of backend/nettrace/flowexport/ipfix.py divides the records of a message by the version
-- of their addresses.
use netscope_x.Prelude.{
  ◌∙◌, ℕ, Bool, true, false, none, some, List, [], ◌∷◌, ◌++◌, map, length, All, keep_if,
  keep_if-All, All-keep_if, All-imp2, if◌then◌else◌, ◌==◌, ==_iff, nat_ord, ok, ◌≡◌, refl, sym, ap,
  ◌⊎◌, inl, inr, arith,
}
use mathlib.Core.List.{append-nil}
use netscope_x.FlowExport.Records.{FlowRecord, Times}
use netscope_x.FlowExport.Ipfix.Fields.{Addresses}
use netscope_x.FlowExport.Ipfix.Encode.{version_of, with_version}
use netscope_x.FlowExport.Ipfix.RoundTrip.Cells.{IsCarried, in_ms}

module _ {F : Type 0} (ips : Addresses) (times : Times F) where
  -- both ends of the record have addresses of one version, and every number fits its field
  abbrev pub IsExportable : FlowRecord F → Type 0
  IsExportable r = IsCarried ips times 4 r ⊎ IsCarried ips times 16 r

  abbrev pub has_version : ℕ → FlowRecord F → Bool
  has_version v r = elim (ips.packed r.src_ip) [ none ↦ false | some b ↦ version_of b == v ]

  has_version-packed :
      (v n : ℕ) (r : FlowRecord F) (h : IsCarried ips times n r)
      → has_version v r ≡ (version_of h.src.bytes == v)
  has_version-packed v n r h = rw (h.src.packed, has_version) refl

  keep_carried :
      (v n : ℕ) (r : FlowRecord F) (rs : List (FlowRecord F))
      → IsCarried ips times n r
      → with_version ips times v rs ≡ ok (keep_if (has_version v) rs)
      → with_version ips times v (r ∷ rs) ≡ ok (keep_if (has_version v) (r ∷ rs))
  unfolding with_version
  keep_carried v n r rs h e =
      let kept = keep_if (has_version v) rs in
      rw h.src.packed
        (rw e (ap (λ t. ok (if t then r ∷ kept else kept)) (sym (has_version-packed v n r h))))

  pub with_version-keep_if :
      (v : ℕ) (rs : List (FlowRecord F))
      → All IsExportable rs
      → with_version ips times v rs ≡ ok (keep_if (has_version v) rs)
  unfolding with_version
  with_version-keep_if v [] h = refl
  with_version-keep_if v (r ∷ rs) (inl h, hs) =
      keep_carried v 4 r rs h (with_version-keep_if v rs hs)
  with_version-keep_if v (r ∷ rs) (inr h, hs) =
      keep_carried v 16 r rs h (with_version-keep_if v rs hs)

  carried4 : (r : FlowRecord F) → IsExportable r → has_version 4 r ≡ true → IsCarried ips times 4 r
  carried4 r (inl h) e = h
  carried4 r (inr h) e =
      absurd
        (ground (arith, has_version-packed 4 16 r h, e, h.src.long, ==_iff (length h.src.bytes) 4))

  carried6 : (r : FlowRecord F) → IsExportable r → has_version 6 r ≡ true → IsCarried ips times 16 r
  carried6 r (inr h) e = h
  carried6 r (inl h) e =
      absurd
        (ground (arith, has_version-packed 6 4 r h, e, h.src.long, ==_iff (length h.src.bytes) 4))

  pub kept4 :
      (rs : List (FlowRecord F))
      → All IsExportable rs
      → All (IsCarried ips times 4) (keep_if (has_version 4) rs)
  kept4 rs h =
      All-imp2 IsExportable (λ r. has_version 4 r ≡ true) (IsCarried ips times 4) _ carried4
        (All-keep_if IsExportable (has_version 4) rs h) (keep_if-All (has_version 4) rs)

  pub kept6 :
      (rs : List (FlowRecord F))
      → All IsExportable rs
      → All (IsCarried ips times 16) (keep_if (has_version 6) rs)
  kept6 rs h =
      All-imp2 IsExportable (λ r. has_version 6 r ≡ true) (IsCarried ips times 16) _ carried6
        (All-keep_if IsExportable (has_version 6) rs h) (keep_if-All (has_version 6) rs)

  -- the records of one message in the order of its data sets
  abbrev pub by_version : List (FlowRecord F) → List (FlowRecord F)
  by_version rs = keep_if (has_version 4) rs ++ keep_if (has_version 6) rs

  -- the records that a message is read back as
  abbrev pub as_read : List (FlowRecord F) → List (FlowRecord F)
  as_read chunk = map (in_ms times) (by_version chunk)

  version4 : (v : ℕ) (r : FlowRecord F) → IsCarried ips times 4 r → has_version v r ≡ (4 == v)
  version4 v r h =
      has_version-packed v 4 r h
      ∙ ap (λ b. (if b then 4 else 6) == v) ((==_iff (length h.src.bytes) 4).1 h.src.long)

  -- records with IPv4 addresses stay in their order
  pub by_version4 : (rs : List (FlowRecord F)) → All (IsCarried ips times 4) rs → by_version rs ≡ rs
  by_version4 rs h =
      ap (λ xs. xs ++ keep_if (has_version 6) rs) (all4 rs h)
      ∙ ap (λ xs. rs ++ xs) (none6 rs h)
      ∙ append-nil rs
    where
      all4 :
          (rs : List (FlowRecord F))
          → All (IsCarried ips times 4) rs
          → keep_if (has_version 4) rs ≡ rs
      all4 [] h = refl
      all4 (r ∷ rs) (h, hs) =
          ap (λ b. if b then r ∷ keep_if (has_version 4) rs else keep_if (has_version 4) rs)
            (version4 4 r h)
          ∙ ap (λ xs. r ∷ xs) (all4 rs hs)

      none6 :
          (rs : List (FlowRecord F))
          → All (IsCarried ips times 4) rs
          → keep_if (has_version 6) rs ≡ []
      none6 [] h = refl
      none6 (r ∷ rs) (h, hs) =
          ap (λ b. if b then r ∷ keep_if (has_version 6) rs else keep_if (has_version 6) rs)
            (version4 6 r h)
          ∙ none6 rs hs

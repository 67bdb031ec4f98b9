-- ===== src/FlowExport/Ipfix/InOrder.antt =====
-- IPv4 records through `encode` and `decode` of backend/nettrace/flowexport/ipfix.py.
use netscope_x.Prelude.{
  ℕ, zero, suc, ◌≤◌, ◌<◌, ◌^◌, Option, some, List, [], ◌∷◌, ◌++◌, map, take, drop, length,
  length-drop, All, All-imp, concat_map, ok, ◌≡◌, refl, sym, ap, ◌∙◌, inl, arith,
}
use mathlib.Core.List.{map-append}
use netscope_x.FlowExport.Bytes.{Bytes}
use netscope_x.FlowExport.Records.{FlowRecord, Times}
use netscope_x.FlowExport.Ipfix.Fields.{Addresses}
use netscope_x.FlowExport.Ipfix.Encode.{chunks_from, export_time_of, encode}
use netscope_x.FlowExport.Ipfix.Decode.{decode}
use netscope_x.FlowExport.Ipfix.RoundTrip.{decode-encode, All-take, All-drop}
use netscope_x.FlowExport.Ipfix.RoundTrip.Cells.{IsCarried, in_ms}
use netscope_x.FlowExport.Ipfix.RoundTrip.Versions.{IsExportable, as_read, by_version4}

take-drop {ℓ} : {A : Type ℓ} (n : ℕ) (xs : List A) → take n xs ++ drop n xs ≡ xs
take-drop zero xs = refl
take-drop (suc n) [] = refl
take-drop (suc n) (x ∷ xs) = ap (λ ys. x ∷ ys) (take-drop n xs)

module _ {F : Type 0} (ips : Addresses) (times : Times F) where
  chunks_from-in_ms :
      (rounds k : ℕ) (rs : List (FlowRecord F))
      → length rs ≤ rounds
      → 0 < k
      → All (IsCarried ips times 4) rs
      → concat_map (as_read ips times) (chunks_from rounds k rs) ≡ map (in_ms times) rs
  unfolding chunks_from
  chunks_from-in_ms rounds k [] l p h = refl
  chunks_from-in_ms zero k (r ∷ rs) l p h = absurd (omega (arith, l))
  chunks_from-in_ms (suc rounds) k (r ∷ rs) l p h =
      let xs : List (FlowRecord F) = r ∷ rs in
      let rest = concat_map (as_read ips times) (chunks_from rounds k (drop k xs)) in
      ap (λ ys. map (in_ms times) ys ++ rest)
        (by_version4 ips times (take k xs) (All-take (IsCarried ips times 4) k xs h))
      ∙ ap (λ ys. map (in_ms times) (take k xs) ++ ys)
          (chunks_from-in_ms rounds k (drop k xs) (omega (arith, l, p, length-drop k xs)) p
            (All-drop (IsCarried ips times 4) k xs h))
      ∙ sym (map-append (in_ms times) (take k xs) (drop k xs))
      ∙ ap (map (in_ms times)) (take-drop k xs)

  -- Records with IPv4 addresses whose numbers fit their fields are written by `encode` and read back by
  -- `decode`: all of them, in their order, unchanged but for times in whole milliseconds. A message has at
  -- most 500 records, and the number of records, the domain and the export time in seconds are less than
  -- 2 ^ 32.
  pub decode-encode-in_ms :
      (domain t : ℕ) (r : FlowRecord F) (rs : List (FlowRecord F)) (export_time : Option F) (k : ℕ)
      → domain < 256 ^ 4
      → t < 256 ^ 4
      → All (IsCarried ips times 4) (r ∷ rs)
      → suc k ≤ 500
      → length (r ∷ rs) < 256 ^ 4
      → times.to_seconds (export_time_of ips times export_time r rs) ≡ some t
      → (bs : Bytes) × (encode ips times (r ∷ rs) export_time domain (suc k) ≡ ok bs)
        × (decode ips times bs ≡ ok (map (in_ms times) (r ∷ rs)))
  decode-encode-in_ms domain t r rs export_time k d e h s l q =
      let one : All (IsExportable ips times) (r ∷ rs) =
        All-imp (IsCarried ips times 4) (IsExportable ips times) (r ∷ rs) (λ x c. inl c) h in
      let (bs, w, z) = decode-encode ips times domain t d e r rs export_time k one s l q in
      (
        bs,
        w,
        z
            ∙ ap ok (
                chunks_from-in_ms (length (r ∷ rs)) (suc k) (r ∷ rs) (omega arith) (omega arith) h),
      )

-- ===== src/FlowExport/Ipfix/RoundTrip/Groups.antt =====
-- The data set of one template of backend/nettrace/flowexport/ipfix.py, as it is written and read.
use netscope_x.Prelude.{
  ℕ, zero, suc, ◌+◌, ◌*◌, ◌≤◌, true, false, List, [], ◌∷◌, ◌++◌, map, length, length-append, All,
  concat_map, ltb, lt→ltb, ok, traverse, ◌≡◌, refl, ap, ◌∙◌, arith, nat_ord, ◌==◌, ==_iff,
}
use netscope_x.FlowExport.Bytes.{Bytes}
use netscope_x.FlowExport.Records.{FlowRecord, Times}
use netscope_x.FlowExport.Ipfix.Fields.{Addresses}
use netscope_x.FlowExport.Ipfix.Encode.{data_record}
use netscope_x.FlowExport.Ipfix.Decode.{no_values, size_of, parse_records, parse_data}
use netscope_x.FlowExport.Ipfix.RoundTrip.Cells.{
  as_fields, flat, length-flat, read_fields-flat, IsCarried, in_ms, IsTemplate, fields_of, cells,
  cells-IsCell, data_record-cells, put_all-cells,
}

module _ {F : Type 0} (ips : Addresses) (times : Times F) (ie ie' n : ℕ)
    (is : IsTemplate ie ie') where
  abbrev pub Carried : List (FlowRecord F) → Type 0
  Carried = All (IsCarried ips times n)

  -- what is written for the records of a group
  unfoldable pub bodies : (rs : List (FlowRecord F)) → Carried rs → Bytes
  bodies [] h = []
  bodies (r ∷ rs) (h, hs) = flat (cells ips times ie ie' n is r h) ++ bodies rs hs

  cell_length :
      (r : FlowRecord F) (h : IsCarried ips times n r)
      → length (flat (cells ips times ie ie' n is r h)) ≡ n + n + 39
  cell_length r h =
      length-flat (cells ips times ie ie' n is r h) (cells-IsCell ips times ie ie' n is r h)
      ∙ omega arith

  pub length-bodies :
      (rs : List (FlowRecord F)) (h : Carried rs) → length (bodies rs h) ≡ (n + n + 39) * length rs
  unfolding bodies
  length-bodies [] h = omega arith
  length-bodies (r ∷ rs) (h, hs) =
      length-append (flat (cells ips times ie ie' n is r h)) (bodies rs hs)
      ∙ ground (arith, cell_length r h, length-bodies rs hs)

  pub traverse-bodies :
      (rs : List (FlowRecord F)) (h : Carried rs)
      → (bs : List Bytes) × (traverse (data_record ips times (fields_of ie ie' n)) rs ≡ ok bs)
        × (concat_map (λ b. b) bs ≡ bodies rs h)
  unfolding bodies
  traverse-bodies [] h = ([], refl, refl)
  traverse-bodies (r ∷ rs) (h, hs) =
      let (bs, e, f) = traverse-bodies rs hs in
      rw (data_record-cells ips times ie ie' n is r h)
        (rw e (_, refl, ap (λ x. flat (cells ips times ie ie' n is r h) ++ x) f))

  abbrev layout_size : ℕ
  layout_size = size_of (as_fields (fields_of ie ie' n))

  some_size : ltb 0 layout_size ≡ true
  some_size = lt→ltb 0 layout_size (omega arith)

  pub parse_records-bodies :
      (rounds : ℕ) (rs : List (FlowRecord F)) (h : Carried rs)
      → length (bodies rs h) ≤ rounds
      → parse_records ips times rounds (as_fields (fields_of ie ie' n)) (bodies rs h)
        ≡ ok (map (in_ms times) rs)
  unfolding parse_records bodies
  parse_records-bodies zero [] h k = rw some_size refl
  parse_records-bodies (suc rounds) [] h k = rw some_size refl
  parse_records-bodies zero (r ∷ rs) (h, hs) k =
      absurd (omega (arith, length-bodies (r ∷ rs) (h, hs), k))
  parse_records-bodies (suc rounds) (r ∷ rs) (h, hs) k =
      let b = flat (cells ips times ie ie' n is r h) in
      let (w, e, f) = put_all-cells ips times ie ie' n is r h in
      let first = length-append b (bodies rs hs) in
      let wide : ltb (length (b ++ bodies rs hs)) layout_size ≡ false =
        ground (arith, first, cell_length r h) in
      rw wide (
        rw
          (read_fields-flat ips (cells ips times ie ie' n is r h) no_values (bodies rs hs)
            (cells-IsCell ips times ie ie' n is r h))
          (rw e (
            rw f (
              rw (parse_records-bodies rounds rs hs (omega (arith, first, cell_length r h, k)))
                refl))))

  pub parse_data-bodies :
      (rs : List (FlowRecord F)) (h : Carried rs)
      → parse_data ips times (as_fields (fields_of ie ie' n)) (bodies rs h)
        ≡ ok (map (in_ms times) rs)
  unfolding parse_data
  parse_data-bodies rs h =
      rw (nonzero) (parse_records-bodies (length (bodies rs h)) rs h (omega arith))
    where
      nonzero : (layout_size == 0) ≡ false
      nonzero = ground (arith, ==_iff layout_size 0)

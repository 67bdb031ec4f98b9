-- ===== src/FlowExport/Ipfix/Decode.antt =====
-- `decode` of backend/nettrace/flowexport/ipfix.py. A position in the data is the list of the bytes from
-- there on. Each loop has a number of rounds, the bytes that it may take.
use netscope_x.Prelude.{
  ℕ, zero, suc, ◌-◌, ◌%◌, Bool, Option, none, some, List, [], ◌∷◌, ◌++◌, Text, ◌==◌, ◌||◌, not,
  nat_ord, pair_ord, option_ord, if◌then◌else◌, ltb, leb, length, take, drop, sum_of, Dict, lookup,
  insert, Result, ok, raise, or_raise, ◌>>=◌, value_error, flow_export_error, overflow_error,
  out_of_rounds,
}
use netscope_x.FlowExport.Bytes.{Bytes, uint}
use netscope_x.FlowExport.Records.{FlowRecord, Times}
use netscope_x.FlowExport.Ipfix.Fields.{
  Addresses, Field, is_source, is_destination, sport, dport, proto, packets_id, octets_id, flags_id,
  start_ms, end_ms,
}

-- an unsigned integer of `n` bytes at offset `i`
abbrev pub at : ℕ → ℕ → Bytes → ℕ
at i n b = uint (take n (drop i b))

abbrev pub Templates : Type 0
Templates = Dict (ℕ × ℕ) (List Field)

-- one field of a template: after an element of an enterprise, 4 more bytes are skipped
unfoldable pub parse_field : Bytes → Result (Field × Bytes)
parse_field b =
    if ltb (length b) 4
    then raise flow_export_error
    else (let ie = at 0 2 b in
        let ln = at 2 2 b in
        let foreign = leb 32768 ie in
        if ln == 65535
        then raise flow_export_error
        else if foreign
        then ok ((none, ln), drop 8 b)
        else ok ((some ie, ln), drop 4 b))

unfoldable pub parse_fields : ℕ → Bytes → Result (List Field × Bytes)
unfolding parse_field
parse_fields zero b = ok ([], b)
parse_fields (suc count) b = do
  (field, rest) ← parse_field b
  (fields, rest') ← parse_fields count rest
  ok (field ∷ fields, rest')

-- `_parse_templates`, where `found` is `out`
unfoldable pub parse_templates : ℕ → ℕ → Templates → Bytes → Result Templates
unfolding parse_fields
parse_templates zero domain found b = if ltb (length b) 4 then ok found else raise out_of_rounds
parse_templates (suc rounds) domain found b = if ltb (length b) 4 then ok found else do
  (fields, rest) ← parse_fields (at 2 2 b) (drop 4 b)
  parse_templates rounds domain (insert (domain, at 0 2 b) fields found) rest

-- `v`, the values of one record by their elements
pub record Values : Type 0 where
  pub src : Option Text
  pub dst : Option Text
  pub ints : Dict ℕ ℕ

abbrev pub no_values : Values
no_values = record { src = none; dst = none; ints = [] }

abbrev pub is_integer : ℕ → Bool
is_integer ie =
    ie == sport
    || ie == dport
    || ie == proto
    || ie == octets_id
    || ie == packets_id
    || ie == flags_id
    || ie == start_ms
    || ie == end_ms

module _ (ips : Addresses) where
  -- `ip_address(raw)` raises ValueError for a wrong number of bytes
  unfoldable pub put_value : Values → Option ℕ → Bytes → Result Values
  put_value v none raw = ok v
  put_value v (some ie) raw =
      if is_source ie
      then or_raise value_error (ips.shown raw) >>= (λ t. ok (record v { src = some t }))
      else if is_destination ie
      then or_raise value_error (ips.shown raw) >>= (λ t. ok (record v { dst = some t }))
      else if is_integer ie
      then ok (record v { ints = insert ie (uint raw) v.ints })
      else ok v

  -- the loop over the fields of one record
  unfoldable pub read_fields : List Field → Values → Bytes → Result (Values × Bytes)
  unfolding put_value
  read_fields [] v b = ok (v, b)
  read_fields ((ie, ln) ∷ fields) v b = do
    v' ← put_value v ie (take ln b)
    read_fields fields v' (drop ln b)

abbrev pub or_zero : Option ℕ → ℕ
or_zero none = 0
or_zero (some n) = n

abbrev pub size_of : List Field → ℕ
size_of fields = sum_of (λ f. f.1) fields

module _ {F : Type 0} (ips : Addresses) (times : Times F) where
  -- What follows the loop over the fields: a record, or the refusal of one that lacks an element. The
  -- quotient of an integer that is too large for a float raises OverflowError.
  unfoldable pub record_of : Values → Result (FlowRecord F)
  record_of v = do
    src ← or_raise flow_export_error v.src
    dst ← or_raise flow_export_error v.dst
    protocol ← or_raise flow_export_error (lookup proto v.ints)
    packets ← or_raise flow_export_error (lookup packets_id v.ints)
    octets ← or_raise flow_export_error (lookup octets_id v.ints)
    first ← or_raise flow_export_error (lookup start_ms v.ints)
    last ← or_raise flow_export_error (lookup end_ms v.ints)
    start ← or_raise overflow_error (times.of_ms first)
    end ← or_raise overflow_error (times.of_ms last)
    ok (record {
      src_ip = src;
      dst_ip = dst;
      src_port = or_zero (lookup sport v.ints);
      dst_port = or_zero (lookup dport v.ints);
      protocol = protocol;
      packets = packets;
      octets = octets;
      start = start;
      end = end;
      tcp_flags = or_zero (lookup flags_id v.ints) % 256;
    })

  -- the loop of `_parse_data`; bytes that are too few for a record are padding
  unfoldable pub parse_records : ℕ → List Field → Bytes → Result (List (FlowRecord F))
  unfolding read_fields record_of
  parse_records zero fields b =
      if ltb (length b) (size_of fields) then ok [] else raise out_of_rounds
  parse_records (suc rounds) fields b = if ltb (length b) (size_of fields) then ok [] else do
    (v, rest) ← read_fields ips fields no_values b
    r ← record_of v
    rs ← parse_records rounds fields rest
    ok (r ∷ rs)

  unfoldable pub parse_data : List Field → Bytes → Result (List (FlowRecord F))
  unfolding parse_records
  parse_data fields b =
      if size_of fields == 0 then raise flow_export_error else parse_records (length b) fields b

  -- what one set adds to the templates and to the records
  unfoldable pub parse_set : ℕ → ℕ → Templates → Bytes → Result (Templates × List (FlowRecord F))
  unfolding parse_templates parse_data
  parse_set domain set_id templates body =
      if set_id == 2
      then parse_templates (length body) domain templates body >>= (λ ts. ok (ts, []))
      else if leb 256 set_id
      then or_raise flow_export_error (lookup (domain, set_id) templates)
        >>= (λ fields. parse_data fields body)
        >>= (λ rs. ok (templates, rs))
      else if set_id == 3
      then ok (templates, [])
      else raise flow_export_error

  -- the loop over the sets of one message
  unfoldable pub parse_sets : ℕ → ℕ → Templates → Bytes → Result (Templates × List (FlowRecord F))
  unfolding parse_set
  parse_sets rounds domain templates [] = ok (templates, [])
  parse_sets zero domain templates (x ∷ xs) = raise out_of_rounds
  parse_sets (suc rounds) domain templates (x ∷ xs) =
      let b = x ∷ xs in
      if ltb (length b) 4
      then raise flow_export_error
      else if ltb (at 2 2 b) 4 || ltb (length b) (at 2 2 b)
      then raise flow_export_error
      else do
        (ts, rs) ← parse_set domain (at 0 2 b) templates (take (at 2 2 b - 4) (drop 4 b))
        (ts', more) ← parse_sets rounds domain ts (drop (at 2 2 b) b)
        ok (ts', rs ++ more)

  -- the loop over the messages
  unfoldable pub parse_messages : ℕ → Templates → Bytes → Result (List (FlowRecord F))
  unfolding parse_sets
  parse_messages rounds templates [] = ok []
  parse_messages zero templates (x ∷ xs) = raise out_of_rounds
  parse_messages (suc rounds) templates (x ∷ xs) =
      let b = x ∷ xs in
      let size = at 2 2 b in
      if ltb (length b) 16
      then raise flow_export_error
      else if not (at 0 2 b == 10)
      then raise flow_export_error
      else if ltb size 16 || ltb (length b) size
      then raise flow_export_error
      else do
        (ts, rs) ← parse_sets (length b) (at 12 4 b) templates (take (size - 16) (drop 16 b))
        more ← parse_messages rounds ts (drop size b)
        ok (rs ++ more)

  unfoldable pub decode : Bytes → Result (List (FlowRecord F))
  unfolding parse_messages
  decode [] = raise flow_export_error
  decode (x ∷ xs) = parse_messages (length (x ∷ xs)) [] (x ∷ xs)

-- ===== src/FlowExport/Ipfix/Encode.antt =====
-- `encode` of backend/nettrace/flowexport/ipfix.py
use netscope_x.Prelude.{
  ℕ, zero, suc, ◌+◌, Bool, true, false, Option, none, some, List, [], ◌∷◌, ◌++◌, Text, ◌==◌,
  nat_ord, if◌then◌else◌, length, take, drop, concat_map, Result, ok, raise, or_raise, traverse,
  ◌>>=◌, value_error, key_error, overflow_error, struct_error,
}
use netscope_x.FlowExport.Bytes.{Bytes, to_bytes}
use netscope_x.FlowExport.Records.{FlowRecord, Times}
use netscope_x.FlowExport.Ipfix.Fields.{
  Addresses, v4_fields, v6_fields, is_source, is_destination, sport, dport, proto, packets_id,
  octets_id, flags_id, start_ms, end_ms,
}

-- `struct.pack` of unsigned fields, each with its length
unfoldable pub pack : List (ℕ × ℕ) → Result Bytes
pack [] = ok []
pack ((n, v) ∷ fields) = do
  first ← to_bytes struct_error n v
  rest ← pack fields
  ok (first ++ rest)

-- a set: its id, its length with the header, and its body
unfoldable pub pack_set : ℕ → Bytes → Result Bytes
unfolding pack
pack_set id body = do header ← pack ((2, id) ∷ (2, 4 + length body) ∷ []); ok (header ++ body)

-- the body of the template set for one template
unfoldable pub template_body : ℕ → List (ℕ × ℕ) → Result Bytes
unfolding pack
template_body tid fields = do
  header ← pack ((2, tid) ∷ (2, length fields) ∷ [])
  rest ← traverse (λ (f : ℕ × ℕ). pack ((2, f.0) ∷ (2, f.1) ∷ [])) fields
  ok (header ++ concat_map (λ b. b) rest)

-- `_template_set(_TEMPLATES)`
unfoldable pub template_set : Result Bytes
unfolding template_body pack_set
template_set = do
  v4 ← template_body 256 v4_fields
  v6 ← template_body 257 v6_fields
  pack_set 2 (v4 ++ v6)

-- `xs[i : i + k]` for each i in `range(0, len(xs), k)`; `rounds` is at least the number of chunks
unfoldable pub chunks_from : {A : Type 0} → ℕ → ℕ → List A → List (List A)
chunks_from rounds k [] = []
chunks_from zero k (x ∷ xs) = []
chunks_from (suc rounds) k (x ∷ xs) = take k (x ∷ xs) ∷ chunks_from rounds k (drop k (x ∷ xs))

abbrev pub chunks : {A : Type 0} → ℕ → List A → List (List A)
chunks k xs = chunks_from (length xs) k xs

-- a time that is negative does not fit
abbrev pub ms_bytes : ℕ → Option ℕ → Result Bytes
ms_bytes ln none = raise overflow_error
ms_bytes ln (some ms) = to_bytes overflow_error ln ms

abbrev pub version_of : Bytes → ℕ
version_of b = if length b == 4 then 4 else 6

module _ {F : Type 0} (ips : Addresses) (times : Times F) where
  abbrev pub packed_or_raise : Text → Result Bytes
  packed_or_raise t = or_raise value_error (ips.packed t)

  -- what the table of values has for an element
  unfoldable pub value_bytes : FlowRecord F → ℕ → ℕ → Result Bytes
  value_bytes rec ie ln =
      if ie == sport
      then to_bytes overflow_error ln rec.src_port
      else if ie == dport
      then to_bytes overflow_error ln rec.dst_port
      else if ie == proto
      then to_bytes overflow_error ln rec.protocol
      else if ie == packets_id
      then to_bytes overflow_error ln rec.packets
      else if ie == octets_id
      then to_bytes overflow_error ln rec.octets
      else if ie == flags_id
      then to_bytes overflow_error ln rec.tcp_flags
      else if ie == start_ms
      then ms_bytes ln (times.to_ms rec.start)
      else if ie == end_ms
      then ms_bytes ln (times.to_ms rec.end)
      else raise key_error

  unfoldable pub field_bytes : FlowRecord F → ℕ × ℕ → Result Bytes
  unfolding value_bytes
  field_bytes rec (ie, ln) =
      if is_source ie
      then packed_or_raise rec.src_ip
      else if is_destination ie
      then packed_or_raise rec.dst_ip
      else value_bytes rec ie ln

  -- `_data_record`
  unfoldable pub data_record : List (ℕ × ℕ) → FlowRecord F → Result Bytes
  unfolding field_bytes
  data_record [] rec = ok []
  data_record (f ∷ fields) rec = do
    first ← field_bytes rec f
    rest ← data_record fields rec
    ok (first ++ rest)

  -- `[r for r in chunk if ip_address(r.src_ip).version == version]`
  unfoldable pub with_version : ℕ → List (FlowRecord F) → Result (List (FlowRecord F))
  with_version version [] = ok []
  with_version version (r ∷ rs) = do
    b ← packed_or_raise r.src_ip
    rest ← with_version version rs
    ok (if version_of b == version then r ∷ rest else rest)

  -- the data set of one template, if the chunk has records for it
  unfoldable pub data_set : ℕ → List (ℕ × ℕ) → List (FlowRecord F) → Result Bytes
  unfolding pack_set data_record
  data_set tid fields [] = ok []
  data_set tid fields (r ∷ rs) = do
    bodies ← traverse (data_record fields) (r ∷ rs)
    pack_set tid (concat_map (λ b. b) bodies)

  -- the sets of one message
  unfoldable pub message_sets : Bool → List (FlowRecord F) → Result Bytes
  unfolding with_version data_set
  message_sets first chunk = do
    templates ← if first then template_set else ok []
    group4 ← with_version 4 chunk
    set4 ← data_set 256 v4_fields group4
    group6 ← with_version 6 chunk
    set6 ← data_set 257 v6_fields group6
    ok (templates ++ set4 ++ set6)

  unfoldable pub message : Option ℕ → ℕ → ℕ → Bool → List (FlowRecord F) → Result Bytes
  unfolding message_sets pack
  message seconds seq domain first chunk = do
    sets ← message_sets first chunk
    t ← or_raise struct_error seconds
    header ← pack ((2, 10) ∷ (2, 16 + length sets) ∷ (4, t) ∷ (4, seq) ∷ (4, domain) ∷ [])
    ok (header ++ sets)

  unfoldable pub messages : Option ℕ → ℕ → ℕ → Bool → List (List (FlowRecord F)) → Result Bytes
  unfolding message
  messages seconds seq domain first [] = ok []
  messages seconds seq domain first (chunk ∷ rest) = do
    m ← message seconds seq domain first chunk
    more ← messages seconds (seq + length chunk) domain false rest
    ok (m ++ more)

  -- `max(r.end for r in records) + 1.0`
  abbrev pub latest_end : F → List (FlowRecord F) → F
  latest_end t [] = t
  latest_end t (r ∷ rs) = latest_end (times.latest t r.end) rs

  abbrev pub export_time_of : Option F → FlowRecord F → List (FlowRecord F) → F
  export_time_of (some t) r rs = t
  export_time_of none r rs = times.plus_one (latest_end r.end rs)

  -- `range` refuses a step of 0; `struct` refuses a negative time
  unfoldable pub encode : List (FlowRecord F) → Option F → ℕ → ℕ → Result Bytes
  unfolding messages
  encode [] export_time domain per_message = ok []
  encode (r ∷ rs) export_time domain zero = raise value_error
  encode (r ∷ rs) export_time domain (suc k) =
      messages (times.to_seconds (export_time_of export_time r rs)) 0 domain true
        (chunks (suc k) (r ∷ rs))

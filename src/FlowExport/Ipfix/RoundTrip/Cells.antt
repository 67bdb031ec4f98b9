-- ===== src/FlowExport/Ipfix/RoundTrip/Cells.antt =====
-- One data record of backend/nettrace/flowexport/ipfix.py: what `_data_record` writes and what the loop
-- over the fields of `_parse_data` reads.
use netscope_x.Prelude.{
  Option, none, ℕ, ◌%◌, ◌^◌, ◌<◌, true, false, some, List, [], ◌∷◌, ◌++◌, map, Text, nat_ord,
  length, length-append, All, concat_map, insert, lookup, Result, ok, raise, ◌>>=◌, ◌≡◌, refl, ◌∙◌,
  arith, overflow_error,
}
use mathlib.Core.List.{append_assoc}
use netscope_x.FlowExport.Bytes.{
  Bytes, digits, length-digits, uint-digits, to_bytes, to_bytes-fits, take-field, drop-field,
}
use netscope_x.FlowExport.Records.{FlowRecord, Times}
use netscope_x.FlowExport.Ipfix.Fields.{Addresses, Field, common_fields, is_source, is_destination}
use netscope_x.FlowExport.Ipfix.Encode.{field_bytes, value_bytes, data_record}
use netscope_x.FlowExport.Ipfix.Decode.{
  Values, no_values, put_value, read_fields, record_of, size_of, or_zero,
}

-- an element with its length and the bytes that stand for it
abbrev pub Cell : Type 0
Cell = ℕ × ℕ × Bytes

abbrev pub IsCell : Cell → Type 0
IsCell (ie, ln, b) = length b ≡ ln

abbrev pub layout : List Cell → List (ℕ × ℕ)
layout cells = map (λ c. (c.0, c.1)) cells

abbrev pub as_fields : List (ℕ × ℕ) → List Field
as_fields = map (λ f. (some f.0, f.1))

abbrev pub flat : List Cell → Bytes
flat = concat_map (λ c. c.2)

pub length-flat :
    (cells : List Cell)
    → All IsCell cells
    → length (flat cells) ≡ size_of (as_fields (layout cells))
length-flat [] h = refl
length-flat ((ie, ln, b) ∷ cells) (e, h) =
    length-append b (flat cells) ∙ omega (arith, e, length-flat cells h)

module _ (ips : Addresses) where
  unfoldable pub put_all : Values → List Cell → Result Values
  put_all v [] = ok v
  put_all v ((ie, ln, b) ∷ cells) = put_value ips v (some ie) b >>= (λ v'. put_all v' cells)

  pub read_fields-flat :
      (cells : List Cell) (v : Values) (rest : Bytes)
      → All IsCell cells
      → read_fields ips (as_fields (layout cells)) v (flat cells ++ rest)
        ≡ (put_all v cells >>= (λ w. ok (w, rest)))
  unfolding read_fields put_all
  read_fields-flat [] v rest h = refl
  read_fields-flat ((ie, ln, b) ∷ cells) v rest (e, h) = rw (append_assoc b (flat cells) rest) (
      rw (take-field ln b (flat cells ++ rest) e) (
        rw (drop-field ln b (flat cells ++ rest) e)
          (go (put_value ips v (some ie) b) (λ w. read_fields-flat cells w rest h))))
    where
      go :
          (m : Result Values)
          → ((w : Values)
              → read_fields ips (as_fields (layout cells)) w (flat cells ++ rest)
                ≡ (put_all w cells >>= (λ u. ok (u, rest))))
          → (m >>= (λ w. read_fields ips (as_fields (layout cells)) w (flat cells ++ rest)))
            ≡ (m >>= (λ w. put_all w cells) >>= (λ w. ok (w, rest)))
      go (ok w) k = k w
      go (raise e) k = refl

-- the elements of the two addresses of a template
pub record IsTemplate (ie ie' : ℕ) : Type 0 where
  pub source : is_source ie ≡ true
  pub other : is_source ie' ≡ false
  pub destination : is_destination ie' ≡ true

abbrev pub fields_of : ℕ → ℕ → ℕ → List (ℕ × ℕ)
fields_of ie ie' n = (ie, n) ∷ (ie', n) ∷ common_fields

module _ {F : Type 0} (times : Times F) where
  -- a record as it is read back: its times in whole milliseconds
  abbrev pub time_or : F → Option F → F
  time_or t none = t
  time_or t (some u) = u

  abbrev pub whole_ms : F → F
  whole_ms t = time_or t (times.of_ms (or_zero (times.to_ms t)))

  unfoldable pub in_ms : FlowRecord F → FlowRecord F
  in_ms r = record r { start = whole_ms r.start; end = whole_ms r.end }

module _ {F : Type 0} (ips : Addresses) (times : Times F) where
  -- `t` is written with `n` bytes, and shown again as it was
  pub record IsAddress (n : ℕ) (t : Text) : Type 0 where
    pub bytes : Bytes
    pub packed : ips.packed t ≡ some bytes
    pub long : length bytes ≡ n
    pub shown : ips.shown bytes ≡ some t

  -- `t` is written as `ms`, which is read back
  pub record IsTime (t : F) : Type 0 where
    pub ms : ℕ
    pub rounded : times.to_ms t ≡ some ms
    pub small : ms < 256 ^ 8
    pub read : F
    pub back : times.of_ms ms ≡ some read

  -- a record that the template for addresses of `n` bytes carries
  pub record IsCarried (n : ℕ) (r : FlowRecord F) : Type 0 where
    pub src : IsAddress n r.src_ip
    pub dst : IsAddress n r.dst_ip
    pub src_port : r.src_port < 256 ^ 2
    pub dst_port : r.dst_port < 256 ^ 2
    pub protocol : r.protocol < 256 ^ 1
    pub packets : r.packets < 256 ^ 8
    pub octets : r.octets < 256 ^ 8
    pub tcp_flags : r.tcp_flags < 256
    pub start : IsTime r.start
    pub end : IsTime r.end

  abbrev pub cells_of : (ie ie' n : ℕ) (r : FlowRecord F) → IsCarried n r → List Cell
  cells_of ie ie' n r h =
      (ie, n, h.src.bytes)
      ∷ (ie', n, h.dst.bytes)
      ∷ (7, 2, digits 2 r.src_port)
      ∷ (11, 2, digits 2 r.dst_port)
      ∷ (4, 1, digits 1 r.protocol)
      ∷ (2, 8, digits 8 r.packets)
      ∷ (1, 8, digits 8 r.octets)
      ∷ (6, 2, digits 2 r.tcp_flags)
      ∷ (152, 8, digits 8 h.start.ms)
      ∷ (153, 8, digits 8 h.end.ms)
      ∷ []

  module _ (ie ie' n : ℕ) (is : IsTemplate ie ie') (r : FlowRecord F) (h : IsCarried n r) where
    abbrev pub cells : List Cell
    cells = cells_of ie ie' n r h

    pub cells-IsCell : All IsCell cells
    cells-IsCell = (
      h.src.long,
      (
        h.dst.long,
        (
          length-digits 2 r.src_port,
          (
            length-digits 2 r.dst_port,
            (
              length-digits 1 r.protocol,
              (
                length-digits 8 r.packets,
                (
                  length-digits 8 r.octets,
                  (
                    length-digits 2 r.tcp_flags,
                    (length-digits 8 h.start.ms, (length-digits 8 h.end.ms, tt)),
                  ),
                ),
              ),
            ),
          ),
        ),
      ),
    )

    pub data_record-cells : data_record ips times (fields_of ie ie' n) r ≡ ok (flat cells)
    unfolding data_record field_bytes value_bytes
    data_record-cells = rw is.source (
        rw is.other (
          rw is.destination (
            rw h.src.packed (
              rw h.dst.packed (
                rw h.start.rounded (
                  rw h.end.rounded (
                    rw (fits 2 r.src_port h.src_port) (
                      rw (fits 2 r.dst_port h.dst_port) (
                        rw (fits 1 r.protocol h.protocol) (
                          rw (fits 8 r.packets h.packets) (
                            rw (fits 8 r.octets h.octets) (
                              rw (fits 2 r.tcp_flags (omega (arith, h.tcp_flags))) (
                                rw (fits 8 h.start.ms h.start.small)
                                  (rw (fits 8 h.end.ms h.end.small) refl))))))))))))))
      where
        fits : (n v : ℕ) → v < 256 ^ n → to_bytes overflow_error n v ≡ ok (digits n v)
        fits = to_bytes-fits overflow_error

    pub put_all-cells :
        (w : Values) × (put_all ips no_values cells ≡ ok w)
        × (record_of ips times w ≡ ok (in_ms times r))
    unfolding put_all put_value record_of in_ms insert lookup
    put_all-cells = rw is.source (
        rw is.other (
          rw is.destination (
            rw h.src.shown (
              rw h.dst.shown (
                rw h.start.rounded (
                  rw h.end.rounded (
                    _,
                    refl,
                    rw (uint-digits 2 r.src_port h.src_port) (
                        rw (uint-digits 2 r.dst_port h.dst_port) (
                          rw (uint-digits 1 r.protocol h.protocol) (
                            rw (uint-digits 8 r.packets h.packets) (
                              rw (uint-digits 8 r.octets h.octets) (
                                rw (uint-digits 2 r.tcp_flags (omega (arith, h.tcp_flags))) (
                                  rw (uint-digits 8 h.start.ms h.start.small) (
                                    rw (uint-digits 8 h.end.ms h.end.small)
                                      (rw h.start.back (rw h.end.back (rw (flags) refl)))))))))),
                  )))))))
      where
        flags : r.tcp_flags % 256 ≡ r.tcp_flags
        flags = omega (arith, h.tcp_flags)

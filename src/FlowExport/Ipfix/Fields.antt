-- ===== src/FlowExport/Ipfix/Fields.antt =====
-- The information elements and templates of backend/nettrace/flowexport/ipfix.py, and `ipaddress`.
use netscope_x.Prelude.{ℕ, Bool, Option, List, [], ◌∷◌, Text, ◌==◌, nat_ord, ◌||◌}
use netscope_x.FlowExport.Bytes.{Bytes}

-- Python's `ipaddress`: the packed form of a text that is an address, and the text of a packed form.
pub record Addresses : Type 0 where
  pub packed : Text → Option Bytes
  pub shown : Bytes → Option Text

abbrev pub src4 : ℕ
src4 = 8

abbrev pub dst4 : ℕ
dst4 = 12

abbrev pub src6 : ℕ
src6 = 27

abbrev pub dst6 : ℕ
dst6 = 28

abbrev pub sport : ℕ
sport = 7

abbrev pub dport : ℕ
dport = 11

abbrev pub proto : ℕ
proto = 4

abbrev pub octets_id : ℕ
octets_id = 1

abbrev pub packets_id : ℕ
packets_id = 2

abbrev pub flags_id : ℕ
flags_id = 6

abbrev pub start_ms : ℕ
start_ms = 152

abbrev pub end_ms : ℕ
end_ms = 153

-- an element and its length; an element of an enterprise, which the decoder writes as -1, is none
abbrev pub Field : Type 0
Field = Option ℕ × ℕ

abbrev pub common_fields : List (ℕ × ℕ)
common_fields =
    (sport, 2)
    ∷ (dport, 2)
    ∷ (proto, 1)
    ∷ (packets_id, 8)
    ∷ (octets_id, 8)
    ∷ (flags_id, 2)
    ∷ (start_ms, 8)
    ∷ (end_ms, 8)
    ∷ []

-- `_V4` and `_V6`
abbrev pub v4_fields : List (ℕ × ℕ)
v4_fields = (src4, 4) ∷ (dst4, 4) ∷ common_fields

abbrev pub v6_fields : List (ℕ × ℕ)
v6_fields = (src6, 16) ∷ (dst6, 16) ∷ common_fields

abbrev pub is_source : ℕ → Bool
is_source ie = ie == src4 || ie == src6

abbrev pub is_destination : ℕ → Bool
is_destination ie = ie == dst4 || ie == dst6

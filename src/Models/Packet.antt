-- ===== src/Models/Packet.antt =====
-- backend/app/models/packet.py
use netscope_x.Prelude.{ℕ, compare, Option, Text, Ord, flip, ◌≡◌, arith}
use Prim.Native.Nat.{Ordering}
use Prim.Native.Nat.Ordering.{lt, eq}

pub data TransportProtocol : Type 0 where
  tcp udp icmp other : TransportProtocol

pub data PacketDirection : Type 0 where
  forward reverse unknown : PacketDirection

-- A valid packet: pydantic has checked the ranges of the ports and of the size.
pub record Packet : Type 0 where
  pub packet_id : Text
  pub capture_id : Text
  pub timestamp : ℕ
  pub src_ip : Text
  pub dst_ip : Text
  pub src_port : Option ℕ
  pub dst_port : Option ℕ
  pub protocol : TransportProtocol
  pub size_bytes : ℕ
  pub direction : PacketDirection
  pub tcp_flags : Option Text

abbrev pub protocol_rank : TransportProtocol → ℕ
protocol_rank tcp = 0
protocol_rank udp = 1
protocol_rank icmp = 2
protocol_rank other = 3

abbrev pub cmp_protocol : TransportProtocol → TransportProtocol → Ordering
cmp_protocol p q = compare (protocol_rank p) (protocol_rank q)

pub cmp_protocol_self : (p : TransportProtocol) → cmp_protocol p p ≡ eq
cmp_protocol_self p = ground arith

pub cmp_protocol-eq : (p q : TransportProtocol) → cmp_protocol p q ≡ eq → p ≡ q
cmp_protocol-eq tcp q h = ground arith
cmp_protocol-eq _ q h = ground arith

pub cmp_protocol-flip : (p q : TransportProtocol) → cmp_protocol q p ≡ flip (cmp_protocol p q)
cmp_protocol-flip p q = ground arith

pub cmp_protocol_trans :
    (p q r : TransportProtocol)
    → cmp_protocol p q ≡ lt
    → cmp_protocol q r ≡ lt
    → cmp_protocol p r ≡ lt
cmp_protocol_trans p q r h k = ground arith

-- protocols are compared only for equality
instance abbrev pub protocol_ord : Ord TransportProtocol
protocol_ord = record {
  cmp = cmp_protocol;
  cmp_self = cmp_protocol_self;
  eq_of_cmp = cmp_protocol-eq;
  cmp_flip = cmp_protocol-flip;
  cmp_trans = cmp_protocol_trans;
}

-- ===== src/Nettrace/Reconstruct/Keys.antt =====
-- `_flow_key` of backend/nettrace/reconstruct.py
use netscope_x.Prelude.{
  ℕ, Option, none, some, Text, ◌≡◌, ap, ◌⊎◌, inl, inr, sorted_pair, sorted_pair_eq,
  sorted_pair_comm, ◌↔◌, nat_ord, list_ord, pair_ord,
}
use netscope_x.Models.Packet.{Packet, TransportProtocol, protocol_ord}

-- an address and a port
abbrev pub Endpoint : Type 0
Endpoint = Text × ℕ

abbrev pub FlowKey : Type 0
FlowKey = (Endpoint × Endpoint) × TransportProtocol

-- `pkt.src_port or 0`
abbrev pub or_zero : Option ℕ → ℕ
or_zero none = 0
or_zero (some n) = n

abbrev pub src_endpoint : Packet → Endpoint
src_endpoint p = (p.src_ip, or_zero p.src_port)

abbrev pub dst_endpoint : Packet → Endpoint
dst_endpoint p = (p.dst_ip, or_zero p.dst_port)

unfoldable pub flow_key : Packet → FlowKey
flow_key p = (sorted_pair (src_endpoint p) (dst_endpoint p), p.protocol)

-- The two endpoints of one packet are those of the other, in the same or in the opposite order (a
-- missing port counts as port 0).
abbrev pub SameEndpoints : Packet → Packet → Type 0
SameEndpoints p q =
    (src_endpoint p ≡ src_endpoint q) × (dst_endpoint p ≡ dst_endpoint q)
    ⊎ (src_endpoint p ≡ dst_endpoint q) × (dst_endpoint p ≡ src_endpoint q)

key_of_same : (p q : Packet) → p.protocol ≡ q.protocol → SameEndpoints p q → flow_key p ≡ flow_key q
unfolding flow_key
key_of_same p q e (inl (s, d)) = cc
key_of_same p q e (inr (s, d)) = cc (sorted_pair_comm (src_endpoint p) (dst_endpoint p))

-- Two packets have one key exactly if they have one protocol and the same two endpoints, in the
-- same or in the opposite order.
pub flow_key_iff :
    (p q : Packet) → (flow_key p ≡ flow_key q) ↔ ((p.protocol ≡ q.protocol) × SameEndpoints p q)
unfolding flow_key
flow_key_iff p q =
    (λ e. (ap (λ k. k.1) e, sorted_pair_eq _ _ _ _ (ap (λ k. k.0) e)), λ h. key_of_same p q h.0 h.1)

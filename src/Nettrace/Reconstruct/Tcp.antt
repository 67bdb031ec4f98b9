-- ===== src/Nettrace/Reconstruct/Tcp.antt =====
-- `_compute_tcp_state` of backend/nettrace/reconstruct.py
use netscope_x.Prelude.{
  Option, none, some, Text, text, String, List, [], ◌∷◌, ◌++◌, ◌≡◌, arith, Bool, true, false, not,
  ◌&&◌, ◌||◌, if◌then◌else◌, ◌==◌, contains, keep_if, nat_ord, list_ord, ◌⊎◌, ◌↔◌, inl, inr, ap,
  any, Bool-cases,
}
use netscope_x.Models.Packet.{Packet, PacketDirection, forward}
use netscope_x.Models.Flow.{TcpState, closing, closed, reset, partial}

-- `s.split(",")`
abbrev pub split_comma : Text → List Text
split_comma [] = [] ∷ []
split_comma (c ∷ s) = elim (split_comma s) [
  | [] ↦ []
  | w ∷ ws ↦ if c == 44 then [] ∷ w ∷ ws else (c ∷ w) ∷ ws
]

abbrev pub is_empty {ℓ} : {A : Type ℓ} → List A → Bool
is_empty [] = true
is_empty (x ∷ xs) = false

abbrev pub flags_text : Option Text → Text
flags_text none = []
flags_text (some s) = s

-- `set((pkt.tcp_flags or "").split(",")) - {""}`
abbrev pub flags_of : Packet → List Text
flags_of p = keep_if (λ w. not (is_empty w)) (split_comma (flags_text p.tcp_flags))

unfoldable pub has_flag : Packet → String → Bool
has_flag p name = contains (flags_of p) (text name)

pub record Handshake : Type 0 where
  pub saw_syn : Bool
  pub established : Bool
  pub fwd_fin : Bool
  pub rev_fin : Bool

abbrev pub is_forward : PacketDirection → Bool
is_forward forward = true
is_forward _ = false

abbrev pub third_leg : Handshake → Bool
third_leg h = h.saw_syn && not h.established && not h.fwd_fin && not h.rev_fin

-- the loop's body after the test for RST
unfoldable pub observe : Handshake → Packet × PacketDirection → Handshake
observe h (p, d) =
    if has_flag p "SYN"
    then record h { saw_syn = true }
    else if has_flag p "FIN"
    then (if is_forward d then record h { fwd_fin = true } else record h { rev_fin = true })
    else if has_flag p "ACK" && third_leg h
    then record h { established = true }
    else h

unfoldable pub final_state : Handshake → TcpState
final_state h =
    if not h.saw_syn || not h.established
    then partial
    else if h.fwd_fin && h.rev_fin
    then closed
    else if h.fwd_fin || h.rev_fin
    then closing
    else TcpState.established

unfoldable pub walk : Handshake → List (Packet × PacketDirection) → TcpState
walk h [] = final_state h
walk h ((p, d) ∷ rest) =
    let next = walk (observe h (p, d)) rest in if has_flag p "RST" then reset else next

abbrev pub listening : Handshake
listening = record { saw_syn = false; established = false; fwd_fin = false; rev_fin = false }

unfoldable pub compute_tcp_state : List (Packet × PacketDirection) → Option TcpState
unfolding walk observe final_state
compute_tcp_state [] = none
compute_tcp_state (x ∷ xs) = some (walk listening (x ∷ xs))

-- What a packet reports has been seen already: a SYN, or a FIN of its direction. (RST ends the walk.)
abbrev pub Seen : Handshake → Packet × PacketDirection → Type 0
Seen h (p, d) =
    (has_flag p "SYN" ≡ true) × (h.saw_syn ≡ true)
    ⊎ (has_flag p "SYN" ≡ false)
      × (has_flag p "FIN" ≡ true)
      × ((if is_forward d then h.fwd_fin else h.rev_fin) ≡ true)

Seen-no_op : (h : Handshake) (x : Packet × PacketDirection) → Seen h x → observe h x ≡ h
unfolding observe
Seen-no_op h (p, d) s = ground arith

-- nothing that was seen is forgotten
Seen-observe : (h : Handshake) (x y : Packet × PacketDirection) → Seen h x → Seen (observe h y) x
unfolding observe
Seen-observe h (p, d) (q, e) s = ground arith

observe-Seen :
    (h : Handshake) (p : Packet) (d : PacketDirection)
    → (has_flag p "SYN" || has_flag p "FIN") ≡ true
    → Seen (observe h (p, d)) (p, d)
unfolding observe
observe-Seen h p d s = ground arith

walk-Seen :
    (h : Handshake) (p : Packet) (d : PacketDirection) (mid rest : List (Packet × PacketDirection))
    → has_flag p "RST" ≡ false
    → Seen h (p, d)
    → walk h (mid ++ (p, d) ∷ rest) ≡ walk h (mid ++ rest)
unfolding walk
walk-Seen h p d [] rest no_rst s = rw (no_rst, Seen-no_op h (p, d) s)
walk-Seen h p d ((q, e) ∷ mid) rest no_rst s =
    ground (arith, walk-Seen (observe h (q, e)) p d mid rest, Seen-observe h (p, d) (q, e))

walk-retransmit :
    (h : Handshake) (p : Packet) (d : PacketDirection)
    (pre mid rest : List (Packet × PacketDirection))
    → (has_flag p "SYN" || has_flag p "FIN" || has_flag p "RST") ≡ true
    → walk h (pre ++ (p, d) ∷ mid ++ (p, d) ∷ rest) ≡ walk h (pre ++ (p, d) ∷ mid ++ rest)
unfolding walk
walk-retransmit h p d [] mid rest s = elim (Bool-cases (has_flag p "RST")) [
  | inl rst ↦ rw rst
  | inr no_rst ↦
      rw no_rst
        (walk-Seen (observe h (p, d)) p d mid rest no_rst (observe-Seen h p d (ground arith)))
]
walk-retransmit h p d ((q, e) ∷ pre) mid rest s =
    ground (arith, walk-retransmit (observe h (q, e)) p d pre mid rest)

-- A retransmission changes nothing: where a packet with SYN, FIN or RST is observed a second time,
-- in the same direction and however much later, the state of the flow is what it is without it.
pub retransmission_no_op :
    (p : Packet) (d : PacketDirection) (pre mid rest : List (Packet × PacketDirection))
    → (has_flag p "SYN" || has_flag p "FIN" || has_flag p "RST") ≡ true
    → compute_tcp_state (pre ++ (p, d) ∷ mid ++ (p, d) ∷ rest)
      ≡ compute_tcp_state (pre ++ (p, d) ∷ mid ++ rest)
unfolding compute_tcp_state
retransmission_no_op p d [] mid rest s = ap some (walk-retransmit listening p d [] mid rest s)
retransmission_no_op p d (x ∷ pre) mid rest s =
    ap some (walk-retransmit listening p d (x ∷ pre) mid rest s)

walk-eq-reset :
    (h : Handshake) (xs : List (Packet × PacketDirection))
    → (walk h xs ≡ reset) ↔ (any (λ x. has_flag x.0 "RST") xs ≡ true)
unfolding walk final_state
walk-eq-reset h [] = ground arith
walk-eq-reset h ((p, d) ∷ rest) = ground (arith, walk-eq-reset (observe h (p, d)) rest)

-- A flow is RESET exactly if one of its packets has RST, wherever it stands.
pub reset_iff :
    (xs : List (Packet × PacketDirection))
    → (compute_tcp_state xs ≡ some reset) ↔ (any (λ x. has_flag x.0 "RST") xs ≡ true)
unfolding compute_tcp_state
reset_iff [] = ground arith
reset_iff (x ∷ xs) = ground (arith, walk-eq-reset listening (x ∷ xs))

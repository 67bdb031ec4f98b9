-- ===== src/Nettrace/Fingerprint.antt =====
-- backend/nettrace/fingerprint.py
use netscope_x.Prelude.{ℕ, Option, none, some, Text, text, [], ◌∷◌, Dict, lookup, pair_ord, nat_ord}
use netscope_x.Models.Packet.{TransportProtocol, tcp, udp, protocol_ord}

abbrev pub well_known_ports : Dict (TransportProtocol × ℕ) Text
well_known_ports =
    ((tcp, 80), text "http")
    ∷ ((tcp, 443), text "tls")
    ∷ ((tcp, 5432), text "postgresql")
    ∷ ((tcp, 6379), text "redis")
    ∷ ((udp, 53), text "dns")
    ∷ []

-- one round of the loop over the ports; `none` goes on
name_of_port : TransportProtocol → Option ℕ → Option Text
unfolding lookup
name_of_port protocol none = none
name_of_port protocol (some port) = lookup (protocol, port) well_known_ports

unfoldable pub fingerprint_protocol : TransportProtocol → Option ℕ → Option ℕ → Option Text
unfolding name_of_port
fingerprint_protocol protocol src_port dst_port = elim (name_of_port protocol dst_port) [
  | some name ↦ some name
  | none ↦ name_of_port protocol src_port
]

-- ===== src/Models/Flow.antt =====
-- backend/app/models/flow.py: a flow, and what pydantic checks when one is built.
use netscope_x.Prelude.{
  ℕ, Bool, true, false, Option, none, some, Text, leb, ◌&&◌, ◌||◌, not, Result, check, ok,
  validation_error, ◌>>◌,
}
use netscope_x.Models.Floats.{Floats}
use netscope_x.Models.Packet.{TransportProtocol, tcp}

pub data TcpState : Type 0 where
  syn_sent established closing closed reset partial : TcpState

pub record FlowFeatures (F : Type 0) : Type 0 where
  pub packet_count : ℕ
  pub byte_count : ℕ
  pub duration_seconds : F
  pub burstiness : F
  pub mean_inter_arrival_seconds : F
  pub forward_byte_ratio : F
  pub destination_diversity : ℕ
  pub port_diversity : ℕ
  pub is_persistent : Bool

pub record Flow (F : Type 0) : Type 0 where
  pub flow_id : Text
  pub capture_id : Text
  pub src_ip : Text
  pub dst_ip : Text
  pub src_port : Option ℕ
  pub dst_port : Option ℕ
  pub protocol : TransportProtocol
  pub first_seen : ℕ
  pub last_seen : ℕ
  pub tcp_state : Option TcpState
  pub fingerprinted_protocol : Option Text
  pub tls_version : Option Text
  pub features : FlowFeatures F

abbrev pub is_some {ℓ} : {A : Type ℓ} → Option A → Bool
is_some none = false
is_some (some a) = true

abbrev pub is_tcp : TransportProtocol → Bool
is_tcp tcp = true
is_tcp _ = false

module _ {F : Type 0} (fl : Floats F) where
  -- the bounds that `Field(ge=..., le=...)` puts on the float fields
  unfoldable pub features_valid : FlowFeatures F → Bool
  features_valid f =
      not (fl.less f.duration_seconds fl.zero_f)
      && not (fl.less f.mean_inter_arrival_seconds fl.zero_f)
      && not (fl.less f.forward_byte_ratio fl.zero_f)
      && not (fl.less fl.one_f f.forward_byte_ratio)

  unfoldable pub last_not_before_first : Flow F → Bool
  last_not_before_first f = leb f.first_seen f.last_seen

  unfoldable pub tcp_state_only_for_tcp : Flow F → Bool
  tcp_state_only_for_tcp f = not (is_some f.tcp_state) || is_tcp f.protocol

  unfoldable pub tls_version_only_for_tcp : Flow F → Bool
  tls_version_only_for_tcp f = not (is_some f.tls_version) || is_tcp f.protocol

  -- `Flow(...)`: a failed check raises pydantic's `ValidationError`
  unfoldable pub build_flow : Flow F → Result (Flow F)
  unfolding features_valid last_not_before_first tcp_state_only_for_tcp tls_version_only_for_tcp
  build_flow f = do
    check (features_valid f.features) validation_error
    check (last_not_before_first f) validation_error
    check (tcp_state_only_for_tcp f) validation_error
    check (tls_version_only_for_tcp f) validation_error
    ok f

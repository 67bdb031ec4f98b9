-- ===== src/Models/Behavior.antt =====
-- backend/app/models/behavior.py: the behavioral fingerprint of a node over a window.
use netscope_x.Prelude.{ℕ, Bool, List, Text, text}

pub data ObservationWindow : Type 0 where
  short medium long : ObservationWindow

-- `window.value`, which also tells the windows apart
abbrev pub window_value : ObservationWindow → Text
window_value short = text "short"
window_value medium = text "medium"
window_value long = text "long"

pub record BehavioralFingerprint (F : Type 0) : Type 0 where
  pub node_id : Text
  pub window : ObservationWindow
  pub computed_at : ℕ
  pub distinct_ports : List ℕ
  pub distinct_protocols : List Text
  pub distinct_destinations : ℕ
  pub mean_flow_duration_seconds : F
  pub outbound_byte_ratio : F
  pub is_persistent_talker : Bool
  pub total_byte_count : ℕ

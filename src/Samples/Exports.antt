-- ===== src/Samples/Exports.antt =====
-- Flow records, and the theorems on their export applied to them.
use netscope_x.Prelude.{
  map, ℕ, ◌+◌, ◌-◌, ◌*◌, ◌/◌, max, none, some, List, [], ◌∷◌, text, ◌==◌, nat_ord, list_ord,
  if◌then◌else◌, leb, length, concat_map, sum_of, ok, raise, Error, ◌≡◌, refl, inl, inr, ◌⊎◌, arith,
}
use netscope_x.FlowExport.Bytes.{Bytes}
use netscope_x.FlowExport.Records.{FlowRecord, Times, records_to_packets}
use netscope_x.FlowExport.Records.Totals.{records_to_packets-totals}
use netscope_x.FlowExport.Ipfix.Fields.{Addresses}
use netscope_x.FlowExport.Ipfix.Encode.{encode, chunks}
use netscope_x.FlowExport.Ipfix.Decode.{decode}
use netscope_x.FlowExport.Failing.{IsDecodeError}
use netscope_x.FlowExport.Ipfix.Errors.{decode-ends}
use netscope_x.FlowExport.NetflowV5.{Clock, decode_format}
use netscope_x.FlowExport.NetflowV5.Errors.{decode_format-ends}
use netscope_x.FlowExport.Ipfix.InOrder.{decode-encode-in_ms}
use netscope_x.FlowExport.Ipfix.RoundTrip.{decode-encode}
use netscope_x.FlowExport.Ipfix.RoundTrip.Cells.{in_ms, IsCarried}
use netscope_x.FlowExport.Ipfix.RoundTrip.Versions.{as_read}

-- times in whole milliseconds
abbrev pub whole_times : Times ℕ
whole_times = record {
  to_ms = λ t. some t;
  of_ms = λ v. some v;
  to_seconds = λ t. some (t / 1000);
  latest = max;
  plus_one = λ t. t + 1000;
  not_later = leb;
  between = λ s e i m. s + (e - s) * i / m;
  instant = λ t. t;
}

abbrev six : Bytes
six = 0 ∷ 0 ∷ 0 ∷ 0 ∷ 0 ∷ 0 ∷ 0 ∷ 0 ∷ 0 ∷ 0 ∷ 0 ∷ 0 ∷ 0 ∷ 0 ∷ 0 ∷ 1 ∷ []

-- two addresses of version 4, and one of version 6
abbrev pub some_ips : Addresses
some_ips = record {
  packed = λ t.
      if t == text "10.0.0.1"
      then some (10 ∷ 0 ∷ 0 ∷ 1 ∷ [])
      else if t == text "10.0.0.2"
      then some (10 ∷ 0 ∷ 0 ∷ 2 ∷ [])
      else if t == text "::1"
      then some six
      else none;
  shown = λ b.
      if b == 10 ∷ 0 ∷ 0 ∷ 1 ∷ []
      then some (text "10.0.0.1")
      else if b == 10 ∷ 0 ∷ 0 ∷ 2 ∷ []
      then some (text "10.0.0.2")
      else if b == six
      then some (text "::1")
      else none;
}

abbrev pub web : FlowRecord ℕ
web = record {
  src_ip = text "10.0.0.1";
  dst_ip = text "10.0.0.2";
  src_port = 40000;
  dst_port = 443;
  protocol = 6;
  packets = 3;
  octets = 1000;
  start = 1000;
  end = 2500;
  tcp_flags = 27;
}

abbrev pub local : FlowRecord ℕ
local = record {
  src_ip = text "::1";
  dst_ip = text "::1";
  src_port = 5353;
  dst_port = 5353;
  protocol = 17;
  packets = 0;
  octets = 70;
  start = 1200;
  end = 1200;
  tcp_flags = 0;
}

records_to_packets-totals_example :
    (sum_of (λ p. p.size_bytes) (records_to_packets whole_times (web ∷ local ∷ []) (text "c"))
      ≡ 1070)
    × (length (records_to_packets whole_times (web ∷ local ∷ []) (text "c")) ≡ 4)
records_to_packets-totals_example =
    records_to_packets-totals whole_times (web ∷ local ∷ []) (text "c")

-- a message header that announces more than there is
abbrev short_message : Bytes
short_message = 0 ∷ 10 ∷ 0 ∷ 40 ∷ 0 ∷ 0 ∷ 0 ∷ 1 ∷ 0 ∷ 0 ∷ 0 ∷ 0 ∷ 0 ∷ 0 ∷ 0 ∷ 1 ∷ []

decode-ends_example :
    ((rs : List (FlowRecord ℕ)) × (decode some_ips whole_times short_message ≡ ok rs))
    ⊎ ((e : Error) × (decode some_ips whole_times short_message ≡ raise e) × IsDecodeError e)
decode-ends_example = decode-ends some_ips whole_times short_message

web-IsCarried : IsCarried some_ips whole_times 4 web
web-IsCarried = record {
  src = record { bytes = 10 ∷ 0 ∷ 0 ∷ 1 ∷ []; packed = refl; long = refl; shown = refl };
  dst = record { bytes = 10 ∷ 0 ∷ 0 ∷ 2 ∷ []; packed = refl; long = refl; shown = refl };
  src_port = omega arith;
  dst_port = omega arith;
  protocol = omega arith;
  packets = omega arith;
  octets = omega arith;
  tcp_flags = omega arith;
  start = record { ms = 1000; rounded = refl; small = omega arith; read = 1000; back = refl };
  end = record { ms = 2500; rounded = refl; small = omega arith; read = 2500; back = refl };
}

local-IsCarried : IsCarried some_ips whole_times 16 local
local-IsCarried = record {
  src = record { bytes = six; packed = refl; long = refl; shown = refl };
  dst = record { bytes = six; packed = refl; long = refl; shown = refl };
  src_port = omega arith;
  dst_port = omega arith;
  protocol = omega arith;
  packets = omega arith;
  octets = omega arith;
  tcp_flags = omega arith;
  start = record { ms = 1200; rounded = refl; small = omega arith; read = 1200; back = refl };
  end = record { ms = 1200; rounded = refl; small = omega arith; read = 1200; back = refl };
}

decode-encode_example :
    (bs : Bytes) × (encode some_ips whole_times (local ∷ web ∷ []) none 1 20 ≡ ok bs)
    × (decode some_ips whole_times bs
        ≡ ok (concat_map (as_read some_ips whole_times) (chunks 20 (local ∷ web ∷ []))))
decode-encode_example =
    decode-encode some_ips whole_times 1 3 (omega arith) (omega arith) local (web ∷ []) none 19
      (inr local-IsCarried, (inl web-IsCarried, tt)) (omega arith) (omega arith) refl

-- the time of a record in whole milliseconds
abbrev clock_time : Clock → ℕ → ℕ
clock_time c t = c.secs * 1000 + c.nsecs / 1000000 + t - c.uptime

decode_format-ends_example :
    ((rs : List (FlowRecord ℕ)) × (decode_format some_ips clock_time whole_times short_message
          (text "v5")
        ≡ ok rs))
    ⊎ ((e : Error) × (decode_format some_ips clock_time whole_times short_message (text "v5")
          ≡ raise e)
        × IsDecodeError e)
decode_format-ends_example =
    decode_format-ends some_ips clock_time whole_times short_message (text "v5")

decode-encode-in_ms_example :
    (bs : Bytes) × (encode some_ips whole_times (web ∷ web ∷ []) none 1 1 ≡ ok bs)
    × (decode some_ips whole_times bs ≡ ok (map (in_ms whole_times) (web ∷ web ∷ [])))
decode-encode-in_ms_example =
    decode-encode-in_ms some_ips whole_times 1 3 web (web ∷ []) none 0 (omega arith) (omega arith)
      (web-IsCarried, (web-IsCarried, tt)) (omega arith) (omega arith) refl

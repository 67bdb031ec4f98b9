-- ===== src/FlowExport/NetflowV5.antt =====
-- `decode` of backend/nettrace/flowexport/netflow_v5.py, and `decode` of __init__.py beside it. A
-- position in the data is the list of the bytes from there on.
pub mod Errors
use netscope_x.Prelude.{
  ℕ, zero, suc, ◌+◌, ◌-◌, ◌*◌, Bool, true, false, not, Option, some, List, [], ◌∷◌, ◌++◌, ◌&&◌,
  ◌||◌, Text, text, ◌==◌, nat_ord, list_ord, if◌then◌else◌, ltb, leb, length, drop, take, Result,
  ok, raise, or_raise, ◌>>=◌, value_error, flow_export_error, out_of_rounds,
}
use netscope_x.FlowExport.Bytes.{Bytes, uint}
use netscope_x.FlowExport.Records.{FlowRecord, Times}
use netscope_x.FlowExport.Ipfix.Fields.{Addresses}
use netscope_x.FlowExport.Ipfix.Decode.{at, decode}

-- what the header says of the times: `uptime`, `secs` and `nsecs`
pub record Clock : Type 0 where
  pub uptime : ℕ
  pub secs : ℕ
  pub nsecs : ℕ

module _ {F : Type 0} (ips : Addresses) (time_of : Clock → ℕ → F) where
  -- One record of 48 bytes. `time_of c t` is `secs + nsecs / 1e9 - (uptime - t) / 1000.0`, and
  -- `IPv4Address` shows any four bytes.
  unfoldable pub record_at : Clock → Bytes → Result (FlowRecord F)
  record_at c b =
      let first = at 24 4 b in
      let last = at 28 4 b in
      if ltb c.uptime first || ltb c.uptime last || ltb last first
      then raise flow_export_error
      else do
        src ← or_raise value_error (ips.shown (take 4 b))
        dst ← or_raise value_error (ips.shown (take 4 (drop 4 b)))
        ok (record {
          src_ip = src;
          dst_ip = dst;
          src_port = at 32 2 b;
          dst_port = at 34 2 b;
          protocol = at 38 1 b;
          packets = at 16 4 b;
          octets = at 20 4 b;
          start = time_of c first;
          end = time_of c last;
          tcp_flags = at 37 1 b;
        })

  -- the loop over the records of a datagram
  unfoldable pub records_at : ℕ → Clock → Bytes → Result (List (FlowRecord F))
  unfolding record_at
  records_at zero c b = ok []
  records_at (suc count) c b = do
    r ← record_at c b
    rs ← records_at count c (drop 48 b)
    ok (r ∷ rs)

  -- the loop over the datagrams, with a round for each byte
  unfoldable pub datagrams : ℕ → Bytes → Result (List (FlowRecord F))
  unfolding records_at
  datagrams rounds [] = ok []
  datagrams zero (x ∷ xs) = raise out_of_rounds
  datagrams (suc rounds) (x ∷ xs) =
      let b = x ∷ xs in
      let count = at 2 2 b in
      let size = 24 + count * 48 in
      if ltb (length b) 24
      then raise flow_export_error
      else if not (at 0 2 b == 5)
      then raise flow_export_error
      else if not (leb 1 count && leb count 30)
      then raise flow_export_error
      else if ltb (length b) size
      then raise flow_export_error
      else do
        rs ←
            records_at count (record { uptime = at 4 4 b; secs = at 8 4 b; nsecs = at 12 4 b })
              (drop 24 b)
        more ← datagrams rounds (drop size b)
        ok (rs ++ more)

  unfoldable pub decode_v5 : Bytes → Result (List (FlowRecord F))
  unfolding datagrams
  decode_v5 [] = raise flow_export_error
  decode_v5 (x ∷ xs) = datagrams (length (x ∷ xs)) (x ∷ xs)

  -- `decode` of the package
  unfoldable pub decode_format : (times : Times F) → Bytes → Text → Result (List (FlowRecord F))
  unfolding decode_v5
  decode_format times b fmt =
      if fmt == text "v5"
      then decode_v5 b
      else if fmt == text "ipfix"
      then decode ips times b
      else raise flow_export_error

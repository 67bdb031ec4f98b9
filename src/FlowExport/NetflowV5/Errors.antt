-- ===== src/FlowExport/NetflowV5/Errors.antt =====
-- How the decoders of backend/nettrace/flowexport fail.
use netscope_x.Prelude.{
  inl, ℕ, zero, suc, ◌+◌, ◌*◌, ◌≤◌, not, List, [], ◌∷◌, ◌&&◌, ◌||◌, Text, text, ◌==◌, nat_ord,
  list_ord, if_split, ltb, leb, length, length-drop, drop, take, ok, raise, Error, or_raise,
  value_error, ◌≡◌, refl, ◌⊎◌, inr, arith,
}
use netscope_x.FlowExport.Bytes.{Bytes}
use netscope_x.FlowExport.Records.{FlowRecord, Times}
use netscope_x.FlowExport.Ipfix.Fields.{Addresses}
use netscope_x.FlowExport.Ipfix.Decode.{at}
use netscope_x.FlowExport.Failing.{IsDecodeError, Fails, bind-Fails, or_raise-Fails, flow, ends}
use netscope_x.FlowExport.Ipfix.Errors.{decode-Fails}
use netscope_x.FlowExport.NetflowV5.{
  Clock, record_at, records_at, datagrams, decode_v5, decode_format,
}

module _ {F : Type 0} (ips : Addresses) (time_of : Clock → ℕ → F) where
  record_at-Fails : (c : Clock) (b : Bytes) → Fails (record_at ips time_of c b)
  unfolding record_at
  record_at-Fails c b =
      if_split Fails
        (ltb c.uptime (at 24 4 b) || ltb c.uptime (at 28 4 b) || ltb (at 28 4 b) (at 24 4 b)) _ _
        (λ e. flow)
        (λ e.
          bind-Fails (or_raise value_error (ips.shown (take 4 b))) _
            (or_raise-Fails value_error (ips.shown (take 4 b)) (inr (inl refl)))
            (λ s p.
              bind-Fails (or_raise value_error (ips.shown (take 4 (drop 4 b)))) _
                (or_raise-Fails value_error (ips.shown (take 4 (drop 4 b))) (inr (inl refl)))
                (λ t q. tt)))

  records_at-Fails : (count : ℕ) (c : Clock) (b : Bytes) → Fails (records_at ips time_of count c b)
  unfolding records_at
  records_at-Fails zero c b = tt
  records_at-Fails (suc count) c b =
      bind-Fails (record_at ips time_of c b) _ (record_at-Fails c b) (λ r p.
        bind-Fails (records_at ips time_of count c (drop 48 b)) _
          (records_at-Fails count c (drop 48 b)) (λ rs q. tt))

  datagrams-Fails :
      (rounds : ℕ) (b : Bytes) → length b ≤ rounds → Fails (datagrams ips time_of rounds b)
  unfolding datagrams
  datagrams-Fails rounds [] h = tt
  datagrams-Fails zero (x ∷ xs) h = absurd (omega (arith, h))
  datagrams-Fails (suc rounds) (x ∷ xs) h =
      let b : Bytes = x ∷ xs in
      let size = 24 + at 2 2 b * 48 in
      let c : Clock = record { uptime = at 4 4 b; secs = at 8 4 b; nsecs = at 12 4 b } in
      if_split Fails (ltb (length b) 24) _ _ (λ e. flow)
        (λ e.
          if_split Fails (not (at 0 2 b == 5)) _ _ (λ e. flow)
            (λ e.
              if_split Fails (not (leb 1 (at 2 2 b) && leb (at 2 2 b) 30)) _ _ (λ e. flow)
                (λ e.
                  if_split Fails (ltb (length b) size) _ _ (λ e. flow)
                    (λ f.
                      bind-Fails (records_at ips time_of (at 2 2 b) c (drop 24 b)) _
                        (records_at-Fails (at 2 2 b) c (drop 24 b))
                        (λ rs p.
                          bind-Fails (datagrams ips time_of rounds (drop size b)) _
                            (datagrams-Fails rounds (drop size b)
                              (omega (arith, h, length-drop size b)))
                            (λ q r. tt))))))

  decode_v5-Fails : (b : Bytes) → Fails (decode_v5 ips time_of b)
  unfolding decode_v5
  decode_v5-Fails [] = flow
  decode_v5-Fails (x ∷ xs) = datagrams-Fails (length (x ∷ xs)) (x ∷ xs) (omega arith)

  decode_format-Fails :
      (times : Times F) (b : Bytes) (fmt : Text) → Fails (decode_format ips time_of times b fmt)
  unfolding decode_format
  decode_format-Fails times b fmt =
      if_split Fails (fmt == text "v5") _ _ (λ e. decode_v5-Fails b)
        (λ e. if_split Fails (fmt == text "ipfix") _ _ (λ f. decode-Fails ips times b) (λ f. flow))

  -- On every input and for every name of a format, `decode` of the package ends: it returns records, or
  -- raises FlowExportError, the ValueError of `ipaddress`, or the OverflowError of a time that is too large
  -- for a float, and nothing else.
  pub decode_format-ends :
      (times : Times F) (b : Bytes) (fmt : Text)
      → ((rs : List (FlowRecord F)) × (decode_format ips time_of times b fmt ≡ ok rs))
        ⊎ ((e : Error) × (decode_format ips time_of times b fmt ≡ raise e) × IsDecodeError e)
  decode_format-ends times b fmt =
      ends (decode_format ips time_of times b fmt) (decode_format-Fails times b fmt)

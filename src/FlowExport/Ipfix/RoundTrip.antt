-- ===== src/FlowExport/Ipfix/RoundTrip.antt =====
-- `decode` of what `encode` of backend/nettrace/flowexport/ipfix.py writes.
pub mod Cells
pub mod Groups
pub mod Sets
pub mod Parts
pub mod Versions
pub mod Messages
pub mod Chunks
use netscope_x.Prelude.{
  ℕ, zero, suc, ◌+◌, ◌-◌, ◌*◌, ◌^◌, ◌≤◌, ◌<◌, Bool, true, false, Option, some, List, [], ◌∷◌, ◌++◌,
  map, length, length-append, length-take, length-drop, All, take, drop, min, sum_of, concat_map,
  Result, ok, raise, or_raise, ◌>>=◌, ◌≡◌, refl, sym, ap, ◌∙◌, arith, struct_error,
}
use mathlib.Core.List.{append_assoc, append-nil, map-append}
use netscope_x.FlowExport.Bytes.{Bytes, to_bytes, to_bytes-fits}
use netscope_x.FlowExport.Records.{FlowRecord, Times}
use netscope_x.FlowExport.Ipfix.Fields.{Addresses}
use netscope_x.FlowExport.Ipfix.Encode.{
  pack, message, messages, chunks_from, chunks, export_time_of, encode,
}
use netscope_x.FlowExport.Ipfix.Decode.{Templates, parse_messages, decode}
use Cells.{in_ms}
use Parts.{IsKnown, known, known-IsKnown}
use Versions.{IsExportable, as_read}
use Messages.{header_bytes, length-header_bytes, Holds, Holds-nil, Holds-message}
use Chunks.{sets_of, length-sets_of, message_sets-bytes, then_known, Reads-sets_of}

module _ {A : Type 0} where
  pub All-take {κ} : (P : A → Type κ) (n : ℕ) (xs : List A) → All P xs → All P (take n xs)
  All-take P zero xs h = tt
  All-take P (suc n) [] h = tt
  All-take P (suc n) (x ∷ xs) (p, h) = (p, All-take P n xs h)

  pub All-drop {κ} : (P : A → Type κ) (n : ℕ) (xs : List A) → All P xs → All P (drop n xs)
  All-drop P zero xs h = h
  All-drop P (suc n) [] h = tt
  All-drop P (suc n) (x ∷ xs) (p, h) = All-drop P n xs h

module _ {F : Type 0} (ips : Addresses) (times : Times F) (domain t : ℕ) (d : domain < 256 ^ 4)
    (e : t < 256 ^ 4) where
  abbrev Good : List (FlowRecord F) → Type 0
  Good chunk = All (IsExportable ips times) chunk × (length chunk ≤ 500)

  message-bytes :
      (seq : ℕ) (first : Bool) (chunk : List (FlowRecord F))
      (h : All (IsExportable ips times) chunk) (s : length chunk ≤ 500)
      → seq < 256 ^ 4
      → let sets = sets_of ips times domain chunk h s first in
        message ips times (some t) seq domain first chunk
        ≡ ok (header_bytes (16 + length sets) t seq domain ++ sets)
  unfolding message pack header_bytes to_bytes
  message-bytes seq first chunk h s q =
      let sets = sets_of ips times domain chunk h s first in
      rw (message_sets-bytes ips times domain chunk h s first) (
        rw
          (to_bytes-fits struct_error 2 (16 + length sets)
            (length-sets_of ips times domain chunk h s first))
          (rw (to_bytes-fits struct_error 4 t e) (
            rw (to_bytes-fits struct_error 4 seq q)
              (rw (to_bytes-fits struct_error 4 domain d) refl))))

  -- the templates are known where the first message is behind
  abbrev Ready : Bool → Templates → Type 0
  Ready first ts = IsKnown domain (then_known domain first ts)

  messages-Holds :
      (seq : ℕ) (first : Bool) (chunks : List (List (FlowRecord F)))
      → All Good chunks
      → seq + sum_of length chunks < 256 ^ 4
      → (bs : Bytes) × (messages ips times (some t) seq domain first chunks ≡ ok bs)
        × (length chunks ≤ length bs)
        × ((ts : Templates)
            → Ready first ts
            → Holds ips times ts bs (concat_map (as_read ips times) chunks))
  unfolding messages
  messages-Holds seq first [] h q = ([], refl, omega arith, λ ts k. Holds-nil ips times ts)
  messages-Holds seq first (chunk ∷ rest) ((g, s), hs) q =
      let (bs, w, n, r) = messages-Holds (seq + length chunk) false rest hs (omega (arith, q)) in
      let sets = sets_of ips times domain chunk g s first in
      let header = header_bytes (16 + length sets) t seq domain in
      let more = length-append (header ++ sets) bs in
      rw (message-bytes seq first chunk g s (omega (arith, q))) (
        rw w (
          _,
          refl,
          omega (
            arith,
            n,
            more,
            length-append header sets,
            length-header_bytes (16 + length sets) t seq domain,
          ),
          λ ts k. rw (append_assoc header sets bs) (
              Holds-message ips times t seq domain sets bs ts (then_known domain first ts)
                (as_read ips times chunk) (concat_map (as_read ips times) rest)
                (length-sets_of ips times domain chunk g s first) d
                (Reads-sets_of ips times domain chunk g s first ts k)
                (r (then_known domain first ts) k)),
        ))

  some_chunk :
      (r : FlowRecord F) (rs : List (FlowRecord F)) (k : ℕ) → 0 < length (chunks (suc k) (r ∷ rs))
  unfolding chunks_from
  some_chunk r rs k = omega arith

  decode-some :
      (bs : Bytes)
      → 0 < length bs
      → decode ips times bs ≡ parse_messages ips times (length bs) [] bs
  unfolding decode
  decode-some [] h = absurd (omega (arith, h))
  decode-some (x ∷ xs) h = refl

  chunks_from-Good :
      (rounds k : ℕ) (rs : List (FlowRecord F))
      → k ≤ 500
      → All (IsExportable ips times) rs
      → All Good (chunks_from rounds k rs)
  unfolding chunks_from
  chunks_from-Good rounds k [] s h = tt
  chunks_from-Good zero k (r ∷ rs) s h = tt
  chunks_from-Good (suc rounds) k (r ∷ rs) s h = (
    (All-take (IsExportable ips times) k (r ∷ rs) h, omega (arith, length-take k (r ∷ rs), s)),
    chunks_from-Good rounds k (drop k (r ∷ rs)) s (All-drop (IsExportable ips times) k (r ∷ rs) h),
  )

  chunks_from-length :
      (rounds k : ℕ) (rs : List (FlowRecord F))
      → sum_of length (chunks_from rounds k rs) ≤ length rs
  unfolding chunks_from
  chunks_from-length rounds k [] = omega arith
  chunks_from-length zero k (r ∷ rs) = omega arith
  chunks_from-length (suc rounds) k (r ∷ rs) = omega (
    arith,
    length-take k (r ∷ rs),
    length-drop k (r ∷ rs),
    chunks_from-length rounds k (drop k (r ∷ rs)),
  )

  -- Records whose two addresses have one version and whose numbers fit their fields are written by
  -- `encode`, and `decode` reads from the bytes each message's records with IPv4 addresses and then those
  -- with IPv6 addresses, as they were but for their times, which are those of the milliseconds written. A
  -- message has at most 500 records, and the number of records, the domain and the export time in seconds
  -- are less than 2 ^ 32.
  pub decode-encode :
      (r : FlowRecord F) (rs : List (FlowRecord F)) (export_time : Option F) (k : ℕ)
      → All (IsExportable ips times) (r ∷ rs)
      → suc k ≤ 500
      → length (r ∷ rs) < 256 ^ 4
      → times.to_seconds (export_time_of ips times export_time r rs) ≡ some t
      → (bs : Bytes) × (encode ips times (r ∷ rs) export_time domain (suc k) ≡ ok bs)
        × (decode ips times bs ≡ ok (concat_map (as_read ips times) (chunks (suc k) (r ∷ rs))))
  unfolding encode
  decode-encode r rs export_time k h s l q =
      let parts = chunks (suc k) (r ∷ rs) in
      let (bs, w, n, f) =
        messages-Holds 0 true parts (chunks_from-Good (length (r ∷ rs)) (suc k) (r ∷ rs) s h)
          (omega (arith, l, chunks_from-length (length (r ∷ rs)) (suc k) (r ∷ rs))) in
      (
        bs,
        ap (λ s. messages ips times s 0 domain true parts) q ∙ w,
        decode-some bs (omega (arith, n, some_chunk r rs k))
            ∙ f [] (known-IsKnown domain []) (length bs) (omega arith),
      )

-- ===== src/FlowExport/Records/Totals.antt =====
-- What the expansion of records into packets preserves.
use netscope_x.Prelude.{
  ℕ, zero, suc, ◌+◌, ◌-◌, ◌*◌, ◌/◌, ◌%◌, ◌<◌, max, false, List, [], ◌∷◌, Text, ◌==◌, ==_iff,
  nat_ord, sort_by, map_index, sum_of, sum_of-append, sum_of-sort_by, concat_map, length, ◌≡◌, refl,
  sym, ap, ◌∙◌, arith,
}
use netscope_x.Models.Packet.{Packet}
use netscope_x.FlowExport.Records.{
  FlowRecord, Times, Staged, packets_of, stage_one, stage_from, stage, by_time, packet_from,
  records_to_packets,
}
use native.Mathlib.Nat.{div-add-mod'}

module _ {F : Type 0} (times : Times F) where
  -- the sizes of the last `left` packets of a record
  sum_of-stage_from :
      (rec : FlowRecord F) (i left : ℕ)
      → i + suc left ≡ packets_of times rec
      → sum_of (λ s. s.size) (stage_from times rec i (suc left))
        ≡ rec.octets / packets_of times rec * suc left + rec.octets % packets_of times rec
  unfolding stage_from stage_one
  sum_of-stage_from rec i zero h = ground (arith, ==_iff i (packets_of times rec - 1))
  sum_of-stage_from rec i (suc left) h =
      let not_last : (i == packets_of times rec - 1) ≡ false =
        ground (arith, ==_iff i (packets_of times rec - 1), h) in
      rw not_last (omega (arith, sum_of-stage_from rec (suc i) left (omega (arith, h))))

  length-stage_from :
      (rec : FlowRecord F) (i left : ℕ) → length (stage_from times rec i left) ≡ left
  unfolding stage_from
  length-stage_from rec i zero = refl
  length-stage_from rec i (suc left) = ap suc (length-stage_from rec (suc i) left)

  sum_of-stage : (rec : FlowRecord F) → sum_of (λ s. s.size) (stage times rec) ≡ rec.octets
  sum_of-stage rec = whole (packets_of times rec) refl (omega arith)
    where
      whole :
          (n : ℕ)
          → packets_of times rec ≡ n
          → 0 < n
          → sum_of (λ s. s.size) (stage_from times rec 0 n) ≡ rec.octets
      whole zero e h = absurd (omega (arith, h))
      whole (suc left) e h =
          sum_of-stage_from rec 0 left (omega (arith, e))
          ∙ ap (λ n. rec.octets / packets_of times rec * n + rec.octets % packets_of times rec)
              (sym e)
          ∙ div-add-mod' rec.octets (packets_of times rec)

  sum_of-concat :
      (f : Staged F → ℕ) (g : FlowRecord F → ℕ) (records : List (FlowRecord F))
      → ((rec : FlowRecord F) → sum_of f (stage times rec) ≡ g rec)
      → sum_of f (concat_map (stage times) records) ≡ sum_of g records
  sum_of-concat f g [] h = refl
  sum_of-concat f g (rec ∷ records) h =
      sum_of-append f (stage times rec) (concat_map (stage times) records)
      ∙ omega (arith, h rec, sum_of-concat f g records h)

  sum_of-map_index :
      (f : Packet → ℕ) (g : Staged F → ℕ) (capture_id : Text) (i : ℕ) (ss : List (Staged F))
      → ((i : ℕ) (s : Staged F) → f (packet_from times capture_id i s) ≡ g s)
      → sum_of f (map_index (packet_from times capture_id) i ss) ≡ sum_of g ss
  sum_of-map_index f g capture_id i [] h = refl
  sum_of-map_index f g capture_id i (s ∷ ss) h =
      omega (arith, h i s, sum_of-map_index f g capture_id (suc i) ss h)

  count_of : {A : Type 0} (xs : List A) → sum_of (λ x. 1) xs ≡ length xs
  count_of [] = refl
  count_of (x ∷ xs) = omega (arith, count_of xs)

  -- Where every time has a datetime and every field is in the range that Packet admits, the packets that
  -- the records expand to have together the octets of the records,
  -- and there are as many as the records count, where a record without packets counts as one.
  pub records_to_packets-totals :
      (records : List (FlowRecord F)) (capture_id : Text)
      → let ps = records_to_packets times records capture_id in
        (sum_of (λ p. p.size_bytes) ps ≡ sum_of (λ r. r.octets) records)
        × (length ps ≡ sum_of (λ r. max r.packets 1) records)
  unfolding records_to_packets packet_from
  records_to_packets-totals records capture_id =
      let staged = concat_map (stage times) records in
      let ordered = sort_by (by_time times) staged in
      (
        sum_of-map_index (λ p. p.size_bytes) (λ s. s.size) capture_id 0 ordered (λ i s. refl)
            ∙ sum_of-sort_by (by_time times) (λ s. s.size) staged
            ∙ sum_of-concat (λ s. s.size) (λ r. r.octets) records sum_of-stage,
        sym (count_of (map_index (packet_from times capture_id) 0 ordered))
            ∙ sum_of-map_index (λ p. 1) (λ s. 1) capture_id 0 ordered (λ i s. refl)
            ∙ sum_of-sort_by (by_time times) (λ s. 1) staged
            ∙ sum_of-concat (λ s. 1) (λ r. max r.packets 1) records
                (λ rec.
                  count_of (stage times rec) ∙ length-stage_from rec 0 (packets_of times rec)),
      )

-- ===== src/Metrics/Collector/Settled.antt =====
-- What becomes of a sample that was recorded: it is counted, lost in a full channel and counted as
-- lost, or still in the channel.
use braunrate.Base.{refl, length-append, [], ◌∷◌, List, length, arith, ap, ℕ, ◌+◌, ◌≡◌}
use braunrate.Base.Int.{ℤ, sub_ℕ}
use braunrate.Base.Float.{Float64}
use braunrate.Metrics.{Hdr, CountsValues}
use braunrate.Metrics.Aggregate.{Sample}
use braunrate.Metrics.Collector.{
  Collector, Action, offering, consuming, dispatching, ending_journey, dropping, apply_sample,
  count_applied, record_dispatch, count_dispatch, record_journey, record_inflight_drop, offer,
  consume, take_next, drain, close, step, run, write_bucket, bucket_start, sample_bucket,
  sent_bucket, new_collector,
}
use braunrate.Metrics.Collector.Buckets.{write_bucket_frame}
use braunrate.Metrics.Collector.Ledger.{
  IsBalanced, run-IsBalanced, new_collector-IsBalanced, drain-IsBalanced, close_all-IsBalanced,
}

-- The samples that were recorded, lost in a full channel or not.
abbrev pub offered {κ} : {W : Type κ} → List (Action W) → ℕ
offered [] = 0
offered (offering _ ∷ actions) = offered actions + 1
offered (_ ∷ actions) = offered actions

offered-∷ {κ} :
    {W : Type κ} (a : Action W) (actions : List (Action W))
    → offered (a ∷ actions) ≡ offered (a ∷ []) + offered actions
offered-∷ (offering s) actions = omega arith
offered-∷ consuming actions = omega arith
offered-∷ (dispatching scheduled dispatch rate inflight) actions = omega arith
offered-∷ (ending_journey scheduled end complete) actions = omega arith
offered-∷ dropping actions = omega arith

module _ {ℓ κ} {H : Type ℓ} {W : Type κ} ⦃h : Hdr H⦄ ⦃f : Float64 W⦄ where
  abbrev settled : Collector H W → ℕ
  settled c = c.completed + c.lost_samples + length c.input

  settled-write_bucket :
      (start : ℕ) (change : _) (c : Collector H W)
      → settled (write_bucket start change c) ≡ settled c
  settled-write_bucket start change c = ap settled (write_bucket_frame start change c)

  settled-apply_sample :
      (s : Sample) (c : Collector H W) → settled (apply_sample s c) ≡ settled c + 1
  unfolding apply_sample count_applied
  settled-apply_sample s c = omega (
    arith,
    settled-write_bucket (bucket_start s.scheduled_at) (sample_bucket s) (count_applied s c),
  )

  settled-take_next :
      (input : List Sample) (c : Collector H W)
      → settled (take_next input (record c { input = input }))
        ≡ settled (record c { input = input })
  settled-take_next [] c = refl
  settled-take_next (s ∷ input) c =
      omega (arith, settled-apply_sample s (record c { input = input }))

  input-apply_sample : (s : Sample) (c : Collector H W) → (apply_sample s c).input ≡ c.input
  unfolding apply_sample count_applied
  input-apply_sample s c =
      ap (λ (d : Collector H W). d.input)
        (write_bucket_frame (bucket_start s.scheduled_at) (sample_bucket s) (count_applied s c))

  -- The consumer's last round leaves nothing in the channel.
  settled-drain :
      (input : List Sample) (c : Collector H W)
      → c.input ≡ input
      → ((drain input c).input ≡ []) × (settled (drain input c) ≡ settled c)
  unfolding drain
  settled-drain [] c e = (e, refl)
  settled-drain (s ∷ rest) c e =
      let taken = record c { input = rest } in
      let (empty, kept) = settled-drain rest (apply_sample s taken) (input-apply_sample s taken) in
      (empty, omega (arith, kept, settled-apply_sample s taken, ap (λ xs. length xs) e))

  settled-step :
      (a : Action W) (c : Collector H W) → settled (step a c) ≡ settled c + offered (a ∷ [])
  unfolding step offer consume record_inflight_drop record_journey record_dispatch count_dispatch
  settled-step (offering s) c = ground (arith, length-append c.input (s ∷ []))
  settled-step consuming c = omega (arith, settled-take_next c.input c)
  settled-step (dispatching scheduled dispatch rate inflight) c = omega (
    arith,
    settled-write_bucket (bucket_start scheduled) (sent_bucket rate)
        (count_dispatch (sub_ℕ dispatch scheduled) inflight c),
  )
  settled-step (ending_journey scheduled end complete) c = omega arith
  settled-step dropping c = omega arith

  settled-run :
      (actions : List (Action W)) (c : Collector H W)
      → settled (run actions c) ≡ settled c + offered actions
  unfolding run
  settled-run [] c = omega arith
  settled-run (a ∷ actions) c =
      omega (arith, settled-run actions (step a c), settled-step a c, offered-∷ a actions)

  -- Whatever the goroutines do and in whatever order, a closed collector is balanced: what the
  -- steps counted, what the seconds counted and what the run counted are the same numbers. Every
  -- sample that was recorded is counted as completed or as lost, and none is left in the channel.
  pub close-run-IsBalanced :
      (laws : CountsValues H) (threshold : ℤ) (capacity : ℕ) (actions : List (Action W))
      → let c = close {H = H} (run actions (new_collector threshold capacity)) in
        IsBalanced c × (c.completed + c.lost_samples ≡ offered actions) × (c.input ≡ [])
  unfolding close new_collector
  close-run-IsBalanced laws threshold capacity actions =
      let start = new_collector threshold capacity in
      let c = run actions start in
      let (empty, kept) = settled-drain c.input c refl in
      let balanced =
        drain-IsBalanced laws c.input c
          (run-IsBalanced laws actions start (new_collector-IsBalanced laws threshold capacity)) in
      (
        close_all-IsBalanced (drain c.input c) balanced,
        omega (arith, kept, settled-run actions start, ap (λ xs. length xs) empty),
        empty,
      )

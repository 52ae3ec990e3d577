-- ===== src/Renderer/Delay/Tick.antt =====
-- companion/src/renderer.rs: what a tick of `write_aligned_inputs` shows.
use beatblock_online.Base.{
  ◌⊎◌, ℕ, ◌+◌, ◌-◌, ◌*◌, ◌^◌, min, ◌≤◌, ◌≡◌, true, Option, some, [], All, Text, lookup,
}
use beatblock_online.Renderer.State.{Single, Manager, BufferedRenderSample, SyncEpoch}
use beatblock_online.Renderer.Epoch.{Anchored, shown_slots, participants_of, resolve_anchors}
use beatblock_online.Renderer.Align
use beatblock_online.Renderer.Align.{
  due_sample, show_score, show_sample, show_slot, rebase, warm_slot, write_warmup_inputs,
}

module _ {F : Type 0} ⦃sg : Single⦄ where
  -- The slots and the anchors of one tick.
  abbrev pub anchored_of : Manager F → Anchored
  anchored_of m =
      resolve_anchors m.render_samples (participants_of (shown_slots m))
        (record { anchors = m.render_anchors; anchor_times = []; anchor_receipts = [] })

  -- What a tick needs before the number of a sample is new in a slot: the epoch is released, since its time
  -- has come. It is the epoch of before the tick, or the time since the receipt of every first note, and so
  -- of the latest one, is at least the delay of every shown slot, with 64 bits. The sample was made no later
  -- after the first note of its source than the tick is after the release.
  pub record IsReleased (now_us : ℕ) (m : Manager F) (shown : Option ℕ) (after : Option SyncEpoch)
      : Type 0 where
    pub epoch : SyncEpoch
    pub opened : after ≡ some (record epoch { released = true })
    pub passed : epoch.release_at_us ≤ now_us
    pub delayed :
        (m.sync_epoch ≡ some epoch)
        ⊎ All
            (λ s.
              All
                (λ t. min (t + s.delay_ms * 1000) (2 ^ 64 - 1) ≤ now_us)
                (anchored_of m).anchor_receipts)
            (shown_slots m)
    pub source : Text
    pub anchor : ℕ
    pub buffered : BufferedRenderSample
    pub anchored : lookup source (anchored_of m).anchor_times ≡ some anchor
    pub due : buffered.sample.run_time_us ≤ anchor + (now_us - epoch.release_at_us)
    pub number : shown ≡ some buffered.sample.sequence

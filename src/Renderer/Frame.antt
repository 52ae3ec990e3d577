-- ===== src/Renderer/Frame.antt =====
-- What `write_aligned_inputs` leaves as it is: the slots and the buffers.
use beatblock_online.Base.{
  ℕ, ◌-◌, ◌≡◌, refl, ◌∙◌, Bool, not, inl, inr, Bool-cases, Option, none, some, List, [], ◌∷◌,
  is_empty, arith,
}
use beatblock_online.Broadcast.{RendererSlot}
use beatblock_online.Renderer.State.{
  Table, Manager, BufferedRenderSample, RenderTap, RenderScoreState, GameplayState, Single,
  SyncEpoch,
}
use beatblock_online.Renderer.Epoch.{shown_slots}
use beatblock_online.Renderer.Align

pub record Kept (F : Type 0) : Type 0 where
  pub slots : List (RendererSlot F)
  pub samples : Table (List BufferedRenderSample)
  pub taps : Table (List RenderTap)
  pub scores : Table (List RenderScoreState)
  pub states : Table (List (GameplayState F))

abbrev pub kept : {F : Type 0} → Manager F → Kept F
kept m = record {
  slots = m.slots;
  samples = m.render_samples;
  taps = m.render_taps;
  scores = m.render_scores;
  states = m.player_states;
}

module _ {F : Type 0} ⦃sg : Single⦄ where
  kept-warm_slot :
      (target : ℕ) (s : RendererSlot F) (m : Manager F) → kept (Align.warm_slot target s m) ≡ kept m
  unfolding Align.warm_slot
  kept-warm_slot target s m = ground arith

  kept-warmup :
      (target : ℕ) (ss : List (RendererSlot F)) (m : Manager F)
      → kept (Align.write_warmup_inputs target ss m) ≡ kept m
  unfolding Align.write_warmup_inputs
  kept-warmup target [] m = refl
  kept-warmup target (s ∷ ss) m =
      kept-warmup target ss (Align.warm_slot target s m) ∙ kept-warm_slot target s m

  kept-show_slot :
      (first : Bool) (elapsed : ℕ) (times : Table ℕ) (s : RendererSlot F) (m : Manager F)
      → kept (Align.show_slot first elapsed times s m) ≡ kept m
  unfolding Align.show_slot Align.show_sample Align.show_score Align.rebase
  kept-show_slot first elapsed times s m = ground arith

  kept-show_slots :
      (first : Bool) (elapsed : ℕ) (times : Table ℕ) (ss : List (RendererSlot F)) (m : Manager F)
      → kept (Align.show_slots first elapsed times ss m) ≡ kept m
  unfolding Align.show_slots
  kept-show_slots first elapsed times [] m = refl
  kept-show_slots first elapsed times (s ∷ ss) m =
      kept-show_slots first elapsed times ss (Align.show_slot first elapsed times s m)
      ∙ kept-show_slot first elapsed times s m

  kept-release :
      (now delay : ℕ) (ss : List (RendererSlot F)) (times : Table ℕ) (o : Option SyncEpoch)
      (m : Manager F)
      → kept (Align.release now delay ss times o m) ≡ kept m
  unfolding Align.release
  kept-release now delay ss times none m = kept-warmup (now - delay) ss m
  kept-release now delay ss times (some e) m = ground (
    arith,
    kept-warmup (now - delay) ss m,
    kept-show_slots (not e.released) (now - e.release_at_us) times ss m,
  )

  pub kept-aligned : (now : ℕ) (m : Manager F) → kept (Align.write_aligned_inputs now m) ≡ kept m
  unfolding Align.write_aligned_inputs
  kept-aligned now m = elim (Bool-cases (is_empty (shown_slots m))) [
    | inl nobody ↦ rw nobody refl
    | inr shown ↦ rw shown (kept-release now _ _ _ _ _)
  ]

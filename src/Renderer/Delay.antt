-- ===== src/Renderer/Delay.antt =====
-- companion/src/renderer.rs: how long `write_aligned_inputs` holds a sample back.
pub mod Tick
use beatblock_online.Base.{
  ◌⊎◌, refl, sym, text_eq, if◌then◌else◌, delete, lookup-put, lookup-delete, text_eq_iff, ℕ, find,
  ◌+◌, ◌-◌, ◌*◌, ◌^◌, min, ◌≤◌, ◌≡◌, subst, inl, inr, Bool, true, ◌||◌, Bool-cases, Option, none,
  some, List, [], ◌∷◌, All, leb, reverse, is_none, Text, lookup, saturating_add, arith,
}
use beatblock_online.Broadcast.{RendererSlot}
use beatblock_online.Renderer.State.{
  Single, Manager, Table, BufferedRenderSample, SyncEpoch, find_last,
}
use beatblock_online.Renderer.Buffers.{buffer_of}
use beatblock_online.Renderer.Epoch.{Anchored, next_epoch, of_others, common_delay_us, latest}
use beatblock_online.Render.{RenderSample}
use beatblock_online.Renderer.Align.{
  due_sample, show_score, show_sample, show_slot, show_slots, rebase, warm_slot,
  write_warmup_inputs,
}

find-holds : {A : Type 0} (p : A → Bool) (xs : List A) (x : A) → find p xs ≡ some x → p x ≡ true
find-holds p [] x h = ground arith
find-holds p (y ∷ ys) x h = elim (Bool-cases (p y)) [
  | inl e ↦ ground (arith, h, e)
  | inr e ↦ ground (arith, h, e, find-holds p ys x)
]

latest-All :
    (d bound : ℕ) (ts : List ℕ)
    → min (latest ts + d) (2 ^ 64 - 1) ≤ bound
    → All (λ t. min (t + d) (2 ^ 64 - 1) ≤ bound) ts
unfolding latest
latest-All d bound [] h = tt
latest-All d bound (t ∷ ts) h = (omega (arith, h), latest-All d bound ts (omega (arith, h)))

module _ {F : Type 0} where
  common_delay-All :
      (bound : ℕ) (ts : List ℕ) (slots : List (RendererSlot F))
      → min (latest ts + common_delay_us slots) (2 ^ 64 - 1) ≤ bound
      → All (λ s. All (λ t. min (t + s.delay_ms * 1000) (2 ^ 64 - 1) ≤ bound) ts) slots
  unfolding common_delay_us
  common_delay-All bound ts [] h = tt
  common_delay-All bound ts (s ∷ ss) h = (
    latest-All (s.delay_ms * 1000) bound ts (omega (arith, h)),
    common_delay-All bound ts ss (omega (arith, h)),
  )

  -- The delays of the slots that an epoch opened for.
  pub opened-All :
      (now_us : ℕ) (slots : List (RendererSlot F)) (participants : List Text) (x : Anchored)
      (epoch : Option SyncEpoch) (e : SyncEpoch)
      → is_none epoch || of_others participants epoch ≡ true
      → next_epoch now_us (common_delay_us slots) participants x epoch ≡ some e
      → All
          (λ s.
            All (λ t. min (t + s.delay_ms * 1000) (2 ^ 64 - 1) ≤ e.release_at_us) x.anchor_receipts)
          slots
  unfolding next_epoch
  opened-All now_us slots participants x epoch e fresh opened =
      common_delay-All e.release_at_us x.anchor_receipts slots (ground arith)

  due_sample-le :
      (elapsed a : ℕ) (times : Table ℕ) (id : Text) (m : Manager F) (b : BufferedRenderSample)
      → lookup id times ≡ some a
      → due_sample elapsed times id m ≡ some b
      → b.sample.run_time_us ≤ a + elapsed
  unfolding due_sample
  due_sample-le elapsed a times id m b at due = ground (
    arith,
    find-holds (λ b. leb b.sample.run_time_us (saturating_add a elapsed))
        (reverse (buffer_of id m.render_samples)) b
        (subst
          (λ o.
            elim o [
              | none ↦ none
              | some t ↦
                  find_last (λ b. leb b.sample.run_time_us (saturating_add t elapsed))
                    (buffer_of id m.render_samples)
            ]
            ≡ some b)
          at due),
  )

-- A sequence number that a slot shows in a tick, `elapsed` microseconds after the release: the one that it
-- showed before, or that of a sample made no later than that after the first note of its source.
abbrev pub IsDue : ℕ → Table ℕ → Option ℕ → Option ℕ → Type 0
IsDue elapsed times old new =
    (new ≡ old)
    ⊎ (id : Text) × (a : ℕ) × (b : BufferedRenderSample) × (lookup id times ≡ some a)
      × (b.sample.run_time_us ≤ a + elapsed)
      × (new ≡ some b.sample.sequence)

IsDue-trans :
    (elapsed : ℕ) (times : Table ℕ) (x y z : Option ℕ)
    → IsDue elapsed times x y
    → IsDue elapsed times y z
    → IsDue elapsed times x z
IsDue-trans elapsed times x y z h (inr k) = inr k
IsDue-trans elapsed times x y z h (inl e) = subst (λ o. IsDue elapsed times x o) (sym e) h

module _ {F : Type 0} ⦃sg : Single⦄ where
  sample_cursors-show_score :
      (slot_id id : Text) (sample : RenderSample) (m : Manager F)
      → (show_score slot_id id sample m).sample_cursors ≡ m.sample_cursors
  unfolding show_score
  sample_cursors-show_score slot_id id sample m = ground arith

  lookup-show_sample :
      (k : Text) (first : Bool) (slot : RendererSlot F) (id : Text) (b : BufferedRenderSample)
      (page : List ℕ) (m : Manager F)
      → lookup k (show_sample first slot id b page m).sample_cursors
        ≡ (if text_eq slot.id k then some b.sample.sequence else lookup k m.sample_cursors)
  unfolding show_sample rebase
  lookup-show_sample k first slot id b page m = rw sample_cursors-show_score (
      ground (
        arith,
        lookup-put slot.id k b.sample.sequence m.sample_cursors,
        lookup-put slot.id k b.sample.sequence (delete slot.id m.sample_cursors),
        lookup-delete slot.id k m.sample_cursors,
        text_eq_iff slot.id k,
      ))

  due_sample-none :
      (elapsed : ℕ) (times : Table ℕ) (id : Text) (m : Manager F)
      → lookup id times ≡ none
      → due_sample elapsed times id m ≡ none
  unfolding due_sample
  due_sample-none elapsed times id m absent = ground (arith, absent)

  -- A slot whose source has a sample that is due, and a page.
  show_sample-IsDue :
      (k : Text) (first : Bool) (elapsed : ℕ) (times : Table ℕ) (slot : RendererSlot F) (id : Text)
      (b : BufferedRenderSample) (page : List ℕ) (m : Manager F) (t : Option ℕ)
      → lookup id times ≡ t
      → due_sample elapsed times id m ≡ some b
      → IsDue elapsed times
          (lookup k m.sample_cursors)
          (lookup k (show_sample first slot id b page m).sample_cursors)
  show_sample-IsDue k first elapsed times slot id b page m none at due =
      absurd (ground (arith, due_sample-none elapsed times id m at, due))
  show_sample-IsDue k first elapsed times slot id b page m (some a) at due =
      elim (Bool-cases (text_eq slot.id k)) [
        | inl this ↦ inr (
          id,
          a,
          b,
          at,
          due_sample-le elapsed a times id m b at due,
          ground (arith, lookup-show_sample k first slot id b page m, this),
        )
        | inr other ↦ inl (ground (arith, lookup-show_sample k first slot id b page m, other))
      ]

  show_slot-IsDue :
      (k : Text) (first : Bool) (elapsed : ℕ) (times : Table ℕ) (slot : RendererSlot F)
      (m : Manager F) (o : Option Text)
      → slot.participant_id ≡ o
      → IsDue elapsed times
          (lookup k m.sample_cursors)
          (lookup k (show_slot first elapsed times slot m).sample_cursors)
  unfolding show_slot
  show_slot-IsDue k first elapsed times slot m none e = inl (ground (arith, e))
  show_slot-IsDue k first elapsed times slot m (some id) e =
      rw e (by_sample (due_sample elapsed times id m) (lookup slot.id m.input_maps) refl)
    where
      by_sample :
          (d : Option BufferedRenderSample) (pages : Option (List ℕ))
          → due_sample elapsed times id m ≡ d
          → IsDue elapsed times (lookup k m.sample_cursors) (
              lookup k
                (elim d as (λ _. Manager F) [
                  | none ↦ m
                  | some b ↦ elim pages as (λ _. Manager F) [
                    | none ↦ m
                    | some page ↦ show_sample first slot id b page m
                  ]
                ]).sample_cursors)
      by_sample none pages due = inl refl
      by_sample (some b) none due = inl refl
      by_sample (some b) (some page) due =
          show_sample-IsDue k first elapsed times slot id b page m (lookup id times) refl due

  pub show_slots-IsDue :
      (k : Text) (first : Bool) (elapsed : ℕ) (times : Table ℕ) (slots : List (RendererSlot F))
      (m : Manager F)
      → IsDue elapsed times
          (lookup k m.sample_cursors)
          (lookup k (show_slots first elapsed times slots m).sample_cursors)
  unfolding show_slots
  show_slots-IsDue k first elapsed times [] m = inl refl
  show_slots-IsDue k first elapsed times (s ∷ ss) m =
      let next = show_slot first elapsed times s m in
      IsDue-trans elapsed times _ _ _
        (show_slot-IsDue k first elapsed times s m s.participant_id refl)
        (show_slots-IsDue k first elapsed times ss next)

  pub sync_epoch-show_slots :
      (first : Bool) (elapsed : ℕ) (times : Table ℕ) (slots : List (RendererSlot F)) (m : Manager F)
      → (show_slots first elapsed times slots m).sync_epoch ≡ m.sync_epoch
  unfolding show_slots show_slot show_sample show_score rebase
  sync_epoch-show_slots first elapsed times [] m = refl
  sync_epoch-show_slots first elapsed times (s ∷ ss) m =
      ground
        (arith, sync_epoch-show_slots first elapsed times ss (show_slot first elapsed times s m))

  pub warmup-sample_cursors :
      (target : ℕ) (slots : List (RendererSlot F)) (m : Manager F)
      → (write_warmup_inputs target slots m).sample_cursors ≡ m.sample_cursors
  unfolding write_warmup_inputs warm_slot
  warmup-sample_cursors target [] m = refl
  warmup-sample_cursors target (s ∷ ss) m =
      ground (arith, warmup-sample_cursors target ss (warm_slot target s m))

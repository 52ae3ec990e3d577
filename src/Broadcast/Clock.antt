-- ===== src/Broadcast/Clock.antt =====
-- The slot that keeps the clock of the automatic audio.
use Prim.Native.Nat.{max}
use beatblock_online.Base.{
  ◌+◌, ◌*◌, take, length, from_le_bytes, ℕ, ◌≡◌, refl, ◌⊎◌, inl, inr, ◌<◌, ◌^◌, ◌&&◌, Bool, true,
  false, Option, none, some, List, [], ◌∷◌, map, find, Text, All, arith, from_le_bytes-take-lt, ap,
  IsByte,
}
use beatblock_online.Broadcast.{
  RendererSlot, BroadcastSlotPlan, BroadcastPlan, from_slots, slot_plan, render_source_id, id_of,
  source_of,
}

-- The slots of a plan that may keep the clock.
abbrev pub keeps_clock : BroadcastSlotPlan → Bool
keeps_clock s = s.active && s.featured

abbrev pub plan_id : Option BroadcastSlotPlan → Option Text
plan_id none = none
plan_id (some s) = some s.id

-- The first four bytes of a digest as one number, with the lowest first.
abbrev pub word : List ℕ → ℕ
word (a ∷ b ∷ c ∷ d ∷ rest) = a + 256 * b + 65536 * c + 16777216 * d
word _ = 0

-- The id of a participant's samples: from the digest of the participant, but not 0.
abbrev pub HasSource : (Text → List ℕ) → BroadcastSlotPlan → Type 0
HasSource sha256 s =
    (s.participant_id ≡ none) × (s.render_source_id ≡ none)
    ⊎ (id : Text) × (n : ℕ) × (s.participant_id ≡ some id)
      × (s.render_source_id ≡ some n)
      × ((n ≡ word (sha256 id)) × (0 < n) ⊎ (word (sha256 id) ≡ 0) × (n ≡ 1))
      × (n < 2 ^ 32)

-- What the plan shows of a slot.
pub record IsShown {F : Type 0} (s : RendererSlot F) (p : BroadcastSlotPlan) : Type 0 where
  pub id : p.id ≡ s.id
  pub participant :
      (p.participant_id ≡ s.participant_id) × (p.participant_name ≡ s.participant_name)
  pub picture : (p.mode ≡ s.mode) × (p.width ≡ s.width) × (p.height ≡ s.height) × (p.fps ≡ s.fps)
  pub timing : (p.delay_ms ≡ s.delay_ms) × (p.featured ≡ s.featured) × (p.active ≡ s.active)

-- Slot by slot.
pub data AreShown {F : Type 0} : List (RendererSlot F) → List BroadcastSlotPlan → Type 0 where
  none_shown : AreShown [] []
  one_shown :
      {s : RendererSlot F} {p : BroadcastSlotPlan} {ss : List (RendererSlot F)}
      {ps : List BroadcastSlotPlan}
      → IsShown s p
      → AreShown ss ps
      → AreShown (s ∷ ss) (p ∷ ps)

-- What a receiver of a plan may rely on.
pub record IsPlan {F : Type 0} (sha256 : Text → List ℕ) (slots : List (RendererSlot F))
    (autoplay : Bool) (p : BroadcastPlan) : Type 0 where
  pub clock :
      (autoplay ≡ false) × (p.autoplay_audio_enabled ≡ none) × (p.autoplay_clock_slot ≡ none)
      ⊎ (autoplay ≡ true)
        × (p.autoplay_audio_enabled ≡ some true)
        × (p.autoplay_clock_slot ≡ plan_id (find keeps_clock p.slots))
  pub sources : All (HasSource sha256) p.slots
  pub shown : AreShown slots p.slots

word-take : (bs : List ℕ) → length bs ≡ 32 → from_le_bytes (take 4 bs) ≡ word bs
word-take [] h = absurd (omega (arith, h))
word-take (a ∷ []) h = absurd (omega (arith, h))
word-take (a ∷ b ∷ []) h = absurd (omega (arith, h))
word-take (a ∷ b ∷ c ∷ []) h = absurd (omega (arith, h))
word-take (a ∷ b ∷ c ∷ d ∷ bs) h = omega arith

max_one : (w n : ℕ) → max w 1 ≡ n → (n ≡ w) × (0 < n) ⊎ (w ≡ 0) × (n ≡ 1)
max_one w n h = ground (arith, h)

module _ {F : Type 0} (sha256 : Text → List ℕ) where
  plan_id-find :
      (slots : List (RendererSlot F))
      → id_of sha256 (find (λ s. s.active && s.featured) slots)
        ≡ plan_id (find keeps_clock (map (slot_plan sha256) slots))
  unfolding slot_plan
  plan_id-find [] = refl
  plan_id-find (s ∷ slots) = ground (arith, plan_id-find slots)

  slot_plan-HasSource :
      ((id : Text) → All IsByte (sha256 id))
      → ((id : Text) → length (sha256 id) ≡ 32)
      → (s : RendererSlot F) → HasSource sha256 (slot_plan sha256 s)
  unfolding slot_plan render_source_id
  slot_plan-HasSource sha long s = source_case s.participant_id refl
    where
      source_case : (o : Option Text) → s.participant_id ≡ o → HasSource sha256 (slot_plan sha256 s)
      source_case none e = inl (e, ap (source_of sha256) e)
      source_case (some id) e = inr (
        id,
        render_source_id sha256 id,
        e,
        ap (source_of sha256) e,
        max_one (word (sha256 id)) (render_source_id sha256 id)
            (omega (arith, word-take (sha256 id) (long id))),
        omega (arith, from_le_bytes-take-lt 4 (sha256 id) (sha id)),
      )

  map-HasSource :
      ((id : Text) → All IsByte (sha256 id))
      → ((id : Text) → length (sha256 id) ≡ 32)
      → (slots : List (RendererSlot F)) → All (HasSource sha256) (map (slot_plan sha256) slots)
  map-HasSource sha long [] = tt
  map-HasSource sha long (s ∷ slots) =
      (slot_plan-HasSource sha long s, map-HasSource sha long slots)

  map-AreShown : (slots : List (RendererSlot F)) → AreShown slots (map (slot_plan sha256) slots)
  unfolding slot_plan
  map-AreShown [] = none_shown
  map-AreShown (s ∷ slots) =
      one_shown
        (record {
          id = refl;
          participant = (refl, refl);
          picture = (refl, refl, refl, refl);
          timing = (refl, refl, refl);
        })
        (map-AreShown slots)

  -- If SHA-256 yields 32 bytes, the plan shows the slots one by one as they are; with automatic audio, and
  -- only then, it has a clock, the id of its first active and featured slot; and exactly the slots with a
  -- participant have a source id, the first four bytes of the participant's digest or else 1, in 32 bits.
  pub from_slots-IsPlan :
      ((id : Text) → All IsByte (sha256 id))
      → ((id : Text) → length (sha256 id) ≡ 32)
      → (revision now : ℕ) (slots : List (RendererSlot F)) (autoplay : Bool)
      → IsPlan sha256 slots autoplay (from_slots sha256 revision now slots autoplay)
  unfolding from_slots
  from_slots-IsPlan sha long revision now slots true = record {
    clock = inr (refl, refl, plan_id-find slots);
    sources = map-HasSource sha long slots;
    shown = map-AreShown slots;
  }
  from_slots-IsPlan sha long revision now slots false = record {
    clock = inl (refl, refl, refl);
    sources = map-HasSource sha long slots;
    shown = map-AreShown slots;
  }

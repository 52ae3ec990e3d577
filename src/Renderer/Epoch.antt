-- ===== src/Renderer/Epoch.antt =====
-- companion/src/renderer.rs: the tests of `write_aligned_inputs` that decide what may be shown. The
-- samples of all participants are held back until everybody has reached their first note and the
-- longest delay of a slot has passed, and are then shown in step.
use Prim.Native.Nat.{max, Ordering}
use beatblock_online.Base.{
  ℕ, ◌*◌, ◌%◌, Bool, true, false, not, ◌&&◌, Option, none, some, List, [], ◌∷◌, ◌++◌, if◌then◌else◌,
  ◌==◌, length, retain, find, is_none, Text, text, text_eq, text_cmp, lookup, put, contains,
  saturating_add,
}
use beatblock_online.Broadcast.{RendererSlot}
use beatblock_online.Renderer.State.{
  Single, Manager, Table, BufferedRenderSample, RenderAnchor, SyncEpoch, autoplay_slot,
}
use beatblock_online.Renderer.Buffers.{buffer_of}

abbrev pub flag_playing : ℕ → Bool
flag_playing flags = flags % 2 == 1

-- The members of a set in order.
unfoldable pub insert_participant : Text → List Text → List Text
insert_participant id [] = id ∷ []
insert_participant id (p ∷ ps) =
    let rest = insert_participant id ps in
    elim (text_cmp id p) [
      | Ordering.lt ↦ id ∷ p ∷ ps
      | Ordering.eq ↦ p ∷ ps
      | Ordering.gt ↦ p ∷ rest
    ]

unfoldable pub texts_eq : List Text → List Text → Bool
texts_eq [] [] = true
texts_eq [] (q ∷ qs) = false
texts_eq (p ∷ ps) [] = false
texts_eq (p ∷ ps) (q ∷ qs) = text_eq p q && texts_eq ps qs

unfoldable pub latest : List ℕ → ℕ
latest [] = 0
latest (t ∷ ts) = max t (latest ts)

module _ {F : Type 0} where
  -- The active slots that are not parked, and the copy of the featured one for the automatic mix.
  abbrev pub mixed : RendererSlot F → RendererSlot F
  mixed featured = record featured {
    id = autoplay_slot;
    participant_name = some (text "Autoplay Mix");
    featured = false;
    audio_isolation = none;
  }

  unfoldable pub shown_slots : Manager F → List (RendererSlot F)
  shown_slots m =
      let slots = retain (λ s. s.active && not (contains m.awaiting_run_start s.id)) m.slots in
      if m.autoplay.enabled && not (contains m.awaiting_run_start autoplay_slot)
      then elim (find (λ s. s.featured) slots) [
        | none ↦ slots
        | some featured ↦ slots ++ mixed featured ∷ []
      ]
      else slots

  unfoldable pub common_delay_us : List (RendererSlot F) → ℕ
  common_delay_us [] = 0
  common_delay_us (s ∷ ss) = max (s.delay_ms * 1000) (common_delay_us ss)

  unfoldable pub participants_of : List (RendererSlot F) → List Text
  unfolding insert_participant
  participants_of [] = []
  participants_of (s ∷ ss) = elim s.participant_id [
    | none ↦ participants_of ss
    | some id ↦ insert_participant id (participants_of ss)
  ]

-- The anchors, the time of each participant's first note at the source, and the times of receipt.
pub record Anchored : Type 0 where
  pub anchors : Table RenderAnchor
  pub anchor_times : Table ℕ
  pub anchor_receipts : List ℕ

module _ ⦃sg : Single⦄ where
  abbrev pub anchored_at : RenderAnchor → Option BufferedRenderSample → RenderAnchor
  anchored_at a none = a
  anchored_at a (some b) = record a {
    source_time_us = some b.sample.run_time_us;
    received_at_us = some b.received_at_us;
  }

  unfoldable pub resolve_anchor : List BufferedRenderSample → RenderAnchor → RenderAnchor
  resolve_anchor buffer a =
      if is_none a.source_time_us
      then anchored_at a (
          find (λ b. flag_playing b.sample.flags && sg.reaches b.sample.beat a.first_note_beat)
            buffer)
      else a

  abbrev pub with_times : Text → Option ℕ → Option ℕ → Anchored → Anchored
  with_times id (some source) (some receipt) x = record x {
    anchor_times = put id source x.anchor_times;
    anchor_receipts = receipt ∷ x.anchor_receipts;
  }
  with_times id _ _ x = x

  abbrev pub resolve_one :
      Table (List BufferedRenderSample) → Text → Option RenderAnchor → Anchored → Anchored
  resolve_one samples id none x = x
  resolve_one samples id (some a) x =
      let resolved = resolve_anchor (buffer_of id samples) a in
      with_times id resolved.source_time_us resolved.received_at_us
        (record x { anchors = put id resolved x.anchors })

  -- The loop over the participants.
  unfoldable pub resolve_anchors :
      Table (List BufferedRenderSample) → List Text → Anchored → Anchored
  unfolding resolve_anchor
  resolve_anchors samples [] x = x
  resolve_anchors samples (id ∷ ids) x =
      resolve_anchors samples ids (resolve_one samples id (lookup id x.anchors) x)

abbrev pub of_others : List Text → Option SyncEpoch → Bool
of_others participants none = false
of_others participants (some e) = not (texts_eq e.participants participants)

abbrev pub receipts_or : ℕ → List ℕ → ℕ
receipts_or now_us [] = now_us
receipts_or now_us (t ∷ ts) = latest (t ∷ ts)

-- The epoch after the tests of this tick.
unfoldable pub next_epoch : ℕ → ℕ → List Text → Anchored → Option SyncEpoch → Option SyncEpoch
unfolding texts_eq latest
next_epoch now_us delay participants x epoch =
    let current : Option SyncEpoch = if of_others participants epoch then none else epoch in
    if is_none current && length x.anchor_times == length participants
    then some (record {
      participants = participants;
      release_at_us = saturating_add (receipts_or now_us x.anchor_receipts) delay;
      released = false;
    })
    else current

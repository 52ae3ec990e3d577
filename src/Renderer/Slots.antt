-- ===== src/Renderer/Slots.antt =====
-- companion/src/renderer.rs: the configuration of the slots. What the file system answers is an
-- argument. Ending a child process changes nothing here.
use beatblock_online.Base.{
  ℕ, suc, Bool, true, false, not, ◌&&◌, ◌||◌, Option, none, some, List, [], ◌∷◌, map, if◌then◌else◌,
  leb, ◌==◌, Text, text_eq, eq_ignore_ascii_case, to_ascii_uppercase, lookup, put, delete, clamp,
  replicate, is_some, modify_at,
}
use beatblock_online.Float.{Float}
use beatblock_online.Broadcast.{RendererMode, full, clean, RendererSlot}
use beatblock_online.Renderer.State.{Manager, Table}

pub record RendererRequest : Type 0 where
  pub participant_id : Option Text
  pub participant_name : Option Text
  pub mode : Option RendererMode
  pub width : Option ℕ
  pub height : Option ℕ
  pub fps : Option ℕ
  pub delay_ms : Option ℕ
  pub featured : Option Bool

-- What the file system answers in one call.
pub record Disk : Type 0 where
  pub has_frame_file : Bool
  pub frame_ring : Bool
  pub input_map : Bool
  pub score_map : Bool

pub data ConfigureError : Type 0 where
  unknown_slot bad_width bad_height bad_fps frame_ring_failed : ConfigureError
  input_map_failed score_map_failed : ConfigureError

abbrev pub non_empty : Text → Option Text
non_empty [] = none
non_empty (c ∷ s) = some (c ∷ s)

abbrev pub assigned : Option Text → Option Text → Option Text
assigned none old = old
assigned (some new) old = non_empty new

abbrev pub or_old : {A : Type 0} → Option A → A → A
or_old none old = old
or_old (some new) old = new

abbrev pub clamped : Option ℕ → ℕ → ℕ
clamped none old = old
clamped (some delay) old = clamp delay 250 1500

abbrev pub out_of_range : ℕ → ℕ → Option ℕ → Bool
out_of_range lo hi none = false
out_of_range lo hi (some n) = not (leb lo n && leb n hi)

abbrev pub wrong_fps : Option ℕ → Bool
wrong_fps none = false
wrong_fps (some n) = not (n == 30) && not (n == 60)

-- The first test that a request fails.
unfoldable pub request_error : RendererRequest → Option ConfigureError
request_error q =
    if out_of_range 320 1920 q.width
    then some bad_width
    else if out_of_range 180 1080 q.height
    then some bad_height
    else if wrong_fps q.fps
    then some bad_fps
    else none

unfoldable pub mode_eq : RendererMode → RendererMode → Bool
mode_eq full full = true
mode_eq full clean = false
mode_eq clean full = false
mode_eq clean clean = true

unfoldable pub option_text_eq : Option Text → Option Text → Bool
option_text_eq none none = true
option_text_eq none (some t) = false
option_text_eq (some s) none = false
option_text_eq (some s) (some t) = text_eq s t

module _ {F : Type 0} where
  -- The candidate, of a request that passes the tests.
  unfoldable pub candidate : RendererRequest → RendererSlot F → RendererSlot F
  candidate q s =
      let participant_id = assigned q.participant_id s.participant_id in
      record s {
        participant_id = participant_id;
        participant_name = assigned q.participant_name s.participant_name;
        mode = or_old q.mode s.mode;
        width = or_old q.width s.width;
        height = or_old q.height s.height;
        fps = or_old q.fps s.fps;
        delay_ms = clamped q.delay_ms s.delay_ms;
        active = is_some participant_id;
      }

  unfoldable pub render_changed : RendererSlot F → RendererSlot F → Bool
  unfolding option_text_eq mode_eq
  render_changed old new =
      not (option_text_eq old.participant_id new.participant_id)
      || not (mode_eq old.mode new.mode)
      || not (old.width == new.width)
      || not (old.height == new.height)
      || not (old.fps == new.fps)
      || not (old.delay_ms == new.delay_ms)

module _ {F : Type 0} ⦃fl : Float F⦄ where
  unfoldable pub fresh_frames : RendererSlot F → RendererSlot F
  fresh_frames s = record s {
    healthy = false;
    last_frame_at_ms = none;
    last_error = none;
    frame_sequence = 0;
    dropped_frames = 0;
    actual_fps = fl.of_u64 0;
  }

  -- The slot that is published.
  unfoldable pub configured : RendererRequest → RendererSlot F → RendererSlot F
  unfolding candidate render_changed fresh_frames
  configured q s = let new = candidate q s in if render_changed s new then fresh_frames new else new

module _ {F : Type 0} where
  -- The cursors and the epoch of a slot whose rendering changes.
  unfoldable pub forget_cursors : Text → Manager F → Manager F
  forget_cursors id m = record m {
    input_sources = delete id m.input_sources;
    tap_cursors = delete id m.tap_cursors;
    sample_cursors = delete id m.sample_cursors;
    score_cursors = delete id m.score_cursors;
    sync_epoch = none;
  }

-- `reset_input_map` and `reset_score_map`: a page that is mapped is cleared in place, else it is made.
unfoldable pub reset_page : ℕ → Bool → Text → Table (List ℕ) → Table (List ℕ)
reset_page size succeeds key maps = elim (lookup key maps) [
  | none ↦ if succeeds then put key (replicate size 0) maps else maps
  | some page ↦ put key (map (λ _. 0) page) maps
]

abbrev pub wants_featured : Option Bool → Bool
wants_featured none = false
wants_featured (some b) = b

module _ {F : Type 0} where
  unfoldable pub reset_maps : Disk → Text → Manager F → Manager F × Option ConfigureError
  unfolding reset_page to_ascii_uppercase
  reset_maps disk id m =
      let key = map to_ascii_uppercase id in
      let with_input = record m { input_maps = reset_page 32 disk.input_map key m.input_maps } in
      let with_score = record with_input {
        score_maps = reset_page 48 disk.score_map key with_input.score_maps;
      } in
      if not disk.frame_ring
      then (m, some frame_ring_failed)
      else if not disk.input_map
      then (with_input, some input_map_failed)
      else if not disk.score_map
      then (with_score, some score_map_failed)
      else (record with_score { frame_observations = delete id m.frame_observations }, none)

  -- The first slot with the id, and its index, counted from `i`.
  unfoldable pub find_slot : Text → ℕ → List (RendererSlot F) → Option (ℕ × RendererSlot F)
  find_slot slot_id i [] = none
  find_slot slot_id i (s ∷ ss) =
      let rest = find_slot slot_id (suc i) ss in
      if eq_ignore_ascii_case s.id slot_id then some (i, s) else rest

  abbrev pub unfeatured : RendererSlot F → RendererSlot F
  unfeatured s = record s { featured = false }

  -- The write of the slot, which may take the featured role from the others.
  unfoldable pub publish_slot : ℕ → RendererRequest → RendererSlot F → Manager F → Manager F
  publish_slot index q new m =
      if wants_featured q.featured
      then record m {
        slots = modify_at (λ _. record new { featured = true }) index (map unfeatured m.slots);
      }
      else record m { slots = modify_at (λ _. new) index m.slots }

  -- The files are reset for a slot whose rendering changes, and made where they are missing.
  unfoldable pub reset_files : Disk → Bool → Text → Manager F → Manager F × Option ConfigureError
  unfolding forget_cursors reset_maps
  reset_files disk changed id m =
      let forgotten = if changed then forget_cursors id m else m in
      if changed || not disk.has_frame_file then reset_maps disk id forgotten else (forgotten, none)

  unfoldable pub published :
      ℕ
      → RendererRequest
      → RendererSlot F
      → Manager F × Option ConfigureError
      → Manager F × Option ConfigureError
  unfolding publish_slot
  published index q new (m, some e) = (m, some e)
  published index q new (m, none) = (publish_slot index q new m, none)

module _ {F : Type 0} ⦃fl : Float F⦄ where
  -- `configure`, on the slot that was found
  unfoldable pub configure_slot :
      Disk → RendererRequest → ℕ → RendererSlot F → Manager F → Manager F × Option ConfigureError
  unfolding configured render_changed reset_files published
  configure_slot disk q index previous m =
      let new = configured q previous in
      published index q new (reset_files disk (render_changed previous new) new.id m)

  unfoldable pub configure_found :
      Disk
      → RendererRequest
      → Option (ℕ × RendererSlot F)
      → Option ConfigureError
      → Manager F
      → Manager F × Option ConfigureError
  unfolding configure_slot
  configure_found disk q none error m = (m, some unknown_slot)
  configure_found disk q (some (index, previous)) (some e) m = (m, some e)
  configure_found disk q (some (index, previous)) none m = configure_slot disk q index previous m

  -- `RendererManager::configure`: the manager, and the error if there is one
  unfoldable pub configure :
      Disk → Text → RendererRequest → Manager F → Manager F × Option ConfigureError
  unfolding configure_found request_error find_slot
  configure disk slot_id q m =
      configure_found disk q (find_slot slot_id 0 m.slots) (request_error q) m

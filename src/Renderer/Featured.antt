-- ===== src/Renderer/Featured.antt =====
-- Every call keeps the four slots, their sizes, and one featured slot.
use beatblock_online.Base.{
  ℕ, find, ◌+◌, ◌≡◌, refl, ◌∙◌, sym, ap, subst, Bool, true, false, inl, inr, Bool-cases,
  Option-cases, Option, none, some, List, [], ◌∷◌, map, All, count_if, Text, eq_ignore_ascii_case,
  arith,
}
use beatblock_online.Float.{Float}
use beatblock_online.Broadcast.{RendererSlot, slot_defaults}
use beatblock_online.Renderer.State.{Manager, Single, new_manager}
use beatblock_online.Renderer.Buffers
use beatblock_online.Renderer.Stop
use beatblock_online.Renderer.Frame.{kept-aligned}
use beatblock_online.Renderer.Calls
use beatblock_online.Renderer.Calls.{Call, after, after_all}
use beatblock_online.Renderer.Configured.{IsSlot, IsSlots, featured_of, configure-IsSlots}

module _ {F : Type 0} ⦃fl : Float F⦄ where
  map-update_slot :
      (id : Text) (f : RendererSlot F → RendererSlot F) (ss : List (RendererSlot F))
      → ((s : RendererSlot F) → (f s).id ≡ s.id)
      → map (λ s. s.id) (Stop.update_slot id f ss) ≡ map (λ s. s.id) ss
  unfolding Stop.update_slot
  map-update_slot id f [] same = refl
  map-update_slot id f (s ∷ ss) same = elim (Bool-cases (eq_ignore_ascii_case s.id id)) [
    | inl e ↦ rw e (ap (λ y. y ∷ map (λ t. t.id) ss) (same s))
    | inr e ↦ rw e (ap (λ ys. s.id ∷ ys) (map-update_slot id f ss same))
  ]

  count_if-update_slot :
      (id : Text) (f : RendererSlot F → RendererSlot F) (ss : List (RendererSlot F))
      → ((s : RendererSlot F) → (f s).featured ≡ s.featured)
      → count_if featured_of (Stop.update_slot id f ss) ≡ count_if featured_of ss
  unfolding Stop.update_slot
  count_if-update_slot id f [] same = refl
  count_if-update_slot id f (s ∷ ss) same =
      ground (arith, same s, count_if-update_slot id f ss same)

  All-update_slot :
      (id : Text) (f : RendererSlot F → RendererSlot F) (ss : List (RendererSlot F))
      → ((s : RendererSlot F) → IsSlot s → IsSlot (f s))
      → All IsSlot ss
      → All IsSlot (Stop.update_slot id f ss)
  unfolding Stop.update_slot
  All-update_slot id f [] keep h = tt
  All-update_slot id f (s ∷ ss) keep h = elim (Bool-cases (eq_ignore_ascii_case s.id id)) [
    | inl e ↦ rw e (keep s h.0, h.1)
    | inr e ↦ rw e (h.0, All-update_slot id f ss keep h.1)
  ]

  failed-IsSlots :
      (id message : Text) (ss : List (RendererSlot F))
      → IsSlots ss
      → IsSlots (Stop.update_slot id (Stop.failed_with message) ss)
  failed-IsSlots id message ss v = record {
    ids = map-update_slot id (Stop.failed_with message) ss (λ s. refl) ∙ v.ids;
    featured = count_if-update_slot id (Stop.failed_with message) ss (λ s. refl) ∙ v.featured;
    slots =
        All-update_slot id (Stop.failed_with message) ss
          (λ s w. record {
            width = w.width;
            height = w.height;
            fps = w.fps;
            delay = w.delay;
            active = w.active;
          })
          v.slots;
  }

  stopped-IsSlots :
      (id : Text) (ss : List (RendererSlot F))
      → IsSlots ss
      → IsSlots (Stop.update_slot id Stop.stopped ss)
  stopped-IsSlots id ss v = record {
    ids = map-update_slot id Stop.stopped ss (λ s. refl) ∙ v.ids;
    featured = count_if-update_slot id Stop.stopped ss (λ s. refl) ∙ v.featured;
    slots =
        All-update_slot id Stop.stopped ss
          (λ s w. record {
            width = w.width;
            height = w.height;
            fps = w.fps;
            delay = w.delay;
            active = refl;
          })
          v.slots;
  }

  report_ring-IsSlots :
      (ring : Option Text) (id : Text) (m : Manager F)
      → IsSlots m.slots
      → IsSlots (Stop.report_ring ring id m).slots
  unfolding Stop.report_ring Stop.set_error
  report_ring-IsSlots none id m v = v
  report_ring-IsSlots (some message) id m v = failed-IsSlots id message m.slots v

  stop_slot-IsSlots :
      (ring : Option Text) (id : Text) (m : Manager F)
      → IsSlots m.slots
      → IsSlots (Stop.stop_slot ring id m).slots
  unfolding Stop.stop_slot
  stop_slot-IsSlots ring id m v =
      elim (Option-cases (find (λ s. eq_ignore_ascii_case s.id id) m.slots)) [
        | inl e ↦ rw (Stop.stop_slot, e) v
        | inr (s, e) ↦
            rw (Stop.stop_slot, e)
              (report_ring-IsSlots ring s.id
                (record m { slots = Stop.update_slot id Stop.stopped m.slots })
                (stopped-IsSlots id m.slots v))
      ]

  stop_slots-IsSlots :
      (ring : Option Text) (ids : List Text) (m : Manager F)
      → IsSlots m.slots
      → IsSlots (Stop.stop_slots ring ids m).slots
  unfolding Stop.stop_slots
  stop_slots-IsSlots ring [] m v = v
  stop_slots-IsSlots ring (id ∷ ids) m v =
      stop_slots-IsSlots ring ids (Stop.stop_slot ring id m) (stop_slot-IsSlots ring id m v)

module _ {F : Type 0} ⦃fl : Float F⦄ ⦃sg : Single⦄ where
  IsSlots-same : {m n : List (RendererSlot F)} → n ≡ m → IsSlots m → IsSlots n
  IsSlots-same e v = subst IsSlots (sym e) v

  after-IsSlots : (c : Call F) (m : Manager F) → IsSlots m.slots → IsSlots (after c m).slots
  unfolding Buffers.push_sample_at Buffers.push_render_anchor Buffers.push_tap
      Buffers.push_score_state Buffers.push_player_state Stop.set_error Stop.stop_autoplay
      Stop.stop_participant Stop.stop_all Stop.begin_run
  after-IsSlots (Calls.push_sample id sample now) m v = v
  after-IsSlots (Calls.push_render_anchor id beat offset) m v = IsSlots-same (ground arith) v
  after-IsSlots (Calls.push_tap id tap) m v = IsSlots-same (ground arith) v
  after-IsSlots (Calls.push_score_state id state) m v = IsSlots-same (ground arith) v
  after-IsSlots (Calls.push_player_state id state) m v = v
  after-IsSlots (Calls.configure disk id q) m v = configure-IsSlots disk id q m v
  after-IsSlots (Calls.set_error id message) m v = failed-IsSlots id message m.slots v
  after-IsSlots (Calls.stop_autoplay error) m v = v
  after-IsSlots (Calls.stop_slot ring id) m v = stop_slot-IsSlots ring id m v
  after-IsSlots (Calls.stop_participant ring id) m v =
      stop_slots-IsSlots ring (Stop.slots_of id m.slots) m v
  after-IsSlots (Calls.stop_all ring) m v =
      stop_slots-IsSlots ring (map (λ s. s.id) m.slots) (Stop.stop_autoplay none m) v
  after-IsSlots Calls.begin_run m v = v
  after-IsSlots (Calls.write_aligned_inputs now) m v =
      IsSlots-same (ap (λ k. k.slots) (kept-aligned now m)) v

  pub after_all-IsSlots :
      (cs : List (Call F)) (m : Manager F) → IsSlots m.slots → IsSlots (after_all cs m).slots
  unfolding after_all
  after_all-IsSlots [] m v = v
  after_all-IsSlots (c ∷ cs) m v = after_all-IsSlots cs (after c m) (after-IsSlots c m v)

  defaults-IsSlot : (n : ℕ) (b : Bool) → IsSlot (slot_defaults {F = F} ⦃fl = fl⦄ ((65 + n) ∷ []) b)
  unfolding slot_defaults
  defaults-IsSlot n b = record {
    width = (omega arith, omega arith);
    height = (omega arith, omega arith);
    fps = inr refl;
    delay = (omega arith, omega arith);
    active = refl;
  }

  -- After any history of calls on a new manager there are the slots A to D, exactly one of them is
  -- featured, each is 320 to 1920 wide and 180 to 1080 high, with 30 or 60 frames a second and a delay
  -- of 250 to 1500 ms, and a slot is active exactly if it has a participant.
  pub after_all-new_manager-IsSlots :
      (cs : List (Call F)) → IsSlots (after_all cs new_manager).slots
  unfolding new_manager slot_defaults
  after_all-new_manager-IsSlots cs = after_all-IsSlots cs new_manager (record {
    ids = refl;
    featured = refl;
    slots = (
      defaults-IsSlot 0 true,
      (defaults-IsSlot 1 false, (defaults-IsSlot 2 false, (defaults-IsSlot 3 false, tt))),
    );
  })

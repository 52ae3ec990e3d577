-- ===== src/Host/Refinement/Operations.antt =====
-- The host's operations on its room and its renderers, as histories of the room and of the renderers.
use beatblock_online.Base.{
  ℕ, ◌≡◌, refl, Bool, true, false, not, ◌&&◌, Option, some, [], ◌∷◌, any, arith, Text,
}
use beatblock_online.Float.{Float}
use beatblock_online.Model.{ChartLock, RoomModifiers}
use beatblock_online.Room.Commands
use beatblock_online.Room.Commands.{run}
use beatblock_online.Room.Policy
use beatblock_online.Room.Race
use beatblock_online.Room.Roster
use beatblock_online.Room.Setlist
use beatblock_online.Renderer.State.{Single}
use beatblock_online.Renderer.Calls
use beatblock_online.Renderer.Calls.{after_all}
use beatblock_online.Renderer.Stop
use beatblock_online.Host.State.{Host, World, render, in_room}
use beatblock_online.Host.Publish
use beatblock_online.Host.Operations
use beatblock_online.Host.Operations.{HostAction, after_action}
use beatblock_online.Host.Refines.{
  IsReached, IsReached-same, Refines, Refines-in_room, Refines-render, refines_rules,
}
use beatblock_online.Host.Refinement.Actions.{broadcast-Refines, stop-Refines, plan-Refines}

module _ {F : Type 0} ⦃fl : Float F⦄ ⦃sg : Single⦄ where
  participating :
      (now : ℕ) (b : Bool) → Refines {F = F} (in_room (Roster.set_host_participating now b))
  participating now b = Refines-in_room now (Commands.set_host_participating b) _ (λ r. refl)

  checks : (now : ℕ) (b : Bool) → Refines {F = F} (in_room (Policy.set_validity_checks now b))
  checks now b = Refines-in_room now (Commands.set_validity_checks b) _ (λ r. refl)

  same_build :
      (now : ℕ) (b : Bool) → Refines {F = F} (in_room (Policy.set_same_game_build_required now b))
  same_build now b = Refines-in_room now (Commands.set_same_game_build_required b) _ (λ r. refl)

  auto_request :
      (now : ℕ) (b : Bool)
      → Refines {F = F} (in_room (Policy.set_auto_request_chart_transfers now b))
  auto_request now b =
      Refines-in_room now (Commands.set_auto_request_chart_transfers b) _ (λ r. refl)

  modified :
      (now : ℕ) (m : RoomModifiers F) → Refines {F = F} (in_room (Policy.set_modifiers now m))
  modified now m = Refines-in_room now (Commands.set_modifiers m) _ (λ r. refl)

  locked :
      (now : ℕ) (id : Text) (c : ChartLock) (b : Bool)
      → Refines {F = F} (in_room (Setlist.lock_chart now id c b))
  locked now id c b = Refines-in_room now (Commands.lock_chart id c b) _ (λ r. refl)

  advanced : (now : ℕ) → Refines {F = F} (in_room (Setlist.advance_setlist now))
  advanced now = Refines-in_room now Commands.advance_setlist _ (λ r. refl)

  removed : (now index : ℕ) → Refines {F = F} (in_room (Setlist.remove_setlist now index))
  removed now index = Refines-in_room now (Commands.remove_setlist index) _ (λ r. refl)

  verified :
      (now : ℕ) (id : Text) (b : Bool) (reason : Option Text)
      → Refines {F = F} (in_room (Race.set_verified now id b reason))
  verified now id b reason = Refines-in_room now (Commands.set_verified id b reason) _ (λ r. refl)

  ready_set : (now : ℕ) (id : Text) (b : Bool) → Refines {F = F} (in_room (Race.set_ready now id b))
  ready_set now id b = Refines-in_room now (Commands.set_ready id b) _ (λ r. refl)

  scheduled :
      (now : ℕ) (force : Bool) (delay : ℕ)
      → Refines {F = F} (in_room (Race.schedule_start now force delay))
  scheduled now force delay =
      Refines-in_room now (Commands.schedule_start force delay) _ (λ r. refl)

  begun : Refines {F = F} (render Stop.begin_run)
  begun = Refines-render Calls.begin_run _ (λ m. refl)

  all_stopped : (ring : Option Text) → Refines {F = F} (render (Stop.stop_all ring))
  all_stopped ring = Refines-render (Calls.stop_all ring) _ (λ m. refl)

  -- The renderers lose the slot, and then perhaps the automatic mix.
  slot-Refines :
      (ring : Option Text) (id : Text) → Refines {F = F} (render (Operations.without_slot ring id))
  unfolding Operations.without_slot after_all run
  slot-Refines ring id = record {
    at = λ h.
        let m = Stop.stop_slot ring id h.renderer in
        stopped h (m.autoplay.enabled && not (any Publish.is_playing_featured m.slots)) refl;
  }
    where
      stopped :
          (h : Host F) (b : Bool)
          → (Stop.stop_slot ring id h.renderer).autoplay.enabled
              && not (any Publish.is_playing_featured (Stop.stop_slot ring id h.renderer).slots)
            ≡ b
          → IsReached h (render (Operations.without_slot ring id) h).0
      stopped h true lost = record {
        commands = [];
        calls =
            Calls.stop_slot ring id ∷ Calls.stop_autoplay (some Operations.renderer_stopped) ∷ [];
        room = refl;
        renderer = rw (Operations.without_slot, lost) refl;
        builds = omega arith;
      }
      stopped h false kept = record {
        commands = [];
        calls = Calls.stop_slot ring id ∷ [];
        room = refl;
        renderer = rw (Operations.without_slot, kept) refl;
        builds = omega arith;
      }

  set_host_participating-Refines :
      (w : World F) (ring : Option Text) (b : Bool)
      → Refines (Operations.set_host_participating w ring b)
  unfolding Operations.set_host_participating
  set_host_participating-Refines w ring b =
      search (refines_rules, participating, stop-Refines, broadcast-Refines) depth 12

  set_validity_checks-Refines :
      (w : World F) (b : Bool) → Refines (Operations.set_validity_checks w b)
  unfolding Operations.set_validity_checks
  set_validity_checks-Refines w b = search (refines_rules, checks, broadcast-Refines) depth 6

  set_same_game_build_required-Refines :
      (w : World F) (b : Bool) → Refines (Operations.set_same_game_build_required w b)
  unfolding Operations.set_same_game_build_required
  set_same_game_build_required-Refines w b =
      search (refines_rules, same_build, broadcast-Refines) depth 10

  set_auto_request_chart_transfers-Refines :
      (w : World F) (b : Bool) → Refines (Operations.set_auto_request_chart_transfers w b)
  unfolding Operations.set_auto_request_chart_transfers
  set_auto_request_chart_transfers-Refines w b =
      search (refines_rules, auto_request, broadcast-Refines) depth 6

  set_room_modifiers-Refines :
      (w : World F) (m : RoomModifiers F) → Refines (Operations.set_room_modifiers w m)
  unfolding Operations.set_room_modifiers
  set_room_modifiers-Refines w m = search (refines_rules, modified, broadcast-Refines) depth 6

  lock_chart-Refines :
      (w : World F) (id : Text) (c : ChartLock) (b : Bool)
      → Refines (Operations.lock_chart w id c b)
  unfolding Operations.lock_chart
  lock_chart-Refines w id c b = search (refines_rules, locked, broadcast-Refines) depth 18

  advance_setlist-Refines : (w : World F) → Refines (Operations.advance_setlist w)
  unfolding Operations.advance_setlist
  advance_setlist-Refines w = search (refines_rules, advanced, broadcast-Refines) depth 16

  remove_setlist-Refines :
      (w : World F) (ring : Option Text) (index : ℕ)
      → Refines (Operations.remove_setlist w ring index)
  unfolding Operations.remove_setlist
  remove_setlist-Refines w ring index =
      search (refines_rules, removed, all_stopped, broadcast-Refines) depth 20

  set_local_verified-Refines :
      (w : World F) (b : Bool) (reason : Option Text)
      → Refines (Operations.set_local_verified w b reason)
  unfolding Operations.set_local_verified
  set_local_verified-Refines w b reason =
      search (refines_rules, verified, broadcast-Refines) depth 12

  set_local_ready-Refines : (w : World F) (b : Bool) → Refines (Operations.set_local_ready w b)
  unfolding Operations.set_local_ready
  set_local_ready-Refines w b = search (refines_rules, ready_set, broadcast-Refines) depth 12

  start_room-Refines : (w : World F) (force : Bool) → Refines (Operations.start_room w force)
  unfolding Operations.start_room
  start_room-Refines w force = search (refines_rules, scheduled, begun, broadcast-Refines) depth 14

  stop_renderer_slot-Refines :
      (w : World F) (ring : Option Text) (id : Text)
      → Refines (Operations.stop_renderer_slot w ring id)
  unfolding Operations.stop_renderer_slot
  stop_renderer_slot-Refines w ring id = search (refines_rules, slot-Refines, plan-Refines) depth 10

  pub action-IsReached :
      (w : World F) (a : HostAction F) (h : Host F) → IsReached h (after_action w a h)
  action-IsReached w (HostAction.participating_set ring b) h =
      (set_host_participating-Refines w ring b).at h
  action-IsReached w (HostAction.checks_set b) h = (set_validity_checks-Refines w b).at h
  action-IsReached w (HostAction.build_required b) h =
      (set_same_game_build_required-Refines w b).at h
  action-IsReached w (HostAction.auto_request_set b) h =
      (set_auto_request_chart_transfers-Refines w b).at h
  action-IsReached w (HostAction.modifiers_set m) h = (set_room_modifiers-Refines w m).at h
  action-IsReached w (HostAction.chart_locked id c b) h = (lock_chart-Refines w id c b).at h
  action-IsReached w HostAction.setlist_advanced h = (advance_setlist-Refines w).at h
  action-IsReached w (HostAction.setlist_removed ring index) h =
      (remove_setlist-Refines w ring index).at h
  action-IsReached w (HostAction.verified_set b reason) h =
      (set_local_verified-Refines w b reason).at h
  action-IsReached w (HostAction.ready_set b) h = (set_local_ready-Refines w b).at h
  action-IsReached w (HostAction.room_started force) h = (start_room-Refines w force).at h
  action-IsReached w (HostAction.slot_stopped ring id) h =
      (stop_renderer_slot-Refines w ring id).at h
  action-IsReached w (HostAction.path_selected path) h = IsReached-same h _ refl refl refl

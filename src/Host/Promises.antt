-- ===== src/Host/Promises.antt =====
-- companion/src/app_state.rs: what the room and the renderers promise holds in the host's runtime.
use beatblock_online.Base.{
  ℕ, refl, Bool, true, false, Option, none, some, List, [], ◌∷◌, if◌then◌else◌, Text, arith,
}
use beatblock_online.Float.{Float}
use beatblock_online.Model.{RoomModifiers}
use beatblock_online.Room.State.{Room}
use beatblock_online.Room.Create
use beatblock_online.Room.Create.{offline}
use beatblock_online.Room.Commands
use beatblock_online.Room.Policy
use beatblock_online.Room.Roster
use beatblock_online.Room.Presence
use beatblock_online.Room.Keeps.{Keeps, keeps_rules}
use beatblock_online.Room.Seats.{seats, IsRoster}
use beatblock_online.Room.Membership.{step-IsRoster, run-host_room-IsRoster}
use beatblock_online.Renderer.State.{Single}
use beatblock_online.Renderer.Calls.{after_all}
use beatblock_online.Renderer.Featured.{after_all-new_manager-IsSlots}
use beatblock_online.Renderer.Buffered.{after_all-new_manager-IsBuffered}
use beatblock_online.Storage.{Storage}
use beatblock_online.Host.State
use beatblock_online.Host.Publish.{sync_room_state, broadcast_room}
use beatblock_online.Host.State.{
  Host, World, Double, Effect, Act, Answer, returned, bailed, continue, ◌>>=◌, ◌>>◌, modify,
  on_room,
}
use beatblock_online.Host.History.{HostEvent, after_events}
use beatblock_online.Host.Opening.{HostRoomOptions, initial_policies, initial_host_room}
use beatblock_online.Host.Session
use beatblock_online.Host.Session.{
  Setup, HostedRoom, new_runtime, forget_room, reset_offline_state, host_room, close_room,
  leave_room, end_room, after_sessions,
}
use beatblock_online.Host.Refines.{Refines-emit, Refines-bail_if, Refines-on_room, Refines-then}
use beatblock_online.Host.Refinement.{after_events-IsReached}
use beatblock_online.Host.Refinement.Actions.{broadcast-Refines, sync-Refines}
use beatblock_online.Host.Sound.{
  IsSound, IsReached-IsSound, KeepsSound, KeepsSound-modify, KeepsSound-bind, KeepsSound-then,
  Refines-KeepsSound, forget_room-IsSound, reset-IsSound, or_reset-KeepsSound,
}

module _ {F : Type 0} ⦃fl : Float F⦄ ⦃sg : Single⦄ where
  abbrev HasRoster : Room F → Type 0
  HasRoster r = IsRoster (seats r)

  directed : (now : ℕ) (b : Bool) → Keeps HasRoster (Roster.set_host_participating now b)
  directed now b = record { at = step-IsRoster now (Commands.set_host_participating b) }

  checked : (now : ℕ) (b : Bool) → Keeps HasRoster (Policy.set_validity_checks now b)
  checked now b = record { at = step-IsRoster now (Commands.set_validity_checks b) }

  same_build : (now : ℕ) (b : Bool) → Keeps HasRoster (Policy.set_same_game_build_required now b)
  same_build now b = record { at = step-IsRoster now (Commands.set_same_game_build_required b) }

  modified : (now : ℕ) (m : RoomModifiers F) → Keeps HasRoster (Policy.set_modifiers now m)
  modified now m = record { at = step-IsRoster now (Commands.set_modifiers m) }

  policies-Keeps : (now : ℕ) (o : HostRoomOptions F) → Keeps HasRoster (initial_policies now o)
  unfolding initial_policies
  policies-Keeps now o = search (keeps_rules, directed, checked, same_build, modified) depth 12

  initial-IsRoster :
      (now : ℕ) (room_id host_id name host_name : Text) (o : HostRoomOptions F)
      → IsRoster (seats (initial_host_room now room_id host_id name host_name o).0)
  unfolding initial_host_room Commands.run
  initial-IsRoster now room_id host_id name host_name o =
      (policies-Keeps now o).at
        (Create.host_room now room_id host_id name host_name o.admission_mode)
        (run-host_room-IsRoster {F = F} now room_id host_id name host_name o.admission_mode [])

  opened-IsSound :
      (r : Room F) (local : Option Text)
      → IsRoster (seats r)
      → KeepsSound (modify (λ h. record h { room = r; local_session_id = local }))
  opened-IsSound r local v =
      KeepsSound-modify _
        (λ h g. record { roster = v; slots = g.slots; buffered = g.buffered; builds = g.builds })

  sync-or_reset :
      (w : World F) (s : Setup) (effects : List Effect)
      → KeepsSound (Session.or_reset w s effects (sync_room_state w))
  sync-or_reset w s effects = or_reset-KeepsSound w s effects (sync_room_state w) (sync-Refines w)

  bail_if-or_reset :
      (w : World F) (s : Setup) (effects : List Effect) (b : Bool) (e : State.HostError)
      → KeepsSound (Session.or_reset w s effects (State.bail_if b e))
  bail_if-or_reset w s effects b e =
      or_reset-KeepsSound w s effects (State.bail_if b e) (Refines-bail_if b e)

  result-KeepsSound : {A : Type 0} → (a : Answer A) → KeepsSound {F = F} {A = A} (λ h. (h, a))
  result-KeepsSound a = record { at = λ h g. g }

  bail_if-KeepsSound : (b : Bool) (e : State.HostError) → KeepsSound {F = F} (State.bail_if b e)
  bail_if-KeepsSound b e = record { at = λ h g. g }

  or_bail-KeepsSound :
      {A : Type 0} → (o : Option A) (e : State.HostError) → KeepsSound {F = F} (State.or_bail o e)
  or_bail-KeepsSound none e = record { at = λ h g. g }
  or_bail-KeepsSound (some a) e = record { at = λ h g. g }

  emit-KeepsSound : (e : Effect) → KeepsSound {F = F} (State.emit e)
  emit-KeepsSound e = Refines-KeepsSound _ (Refines-emit e)

  host_room-KeepsSound :
      (w : World F) (s : Setup) (o : HostRoomOptions F) → KeepsSound (host_room w s o)
  unfolding host_room
  host_room-KeepsSound w s o =
      search
        (
          KeepsSound-bind, KeepsSound-then, or_bail-KeepsSound, result-KeepsSound, bail_if-or_reset,
          sync-or_reset, emit-KeepsSound, opened-IsSound, initial-IsRoster,
        )
        depth 24

  closed-IsSound :
      (s : Setup) (m : Host F × Answer Unit) → IsSound m.0 → IsSound (Session.closed s m).0
  closed-IsSound s (h, a) g =
      (emit-KeepsSound Effect.host_stopped).at (forget_room s.ring h)
        (forget_room-IsSound s.ring h g)

  close_room-IsSound :
      (w : World F) (s : Setup) (h : Host F) → IsSound h → IsSound (close_room w s h).0
  unfolding close_room
  close_room-IsSound w s h g =
      closed-IsSound s ((on_room (Presence.close w.now) >> broadcast_room w) h) (
        IsReached-IsSound h _
          ((Refines-then _ _ (Refines-on_room w.now Commands.close _ (λ r. refl))
              (broadcast-Refines w)).at
            h)
          g)

  leave_room-KeepsSound : (w : World F) (s : Setup) → KeepsSound (leave_room w s)
  unfolding leave_room
  leave_room-KeepsSound w s = KeepsSound-then _ _ (emit-KeepsSound Effect.host_stopped) (
      KeepsSound-then _ _ (KeepsSound-modify _ (reset-IsSound w.now s.ring))
        (KeepsSound-then _ _ (Refines-KeepsSound _ (sync-Refines w)) (bail_if-KeepsSound _ _)))

  new_runtime-IsSound : (now : ℕ) (stored : Storage) → IsSound {F = F} (new_runtime now stored)
  unfolding new_runtime offline after_all
  new_runtime-IsSound now stored = record {
    roster = record { sessions = tt; names = tt; racers = omega arith; spectators = omega arith };
    slots = after_all-new_manager-IsSlots [];
    buffered = after_all-new_manager-IsBuffered [];
    builds = omega arith;
  }

module _ {F : Type 0} ⦃fl : Float F⦄ ⦃sg : Single⦄ ⦃db : Double F⦄ where
  end_room-IsSound : (s : HostedRoom F) (h : Host F) → IsSound h → IsSound (end_room s h)
  unfolding end_room
  end_room-IsSound s h g = by_ending s.is_closed
    where
      by_ending :
          (b : Bool)
          → IsSound
              (if b then (close_room s.ending s.final h).0 else (leave_room s.ending s.final h).0)
      by_ending true = close_room-IsSound s.ending s.final h g
      by_ending false = (leave_room-KeepsSound s.ending s.final).at h g

  after_opening-IsSound :
      (s : HostedRoom F) (m : Host F × Answer Unit)
      → IsSound m.0
      → IsSound (Session.after_opening s m)
  after_opening-IsSound s (h, bailed e) g = g
  after_opening-IsSound s (h, returned u) g =
      end_room-IsSound s (after_events s.events h)
        (IsReached-IsSound h (after_events s.events h) (after_events-IsReached s.events h) g)

  after_sessions-IsSound :
      (ss : List (HostedRoom F)) (h : Host F) → IsSound h → IsSound (after_sessions ss h)
  unfolding after_sessions
  after_sessions-IsSound [] h g = g
  after_sessions-IsSound (s ∷ ss) h g =
      after_sessions-IsSound ss (Session.after_opening s (host_room s.opening s.setup s.options h))
        (after_opening-IsSound s _ ((host_room-KeepsSound s.opening s.setup s.options).at h g))

  -- From its start on, whatever rooms a runtime opens, whatever their peers send and their host does,
  -- and however they end, and also at any moment within a room, the roster is valid, there are four
  -- slots within their bounds of which one is featured, the buffers are bounded and ordered, and at
  -- most four archives are being made.
  pub after_sessions-new_runtime-IsSound :
      (now : ℕ) (stored : Storage) (ss : List (HostedRoom F)) (w : World F) (s : Setup)
      (o : HostRoomOptions F) (es : List (World F × HostEvent F))
      → IsSound (after_sessions ss (new_runtime now stored))
        × IsSound (after_events es (host_room w s o (after_sessions ss (new_runtime now stored))).0)
  after_sessions-new_runtime-IsSound now stored ss w s o es =
      let v = after_sessions-IsSound ss (new_runtime now stored) (new_runtime-IsSound now stored) in
      (v, IsReached-IsSound _ _ (after_events-IsReached es _) ((host_room-KeepsSound w s o).at _ v))

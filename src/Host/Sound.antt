-- ===== src/Host/Sound.antt =====
-- companion/src/app_state.rs: what a runtime that is sound keeps, and which actions do.
use beatblock_online.Base.{ℕ, ◌≤◌, sym, subst, Option, List, [], ◌∷◌, ◌++◌, length, Text, arith}
use beatblock_online.Float.{Float}
use beatblock_online.Room.Create.{offline}
use beatblock_online.Room.Seats.{seats, IsRoster}
use beatblock_online.Room.Membership.{run-IsRoster}
use beatblock_online.Renderer.State.{Single}
use beatblock_online.Renderer.Calls
use beatblock_online.Renderer.Calls.{after_all}
use beatblock_online.Renderer.Configured.{IsSlots}
use beatblock_online.Renderer.Featured.{after_all-IsSlots}
use beatblock_online.Renderer.Buffered.{IsBuffered, buffers, after_all-IsBuffered}
use beatblock_online.Host.State.{
  Host, World, Effect, Act, Answer, returned, bailed, continue, ◌>>=◌, ◌>>◌, modify,
}
use beatblock_online.Host.Session
use beatblock_online.Host.Session.{
  Setup, HostedRoom, new_runtime, forget_room, reset_offline_state, host_room, close_room,
  leave_room, end_room, after_sessions,
}
use beatblock_online.Host.Refines.{IsReached, Refines}

module _ {F : Type 0} ⦃fl : Float F⦄ ⦃sg : Single⦄ where
  -- The roster is valid, the four slots are configured within their bounds and one is featured, the
  -- buffers of the participants are bounded and ordered, and at most four archives are being built.
  pub record IsSound (h : Host F) : Type 0 where
    pub roster : IsRoster (seats h.room)
    pub slots : IsSlots h.renderer.slots
    pub buffered : IsBuffered (buffers h.renderer)
    pub builds : length h.active_transfer_builds ≤ 4

  pub IsReached-IsSound : (h k : Host F) → IsReached h k → IsSound h → IsSound k
  IsReached-IsSound h k v g = record {
    roster = subst (λ r. IsRoster (seats r)) (sym v.room) (run-IsRoster v.commands h.room g.roster);
    slots =
        subst (λ m. IsSlots m.slots) (sym v.renderer)
          (after_all-IsSlots v.calls h.renderer g.slots);
    buffered =
        subst (λ m. IsBuffered (buffers m)) (sym v.renderer)
          (after_all-IsBuffered v.calls h.renderer g.buffered);
    builds = omega (arith, v.builds, g.builds);
  }

  pub record KeepsSound {A : Type 0} (m : Act F A) : Type 0 where
    pub at : (h : Host F) → IsSound h → IsSound (m h).0

  module _ {A : Type 0} where
    pub Refines-KeepsSound : (m : Act F A) → Refines m → KeepsSound m
    Refines-KeepsSound m r = record { at = λ h g. IsReached-IsSound h (m h).0 (r.at h) g }

  pub KeepsSound-modify :
      (f : Host F → Host F) → ((h : Host F) → IsSound h → IsSound (f h)) → KeepsSound (modify f)
  KeepsSound-modify f k = record { at = k }

  module _ {A B : Type 0} where
    IsSound-continue :
        (m : Host F × Answer A) (f : A → Act F B)
        → IsSound m.0
        → ((a : A) → KeepsSound (f a))
        → IsSound (continue m f).0
    IsSound-continue (k, returned a) f g kf = (kf a).at k g
    IsSound-continue (k, bailed e) f g kf = g

    pub KeepsSound-bind :
        (m : Act F A) (f : A → Act F B)
        → KeepsSound m
        → ((a : A) → KeepsSound (f a))
        → KeepsSound (m >>= f)
    KeepsSound-bind m f km kf = record { at = λ h g. IsSound-continue (m h) f (km.at h g) kf }

    pub KeepsSound-then :
        (m : Act F A) (k : Act F B) → KeepsSound m → KeepsSound k → KeepsSound (m >> k)
    KeepsSound-then m k km kk = record {
      at = λ h g. IsSound-continue (m h) (λ _. k) (km.at h g) (λ _. kk);
    }

  pub forget_room-IsSound :
      (ring : Option Text) (h : Host F) → IsSound h → IsSound (forget_room ring h)
  unfolding forget_room after_all
  forget_room-IsSound ring h g = record {
    roster = g.roster;
    slots = after_all-IsSlots (Calls.stop_all ring ∷ []) h.renderer g.slots;
    buffered = after_all-IsBuffered (Calls.stop_all ring ∷ []) h.renderer g.buffered;
    builds = omega arith;
  }

  pub reset-IsSound :
      (now : ℕ) (ring : Option Text) (h : Host F)
      → IsSound h
      → IsSound (reset_offline_state now ring h)
  unfolding reset_offline_state offline
  reset-IsSound now ring h g =
      let v = forget_room-IsSound ring h g in
      record {
        roster = record {
          sessions = tt;
          names = tt;
          racers = omega arith;
          spectators = omega arith;
        };
        slots = v.slots;
        buffered = v.buffered;
        builds = v.builds;
      }

  reset_unless_done-IsSound :
      (w : World F) (s : Setup) (effects : List Effect) (m : Host F × Answer Unit)
      → IsSound m.0
      → IsSound (Session.reset_unless_done w s effects m).0
  reset_unless_done-IsSound w s effects (h, returned u) g = g
  reset_unless_done-IsSound w s effects (h, bailed e) g =
      reset-IsSound w.now s.ring (record h { sent = effects ++ h.sent })
        (record { roster = g.roster; slots = g.slots; buffered = g.buffered; builds = g.builds })

  pub or_reset-KeepsSound :
      (w : World F) (s : Setup) (effects : List Effect) (m : Act F Unit)
      → Refines m
      → KeepsSound (Session.or_reset w s effects m)
  or_reset-KeepsSound w s effects m r = record {
    at =
        λ h g. reset_unless_done-IsSound w s effects (m h) (IsReached-IsSound h (m h).0 (r.at h) g);
  }

-- ===== src/Host/Refines.antt =====
-- The host's actions act on the room by the operations of `RoomEngine`, and on the renderers by the
-- public methods of `RendererManager`: one rule for each way in which the actions are built.
use Prim.Native.Nat.{max}
use beatblock_online.Base.{
  ℕ, ◌≤◌, length, arith, ◌≡◌, refl, ◌∙◌, sym, ap, Bool, true, false, Option, none, some, List, [],
  ◌∷◌, ◌++◌,
}
use beatblock_online.Float.{Float}
use beatblock_online.Room.State.{Room, Exec}
use beatblock_online.Room.Commands.{Command, step, run}
use beatblock_online.Renderer.State.{Single, Manager}
use beatblock_online.Renderer.Calls.{Call, after, after_all}
use beatblock_online.Host.State.{
  Host, HostError, Answer, returned, bailed, Act, Effect, continue, ◌>>=◌, ◌>>◌, pure, bail,
  bail_if, when, or_bail, gets, modify, emit, render, in_room, on_room,
}

module _ {F : Type 0} ⦃fl : Float F⦄ ⦃sg : Single⦄ where
  run-append : (cs ds : List (ℕ × Command F)) (r : Room F) → run (cs ++ ds) r ≡ run ds (run cs r)
  unfolding run
  run-append [] ds r = refl
  run-append ((now, c) ∷ cs) ds r = run-append cs ds (step now c r)

  after_all-append :
      (cs ds : List (Call F)) (m : Manager F)
      → after_all (cs ++ ds) m ≡ after_all ds (after_all cs m)
  unfolding after_all
  after_all-append [] ds m = refl
  after_all-append (c ∷ cs) ds m = after_all-append cs ds (after c m)

  -- The second host is what commands to the room and calls of the renderers make of the first, and it
  -- builds no more archives than the first, or at most four.
  pub record IsReached (h k : Host F) : Type 0 where
    pub commands : List (ℕ × Command F)
    pub calls : List (Call F)
    pub room : k.room ≡ run commands h.room
    pub renderer : k.renderer ≡ after_all calls h.renderer
    pub builds : length k.active_transfer_builds ≤ max (length h.active_transfer_builds) 4

  pub IsReached-same :
      (h k : Host F)
      → k.room ≡ h.room
      → k.renderer ≡ h.renderer
      → k.active_transfer_builds ≡ h.active_transfer_builds
      → IsReached h k
  unfolding run after_all
  IsReached-same h k r m b = record {
    commands = [];
    calls = [];
    room = r;
    renderer = m;
    builds = omega (arith, ap length b);
  }

  pub IsReached-then : (h k l : Host F) → IsReached h k → IsReached k l → IsReached h l
  IsReached-then h k l a b = record {
    commands = a.commands ++ b.commands;
    calls = a.calls ++ b.calls;
    room = b.room ∙ ap (run b.commands) a.room ∙ sym (run-append a.commands b.commands h.room);
    renderer =
        b.renderer
        ∙ ap (after_all b.calls) a.renderer
        ∙ sym (after_all-append a.calls b.calls h.renderer);
    builds = omega (arith, a.builds, b.builds);
  }

  pub record Refines {A : Type 0} (m : Act F A) : Type 0 where
    pub at : (h : Host F) → IsReached h (m h).0

  module _ {A : Type 0} where
    pub Refines-pure : (a : A) → Refines (pure a)
    Refines-pure a = record { at = λ h. IsReached-same h h refl refl refl }

    pub Refines-bail : (e : HostError) → Refines (bail {A = A} e)
    Refines-bail e = record { at = λ h. IsReached-same h h refl refl refl }

    pub Refines-or_bail : (o : Option A) (e : HostError) → Refines (or_bail o e)
    Refines-or_bail none e = record { at = λ h. IsReached-same h h refl refl refl }
    Refines-or_bail (some a) e = record { at = λ h. IsReached-same h h refl refl refl }

    pub Refines-gets : (f : Host F → A) → Refines (gets f)
    Refines-gets f = record { at = λ h. IsReached-same h h refl refl refl }

    pub Refines-in_room :
        (now : ℕ) (c : Command F) (m : Exec F A)
        → ((r : Room F) → (m r).0 ≡ step now c r)
        → Refines (in_room m)
    unfolding run after_all
    Refines-in_room now c m same = record {
      at = λ h. record {
        commands = (now, c) ∷ [];
        calls = [];
        room = same h.room;
        renderer = refl;
        builds = omega arith;
      };
    }

  pub Refines-bail_if : (b : Bool) (e : HostError) → Refines (bail_if {F = F} b e)
  Refines-bail_if b e = record { at = λ h. IsReached-same h h refl refl refl }

  pub Refines-when : (b : Bool) (m : Act F Unit) → Refines m → Refines (when b m)
  Refines-when true m r = record { at = r.at }
  Refines-when false m r = record { at = λ h. IsReached-same h h refl refl refl }

  pub Refines-emit : (e : Effect) → Refines (emit {F = F} e)
  Refines-emit e = record { at = λ h. IsReached-same h _ refl refl refl }

  pub Refines-modify :
      (f : Host F → Host F)
      → ((h : Host F) → (f h).room ≡ h.room)
      → ((h : Host F) → (f h).renderer ≡ h.renderer)
      → ((h : Host F) → (f h).active_transfer_builds ≡ h.active_transfer_builds)
      → Refines (modify f)
  Refines-modify f r m b = record { at = λ h. IsReached-same h (f h) (r h) (m h) (b h) }

  pub Refines-on_room :
      (now : ℕ) (c : Command F) (f : Room F → Room F)
      → ((r : Room F) → f r ≡ step now c r)
      → Refines (on_room f)
  unfolding run after_all
  Refines-on_room now c f same = record {
    at = λ h. record {
      commands = (now, c) ∷ [];
      calls = [];
      room = same h.room;
      renderer = refl;
      builds = omega arith;
    };
  }

  pub Refines-render :
      (c : Call F) (f : Manager F → Manager F)
      → ((m : Manager F) → f m ≡ after c m)
      → Refines (render f)
  unfolding run after_all
  Refines-render c f same = record {
    at = λ h. record {
      commands = [];
      calls = c ∷ [];
      room = refl;
      renderer = same h.renderer;
      builds = omega arith;
    };
  }

  module _ {A B : Type 0} where
    IsReached-continue :
        (m : Host F × Answer A) (f : A → Act F B) (h : Host F)
        → IsReached h m.0
        → ((a : A) → Refines (f a))
        → IsReached h (continue m f).0
    IsReached-continue (k, returned a) f h r rf = IsReached-then h k (f a k).0 r ((rf a).at k)
    IsReached-continue (k, bailed e) f h r rf = r

    pub Refines-bind :
        (m : Act F A) (f : A → Act F B) → Refines m → ((a : A) → Refines (f a)) → Refines (m >>= f)
    Refines-bind m f rm rf = record { at = λ h. IsReached-continue (m h) f h (rm.at h) rf }

    pub Refines-then : (m : Act F A) (k : Act F B) → Refines m → Refines k → Refines (m >> k)
    Refines-then m k rm rk = record {
      at = λ h. IsReached-continue (m h) (λ _. k) h (rm.at h) (λ _. rk);
    }

pub ruleset refines_rules = (
  Refines-pure, Refines-bail, Refines-or_bail, Refines-gets, Refines-bail_if, Refines-when,
  Refines-modify, Refines-bind, Refines-then,
)

-- ===== src/Room/Keeps.antt =====
-- Facts about the room that an action keeps, whether it returns or bails: one rule for each way in
-- which the actions are built.
use beatblock_online.Base.{Bool, true, false, Option, none, some}
use beatblock_online.Room.State
use beatblock_online.Room.State.{
  Room, RoomError, Exec, ok, err, continue, ◌>>=◌, ◌>>◌, pure, bail_if, branch, or_bail, gets,
  modify,
}

pub record Keeps {F A : Type 0} (P : Room F → Type 0) (m : Exec F A) : Type 0 where
  pub at : (r : Room F) → P r → P (m r).0

module _ {F A : Type 0} {P : Room F → Type 0} where
  pub Keeps-pure : (a : A) → Keeps P (pure a)
  Keeps-pure a = record { at = λ r h. h }

  pub Keeps-or_bail : (o : Option A) (e : RoomError) → Keeps P (or_bail o e)
  Keeps-or_bail none e = record { at = λ r h. h }
  Keeps-or_bail (some a) e = record { at = λ r h. h }

  pub Keeps-gets : (f : Room F → A) → Keeps P (gets f)
  Keeps-gets f = record { at = λ r h. h }

  pub Keeps-branch : (b : Bool) (m k : Exec F A) → Keeps P m → Keeps P k → Keeps P (branch b m k)
  Keeps-branch true m k km kk = record { at = km.at }
  Keeps-branch false m k km kk = record { at = kk.at }

module _ {F : Type 0} {P : Room F → Type 0} where
  pub Keeps-bail_if : (b : Bool) (e : RoomError) → Keeps {F = F} P (bail_if b e)
  Keeps-bail_if b e = record { at = λ r h. h }

  pub Keeps-modify : (f : Room F → Room F) → ((r : Room F) → P r → P (f r)) → Keeps P (modify f)
  Keeps-modify f h = record { at = h }

module _ {F A B : Type 0} {P : Room F → Type 0} where
  after_continue :
      (m : Exec F A) (f : A → Exec F B) (r : Room F)
      → P (m r).0
      → ((a : A) → Keeps P (f a))
      → P (continue (m r) f).0
  after_continue m f r h kf = go (m r).0 (m r).1 h
    where
      go : (s : Room F) (x : State.Result A) → P s → P (continue (s, x) f).0
      go s (ok a) h' = (kf a).at s h'
      go s (err e) h' = h'

  pub Keeps-bind :
      (m : Exec F A) (f : A → Exec F B) → Keeps P m → ((a : A) → Keeps P (f a)) → Keeps P (m >>= f)
  Keeps-bind m f km kf = record { at = λ r h. after_continue m f r (km.at r h) kf }

  pub Keeps-then : (m : Exec F A) (k : Exec F B) → Keeps P m → Keeps P k → Keeps P (m >> k)
  Keeps-then m k km kk = record { at = λ r h. after_continue m (λ _. k) r (km.at r h) (λ _. kk) }

pub ruleset keeps_rules = (
  Keeps-pure, Keeps-or_bail, Keeps-gets, Keeps-branch, Keeps-bail_if, Keeps-modify, Keeps-bind,
  Keeps-then,
)

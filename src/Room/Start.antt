-- ===== src/Room/Start.antt =====
-- The start of a race.
use beatblock_online.Base.{
  ℕ, ◌≤◌, Bool, true, not, ◌&&◌, ◌||◌, ◌≡◌, ◌⊎◌, arith, none, some, List, [], ◌∷◌, map, any, all,
  All, saturating_add,
}
use beatblock_online.Float.{Float}
use beatblock_online.Model.{Participant, countdown, pending, no_totals, is_spectator}
use beatblock_online.Room.State.{Room, ok}
use beatblock_online.Room.Parts.{is_assigned, all_assigned_ready}
use beatblock_online.Room.Race.{schedule_start, reset_for_start}

module _ {F : Type 0} ⦃fl : Float F⦄ where
  -- A participant who is on the grid, and one whose race begins.
  abbrev pub is_set : Participant F → Bool
  is_set p = not (is_assigned p) || (p.ready && p.verified)

  abbrev pub IsFresh : Participant F → Type 0
  IsFresh p =
      (is_spectator p.role ≡ true)
      ⊎ (p.validity ≡ pending)
        × (p.totals ≡ no_totals)
        × (p.last_sequence ≡ none)
        × (p.rank ≡ none)
        × (p.accuracy ≡ fl.of_u64 100)
        × (p.progress ≡ fl.of_u64 0)
        × (p.invalid_reason ≡ none)

  pub record Started (now : ℕ) (force : Bool) (r s : Room F) (start : ℕ) : Type 0 where
    pub counting : s.lifecycle ≡ countdown
    pub scheduled : s.scheduled_start_time_ms ≡ some start
    pub delayed : (saturating_add now 2000 ≤ start) × (start ≤ saturating_add now 15000)
    pub somebody : any is_assigned r.participants ≡ true
    pub on_grid : (force || all is_set r.participants) ≡ true
    pub fresh : All IsFresh s.participants
    pub no_runs :
        (s.finalized_runs ≡ [])
        × (s.started_runs ≡ [])
        × (s.active_run_ids ≡ [])
        × (s.retired_run_ids ≡ [])

  All-IsFresh : (ps : List (Participant F)) → All IsFresh (map reset_for_start ps)
  unfolding reset_for_start
  All-IsFresh [] = tt
  All-IsFresh (p ∷ ps) = ground (arith, All-IsFresh ps)

  -- A start that is granted puts the room in countdown for a time 2 to 15 seconds ahead, up to the
  -- end of the clock; there is an assigned player; without force every assigned player is ready
  -- and has verified the chart; no run of the last chart is left; and of a racer's last chart no verdict, reason,
  -- totals, accuracy, progress, rank or sequence number is left.
  pub schedule_start-Started :
      (now : ℕ) (force : Bool) (delay : ℕ) (r s : Room F) (start : ℕ)
      → schedule_start now force delay r ≡ (s, ok start)
      → Started now force r s start
  unfolding schedule_start all_assigned_ready
  schedule_start-Started now force delay r s start h = ground (arith, All-IsFresh r.participants)

-- ===== src/Examples.antt =====
-- Concrete inputs for the theorems, and the theorems at them. The parameter of the floating point
-- numbers is instantiated by decimal fixed point numbers, in units of 1/10000.
mod Audio
mod Host
mod Renderer
mod Storage
mod Wire
use Prim.Native.Nat.{compare, Ordering, max}
use beatblock_online.Base.{
  insert, ℕ, get_elem?, Text, none, ◌↔◌, some, lookup, text_eq, trim, contains, ◌+◌, ◌-◌, ◌*◌, ◌/◌,
  ◌%◌, min, ◌≡◌, refl, not, ◌&&◌, true, false, List, [], ◌∷◌, text, arith, leb, ◌==◌,
}
use beatblock_online.Float.{Float, reversed}
use beatblock_online.Room.Create.{host_room}
use beatblock_online.Room.Presence.{new_participant}
use beatblock_online.Room.Commands.{Command, step, run}
use beatblock_online.Room.Commands
use beatblock_online.Room.Seats.{seats, IsRoster}
use beatblock_online.Model.{
  password_only, player, spectator, Participant, ScoreTotals, no_totals, ChartLock, playing,
  ParticipantRole, host, ready, host_transfer,
}
use beatblock_online.Room.State.{Room, ok, err, stale_attempt}
use beatblock_online.Room.Parts.{
  try_finish_chart, update_first, player_of, is_competitor, participant_mut, all_assigned_ready,
}
use beatblock_online.Room.Race.{schedule_start, start_run, is_run_id}
use beatblock_online.Room.Race
use beatblock_online.Room.Verdict.{finish_run, record_finish, invalidate}
use beatblock_online.Room.Outcome.{fails-step}
use beatblock_online.Room.Freeze.{step-config, config}
use beatblock_online.Room.Runs.{start_run-replaced, finish_run-Ended, Ended}
use beatblock_online.Room.Start.{schedule_start-Started, Started}
use beatblock_online.Room.Rank.{rank, rank_cmp, rank_key, rank_keys}
use beatblock_online.Room.Ranking.{rank-deserved}
use beatblock_online.Room.Ranking.Places.{deserved}
use beatblock_online.Room.Score.{totals_error, ScorePayload, ingest_score}
use beatblock_online.Room.Reports.{totals_error_iff, IsConsistent, IsLater}
use beatblock_online.Room.Membership.{step-IsRoster, run-host_room-IsRoster}

compare_refl : (a : ℕ) → compare a a ≡ Ordering.eq
compare_refl a = ground arith

compare_swap : (a b : ℕ) → compare b a ≡ reversed (compare a b)
compare_swap a b = ground arith

compare_eq : (a b c : ℕ) → compare a b ≡ Ordering.eq → compare b c ≡ compare a c
compare_eq a b c h = ground arith

compare_trans :
    (a b c : ℕ) → compare a b ≡ Ordering.lt → compare b c ≡ Ordering.lt → compare a c ≡ Ordering.lt
compare_trans a b c h k = ground arith

instance abbrev fixed : Float ℕ
fixed = record {
  of_u64 = λ n. n * 10000;
  fadd = λ a b. a + b;
  fsub = λ a b. a - b;
  fmul = λ a b. a * b / 10000;
  fdiv = λ a b. a * 10000 / b;
  fmax = λ a b. max a b;
  floor = λ a. a / 10000 * 10000;
  clamp_unit = λ a. min a 10000;
  total_cmp = compare;
  rate_in_range = λ r. leb 5000 r && leb r 50000;
  rate_off_step = λ r. not (r * 10 % 10000 == 0);
  total_cmp-refl = compare_refl;
  total_cmp-swap = compare_swap;
  total_cmp-eq = compare_eq;
  total_cmp_trans = compare_trans;
}

abbrev lobby : Room ℕ
lobby = host_room 1000 (text "room") (text "h") (text "Cup") (text "Ann") password_only

abbrev arrivals : List (ℕ × Command ℕ)
arrivals =
    (1001, Commands.request_join (text "p") (text " Bob ") player)
    ∷ (1002, Commands.request_join (text "q") (text "bob") player)
    ∷ (1003, Commands.set_role (text "p") spectator)
    ∷ []

lobby-IsRoster : IsRoster (seats lobby)
unfolding host_room
lobby-IsRoster = record {
  sessions = (refl, tt);
  names = (refl, tt);
  racers = omega arith;
  spectators = omega arith;
}

step-IsRoster_example :
    IsRoster (seats (step 1001 (Commands.request_join (text "p") (text " Bob ") player) lobby))
step-IsRoster_example =
    step-IsRoster 1001 (Commands.request_join (text "p") (text " Bob ") player) lobby lobby-IsRoster

run-host_room-IsRoster_example : IsRoster (seats (run arrivals lobby))
run-host_room-IsRoster_example =
    run-host_room-IsRoster 1000 (text "room") (text "h") (text "Cup") (text "Ann") password_only
      arrivals

abbrev hash : Text
hash = text "0123456789abcdef0123456789abcdef0123456789abcdef0123456789abcdef"

abbrev song : ChartLock
song = record {
  hash = hash;
  package_name = text "song.zip";
  song_name = text "Song";
  variant = text "Hard";
  expected_max_hits = 10;
  official = false;
  transfer_mode = host_transfer;
}

abbrev racer : Text → ParticipantRole → Participant ℕ
racer id role = record (new_participant id id role true) { ready = true; verified = true }

-- A room in which the host and a player are ready to race.
abbrev grid : Room ℕ
grid = record lobby {
  snapshot = record lobby.snapshot {
    lifecycle = ready;
    chart = some song;
    participants = racer (text "h") host ∷ racer (text "p") player ∷ [];
  };
}

-- The race, in which both have started a run.
abbrev race : Room ℕ
race = record grid {
  snapshot = record grid.snapshot { lifecycle = playing };
  started_runs = text "h" ∷ text "p" ∷ [];
  active_run_ids = (text "h", text "run1") ∷ (text "p", text "run2") ∷ [];
}

schedule_start-Started_example :
    Started 2000 false grid (schedule_start 2000 false 3000 grid).0 5000
unfolding host_room schedule_start all_assigned_ready
schedule_start-Started_example =
    schedule_start-Started 2000 false 3000 grid (schedule_start 2000 false 3000 grid).0 5000 refl

-- A report of the attempt that was replaced.
abbrev late : ScorePayload ℕ
late = record { totals = some (record no_totals { max_hits = 10 }); progress = none }

start_run-replaced_example :
    let after = (start_run 7000 (text "h") (text "run3") 10 race).0 in
    (start_run 7001 (text "h") (text "run1") 10 after ≡ (after, err stale_attempt))
    × ((start_run 7001 (text "h") (text "run1") 11 after).0 ≡ after)
    × ((ingest_score 7001 (text "h") (text "run1") 4 late after).0 ≡ after)
    × ((invalidate 7001 (text "h") (text "run1") (text "why") true after).0 ≡ after)
    × ((finish_run 7001 (text "h") (text "run1") after).0 ≡ after)
unfolding host_room start_run participant_mut is_run_id lookup text_eq trim
start_run-replaced_example =
    start_run-replaced 7000 7001 (text "h") (text "run3") (text "run1") 10 11 4 late (text "why")
      true race (start_run 7000 (text "h") (text "run3") 10 race).0 refl refl refl refl

finish_run-Ended_example :
    Ended
      (text "h")
      (text "run1")
      race
      (finish_run 9000 (text "h") (text "run1") race)
      9001
      (text "run1")
finish_run-Ended_example = finish_run-Ended 9000 9001 (text "h") (text "run1") (text "run1") race

-- It is recorded.
finish_run-recorded :
    contains (finish_run 9000 (text "h") (text "run1") race).0.finalized_runs (text "h") ≡ true
unfolding host_room finish_run record_finish participant_mut player_of text_eq contains lookup
    is_run_id trim try_finish_chart update_first insert
finish_run-recorded = refl

fails-step_example : step 1001 (Commands.set_ready (text "h") true) lobby ≡ lobby
unfolding host_room Race.set_ready participant_mut text_eq
fails-step_example = fails-step 1001 (Commands.set_ready (text "h") true) lobby refl refl

step-config_example :
    config (step 7000 (Commands.lock_chart (text "e") song true) race) ≡ config race
unfolding host_room
step-config_example = step-config 7000 (Commands.lock_chart (text "e") song true) race refl

-- The player has the higher accuracy of the two.
abbrev lead : Room ℕ
lead = record race {
  snapshot = record race.snapshot {
    participants =
        record (racer (text "h") host) { accuracy = 900000 }
        ∷ record (racer (text "p") player) { accuracy = 950000 }
        ∷ [];
  };
}

rank-deserved_example :
    get_elem? (rank lead).participants 0
    ≡ some (record (racer (text "h") host) {
      accuracy = 900000;
      rank = deserved lead.participants 0 (record (racer (text "h") host) { accuracy = 900000 });
    })
unfolding host_room
rank-deserved_example =
    rank-deserved lead 0 (record (racer (text "h") host) { accuracy = 900000 }) refl

-- The host is second.
rank-lead :
    deserved lead.participants 0 (record (racer (text "h") host) { accuracy = 900000 }) ≡ some 2
unfolding rank_keys rank_key rank_cmp is_competitor
rank-lead = refl

-- Four notes, of which one was missed.
abbrev report : ScoreTotals
report = record no_totals {
  hits = 3;
  misses = 1;
  combo = 1;
  max_combo = 2;
  current_max_hits = 4;
  max_hits = 10;
}

totals_error_iff_example :
    (totals_error no_totals report 10 ≡ none) ↔ (IsConsistent 10 report × IsLater no_totals report)
totals_error_iff_example = totals_error_iff no_totals report 10

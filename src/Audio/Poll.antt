-- ===== src/Audio/Poll.antt =====
-- companion/src/audio_sessions.rs: the attempts to isolate the sessions that were not there yet. The
-- states that are reported are left out. What the operating system lists for a key is an argument.
use beatblock_online.Base.{
  ℕ, ◌+◌, ◌-◌, Bool, true, false, List, [], ◌∷◌, if◌then◌else◌, ltb, leb, Text, text_eq, delete,
}
use beatblock_online.Audio.{Outcome, done, failed, Session, Desktop, Engine, isolate_exact}

-- Nanoseconds.
abbrev pub discovery_timeout : ℕ
discovery_timeout = 5000000000

abbrev pub discovery_retry : ℕ
discovery_retry = 50000000

abbrev pub discovery_steady_retry : ℕ
discovery_steady_retry = 1000000000

-- The times of an `Instant` are numbers of nanoseconds.
pub record PendingIsolation : Type 0 where
  pub process_id : ℕ
  pub started : ℕ
  pub next_attempt : ℕ

-- `PendingIsolation`s by their keys
abbrev pub Pending : Type 0
Pending = List (Text × PendingIsolation)

unfoldable pub reschedule : ℕ → Text → Pending → Pending
reschedule now key [] = []
reschedule now key ((k, request) ∷ rest) =
    let later = reschedule now key rest in
    if text_eq k key
    then (
      k,
      record request {
        next_attempt =
            now
            + (if leb discovery_timeout (now - request.started)
                then discovery_steady_retry
                else discovery_retry);
      },
    )
      ∷ rest
    else (k, request) ∷ later

abbrev pub with_pending :
    ℕ → Text → Pending → Engine × Desktop × Outcome Bool → Pending × Engine × Desktop
with_pending now key pending (e, d, done true) = (delete key pending, e, d)
with_pending now key pending (e, d, done false) = (reschedule now key pending, e, d)
with_pending now key pending (e, d, failed error) = (reschedule now key pending, e, d)

abbrev pub enumerated :
    Text → ℕ → Outcome (List Session) → Engine → Desktop → Engine × Desktop × Outcome Bool
enumerated key process_id (failed error) e d = (e, d, failed error)
enumerated key process_id (done sessions) e d = isolate_exact key process_id sessions e d

abbrev pub poll_one :
    ℕ
    → (Text → Outcome (List Session))
    → Text
    → PendingIsolation
    → Pending × Engine × Desktop
    → Pending × Engine × Desktop
poll_one now enumerate key request (pending, e, d) =
    if ltb now request.next_attempt
    then (pending, e, d)
    else with_pending now key pending (enumerated key request.process_id (enumerate key) e d)

-- The loop over the requests that were pending.
unfoldable pub poll_all :
    ℕ
    → (Text → Outcome (List Session))
    → Pending
    → Pending × Engine × Desktop
    → Pending × Engine × Desktop
unfolding reschedule
poll_all now enumerate [] s = s
poll_all now enumerate ((key, request) ∷ rest) s =
    poll_all now enumerate rest (poll_one now enumerate key request s)

-- `poll_pending_isolations`
unfoldable pub poll_pending_isolations :
    ℕ → (Text → Outcome (List Session)) → Pending → Engine → Desktop → Pending × Engine × Desktop
unfolding poll_all
poll_pending_isolations now enumerate pending e d = poll_all now enumerate pending (pending, e, d)

-- ===== src/Examples/Audio.antt =====
-- The audio sessions of three processes, at concrete inputs.
use beatblock_online.Base.{
  ◌==◌, ◌≡◌, refl, true, false, some, none, lookup, put, delete, text_eq, Text, List, [], ◌∷◌, text,
  arith,
}
use beatblock_online.Audio.{
  Session, Desktop, Outcome, done, isolate_exact, restore, restore_with_retries,
}
use beatblock_online.Audio.Isolation.{IsIsolated, plays, isolate_exact-IsIsolated}
use beatblock_online.Audio.Restored.{restore-isolate_exact}
use beatblock_online.Audio.Failures.{is_failed, isolate_exact-failed, restore_with_retries-ok}
use beatblock_online.Audio.Poll.{Pending, PendingIsolation, poll_pending_isolations}
use beatblock_online.Audio.Attempts.{AreUnique, IsScheduled, poll_pending_isolations-IsScheduled}
use beatblock_online.Audio.Polled.{is_known, poll_pending_isolations-known}

abbrev sessions : List Session
sessions =
    record { handle = 1; process_id = 70 }
    ∷ record { handle = 2; process_id = 80 }
    ∷ record { handle = 3; process_id = 70 }
    ∷ []

-- Session 3 is muted before, and every call succeeds.
abbrev desktop : Desktop
desktop = record { muted = λ x. x == 3; answers = [] }

-- Both states are read, and the first session is muted; the second one fails.
abbrev failing : Desktop
failing = record { muted = λ x. x == 3; answers = none ∷ none ∷ none ∷ some (text "gone") ∷ [] }

isolates : (isolate_exact (text "A") 70 sessions [] desktop).2 ≡ done true
unfolding isolate_exact lookup
isolates = refl

restores :
    let r = isolate_exact (text "A") 70 sessions [] desktop in
    (restore (text "A") r.0 r.1).2 ≡ done true
unfolding isolate_exact restore lookup put text_eq
restores = refl

fails : is_failed (isolate_exact (text "A") 70 sessions [] failing).2 ≡ true
unfolding isolate_exact lookup
fails = refl

isolate_exact-IsIsolated_example :
    IsIsolated
      (text "A")
      desktop.muted
      (plays 70 sessions 1)
      1
      (isolate_exact (text "A") 70 sessions [] desktop)
unfolding lookup
isolate_exact-IsIsolated_example =
    isolate_exact-IsIsolated (text "A") 70 sessions [] desktop 1 refl isolates

restore-isolate_exact_example :
    let r = isolate_exact (text "A") 70 sessions [] desktop in
    (restore (text "A") r.0 r.1).1.muted 3 ≡ true
unfolding lookup
restore-isolate_exact_example =
    restore-isolate_exact (text "A") 70 sessions [] desktop 3 refl isolates restores

isolate_exact-failed_example :
    let r = isolate_exact (text "A") 70 sessions [] failing in (r.0 ≡ []) × (r.1.muted 1 ≡ false)
isolate_exact-failed_example =
    isolate_exact-failed (text "A") 70 sessions [] failing 1 (omega arith) fails

restore_with_retries-ok_example :
    is_failed
      (restore_with_retries
        (text "A")
        ((
          text "A",
          record { session = record { handle = 1; process_id = 70 }; original_muted = false } ∷ [],
        )
          ∷ [])
        failing).2
    ≡ false
restore_with_retries-ok_example =
    restore_with_retries-ok (text "A")
      ((
        text "A",
        record { session = record { handle = 1; process_id = 70 }; original_muted = false } ∷ [],
      )
        ∷ [])
      failing (omega arith)

-- One key is due at once, and one has been asked for five seconds ago.
abbrev requests : Pending
requests =
    (text "A", record { process_id = 70; started = 9000000000; next_attempt = 9000000000 })
    ∷ (text "B", record { process_id = 90; started = 4000000000; next_attempt = 9000000000 })
    ∷ []

abbrev listed : Text → Outcome (List Session)
listed key = done sessions

is_waiting : is_known (text "B") (requests, [], desktop) ≡ true
unfolding lookup text_eq
is_waiting = refl

poll_pending_isolations-known_example :
    is_known (text "B") (poll_pending_isolations 9000000000 listed requests [] desktop) ≡ true
poll_pending_isolations-known_example =
    poll_pending_isolations-known 9000000000 listed (text "B") requests [] desktop is_waiting

-- The process of the other key has no sessions yet.
abbrev waiting : PendingIsolation
waiting = record { process_id = 90; started = 4000000000; next_attempt = 10000000000 }

still_waits :
    lookup (text "B") (poll_pending_isolations 9000000000 listed requests [] desktop).0
    ≡ some waiting
unfolding poll_pending_isolations isolate_exact lookup text_eq put delete
still_waits = refl

requests-AreUnique : AreUnique requests
unfolding lookup text_eq
requests-AreUnique = (refl, (refl, tt))

poll_pending_isolations-IsScheduled_example :
    IsScheduled 9000000000 listed (requests, [], desktop) (text "B") waiting
poll_pending_isolations-IsScheduled_example =
    poll_pending_isolations-IsScheduled 9000000000 listed requests [] desktop (text "B") waiting
      requests-AreUnique (omega arith, (omega arith, tt)) still_waits

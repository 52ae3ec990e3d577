-- ===== src/Audio/Polled.antt =====
-- What a poll leaves of the requests.
use beatblock_online.Base.{
  ℕ, ◌≡◌, refl, Bool, true, false, Option, none, some, List, [], ◌∷◌, Bool-cases, inl, inr, ◌||◌,
  ltb, Text, text_eq_iff, lookup, lookup-put, lookup-delete, is_some, retain, ◌==◌, arith,
}
use beatblock_online.Audio.{
  Outcome, done, failed, Session, HeldSession, Desktop, Engine, isolate_exact, isolate_matches,
  held_as, read_all, mute_all,
}
use beatblock_online.Audio.Poll.{
  PendingIsolation, Pending, reschedule, with_pending, enumerated, poll_one, poll_all,
  poll_pending_isolations,
}

held_as-kept :
    (key j : Text) (hs : List HeldSession) (e : Engine) (after : Desktop × Option Text)
    → is_some (lookup j e) ≡ true
    → is_some (lookup j (held_as key hs e after).0) ≡ true
held_as-kept key j hs e (d, none) h = ground (arith, h, lookup-put key j hs e)
held_as-kept key j hs e (d, some error) h = h

held_as-held :
    (key : Text) (hs : List HeldSession) (e : Engine) (after : Desktop × Option Text)
    → (held_as key hs e after).2 ≡ done true
    → is_some (lookup key (held_as key hs e after).0) ≡ true
held_as-held key hs e (d, none) ok = ground (arith, lookup-put key key hs e, text_eq_iff key key)
held_as-held key hs e (d, some error) ok = absurd (ground (arith, ok))

isolate_matches-kept :
    (key j : Text) (e : Engine) (read : Desktop × Outcome (List HeldSession))
    → is_some (lookup j e) ≡ true
    → is_some (lookup j (isolate_matches key e read).0) ≡ true
unfolding isolate_matches
isolate_matches-kept key j e (d, failed error) h = h
isolate_matches-kept key j e (d, done []) h = h
isolate_matches-kept key j e (d, done (s ∷ hs)) h =
    held_as-kept key j (s ∷ hs) e (mute_all [] (s ∷ hs) d) h

isolate_matches-held :
    (key : Text) (e : Engine) (read : Desktop × Outcome (List HeldSession))
    → (isolate_matches key e read).2 ≡ done true
    → is_some (lookup key (isolate_matches key e read).0) ≡ true
unfolding isolate_matches
isolate_matches-held key e (d, failed error) ok = absurd (ground (arith, ok))
isolate_matches-held key e (d, done []) ok = absurd (ground (arith, ok))
isolate_matches-held key e (d, done (s ∷ hs)) ok =
    held_as-held key (s ∷ hs) e (mute_all [] (s ∷ hs) d) ok

isolate_exact-kept :
    (key j : Text) (process_id : ℕ) (sessions : List Session) (e : Engine) (d : Desktop)
    → is_some (lookup j e) ≡ true
    → is_some (lookup j (isolate_exact key process_id sessions e d).0) ≡ true
unfolding isolate_exact
isolate_exact-kept key j process_id sessions e d h = ground (
  arith,
  h,
  isolate_matches-kept key j e (read_all (retain (λ s. s.process_id == process_id) sessions) d),
)

isolate_exact-held :
    (key : Text) (process_id : ℕ) (sessions : List Session) (e : Engine) (d : Desktop)
    → (isolate_exact key process_id sessions e d).2 ≡ done true
    → is_some (lookup key (isolate_exact key process_id sessions e d).0) ≡ true
unfolding isolate_exact
isolate_exact-held key process_id sessions e d ok = ground (
  arith,
  ok,
  isolate_matches-held key e (read_all (retain (λ s. s.process_id == process_id) sessions) d),
)

-- A key that waits or is held.
abbrev pub is_known : Text → Pending × Engine × Desktop → Bool
is_known j (pending, e, d) = is_some (lookup j pending) || is_some (lookup j e)

lookup-reschedule :
    (now : ℕ) (key j : Text) (pending : Pending)
    → is_some (lookup j (reschedule now key pending)) ≡ is_some (lookup j pending)
unfolding reschedule lookup
lookup-reschedule now key j [] = refl
lookup-reschedule now key j ((k, request) ∷ rest) = ground (arith, lookup-reschedule now key j rest)

with_pending-known :
    (now : ℕ) (key j : Text) (pending : Pending) (r : Engine × Desktop × Outcome Bool)
    → (is_some (lookup j pending) || is_some (lookup j r.0)) ≡ true
    → (r.2 ≡ done true → is_some (lookup key r.0) ≡ true)
    → is_known j (with_pending now key pending r) ≡ true
with_pending-known now key j pending (e, d, done true) h held =
    ground (arith, h, held refl, lookup-delete key j pending, text_eq_iff key j)
with_pending-known now key j pending (e, d, done false) h held =
    ground (arith, h, lookup-reschedule now key j pending)
with_pending-known now key j pending (e, d, failed error) h held =
    ground (arith, h, lookup-reschedule now key j pending)

enumerated-kept :
    (key j : Text) (process_id : ℕ) (found : Outcome (List Session)) (e : Engine) (d : Desktop)
    → is_some (lookup j e) ≡ true
    → is_some (lookup j (enumerated key process_id found e d).0) ≡ true
enumerated-kept key j process_id (failed error) e d h = h
enumerated-kept key j process_id (done sessions) e d h =
    isolate_exact-kept key j process_id sessions e d h

enumerated-held :
    (key : Text) (process_id : ℕ) (found : Outcome (List Session)) (e : Engine) (d : Desktop)
    → (enumerated key process_id found e d).2 ≡ done true
    → is_some (lookup key (enumerated key process_id found e d).0) ≡ true
enumerated-held key process_id (failed error) e d ok = absurd (ground (arith, ok))
enumerated-held key process_id (done sessions) e d ok =
    isolate_exact-held key process_id sessions e d ok

poll_one-known :
    (now : ℕ) (enumerate : Text → Outcome (List Session)) (key j : Text)
    (request : PendingIsolation) (s : Pending × Engine × Desktop)
    → is_known j s ≡ true
    → is_known j (poll_one now enumerate key request s) ≡ true
poll_one-known now enumerate key j request (pending, e, d) h =
    elim (Bool-cases (ltb now request.next_attempt)) [
      | inl waits ↦ rw waits h
      | inr due ↦
          let r = enumerated key request.process_id (enumerate key) e d in
          rw due (
            with_pending-known now key j pending r
              (ground (arith, h, enumerated-kept key j request.process_id (enumerate key) e d))
              (enumerated-held key request.process_id (enumerate key) e d))
    ]

poll_all-known :
    (now : ℕ) (enumerate : Text → Outcome (List Session)) (j : Text) (requests : Pending)
    (s : Pending × Engine × Desktop)
    → is_known j s ≡ true
    → is_known j (poll_all now enumerate requests s) ≡ true
unfolding poll_all
poll_all-known now enumerate j [] s h = h
poll_all-known now enumerate j ((key, request) ∷ rest) s h =
    poll_all-known now enumerate j rest (poll_one now enumerate key request s)
      (poll_one-known now enumerate key j request s h)

-- No request is lost: a key that waits, or whose sessions are held, waits or has its sessions held after
-- a poll, whatever the operating system lists and whichever of its calls fail.
pub poll_pending_isolations-known :
    (now : ℕ) (enumerate : Text → Outcome (List Session)) (j : Text) (pending : Pending)
    (e : Engine) (d : Desktop)
    → is_known j (pending, e, d) ≡ true
    → is_known j (poll_pending_isolations now enumerate pending e d) ≡ true
unfolding poll_pending_isolations
poll_pending_isolations-known now enumerate j pending e d h =
    poll_all-known now enumerate j pending (pending, e, d) h

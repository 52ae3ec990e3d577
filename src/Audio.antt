-- ===== src/Audio.antt =====
-- companion/src/audio_sessions.rs: the engine that mutes the audio sessions of a renderer process on
-- the desktop, and restores them. The operating system is the state `Desktop`: which sessions are
-- muted, and what it will answer to the next calls, an error text or nothing.
pub mod Isolation
pub mod Restored
pub mod Failures
pub mod Poll
pub mod Polled
pub mod Attempts
use beatblock_online.Base.{
  ℕ, zero, suc, Bool, true, false, Option, none, some, List, [], ◌∷◌, retain, if◌then◌else◌, ◌==◌,
  Text, lookup, put, delete, is_some,
}

pub data Outcome (A : Type 0) : Type 0 where
  done : A → Outcome A
  failed : (error : Text) → Outcome A

-- A `SessionControl`: a handle of the operating system and the process that plays the session.
pub record Session : Type 0 where
  pub handle : ℕ
  pub process_id : ℕ

pub record HeldSession : Type 0 where
  pub session : Session
  pub original_muted : Bool

pub record Desktop : Type 0 where
  pub muted : ℕ → Bool
  pub answers : List (Option Text)

-- `IsolationEngine::held`
abbrev pub Engine : Type 0
Engine = List (Text × List HeldSession)

abbrev pub first_answer : List (Option Text) → Option Text
first_answer [] = none
first_answer (a ∷ rest) = a

abbrev pub later_answers : List (Option Text) → List (Option Text)
later_answers [] = []
later_answers (a ∷ rest) = rest

abbrev pub answered : Desktop → Desktop
answered d = record d { answers = later_answers d.answers }

abbrev pub write_muted : Session → Bool → Option Text → Desktop → Desktop
write_muted s b (some error) d = d
write_muted s b none d = record d { muted = λ x. if s.handle == x then b else d.muted x }

-- `set_muted`: a call that fails changes nothing.
abbrev pub set_muted : Session → Bool → Desktop → Desktop × Option Text
set_muted s b d = let error = first_answer d.answers in (write_muted s b error (answered d), error)

abbrev pub hold : Session → Bool → Outcome (List HeldSession) → Outcome (List HeldSession)
hold s original_muted (failed error) = failed error
hold s original_muted (done hs) =
    done (record { session = s; original_muted = original_muted } ∷ hs)

-- The sessions with the state that `muted` reads.
unfoldable pub read_all : List Session → Desktop → Desktop × Outcome (List HeldSession)
read_all [] d = (d, done [])
read_all (s ∷ ss) d = elim (first_answer d.answers) [
  | some error ↦ (answered d, failed error)
  | none ↦ ((read_all ss (answered d)).0, hold s (d.muted s.handle) (read_all ss (answered d)).1)
]

-- The loop over `rollback`.
unfoldable pub roll_back : List HeldSession → Desktop → Desktop
roll_back [] d = d
roll_back (h ∷ hs) d = roll_back hs (set_muted h.session h.original_muted d).0

-- The loop over the matches. `changed` are those that are muted, the last one first.
unfoldable pub mute_all : List HeldSession → List HeldSession → Desktop → Desktop × Option Text
unfolding roll_back
mute_all changed [] d = (d, none)
mute_all changed (h ∷ hs) d = elim (first_answer d.answers) [
  | some error ↦ (roll_back changed (set_muted h.session true d).0, some error)
  | none ↦ mute_all (h ∷ changed) hs (set_muted h.session true d).0
]

abbrev pub held_as :
    Text → List HeldSession → Engine → Desktop × Option Text → Engine × Desktop × Outcome Bool
held_as key matches e (d, some error) = (e, d, failed error)
held_as key matches e (d, none) = (put key matches e, d, done true)

unfoldable pub isolate_matches :
    Text → Engine → Desktop × Outcome (List HeldSession) → Engine × Desktop × Outcome Bool
unfolding mute_all
isolate_matches key e (d, failed error) = (e, d, failed error)
isolate_matches key e (d, done []) = (e, d, done false)
isolate_matches key e (d, done (h ∷ hs)) = held_as key (h ∷ hs) e (mute_all [] (h ∷ hs) d)

-- `IsolationEngine::isolate_exact`
unfoldable pub isolate_exact :
    Text → ℕ → List Session → Engine → Desktop → Engine × Desktop × Outcome Bool
unfolding read_all isolate_matches
isolate_exact key process_id sessions e d =
    let matches = retain (λ s. s.process_id == process_id) sessions in
    if is_some (lookup key e) then (e, d, done true) else isolate_matches key e (read_all matches d)

abbrev pub get_or_insert : Option Text → Option Text → Option Text
get_or_insert (some first) later = some first
get_or_insert none later = later

unfoldable pub restore_all : List HeldSession → Desktop → Desktop × Option Text
restore_all [] d = (d, none)
restore_all (h ∷ hs) d =
    let rest = restore_all hs (set_muted h.session h.original_muted d).0 in
    (rest.0, get_or_insert (first_answer d.answers) rest.1)

abbrev pub released : Text → Engine → Desktop × Option Text → Engine × Desktop × Outcome Bool
released key e (d, some error) = (e, d, failed error)
released key e (d, none) = (delete key e, d, done true)

unfoldable pub restore_held :
    Text → Option (List HeldSession) → Engine → Desktop → Engine × Desktop × Outcome Bool
unfolding restore_all
restore_held key none e d = (e, d, done false)
restore_held key (some hs) e d = released key e (restore_all hs d)

-- `IsolationEngine::restore`
unfoldable pub restore : Text → Engine → Desktop → Engine × Desktop × Outcome Bool
unfolding restore_held
restore key e d = restore_held key (lookup key e) e d

-- The attempts of `restore_with_retries`, of which the last error is returned.
unfoldable pub restore_attempts :
    ℕ → Text → Text → Engine → Desktop → Engine × Desktop × Outcome Bool
unfolding restore
restore_attempts zero last_error key e d = (e, d, failed last_error)
restore_attempts (suc n) last_error key e d = elim (restore key e d).2 [
  | done restored ↦ restore key e d
  | failed error ↦ restore_attempts n error key (restore key e d).0 (restore key e d).1
]

abbrev pub restore_retries : ℕ
restore_retries = 20

-- `restore_with_retries`
unfoldable pub restore_with_retries : Text → Engine → Desktop → Engine × Desktop × Outcome Bool
unfolding restore_attempts
restore_with_retries key e d = restore_attempts restore_retries [] key e d

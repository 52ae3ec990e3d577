-- ===== src/Audio/Isolation.antt =====
-- What muting and restoring do to the desktop.
use beatblock_online.Base.{
  ℕ, ◌≡◌, refl, ◌∙◌, sym, ap, inl, inr, Bool, true, ◌||◌, ◌&&◌, Option-cases, Option, none, some,
  List, [], ◌∷◌, retain, any, All, if◌then◌else◌, ◌==◌, Text, lookup, lookup-put, text_eq_iff,
  arith,
}
use beatblock_online.Audio.{
  Outcome, done, failed, Session, HeldSession, Desktop, Engine, held_as, set_muted, first_answer,
  answered, hold, read_all, mute_all, isolate_matches, isolate_exact, restore_all,
}

abbrev pub is_held : ℕ → List HeldSession → Bool
is_held x hs = any (λ h. h.session.handle == x) hs

-- The original states are those of the given desktop.
abbrev pub AreOriginal : (ℕ → Bool) → List HeldSession → Type 0
AreOriginal m hs = All (λ h. h.original_muted ≡ m h.session.handle) hs

pub muted-read_all : (ss : List Session) (d : Desktop) → (read_all ss d).0.muted ≡ d.muted
unfolding read_all
muted-read_all [] d = refl
muted-read_all (s ∷ ss) d = elim (Option-cases (first_answer d.answers)) [
  | inl ok ↦ rw (read_all, ok) (muted-read_all ss _)
  | inr (error, e) ↦ rw (read_all, e) refl
]

-- The desktop after a loop of successful restores.
pub restore_all-ok :
    (m : ℕ → Bool) (hs : List HeldSession) (d : Desktop) (x : ℕ)
    → AreOriginal m hs
    → (restore_all hs d).1 ≡ none
    → (restore_all hs d).0.muted x ≡ (if is_held x hs then m x else d.muted x)
unfolding restore_all
restore_all-ok m [] d x o ok = refl
restore_all-ok m (h ∷ hs) d x o ok =
    ground (arith, o.0, ok, restore_all-ok m hs (set_muted h.session h.original_muted d).0 x o.1)

mute_all-ok :
    (changed hs : List HeldSession) (d : Desktop) (x : ℕ)
    → (mute_all changed hs d).1 ≡ none
    → (mute_all changed hs d).0.muted x ≡ (is_held x hs || d.muted x)
unfolding mute_all
mute_all-ok changed [] d x ok = refl
mute_all-ok changed (h ∷ hs) d x ok =
    ground (arith, ok, mute_all-ok (h ∷ changed) hs (set_muted h.session true d).0 x)

-- What the matches hold, if no read fails.
pub record IsRead (m : ℕ → Bool) (ss : List Session) (x : ℕ) (hs : List HeldSession) : Type 0 where
  pub original : AreOriginal m hs
  pub same : is_held x hs ≡ any (λ s. s.handle == x) ss

unfoldable pub ReadAs :
    (m : ℕ → Bool) (ss : List Session) (x : ℕ) → Outcome (List HeldSession) → Type 0
ReadAs m ss x (failed error) = Unit
ReadAs m ss x (done hs) = IsRead m ss x hs

hold-ReadAs :
    (m : ℕ → Bool) (s : Session) (ss : List Session) (x : ℕ) (o : Outcome (List HeldSession))
    → ReadAs m ss x o
    → ReadAs m (s ∷ ss) x (hold s (m s.handle) o)
unfolding ReadAs
hold-ReadAs m s ss x (failed error) v = tt
hold-ReadAs m s ss x (done hs) v = record {
  original = (refl, v.original);
  same = ap (λ b. s.handle == x || b) v.same;
}

pub read_all-ReadAs :
    (ss : List Session) (d : Desktop) (x : ℕ) → ReadAs d.muted ss x (read_all ss d).1
unfolding read_all ReadAs
read_all-ReadAs [] d x = record { original = tt; same = refl }
read_all-ReadAs (s ∷ ss) d x = elim (Option-cases (first_answer d.answers)) [
  | inl ok ↦ rw (read_all, ok) (hold-ReadAs d.muted s ss x _ (read_all-ReadAs ss (answered d) x))
  | inr (error, e) ↦ rw (read_all, e) tt
]

-- The sessions of the process with the handle.
abbrev pub plays : ℕ → List Session → ℕ → Bool
plays process_id sessions x = any (λ s. s.process_id == process_id && s.handle == x) sessions

any-retain :
    (process_id x : ℕ) (ss : List Session)
    → any (λ s. s.handle == x) (retain (λ s. s.process_id == process_id) ss) ≡ plays process_id ss x
any-retain process_id x [] = refl
any-retain process_id x (s ∷ ss) = ground (arith, any-retain process_id x ss)

-- What a successful isolation leaves, at one handle.
pub record IsIsolated (key : Text) (m : ℕ → Bool) (playing : Bool) (x : ℕ)
    (r : Engine × Desktop × Outcome Bool) : Type 0 where
  pub held : List HeldSession
  pub kept : lookup key r.0 ≡ some held
  pub original : AreOriginal m held
  pub same : is_held x held ≡ playing
  pub muted : r.1.muted x ≡ (playing || m x)

held_as-IsIsolated :
    (key : Text) (e : Engine) (m : ℕ → Bool) (ss : List Session) (x : ℕ) (hs : List HeldSession)
    (after : Desktop × Option Text)
    → IsRead m ss x hs
    → (after.1 ≡ none → after.0.muted x ≡ (is_held x hs || m x))
    → (held_as key hs e after).2 ≡ done true
    → IsIsolated key m (any (λ s. s.handle == x) ss) x (held_as key hs e after)
held_as-IsIsolated key e m ss x hs (d, none) v k ok = record {
  held = hs;
  kept = ground (arith, lookup-put key key hs e, text_eq_iff key key);
  original = v.original;
  same = v.same;
  muted = k refl ∙ ap (λ b. b || m x) v.same;
}
held_as-IsIsolated key e m ss x hs (d, some error) v k ok = absurd (ground (arith, ok))

pub isolate_matches-IsIsolated :
    (key : Text) (e : Engine) (ss : List Session) (x : ℕ) (m : ℕ → Bool) (d : Desktop)
    (o : Outcome (List HeldSession))
    → d.muted ≡ m
    → ReadAs m ss x o
    → (isolate_matches key e (d, o)).2 ≡ done true
    → IsIsolated key m (any (λ s. s.handle == x) ss) x (isolate_matches key e (d, o))
unfolding isolate_matches ReadAs
isolate_matches-IsIsolated key e ss x m d (failed error) same v ok = absurd (ground (arith, ok))
isolate_matches-IsIsolated key e ss x m d (done []) same v ok = absurd (ground (arith, ok))
isolate_matches-IsIsolated key e ss x m d (done (h ∷ hs)) same v ok =
    held_as-IsIsolated key e m ss x (h ∷ hs) (mute_all [] (h ∷ hs) d) v
      (λ k. mute_all-ok [] (h ∷ hs) d x k ∙ ap (λ f. is_held x (h ∷ hs) || f x) same) ok

-- A key under which nothing is held yet, isolated with success, holds sessions whose original states are
-- those of the desktop before. Then a session is muted exactly if it was muted before or belongs to
-- the process; so no other process falls silent.
pub isolate_exact-IsIsolated :
    (key : Text) (process_id : ℕ) (sessions : List Session) (e : Engine) (d : Desktop) (x : ℕ)
    → lookup key e ≡ none
    → (isolate_exact key process_id sessions e d).2 ≡ done true
    → IsIsolated key d.muted
        (plays process_id sessions x)
        x
        (isolate_exact key process_id sessions e d)
unfolding isolate_exact
isolate_exact-IsIsolated key process_id sessions e d x new ok =
    let matches = retain (λ s. s.process_id == process_id) sessions in
    let ok' : (isolate_matches key e (read_all matches d)).2 ≡ done true =
      ground (arith, new, ok) in
    let isolated =
      isolate_matches-IsIsolated key e matches x d.muted (read_all matches d).0
        (read_all matches d).1 (muted-read_all matches d) (read_all-ReadAs matches d x) ok' in
    rw (new, sym (any-retain process_id x sessions)) isolated

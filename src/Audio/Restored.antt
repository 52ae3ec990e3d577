-- ===== src/Audio/Restored.antt =====
-- What is restored, and what a failed isolation leaves.
use beatblock_online.Base.{
  ℕ, ◌+◌, ◌≤◌, ◌≡◌, refl, ◌∙◌, ap, inl, inr, Bool, true, Option-cases, Option, none, some, List, [],
  ◌∷◌, count_if, is_some, if◌then◌else◌, Text, lookup, arith,
}
use beatblock_online.Audio.{
  Outcome, done, Session, HeldSession, Desktop, Engine, set_muted, first_answer, later_answers,
  answered, read_all, roll_back, released, isolate_exact, restore_all, restore_held, restore,
}
use beatblock_online.Audio.Isolation.{IsIsolated, restore_all-ok, isolate_exact-IsIsolated}

-- The calls that will fail.
abbrev pub failures : Desktop → ℕ
failures d = count_if is_some d.answers

released-ok :
    (key : Text) (e : Engine) (after : Desktop × Option Text)
    → (released key e after).2 ≡ done true
    → (after.1 ≡ none) × ((released key e after).1 ≡ after.0)
released-ok key e (d, none) ok = (refl, refl)
released-ok key e (d, some error) ok = absurd (ground (arith, ok))

restored-IsIsolated :
    (key : Text) (m : ℕ → Bool) (playing : Bool) (x : ℕ) (r : Engine × Desktop × Outcome Bool)
    → IsIsolated key m playing x r
    → (restore key r.0 r.1).2 ≡ done true
    → (restore key r.0 r.1).1.muted x ≡ m x
unfolding restore restore_held
restored-IsIsolated key m playing x r v ok =
    let ok' : (released key r.0 (restore_all v.held r.1)).2 ≡ done true =
      ground (arith, v.kept, ok) in
    let (none_failed, same) = released-ok key r.0 (restore_all v.held r.1) ok' in
    let back = restore_all-ok m v.held r.1 x v.original none_failed in
    rw (restore, v.kept) (ap (λ d. d.muted x) same ∙ back ∙ ground (arith, v.same, v.muted))

-- If the sessions of a process are isolated with success, under a key that holds nothing yet, and are
-- then restored with success, every session is muted or not as it was before.
pub restore-isolate_exact :
    (key : Text) (process_id : ℕ) (sessions : List Session) (e : Engine) (d : Desktop) (x : ℕ)
    → lookup key e ≡ none
    → (isolate_exact key process_id sessions e d).2 ≡ done true
    → (restore key
        (isolate_exact key process_id sessions e d).0
        (isolate_exact key process_id sessions e d).1).2
      ≡ done true
    → let r = isolate_exact key process_id sessions e d in
      (restore key r.0 r.1).1.muted x ≡ d.muted x
restore-isolate_exact key process_id sessions e d x new ok back =
    restored-IsIsolated key d.muted _ x (isolate_exact key process_id sessions e d)
      (isolate_exact-IsIsolated key process_id sessions e d x new ok) back

pub failures-answered :
    (d : Desktop)
    → failures (answered d) + (if is_some (first_answer d.answers) then 1 else 0) ≡ failures d
failures-answered d = count-later d.answers
  where
    count-later :
        (l : List (Option Text))
        → count_if is_some (later_answers l) + (if is_some (first_answer l) then 1 else 0)
          ≡ count_if is_some l
    count-later [] = omega arith
    count-later (a ∷ rest) = omega arith

pub restore_all-failures :
    (hs : List HeldSession) (d : Desktop) → failures d ≡ 0 → (restore_all hs d).1 ≡ none
unfolding restore_all
restore_all-failures [] d h = refl
restore_all-failures (s ∷ hs) d h = ground (
  arith,
  failures-answered d,
  h,
  restore_all-failures hs (set_muted s.session s.original_muted d).0,
)

pub roll_back-restore_all :
    (hs : List HeldSession) (d : Desktop) → roll_back hs d ≡ (restore_all hs d).0
unfolding roll_back restore_all
roll_back-restore_all [] d = refl
roll_back-restore_all (h ∷ hs) d =
    roll_back-restore_all hs (set_muted h.session h.original_muted d).0

pub failures-read_all : (ss : List Session) (d : Desktop) → failures (read_all ss d).0 ≤ failures d
unfolding read_all
failures-read_all [] d = omega arith
failures-read_all (s ∷ ss) d = elim (Option-cases (first_answer d.answers)) [
  | inl ok ↦
      rw (read_all, ok) (omega (arith, failures-read_all ss (answered d), failures-answered d))
  | inr (error, e) ↦ rw (read_all, e) (omega (arith, failures-answered d))
]

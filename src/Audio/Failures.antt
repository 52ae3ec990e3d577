-- ===== src/Audio/Failures.antt =====
-- What failed calls of the operating system leave, and how many of them the retries bear.
use beatblock_online.Base.{
  ℕ, zero, suc, ◌+◌, ◌≤◌, ◌<◌, ◌≡◌, ◌⊎◌, refl, ◌∙◌, ap, subst, inl, inr, Bool, true, false, ◌||◌,
  Option-cases, Option, none, some, List, [], ◌∷◌, retain, is_some, if◌then◌else◌, ◌==◌, Text,
  lookup, arith,
}
use beatblock_online.Audio.{
  Outcome, done, failed, Session, HeldSession, Desktop, Engine, set_muted, first_answer, read_all,
  mute_all, held_as, released, isolate_matches, isolate_exact, restore_all, restore_held, restore,
  restore_attempts, restore_with_retries,
}
use beatblock_online.Audio.Isolation.{
  is_held, AreOriginal, ReadAs, restore_all-ok, read_all-ReadAs, muted-read_all,
}
use beatblock_online.Audio.Restored.{
  failures, failures-answered, restore_all-failures, roll_back-restore_all, failures-read_all,
}

mute_all-failed :
    (m : ℕ → Bool) (changed hs : List HeldSession) (d : Desktop) (x : ℕ)
    → AreOriginal m changed
    → AreOriginal m hs
    → failures d ≤ 1
    → d.muted x ≡ (is_held x changed || m x)
    → is_some (mute_all changed hs d).1 ≡ true
    → (mute_all changed hs d).0.muted x ≡ m x
unfolding mute_all
mute_all-failed m changed [] d x oc oh few now fails = absurd (ground (arith, fails))
mute_all-failed m changed (h ∷ hs) d x oc oh few now fails =
    elim (Option-cases (first_answer d.answers)) [
      | inl ok ↦
          rw (mute_all, ok)
            (mute_all-failed m (h ∷ changed) hs (set_muted h.session true d).0 x (oh.0, oc) oh.1
              (ground (arith, failures-answered d, few, ok)) (ground (arith, now, ok))
              (ground (arith, fails, ok)))
      | inr (error, e) ↦
          let back = (set_muted h.session true d).0 in
          let none_left : failures back ≡ 0 = ground (arith, failures-answered d, few, e) in
          rw (mute_all, e)
            (ap (λ k. k.muted x) (roll_back-restore_all changed back)
              ∙ restore_all-ok m changed back x oc (restore_all-failures changed back none_left)
              ∙ ground (arith, now, e))
    ]

abbrev pub is_failed : {A : Type 0} → Outcome A → Bool
is_failed (done a) = false
is_failed (failed error) = true

held_as-failed :
    (key : Text) (hs : List HeldSession) (e : Engine) (m : ℕ → Bool) (x : ℕ)
    (after : Desktop × Option Text)
    → (is_some after.1 ≡ true → after.0.muted x ≡ m x)
    → is_failed (held_as key hs e after).2 ≡ true
    → ((held_as key hs e after).0 ≡ e) × ((held_as key hs e after).1.muted x ≡ m x)
held_as-failed key hs e m x (d, none) k fails = absurd (ground (arith, fails))
held_as-failed key hs e m x (d, some error) k fails = (refl, k refl)

isolate_matches-failed :
    (key : Text) (e : Engine) (m : ℕ → Bool) (ss : List Session) (x : ℕ) (d : Desktop)
    (o : Outcome (List HeldSession))
    → d.muted ≡ m
    → ReadAs m ss x o
    → failures d ≤ 1
    → is_failed (isolate_matches key e (d, o)).2 ≡ true
    → ((isolate_matches key e (d, o)).0 ≡ e) × ((isolate_matches key e (d, o)).1.muted x ≡ m x)
unfolding isolate_matches ReadAs
isolate_matches-failed key e m ss x d (failed error) same v few fails = (refl, ap (λ f. f x) same)
isolate_matches-failed key e m ss x d (done []) same v few fails = absurd (ground (arith, fails))
isolate_matches-failed key e m ss x d (done (h ∷ hs)) same v few fails =
    held_as-failed key (h ∷ hs) e m x (mute_all [] (h ∷ hs) d)
      (mute_all-failed m [] (h ∷ hs) d x tt v.original few (ap (λ f. f x) same)) fails

-- If an isolation fails and at most one call of the operating system to come fails, the engine holds what
-- it held before, and every session is muted or not as it was before.
pub isolate_exact-failed :
    (key : Text) (process_id : ℕ) (sessions : List Session) (e : Engine) (d : Desktop) (x : ℕ)
    → failures d ≤ 1
    → is_failed (isolate_exact key process_id sessions e d).2 ≡ true
    → let r = isolate_exact key process_id sessions e d in (r.0 ≡ e) × (r.1.muted x ≡ d.muted x)
unfolding isolate_exact
isolate_exact-failed key process_id sessions e d x few fails =
    let matches = retain (λ s. s.process_id == process_id) sessions in
    elim (Option-cases (lookup key e)) [
      | inl new ↦
          let fails' : is_failed (isolate_matches key e (read_all matches d)).2 ≡ true =
            subst
              (λ o.
                is_failed
                  (if is_some o
                    then (e, d, done true)
                    else isolate_matches key e (read_all matches d)).2
                ≡ true)
              new fails in
          rw new (
            isolate_matches-failed key e d.muted matches x (read_all matches d).0
              (read_all matches d).1 (muted-read_all matches d) (read_all-ReadAs matches d x)
              (omega (arith, few, failures-read_all matches d)) fails')
      | inr (hs, old) ↦ rw old (refl, refl)
    ]

-- A failed restore holds all that it held, and has used up a failure.
FailedRestore : Engine → Desktop → Engine × Desktop × Outcome Bool → Type 0
FailedRestore e d (e', d', done b) = Unit
FailedRestore e d (e', d', failed error) = (e' ≡ e) × (failures d' < failures d)

restore_all-uses :
    (hs : List HeldSession) (d : Desktop)
    → failures (restore_all hs d).0 + (if is_some (restore_all hs d).1 then 1 else 0) ≤ failures d
unfolding restore_all
restore_all-uses [] d = omega arith
restore_all-uses (h ∷ hs) d =
    ground
      (arith, failures-answered d, restore_all-uses hs (set_muted h.session h.original_muted d).0)

released-FailedRestore :
    (key : Text) (e : Engine) (d : Desktop) (after : Desktop × Option Text)
    → failures after.0 + (if is_some after.1 then 1 else 0) ≤ failures d
    → FailedRestore e d (released key e after)
unfolding FailedRestore
released-FailedRestore key e d (d', none) h = tt
released-FailedRestore key e d (d', some error) h = (refl, omega (arith, h))

restore-FailedRestore :
    (key : Text) (e : Engine) (d : Desktop) → FailedRestore e d (restore key e d)
unfolding restore restore_held FailedRestore
restore-FailedRestore key e d = elim (Option-cases (lookup key e)) [
  | inl found ↦ rw (restore, found) tt
  | inr (hs, found) ↦
      rw (restore, found)
        (released-FailedRestore key e d (restore_all hs d) (restore_all-uses hs d))
]

failed_uses :
    (e : Engine) (d : Desktop) (r : Engine × Desktop × Outcome Bool)
    → FailedRestore e d r
    → is_failed r.2 ≡ true
    → failures r.1 < failures d
unfolding FailedRestore
failed_uses e d (e', d', done b) v h = absurd (ground (arith, h))
failed_uses e d (e', d', failed error) v h = v.1

Outcome-cases :
    {A : Type 0} (o : Outcome A) → ((a : A) × (o ≡ done a)) ⊎ ((error : Text) × (o ≡ failed error))
Outcome-cases (done a) = inl (a, refl)
Outcome-cases (failed error) = inr (error, refl)

restore_attempts-ok :
    (n : ℕ) (last_error key : Text) (e : Engine) (d : Desktop)
    → failures d < n
    → is_failed (restore_attempts n last_error key e d).2 ≡ false
unfolding restore_attempts
restore_attempts-ok zero last_error key e d h = absurd (omega (arith, h))
restore_attempts-ok (suc n) last_error key e d h = elim (Outcome-cases (restore key e d).2) [
  | inl (b, ok) ↦ rw (restore_attempts, ok) (ap is_failed ok)
  | inr (error, bad) ↦
      rw (restore_attempts, bad)
        (restore_attempts-ok n error key (restore key e d).0 (restore key e d).1 (
          omega (
            arith,
            h,
            failed_uses e d (restore key e d) (restore-FailedRestore key e d) (ap is_failed bad),
          )))
]

-- If at most 19 of the calls of the operating system to come fail, a restore with its retries succeeds.
pub restore_with_retries-ok :
    (key : Text) (e : Engine) (d : Desktop)
    → failures d < 20
    → is_failed (restore_with_retries key e d).2 ≡ false
unfolding restore_with_retries
restore_with_retries-ok key e d h = restore_attempts-ok 20 [] key e d h

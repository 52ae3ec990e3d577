-- ===== src/Audio/Attempts.antt =====
-- Which requests a poll attempts, and when the next attempts are.
use beatblock_online.Base.{
  ℕ, ◌+◌, ◌-◌, ◌≤◌, ◌<◌, ◌≡◌, ◌≢◌, ◌⊎◌, refl, sym, ◌∙◌, ap, subst, Bool, true, false, Option, none,
  some, List, [], ◌∷◌, ◌++◌, All, Bool-cases, inl, inr, ltb, leb, if◌then◌else◌, Text, text_eq,
  text_eq_iff, lookup, delete, lookup-delete, arith,
}
use beatblock_online.Audio.{Outcome, done, failed, Session, Desktop, Engine}
use beatblock_online.Audio.Poll.{
  PendingIsolation, Pending, discovery_steady_retry, discovery_retry, discovery_timeout, reschedule,
  with_pending, enumerated, poll_one, poll_all, poll_pending_isolations,
}

-- Every attempt lies at most a second ahead.
abbrev pub AreSoon : ℕ → Pending → Type 0
AreSoon now pending = All (λ p. p.1.next_attempt ≤ now + discovery_steady_retry) pending

-- No key has two requests.
abbrev pub AreUnique : Pending → Type 0
AreUnique [] = Unit
AreUnique ((k, request) ∷ rest) = (lookup k rest ≡ none) × AreUnique rest

lookup-AreSoon :
    (now : ℕ) (j : Text) (pending : Pending) (q : PendingIsolation)
    → AreSoon now pending
    → lookup j pending ≡ some q
    → q.next_attempt ≤ now + discovery_steady_retry
unfolding lookup
lookup-AreSoon now j [] q v h = absurd (ground (arith, h))
lookup-AreSoon now j ((k, request) ∷ rest) q v h = elim (Bool-cases (text_eq k j)) [
  | inl this ↦ at_head (ground (arith, h, this))
  | inr other ↦ lookup-AreSoon now j rest q v.1 (ground (arith, h, other))
]
  where
    at_head : request ≡ q → q.next_attempt ≤ now + discovery_steady_retry
    at_head same = subst (λ r. r.next_attempt ≤ now + discovery_steady_retry) same v.0

lookup-reschedule_ne :
    (now : ℕ) (key j : Text) (pending : Pending)
    → text_eq key j ≡ false
    → lookup j (reschedule now key pending) ≡ lookup j pending
unfolding reschedule lookup
lookup-reschedule_ne now key j [] other = refl
lookup-reschedule_ne now key j ((k, request) ∷ rest) other = ground (
  arith,
  lookup-reschedule_ne now key j rest other,
  other,
  text_eq_iff k key,
  text_eq_iff k j,
  text_eq_iff key j,
)

-- The next attempt of a request.
abbrev pub next_of : ℕ → PendingIsolation → PendingIsolation
next_of now q = record q {
  next_attempt =
      now
      + (if leb discovery_timeout (now - q.started)
          then discovery_steady_retry
          else discovery_retry);
}

abbrev pub rescheduled : ℕ → Option PendingIsolation → Option PendingIsolation
rescheduled now none = none
rescheduled now (some q) = some (next_of now q)

lookup-reschedule_self :
    (now : ℕ) (key j : Text) (pending : Pending)
    → text_eq key j ≡ true
    → lookup j (reschedule now key pending) ≡ rescheduled now (lookup j pending)
unfolding reschedule lookup
lookup-reschedule_self now key j [] same = refl
lookup-reschedule_self now key j ((k, request) ∷ rest) same = elim (Bool-cases (text_eq k j)) [
  | inl this ↦ ground (arith, same, this, text_eq_iff k key, text_eq_iff k j, text_eq_iff key j)
  | inr other ↦ ground (
    arith,
    lookup-reschedule_self now key j rest same,
    same,
    other,
    text_eq_iff k key,
    text_eq_iff k j,
    text_eq_iff key j,
  )
]

-- The state in which a poll reaches a request: the ones before it have been polled.
pub record IsAt (now : ℕ) (enumerate : Text → Outcome (List Session))
    (start : Pending × Engine × Desktop) (j : Text) (request : PendingIsolation)
    (s : Pending × Engine × Desktop) : Type 0 where
  pub polled : Pending
  pub rest : Pending
  pub split : polled ++ (j, request) ∷ rest ≡ start.0
  pub reached : poll_all now enumerate polled start ≡ s

-- What still waits under a key after a poll lies ahead, at most by a second. It was not due and is as it
-- was; or it was attempted when the poll reached it, the sessions that are listed for the key and belong to
-- its process were not isolated, and its next attempt is the one behind that.
pub record IsScheduled (now : ℕ) (enumerate : Text → Outcome (List Session))
    (start : Pending × Engine × Desktop) (j : Text) (q : PendingIsolation) : Type 0 where
  pub ahead : (now < q.next_attempt) × (q.next_attempt ≤ now + discovery_steady_retry)
  pub tried :
      (lookup j start.0 ≡ some q)
      ⊎ (request : PendingIsolation) × (s : Pending × Engine × Desktop) × IsAt now enumerate start j
          request s
        × ((enumerated j request.process_id (enumerate j) s.1 s.2).2 ≢ done true)
        × (q ≡ next_of now request)

++-snoc : (xs ys : Pending) (x : Text × PendingIsolation) → (xs ++ x ∷ []) ++ ys ≡ xs ++ x ∷ ys
++-snoc [] ys x = refl
++-snoc (z ∷ zs) ys x = ap (λ t. z ∷ t) (++-snoc zs ys x)

poll_all-snoc :
    (now : ℕ) (enumerate : Text → Outcome (List Session)) (polled : Pending) (key : Text)
    (request : PendingIsolation) (s : Pending × Engine × Desktop)
    → poll_all now enumerate (polled ++ (key, request) ∷ []) s
      ≡ poll_one now enumerate key request (poll_all now enumerate polled s)
unfolding poll_all
poll_all-snoc now enumerate [] key request s = refl
poll_all-snoc now enumerate ((k, q) ∷ rest) key request s =
    poll_all-snoc now enumerate rest key request (poll_one now enumerate k q s)

module _ (now : ℕ) (enumerate : Text → Outcome (List Session)) (before : Pending) (e0 : Engine)
    (d0 : Desktop) (j : Text) where
  abbrev start : Pending × Engine × Desktop
  start = (before, e0, d0)

  -- What waits under the key in the middle of a poll, against what is still to be polled under it.
  abbrev IsTracked : Option PendingIsolation → Option PendingIsolation → Type 0
  IsTracked left none = Unit
  IsTracked left (some q) =
      (left ≡ none) × IsScheduled now enumerate start j q
      ⊎ (left ≡ some q) × (lookup j before ≡ some q)

  waiting-IsTracked :
      (request : PendingIsolation) (o : Option PendingIsolation)
      → AreSoon now before
      → now < request.next_attempt
      → IsTracked (some request) o
      → IsTracked none o
  waiting-IsTracked request none soon waits t = tt
  waiting-IsTracked request (some q) soon waits (inl (gone, v)) = absurd (ground (arith, gone))
  waiting-IsTracked request (some q) soon waits (inr (same, here)) = inl (
    refl,
    record {
      ahead = (ground (arith, same, waits), lookup-AreSoon now j before q soon here);
      tried = inl here;
    },
  )

  tried-IsTracked :
      (request : PendingIsolation) (o : Option PendingIsolation) (s : Pending × Engine × Desktop)
      → IsAt now enumerate start j request s
      → (enumerated j request.process_id (enumerate j) s.1 s.2).2 ≢ done true
      → IsTracked (some request) o
      → IsTracked none (rescheduled now o)
  tried-IsTracked request none s at tried t = tt
  tried-IsTracked request (some q) s at tried (inl (gone, v)) = absurd (ground (arith, gone))
  tried-IsTracked request (some q) s at tried (inr (same, here)) = inl (
    refl,
    record {
      ahead = (ground arith, ground arith);
      tried = inr (request, s, at, tried, ground (arith, same));
    },
  )

  with_pending-IsTracked :
      (request : PendingIsolation) (pending : Pending) (e : Engine) (d : Desktop)
      (r : Engine × Desktop × Outcome Bool)
      → IsAt now enumerate start j request (pending, e, d)
      → enumerated j request.process_id (enumerate j) e d ≡ r
      → IsTracked (some request) (lookup j pending)
      → IsTracked none (lookup j (with_pending now j pending r).0)
  with_pending-IsTracked request pending e d (e', d', done true) at same t =
      let gone : lookup j (delete j pending) ≡ none =
        ground (arith, lookup-delete j j pending, text_eq_iff j j) in
      subst (IsTracked none) (sym gone) tt
  with_pending-IsTracked request pending e d (e', d', done false) at same t =
      subst (IsTracked none)
        (sym (lookup-reschedule_self now j j pending (ground (arith, text_eq_iff j j))))
        (tried-IsTracked request (lookup j pending) (pending, e, d) at
          (λ h. ground (arith, h, same)) t)
  with_pending-IsTracked request pending e d (e', d', failed error) at same t =
      subst (IsTracked none)
        (sym (lookup-reschedule_self now j j pending (ground (arith, text_eq_iff j j))))
        (tried-IsTracked request (lookup j pending) (pending, e, d) at
          (λ h. ground (arith, h, same)) t)

  self-IsTracked :
      (request : PendingIsolation) (s : Pending × Engine × Desktop)
      → IsAt now enumerate start j request s
      → AreSoon now before
      → IsTracked (some request) (lookup j s.0)
      → IsTracked none (lookup j (poll_one now enumerate j request s).0)
  self-IsTracked request (pending, e, d) at soon t =
      elim (Bool-cases (ltb now request.next_attempt)) [
        | inl waits ↦
            rw waits (waiting-IsTracked request (lookup j pending) soon (ground (arith, waits)) t)
        | inr due ↦ rw due (
            with_pending-IsTracked request pending e d
              (enumerated j request.process_id (enumerate j) e d) at refl t)
      ]

  lookup-with_pending_ne :
      (key : Text) (pending : Pending) (r : Engine × Desktop × Outcome Bool)
      → text_eq key j ≡ false
      → lookup j (with_pending now key pending r).0 ≡ lookup j pending
  lookup-with_pending_ne key pending (e, d, done true) other =
      ground (arith, lookup-delete key j pending, other)
  lookup-with_pending_ne key pending (e, d, done false) other =
      lookup-reschedule_ne now key j pending other
  lookup-with_pending_ne key pending (e, d, failed error) other =
      lookup-reschedule_ne now key j pending other

  lookup-poll_one_ne :
      (key : Text) (request : PendingIsolation) (s : Pending × Engine × Desktop)
      → text_eq key j ≡ false
      → lookup j (poll_one now enumerate key request s).0 ≡ lookup j s.0
  lookup-poll_one_ne key request (pending, e, d) other =
      elim (Bool-cases (ltb now request.next_attempt)) [
        | inl waits ↦ rw waits refl
        | inr due ↦ rw due (
            lookup-with_pending_ne key pending
              (enumerated key request.process_id (enumerate key) e d) other)
      ]

  next_reached :
      (polled rest : Pending) (key : Text) (request : PendingIsolation)
      (s : Pending × Engine × Desktop)
      → poll_all now enumerate polled start ≡ s
      → poll_all now enumerate (polled ++ (key, request) ∷ []) start
        ≡ poll_one now enumerate key request s
  next_reached polled rest key request s reached =
      poll_all-snoc now enumerate polled key request start
      ∙ ap (poll_one now enumerate key request) reached

  request-IsAt :
      (key : Text) (request : PendingIsolation) (polled rest : Pending)
      (s : Pending × Engine × Desktop)
      → key ≡ j
      → polled ++ (key, request) ∷ rest ≡ before
      → poll_all now enumerate polled start ≡ s
      → IsAt now enumerate start j request s
  request-IsAt key request polled rest s here split reached = record {
    polled = polled;
    rest = rest;
    split = subst (λ k. polled ++ (k, request) ∷ rest ≡ before) here split;
    reached = reached;
  }

  poll_all-IsTracked :
      (polled requests : Pending) (s : Pending × Engine × Desktop)
      → polled ++ requests ≡ before
      → poll_all now enumerate polled start ≡ s
      → AreSoon now before
      → AreUnique requests
      → IsTracked (lookup j requests) (lookup j s.0)
      → IsTracked none (lookup j (poll_all now enumerate requests s).0)
  unfolding poll_all lookup
  poll_all-IsTracked polled [] s split reached soon unique t = t
  poll_all-IsTracked polled ((key, request) ∷ rest) s split reached soon unique t =
      poll_all-IsTracked (polled ++ (key, request) ∷ []) rest (poll_one now enumerate key request s)
        (++-snoc polled rest (key, request) ∙ split)
        (next_reached polled rest key request s reached) soon unique.1
        (elim (Bool-cases (text_eq key j)) [
          | inl this ↦
              let here : key ≡ j = ground (arith, this, text_eq_iff key j) in
              subst (λ o. IsTracked o (lookup j (poll_one now enumerate key request s).0))
                (sym (subst (λ k. lookup k rest ≡ none) here unique.0))
                (subst (λ k. IsTracked none (lookup j (poll_one now enumerate k request s).0))
                  (sym here)
                  (self-IsTracked request s
                    (request-IsAt key request polled rest s here split reached) soon
                    (subst (λ o. IsTracked o (lookup j s.0)) (ground (arith, this)) t)))
          | inr other ↦
              subst (IsTracked (lookup j rest)) (sym (lookup-poll_one_ne key request s other))
                (subst (λ o. IsTracked o (lookup j s.0)) (ground (arith, other)) t)
        ])

  tracked-IsScheduled :
      (q : PendingIsolation) (o : Option PendingIsolation)
      → o ≡ some q
      → IsTracked none o
      → IsScheduled now enumerate start j q
  tracked-IsScheduled q none h t = absurd (ground (arith, h))
  tracked-IsScheduled q (some p) h (inl (left, v)) =
      subst (IsScheduled now enumerate start j) (ground (arith, h)) v
  tracked-IsScheduled q (some p) h (inr (left, here)) = absurd (ground (arith, left))

  start-IsTracked : (o : Option PendingIsolation) → lookup j before ≡ o → IsTracked o o
  start-IsTracked none h = tt
  start-IsTracked (some q) h = inr (refl, h)

-- If no key has two requests and every one is due within a second, then after a poll every request that
-- still waits lies ahead, at most by a second. It is as it was, or it was attempted when the poll reached it,
-- behind the requests before it, and its sessions were not isolated; then its next attempt is counted from
-- this poll.
pub poll_pending_isolations-IsScheduled :
    (now : ℕ) (enumerate : Text → Outcome (List Session)) (pending : Pending) (e : Engine)
    (d : Desktop) (j : Text) (q : PendingIsolation)
    → AreUnique pending
    → AreSoon now pending
    → lookup j (poll_pending_isolations now enumerate pending e d).0 ≡ some q
    → IsScheduled now enumerate (pending, e, d) j q
unfolding poll_pending_isolations poll_all
poll_pending_isolations-IsScheduled now enumerate pending e d j q unique soon waits =
    tracked-IsScheduled now enumerate pending e d j q _ waits (
      poll_all-IsTracked now enumerate pending e d j [] pending (pending, e, d) refl refl soon
        unique (start-IsTracked now enumerate pending e d j (lookup j pending) refl))

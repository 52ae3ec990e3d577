-- ===== src/Network/RateLimit/Window.antt =====
-- Who is admitted to a password attempt.
use beatblock_online.Base.{
  leb, retain, ℕ, ◌-◌, ◌≤◌, ◌<◌, Bool, true, false, ◌≡◌, refl, ◌↔◌, Option, none, some, List, [],
  ◌∷◌, ◌++◌, if◌then◌else◌, ltb, length, All, ap, subst, ◌∙◌, ◌≢◌, any, Distinct, text_eq_iff,
  arith,
}
use beatblock_online.Network.RateLimit.{
  RateLimitBucket, v6_prefix, bucket_eq, Failures, drop_expired, prune_password_failures, lookup,
  has_attempts_left, password_attempt_allowed, push_attempt, insert_bucket, record_password_failure,
  max_password_failures_per_ip, max_password_failure_ips, auth_failure_window,
}

pub bucket_eq_iff : (b c : RateLimitBucket) → (bucket_eq b c ≡ true) ↔ (b ≡ c)
unfolding bucket_eq
bucket_eq_iff (RateLimitBucket.v4 a) (RateLimitBucket.v4 b) = ground arith
bucket_eq_iff (v6_prefix p) (v6_prefix q) = ground (arith, text_eq_iff p q)
bucket_eq_iff b c = ground arith

abbrev pub same_bucket : RateLimitBucket × List ℕ → RateLimitBucket × List ℕ → Bool
same_bucket e f = bucket_eq e.0 f.0

-- The failures of a bucket that still count.
abbrev pub recent : ℕ → Option (List ℕ) → List ℕ
recent now none = []
recent now (some attempts) = drop_expired now attempts

abbrev pub attempts_of : Option (List ℕ) → List ℕ
attempts_of none = []
attempts_of (some attempts) = attempts

lookup_absent :
    (b : RateLimitBucket) (fs : Failures) (l : List ℕ)
    → any (same_bucket (b, l)) fs ≡ false
    → lookup b fs ≡ none
unfolding lookup
lookup_absent b [] l h = refl
lookup_absent b ((c, a) ∷ fs) l h =
    ground (arith, bucket_eq_iff b c, bucket_eq_iff c b, lookup_absent b fs l)

pub any-prune :
    (t : RateLimitBucket → Bool) (now : ℕ) (fs : Failures)
    → any (λ e. t e.0) fs ≡ false
    → any (λ e. t e.0) (prune_password_failures now fs) ≡ false
unfolding prune_password_failures
any-prune t now [] h = refl
any-prune t now ((c, a) ∷ fs) h = ground (arith, any-prune t now fs)

-- Pruning leaves each bucket the failures that still count.
pub lookup-prune :
    (now : ℕ) (b : RateLimitBucket) (fs : Failures)
    → Distinct same_bucket fs
    → attempts_of (lookup b (prune_password_failures now fs)) ≡ recent now (lookup b fs)
unfolding prune_password_failures lookup
lookup-prune now b [] d = refl
lookup-prune now b ((c, a) ∷ fs) d = ground (
  arith,
  bucket_eq_iff c b,
  lookup-prune now b fs d.1,
  lookup_absent b (prune_password_failures now fs) a,
  any-prune (bucket_eq c) now fs,
)

-- In a table that has each bucket once, a bucket may try exactly if fewer than five of its failures
-- are left when the leading ones that are more than 60 seconds old are dropped.
pub password_attempt_allowed-eq :
    (now : ℕ) (b : RateLimitBucket) (fs : Failures)
    → Distinct same_bucket fs
    → (password_attempt_allowed fs b now).1
      ≡ ltb (length (recent now (lookup b fs))) max_password_failures_per_ip
unfolding password_attempt_allowed
password_attempt_allowed-eq now b fs d =
    count_left (lookup b (prune_password_failures now fs)) (lookup-prune now b fs d)
  where
    count_left :
        (o : Option (List ℕ))
        → attempts_of o ≡ recent now (lookup b fs)
        → has_attempts_left o ≡ ltb (length (recent now (lookup b fs))) max_password_failures_per_ip
    count_left none e = subst (λ l. true ≡ ltb (length l) max_password_failures_per_ip) e refl
    count_left (some l) e = ap (λ l. ltb (length l) max_password_failures_per_ip) e

lookup-push_attempt :
    (b c : RateLimitBucket) (now : ℕ) (fs : Failures)
    → lookup c (push_attempt b now fs) ≡ (
        if bucket_eq b c
        then elim (lookup b fs) [
          | none ↦ none
          | some l ↦ some (if ltb (length l) max_password_failures_per_ip then l ++ now ∷ [] else l)
        ]
        else lookup c fs)
unfolding lookup push_attempt
lookup-push_attempt b c now [] = ground arith
lookup-push_attempt b c now ((x, l) ∷ fs) =
    ground (
      arith,
      bucket_eq_iff x b,
      bucket_eq_iff x c,
      bucket_eq_iff b c,
      lookup-push_attempt b c now fs,
    )

-- In a table that has each bucket once, the failure of a bucket with fewer than five recent ones is
-- added behind them; the recent failures of a bucket that is locked out stay as they are.
pub lookup-record_self :
    (now : ℕ) (b : RateLimitBucket) (fs : Failures)
    → Distinct same_bucket fs
    → let old = recent now (lookup b fs) in
      lookup b (record_password_failure fs b now)
      ≡ some (if ltb (length old) max_password_failures_per_ip then old ++ now ∷ [] else old)
unfolding record_password_failure insert_bucket lookup
lookup-record_self now b fs d = ground (
  arith,
  bucket_eq_iff b b,
  lookup-prune now b fs d,
  lookup-push_attempt b b now (prune_password_failures now fs),
)

-- While the table has room, the failure of one bucket leaves another as pruning leaves it.
pub lookup-record_ne :
    (now : ℕ) (b c : RateLimitBucket) (fs : Failures)
    → b ≢ c
    → length (prune_password_failures now fs) < max_password_failure_ips
    → lookup c (record_password_failure fs b now) ≡ lookup c (prune_password_failures now fs)
unfolding record_password_failure insert_bucket lookup
lookup-record_ne now b c fs h room =
    ground (arith, bucket_eq_iff b c, lookup-push_attempt b c now (prune_password_failures now fs))

drop_expired-fresh :
    (now : ℕ) (a : ℕ) (l : List ℕ)
    → now - a ≤ auth_failure_window
    → drop_expired now (a ∷ l) ≡ a ∷ l
unfolding drop_expired
drop_expired-fresh now a l h = ground arith

drop_expired-All :
    (now : ℕ) (l : List ℕ) → All (λ a. auth_failure_window < now - a) l → drop_expired now l ≡ []
unfolding drop_expired
drop_expired-All now [] h = refl
drop_expired-All now (a ∷ l) h = ground (arith, drop_expired-All now l h.1)

-- In a table that has each bucket once, five failures lock a bucket out until the first of them is more than 60 seconds old.
pub locked_out :
    (now : ℕ) (b : RateLimitBucket) (fs : Failures) (a : ℕ) (l : List ℕ)
    → Distinct same_bucket fs
    → lookup b fs ≡ some (a ∷ l)
    → length l ≡ 4
    → now - a ≤ auth_failure_window
    → (password_attempt_allowed fs b now).1 ≡ false
locked_out now b fs a l d e full fresh =
    password_attempt_allowed-eq now b fs d ∙ rw (e, drop_expired-fresh now a l fresh) (ground arith)

-- In a table that has each bucket once, a bucket all of whose failures are more than 60 seconds old
-- may try again.
pub unlocked :
    (now : ℕ) (b : RateLimitBucket) (fs : Failures) (l : List ℕ)
    → Distinct same_bucket fs
    → lookup b fs ≡ some l
    → All (λ x. auth_failure_window < now - x) l
    → (password_attempt_allowed fs b now).1 ≡ true
unlocked now b fs l d e old =
    password_attempt_allowed-eq now b fs d ∙ rw (e, drop_expired-All now l old) (ground arith)

-- Failures in the order of time.
abbrev pub InOrder : List ℕ → Type 0
InOrder [] = Unit
InOrder (a ∷ l) = All (λ b. a ≤ b) l × InOrder l

retain_fresh :
    (now a : ℕ) (l : List ℕ)
    → now - a ≤ auth_failure_window
    → All (λ b. a ≤ b) l
    → retain (λ b. leb (now - b) auth_failure_window) l ≡ l
retain_fresh now a [] h k = refl
retain_fresh now a (b ∷ l) h k = ground (arith, retain_fresh now a l h k.1)

-- Of failures in the order of time, dropping the leading old ones keeps exactly those that are at
-- most 60 seconds old.
pub drop_expired-retain :
    (now : ℕ) (l : List ℕ)
    → InOrder l
    → drop_expired now l ≡ retain (λ b. leb (now - b) auth_failure_window) l
unfolding drop_expired
drop_expired-retain now [] h = refl
drop_expired-retain now (a ∷ l) h =
    ground (arith, drop_expired-retain now l h.1, retain_fresh now a l)

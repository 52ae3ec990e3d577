-- ===== src/Network/RateLimit/Bounds.antt =====
-- The table of failures stays bounded, whatever addresses connect.
use beatblock_online.Base.{
  ℕ, ◌≤◌, ◌<◌, Bool, true, false, ◌≡◌, refl, List, [], ◌∷◌, if◌then◌else◌, leb, length,
  length-append, is_empty, any, All, Distinct, arith, Bool-cases, leb→le, ◌⊎◌, inl, inr,
}
use beatblock_online.Network.RateLimit.{
  RateLimitBucket, older, bucket_eq, Failures, drop_expired, prune_password_failures, lookup,
  remove, oldest, is_older, last, evict_oldest_bucket, password_attempt_allowed, push_attempt,
  insert_bucket, is_known, record_password_failure, max_password_failures_per_ip,
  max_password_failure_ips,
}
use beatblock_online.Network.RateLimit.Window.{bucket_eq_iff, same_bucket, any-prune}

-- An entry has between one and five failures.
abbrev pub IsEntry : RateLimitBucket × List ℕ → Type 0
IsEntry e = (0 < length e.1) × (length e.1 ≤ max_password_failures_per_ip)

pub record IsTable (fs : Failures) : Type 0 where
  pub buckets : Distinct same_bucket fs
  pub entries : All IsEntry fs
  pub size : length fs ≤ max_password_failure_ips

length-drop_expired-le : (now : ℕ) (l : List ℕ) → length (drop_expired now l) ≤ length l
unfolding drop_expired
length-drop_expired-le now [] = omega arith
length-drop_expired-le now (a ∷ l) = ground (arith, length-drop_expired-le now l)

length-prune-le : (now : ℕ) (fs : Failures) → length (prune_password_failures now fs) ≤ length fs
unfolding prune_password_failures
length-prune-le now [] = omega arith
length-prune-le now ((b, l) ∷ fs) = ground (arith, length-prune-le now fs)

prune-entries :
    (now : ℕ) (fs : Failures) → All IsEntry fs → All IsEntry (prune_password_failures now fs)
unfolding prune_password_failures
prune-entries now [] h = tt
prune-entries now ((b, l) ∷ fs) h =
    entry_case (drop_expired now l) (length-drop_expired-le now l) (prune-entries now fs h.1)
  where
    entry_case :
        (m : List ℕ)
        → length m ≤ length l
        → All IsEntry (prune_password_failures now fs)
        → All IsEntry (
            if is_empty m
            then prune_password_failures now fs
            else (b, m) ∷ prune_password_failures now fs)
    entry_case [] le rest = rest
    entry_case (a ∷ m) le rest = ((omega arith, omega arith), rest)

prune-buckets :
    (now : ℕ) (fs : Failures)
    → Distinct same_bucket fs
    → Distinct same_bucket (prune_password_failures now fs)
unfolding prune_password_failures
prune-buckets now [] d = tt
prune-buckets now ((b, l) ∷ fs) d =
    ground (arith, prune-buckets now fs d.1, any-prune (bucket_eq b) now fs)

prune-IsTable : (now : ℕ) (fs : Failures) → IsTable fs → IsTable (prune_password_failures now fs)
prune-IsTable now fs v = record {
  buckets = prune-buckets now fs v.buckets;
  entries = prune-entries now fs v.entries;
  size = omega (arith, length-prune-le now fs, v.size);
}

any-push_attempt :
    (t : RateLimitBucket → Bool) (b : RateLimitBucket) (now : ℕ) (fs : Failures)
    → any (λ e. t e.0) (push_attempt b now fs) ≡ any (λ e. t e.0) fs
unfolding push_attempt
any-push_attempt t b now [] = refl
any-push_attempt t b now ((c, l) ∷ fs) = ground (arith, any-push_attempt t b now fs)

push_attempt-buckets :
    (b : RateLimitBucket) (now : ℕ) (fs : Failures)
    → Distinct same_bucket fs
    → Distinct same_bucket (push_attempt b now fs)
unfolding push_attempt
push_attempt-buckets b now [] d = tt
push_attempt-buckets b now ((c, l) ∷ fs) d =
    ground (arith, push_attempt-buckets b now fs d.1, any-push_attempt (bucket_eq c) b now fs)

push_attempt-entries :
    (b : RateLimitBucket) (now : ℕ) (fs : Failures)
    → All IsEntry fs
    → All IsEntry (push_attempt b now fs)
unfolding push_attempt
push_attempt-entries b now [] h = tt
push_attempt-entries b now ((c, l) ∷ fs) h =
    ground (arith, push_attempt-entries b now fs h.1, length-append l (now ∷ []))

length-push_attempt :
    (b : RateLimitBucket) (now : ℕ) (fs : Failures) → length (push_attempt b now fs) ≡ length fs
unfolding push_attempt
length-push_attempt b now [] = refl
length-push_attempt b now ((c, l) ∷ fs) = ground (arith, length-push_attempt b now fs)

-- What is evicted is in the table, so an eviction makes room.
abbrev Entry : Type 0
Entry = RateLimitBucket × List ℕ

older_cases : (e f : Entry) → (older e f ≡ e) ⊎ (older e f ≡ f)
unfolding older
older_cases e f = elim (Bool-cases (is_older (last f.1) (last e.1))) [
  | inl later ↦ inr (rw later)
  | inr first ↦ inl (rw first)
]

abbrev Holds : RateLimitBucket → Failures → Type 0
Holds b fs = any (λ e. bucket_eq e.0 b) fs ≡ true

oldest-known : (e : Entry) (fs : Failures) → Holds (oldest e fs) (e ∷ fs)
unfolding oldest
oldest-known e [] = ground (arith, bucket_eq_iff e.0 e.0)
oldest-known e (f ∷ fs) = unfold_pick (older_cases e f) (oldest-known (older e f) fs)
  where
    unfold_pick :
        (older e f ≡ e) ⊎ (older e f ≡ f)
        → Holds (oldest (older e f) fs) (older e f ∷ fs)
        → Holds (oldest e (f ∷ fs)) (e ∷ f ∷ fs)
    unfold_pick (inl p) h = ground (arith, p)
    unfold_pick (inr p) h = ground (arith, p)

length-remove-le : (b : RateLimitBucket) (fs : Failures) → length (remove b fs) ≤ length fs
unfolding remove
length-remove-le b [] = omega arith
length-remove-le b ((c, l) ∷ fs) = ground (arith, length-remove-le b fs)

length-remove-lt :
    (b : RateLimitBucket) (fs : Failures)
    → any (λ e. bucket_eq e.0 b) fs ≡ true
    → length (remove b fs) < length fs
unfolding remove
length-remove-lt b [] h = ground arith
length-remove-lt b ((c, l) ∷ fs) h = ground (arith, length-remove-lt b fs, length-remove-le b fs)

any-remove :
    (t : RateLimitBucket → Bool) (b : RateLimitBucket) (fs : Failures)
    → any (λ e. t e.0) fs ≡ false
    → any (λ e. t e.0) (remove b fs) ≡ false
unfolding remove
any-remove t b [] h = refl
any-remove t b ((c, l) ∷ fs) h = ground (arith, any-remove t b fs)

remove-buckets :
    (b : RateLimitBucket) (fs : Failures)
    → Distinct same_bucket fs
    → Distinct same_bucket (remove b fs)
unfolding remove
remove-buckets b [] d = tt
remove-buckets b ((c, l) ∷ fs) d =
    ground (arith, remove-buckets b fs d.1, any-remove (bucket_eq c) b fs)

remove-entries : (b : RateLimitBucket) (fs : Failures) → All IsEntry fs → All IsEntry (remove b fs)
unfolding remove
remove-entries b [] h = tt
remove-entries b ((c, l) ∷ fs) h = ground (arith, remove-entries b fs h.1)

evict-IsTable :
    (fs : Failures)
    → IsTable fs
    → max_password_failure_ips ≤ length fs
    → IsTable (evict_oldest_bucket fs)
      × (length (evict_oldest_bucket fs) < max_password_failure_ips)
unfolding evict_oldest_bucket
evict-IsTable [] v h = absurd (omega arith)
evict-IsTable ((b, l) ∷ fs) v h =
    let old = oldest (b, l) fs in
    let shorter = length-remove-lt old ((b, l) ∷ fs) (oldest-known (b, l) fs) in
    (
      record {
        buckets = remove-buckets old ((b, l) ∷ fs) v.buckets;
        entries = remove-entries old ((b, l) ∷ fs) v.entries;
        size = omega (arith, shorter, v.size);
      },
      omega (arith, shorter, v.size),
    )

any_of_lookup :
    (b : RateLimitBucket) (fs : Failures)
    → is_known (lookup b fs) ≡ false
    → any (λ e. bucket_eq b e.0) fs ≡ false
unfolding lookup
any_of_lookup b [] h = refl
any_of_lookup b ((c, l) ∷ fs) h =
    ground (arith, bucket_eq_iff b c, bucket_eq_iff c b, any_of_lookup b fs)

any-evict :
    (t : RateLimitBucket → Bool) (fs : Failures)
    → any (λ e. t e.0) fs ≡ false
    → any (λ e. t e.0) (evict_oldest_bucket fs) ≡ false
unfolding evict_oldest_bucket
any-evict t [] h = refl
any-evict t ((b, l) ∷ fs) h = any-remove t (oldest (b, l) fs) ((b, l) ∷ fs) h

insert_bucket-IsTable :
    (b : RateLimitBucket) (now : ℕ) (fs : Failures)
    → IsTable fs
    → is_known (lookup b fs) ≡ false
    → IsTable (insert_bucket b now fs)
unfolding insert_bucket
insert_bucket-IsTable b now fs v new =
    elim (Bool-cases (leb max_password_failure_ips (length fs))) [
      | inl full ↦
          let (w, room) = evict-IsTable fs v (leb→le max_password_failure_ips (length fs) full) in
          rw full (record {
            buckets = (any-evict (bucket_eq b) fs (any_of_lookup b fs new), w.buckets);
            entries = ((omega arith, omega arith), w.entries);
            size = omega (arith, room);
          })
      | inr free ↦ rw free (record {
        buckets = (any_of_lookup b fs new, v.buckets);
        entries = ((omega arith, omega arith), v.entries);
        size = ground arith;
      })
    ]

-- In a table of at most 4096 buckets, each once and with one to five failures, a recorded failure of
-- any bucket at any time leaves such a table, and so does asking whether an attempt is allowed.
pub record_password_failure-IsTable :
    (fs : Failures) (b : RateLimitBucket) (now : ℕ)
    → IsTable fs
    → IsTable (record_password_failure fs b now) × IsTable (password_attempt_allowed fs b now).0
unfolding record_password_failure password_attempt_allowed
record_password_failure-IsTable fs b now v =
    let pruned = prune_password_failures now fs in
    let w = prune-IsTable now fs v in
    elim (Bool-cases (is_known (lookup b pruned))) [
      | inl known ↦ rw known (
        record {
          buckets = push_attempt-buckets b now pruned w.buckets;
          entries = push_attempt-entries b now pruned w.entries;
          size = omega (arith, length-push_attempt b now pruned, w.size);
        },
        w,
      )
      | inr new ↦ rw new (insert_bucket-IsTable b now pruned w new, w)
    ]

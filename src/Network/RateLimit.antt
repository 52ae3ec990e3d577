-- ===== src/Network/RateLimit.antt =====
-- companion/src/network.rs: the limit on failed password attempts. An `Instant` is a count of
-- nanoseconds, the table a list of its entries in the order of the map's iteration.
pub mod Window
pub mod Bounds
use beatblock_online.Base.{
  ℕ, suc, ◌+◌, ◌-◌, ◌*◌, ◌^◌, Bool, true, false, not, ◌&&◌, Option, none, some, List, [], ◌∷◌, ◌++◌,
  if◌then◌else◌, ltb, leb, ◌==◌, length, take, retain, is_empty, text_eq,
}

pub data IpAddr : Type 0 where
  v4 : ℕ → IpAddr
  v6 : (octets : List ℕ) → IpAddr

pub data RateLimitBucket : Type 0 where
  v4 : ℕ → RateLimitBucket
  v6_prefix : List ℕ → RateLimitBucket

-- `RateLimitBucket::from_addr`
unfoldable pub from_addr : IpAddr → RateLimitBucket
from_addr (IpAddr.v4 a) = RateLimitBucket.v4 a
from_addr (IpAddr.v6 octets) = v6_prefix (take 8 octets)

unfoldable pub bucket_eq : RateLimitBucket → RateLimitBucket → Bool
bucket_eq (RateLimitBucket.v4 a) (RateLimitBucket.v4 b) = a == b
bucket_eq (v6_prefix p) (v6_prefix q) = text_eq p q
bucket_eq _ _ = false

abbrev pub auth_failure_window : ℕ
auth_failure_window = 60 * 10 ^ 9

abbrev pub max_password_failure_ips : ℕ
max_password_failure_ips = 4096

abbrev pub max_password_failures_per_ip : ℕ
max_password_failures_per_ip = 5

abbrev pub Failures : Type 0
Failures = List (RateLimitBucket × List ℕ)

-- The `while` loop over the front of the queue. `-` on ℕ is `saturating_duration_since`.
unfoldable pub drop_expired : ℕ → List ℕ → List ℕ
drop_expired now [] = []
drop_expired now (a ∷ attempts) =
    let rest = drop_expired now attempts in
    if ltb auth_failure_window (now - a) then rest else a ∷ attempts

unfoldable pub prune_password_failures : ℕ → Failures → Failures
unfolding drop_expired
prune_password_failures now [] = []
prune_password_failures now ((b, attempts) ∷ fs) =
    let rest = prune_password_failures now fs in
    let left = drop_expired now attempts in if is_empty left then rest else (b, left) ∷ rest

unfoldable pub lookup : RateLimitBucket → Failures → Option (List ℕ)
lookup b [] = none
lookup b ((c, attempts) ∷ fs) = if bucket_eq c b then some attempts else lookup b fs

-- `attempts.back().copied()`
abbrev pub last : List ℕ → Option ℕ
last [] = none
last (a ∷ []) = some a
last (a ∷ b ∷ as') = last (b ∷ as')

-- The order of `Option<Instant>`: `None` is the least.
unfoldable pub is_older : Option ℕ → Option ℕ → Bool
is_older none none = false
is_older none (some b) = true
is_older (some a) none = false
is_older (some a) (some b) = ltb a b

-- The entry that `min_by_key` keeps of two: a later one only if its key is less.
unfoldable pub older :
    RateLimitBucket × List ℕ → RateLimitBucket × List ℕ → RateLimitBucket × List ℕ
unfolding is_older
older e f = if is_older (last f.1) (last e.1) then f else e

unfoldable pub oldest : RateLimitBucket × List ℕ → Failures → RateLimitBucket
unfolding older
oldest e [] = e.0
oldest e (f ∷ fs) = oldest (older e f) fs

unfoldable pub remove : RateLimitBucket → Failures → Failures
remove b [] = []
remove b ((c, attempts) ∷ fs) =
    let rest = remove b fs in if bucket_eq c b then rest else (c, attempts) ∷ rest

unfoldable pub evict_oldest_bucket : Failures → Failures
unfolding oldest
evict_oldest_bucket [] = []
evict_oldest_bucket (e ∷ fs) = remove (oldest e fs) (e ∷ fs)

abbrev pub has_attempts_left : Option (List ℕ) → Bool
has_attempts_left none = true
has_attempts_left (some attempts) = ltb (length attempts) max_password_failures_per_ip

-- The table after the call, and the answer.
unfoldable pub password_attempt_allowed : Failures → RateLimitBucket → ℕ → Failures × Bool
password_attempt_allowed failures bucket now =
    let pruned = prune_password_failures now failures in
    (pruned, has_attempts_left (lookup bucket pruned))

-- `attempts.push_back(now)` on the entry of the bucket, if it is below its limit
unfoldable pub push_attempt : RateLimitBucket → ℕ → Failures → Failures
push_attempt b now [] = []
push_attempt b now ((c, attempts) ∷ fs) =
    if bucket_eq c b
    then (
      c,
      if ltb (length attempts) max_password_failures_per_ip then attempts ++ now ∷ [] else attempts,
    )
      ∷ fs
    else (c, attempts) ∷ push_attempt b now fs

-- The insertion of a new bucket, behind the eviction that a full table needs.
unfoldable pub insert_bucket : RateLimitBucket → ℕ → Failures → Failures
unfolding evict_oldest_bucket
insert_bucket b now fs =
    (b, now ∷ [])
    ∷ (if leb max_password_failure_ips (length fs) then evict_oldest_bucket fs else fs)

abbrev pub is_known : Option (List ℕ) → Bool
is_known none = false
is_known (some attempts) = true

unfoldable pub record_password_failure : Failures → RateLimitBucket → ℕ → Failures
unfolding push_attempt insert_bucket
record_password_failure failures bucket now =
    let pruned = prune_password_failures now failures in
    if is_known (lookup bucket pruned)
    then push_attempt bucket now pruned
    else insert_bucket bucket now pruned

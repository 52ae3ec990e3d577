-- ===== src/Examples/Wire.antt =====
-- Password failures, datagrams and plans, at concrete inputs.
use beatblock_online.Base.{
  replicate, ◌-◌, retain, leb, ℕ, ltb, if◌then◌else◌, ◌++◌, ◌^◌, all, some, text_eq, length, All,
  IsByte, write_at, ◌+◌, ◌*◌, ◌≡◌, refl, true, false, List, [], ◌∷◌, text, arith,
}
use beatblock_online.Network.RateLimit
use beatblock_online.Network.RateLimit.{
  RateLimitBucket, drop_expired, Failures, record_password_failure, password_attempt_allowed,
  prune_password_failures,
}
use beatblock_online.Network.RateLimit.Window.{
  password_attempt_allowed-eq, lookup-record_self, lookup-record_ne, locked_out,
  drop_expired-retain, unlocked, recent,
}
use beatblock_online.Network.RateLimit.Bounds.{record_password_failure-IsTable, IsTable}
use beatblock_online.Render.{RenderSample, encode, decode, wire_size}
use beatblock_online.Render.Codec.{decode-encode, encode-decode}
use beatblock_online.Broadcast.{RendererSlot, from_slots, slot_defaults}
use beatblock_online.Broadcast.Clock.{from_slots-IsPlan, IsPlan}
use beatblock_online.Examples.{fixed}

abbrev guesser : RateLimitBucket
guesser = RateLimitBucket.v4 7

abbrev neighbour : RateLimitBucket
neighbour = RateLimitBucket.v6_prefix (1 ∷ 2 ∷ 3 ∷ 4 ∷ 5 ∷ 6 ∷ 7 ∷ 8 ∷ [])

-- Five failures of one bucket and one of another, which is the older.
abbrev failures : Failures
failures = (guesser, 1000 ∷ 1001 ∷ 1002 ∷ 1003 ∷ 1004 ∷ []) ∷ (neighbour, 5 ∷ []) ∷ []

failures-IsTable : IsTable failures
unfolding RateLimit.bucket_eq
failures-IsTable = record {
  buckets = (refl, (refl, tt));
  entries = ((omega arith, omega arith), ((omega arith, omega arith), tt));
  size = omega arith;
}

record_password_failure-IsTable_example :
    IsTable (record_password_failure failures guesser 1005)
    × IsTable (password_attempt_allowed failures guesser 1005).0
record_password_failure-IsTable_example =
    record_password_failure-IsTable failures guesser 1005 failures-IsTable

password_attempt_allowed-eq_example :
    (password_attempt_allowed failures guesser 1005).1
    ≡ ltb (length (recent 1005 (RateLimit.lookup guesser failures))) 5
password_attempt_allowed-eq_example =
    password_attempt_allowed-eq 1005 guesser failures failures-IsTable.buckets

lookup-record_self_example :
    let old = recent 1005 (RateLimit.lookup guesser failures) in
    RateLimit.lookup guesser (record_password_failure failures guesser 1005)
    ≡ some (if ltb (length old) 5 then old ++ 1005 ∷ [] else old)
lookup-record_self_example = lookup-record_self 1005 guesser failures failures-IsTable.buckets

lookup-record_ne_example :
    RateLimit.lookup guesser (record_password_failure failures neighbour 1005)
    ≡ RateLimit.lookup guesser (prune_password_failures 1005 failures)
unfolding prune_password_failures
lookup-record_ne_example =
    lookup-record_ne 1005 neighbour guesser failures (λ h. ground arith) (omega arith)

locked_out_example : (password_attempt_allowed failures guesser 1005).1 ≡ false
unfolding RateLimit.lookup RateLimit.bucket_eq
locked_out_example =
    locked_out 1005 guesser failures 1000 (1001 ∷ 1002 ∷ 1003 ∷ 1004 ∷ []) failures-IsTable.buckets
      refl refl (omega arith)

unlocked_example : (password_attempt_allowed failures neighbour (60 * 10 ^ 9 + 6)).1 ≡ true
unfolding RateLimit.lookup RateLimit.bucket_eq text_eq
unlocked_example =
    unlocked (60 * 10 ^ 9 + 6) neighbour failures (5 ∷ []) failures-IsTable.buckets refl
      (omega arith, tt)

abbrev sample : RenderSample
sample = record {
  session_id = 305419896;
  sequence = 1000;
  run_time_us = 20000000000;
  beat = 1065353216;
  paddle_angle = 0;
  tap_mask = 513;
  flags = 1;
}

decode-encode_example :
    (length (encode sample) ≡ wire_size)
    × All IsByte (encode sample)
    × (decode (encode sample) ≡ some sample)
decode-encode_example = decode-encode sample (record {
  session_id = omega arith;
  sequence = omega arith;
  run_time_us = omega arith;
  beat = omega arith;
  paddle_angle = omega arith;
  tap_mask = omega arith;
  flags = omega arith;
})

-- A datagram whose reserved bytes are not 0.
abbrev datagram : List ℕ
datagram =
    3 ∷ 9 ∷ 9 ∷ 9 ∷ 120 ∷ 86 ∷ 52 ∷ 18 ∷ 232 ∷ 3 ∷ 0 ∷ 0 ∷ 0 ∷ 200 ∷ 23 ∷ 168 ∷ 4 ∷ 0 ∷ 0 ∷ 0 ∷ 0
    ∷ 0 ∷ 128 ∷ 63 ∷ 0 ∷ 0 ∷ 0 ∷ 0 ∷ 1 ∷ 2 ∷ 1 ∷ 0 ∷ []

all-IsByte : (bs : List ℕ) → all (λ b. ltb b 256) bs ≡ true → All IsByte bs
all-IsByte [] h = tt
all-IsByte (b ∷ bs) h = ground (arith, all-IsByte bs)

datagram-All : All IsByte datagram
datagram-All = all-IsByte datagram refl

encode-decode_example : encode sample ≡ write_at 1 (0 ∷ 0 ∷ 0 ∷ []) datagram
unfolding decode
encode-decode_example = encode-decode datagram sample datagram-All refl

-- A slot with a participant, which is on air, behind one with none.
abbrev slots : List (RendererSlot ℕ)
slots =
    slot_defaults (text "A") false
    ∷ record (slot_defaults (text "B") true) { participant_id = some (text "p"); active = true }
    ∷ []

abbrev digest : List ℕ
digest = 1 ∷ 2 ∷ 3 ∷ 4 ∷ replicate 28 0

digest-All : All IsByte digest
digest-All = all-IsByte digest refl

from_slots-IsPlan_example :
    IsPlan (λ id. digest) slots true (from_slots (λ id. digest) 1 9000 slots true)
from_slots-IsPlan_example =
    from_slots-IsPlan (λ id. digest) (λ id. digest-All) (λ id. refl) 1 9000 slots true

drop_expired-retain_example :
    drop_expired (60 * 10 ^ 9 + 1002) (1000 ∷ 1001 ∷ 1002 ∷ [])
    ≡ retain (λ b. leb (60 * 10 ^ 9 + 1002 - b) (60 * 10 ^ 9)) (1000 ∷ 1001 ∷ 1002 ∷ [])
drop_expired-retain_example =
    drop_expired-retain (60 * 10 ^ 9 + 1002) (1000 ∷ 1001 ∷ 1002 ∷ [])
      ((omega arith, (omega arith, tt)), ((omega arith, tt), (tt, tt)))

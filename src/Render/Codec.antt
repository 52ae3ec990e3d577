-- ===== src/Render/Codec.antt =====
-- The codec of render samples.
use beatblock_online.Base.{
  ℕ, zero, suc, take, drop, sym, subst, ◌∙◌, slice, ◌^◌, ◌<◌, ◌≡◌, refl, ap, some, List, [], ◌∷◌,
  ◌++◌, All, IsByte, to_le_bytes, from_le_bytes-to, to_le_bytes-from, to_le_bytes-All, write_at,
  length, arith,
}
use beatblock_online.Render.{RenderSample, encode, decode, read_sample, wire_size, protocol_version}

-- The fields fit their types.
pub record IsSample (s : RenderSample) : Type 0 where
  pub session_id : s.session_id < 256 ^ 4
  pub sequence : s.sequence < 256 ^ 4
  pub run_time_us : s.run_time_us < 256 ^ 8
  pub beat : s.beat < 256 ^ 4
  pub paddle_angle : s.paddle_angle < 256 ^ 4
  pub tap_mask : s.tap_mask < 256 ^ 2
  pub flags : s.flags < 256 ^ 2

All-append : (bs cs : List ℕ) → All IsByte bs → All IsByte cs → All IsByte (bs ++ cs)
All-append [] cs h k = k
All-append (b ∷ bs) cs h k = (h.0, All-append bs cs h.1 k)

encode-All : (s : RenderSample) → All IsByte (encode s)
unfolding encode
encode-All s =
    let integer = λ (w n : ℕ) (rest : List ℕ) (h : All IsByte rest).
      All-append (to_le_bytes w n) rest (to_le_bytes-All w n) h in
    let flags = to_le_bytes 2 s.flags in
    let tap_mask = to_le_bytes 2 s.tap_mask ++ flags in
    let angle = to_le_bytes 4 s.paddle_angle ++ tap_mask in
    let beat = to_le_bytes 4 s.beat ++ angle in
    let time = to_le_bytes 8 s.run_time_us ++ beat in
    let sequence = to_le_bytes 4 s.sequence ++ time in
    (
      omega arith,
      (
        omega arith,
        (
          omega arith,
          (
            omega arith,
            integer 4 s.session_id sequence (
                integer 4 s.sequence time (
                  integer 8 s.run_time_us beat (
                    integer 4 s.beat angle (
                      integer 4 s.paddle_angle tap_mask
                        (integer 2 s.tap_mask flags (to_le_bytes-All 2 s.flags)))))),
          ),
        ),
      ),
    )

sample_eq :
    (s : RenderSample) {i n t b p m f : ℕ}
    → i ≡ s.session_id
    → n ≡ s.sequence
    → t ≡ s.run_time_us
    → b ≡ s.beat
    → p ≡ s.paddle_angle
    → m ≡ s.tap_mask
    → f ≡ s.flags
    → record {
      session_id = i;
      sequence = n;
      run_time_us = t;
      beat = b;
      paddle_angle = p;
      tap_mask = m;
      flags = f;
    }
      ≡ s
sample_eq s hi hn ht hb hp hm hf k = record {
  session_id = hi k;
  sequence = hn k;
  run_time_us = ht k;
  beat = hb k;
  paddle_angle = hp k;
  tap_mask = hm k;
  flags = hf k;
}

-- A sample whose fields fit their types is encoded in 32 bytes, from which it is decoded again.
pub decode-encode :
    (s : RenderSample)
    → IsSample s
    → (length (encode s) ≡ wire_size) × All IsByte (encode s) × (decode (encode s) ≡ some s)
unfolding encode decode
decode-encode s v = (
  refl,
  encode-All s,
  ap some (
      sample_eq s (from_le_bytes-to 4 s.session_id v.session_id)
        (from_le_bytes-to 4 s.sequence v.sequence) (from_le_bytes-to 8 s.run_time_us v.run_time_us)
        (from_le_bytes-to 4 s.beat v.beat) (from_le_bytes-to 4 s.paddle_angle v.paddle_angle)
        (from_le_bytes-to 2 s.tap_mask v.tap_mask) (from_le_bytes-to 2 s.flags v.flags)),
)

-- The element at an index, 0 out of range.
pub nth : List ℕ → ℕ → ℕ
nth [] i = 0
nth (b ∷ bs) zero = b
nth (b ∷ bs) (suc i) = nth bs i

abbrev pub tabulate : ℕ → (ℕ → ℕ) → List ℕ
tabulate zero f = []
tabulate (suc n) f = f 0 ∷ tabulate n (λ i. f (suc i))

pub tabulate-nth : (bs : List ℕ) → tabulate (length bs) (nth bs) ≡ bs
unfolding nth
tabulate-nth [] = refl
tabulate-nth (b ∷ bs) = ap (λ cs. b ∷ cs) (tabulate-nth bs)

All-append_inv : (bs cs : List ℕ) → All IsByte (bs ++ cs) → All IsByte bs × All IsByte cs
All-append_inv [] cs h = (tt, h)
All-append_inv (b ∷ bs) cs h = let rest = All-append_inv bs cs h.1 in ((h.0, rest.0), rest.1)

All-take : (n : ℕ) (bs : List ℕ) → All IsByte bs → All IsByte (take n bs)
All-take zero bs h = tt
All-take (suc n) [] h = tt
All-take (suc n) (b ∷ bs) h = (h.0, All-take n bs h.1)

All-drop : (n : ℕ) (bs : List ℕ) → All IsByte bs → All IsByte (drop n bs)
All-drop zero bs h = h
All-drop (suc n) [] h = tt
All-drop (suc n) (b ∷ bs) h = All-drop n bs h.1

encode-read_tabulated :
    (f : ℕ → ℕ)
    → f 0 ≡ protocol_version
    → All IsByte (tabulate 32 f)
    → encode (read_sample (tabulate 32 f)) ≡ write_at 1 (0 ∷ 0 ∷ 0 ∷ []) (tabulate 32 f)
unfolding encode
encode-read_tabulated f version h =
    let field = λ (i n : ℕ).
      to_le_bytes-from (slice i n (tabulate 32 f))
        (All-take n (drop i (tabulate 32 f)) (All-drop i (tabulate 32 f) h)) in
    λ k.
      sym version k
      ∷ 0
      ∷ 0
      ∷ 0
      ∷ (field 4 4 k
          ++ field 8 4 k
          ++ field 12 8 k
          ++ field 20 4 k
          ++ field 24 4 k
          ++ field 28 2 k
          ++ field 30 2 k)

read_sample_lem :
    (bytes : List ℕ) (s : RenderSample)
    → decode bytes ≡ some s
    → (length bytes ≡ wire_size) × (nth bytes 0 ≡ protocol_version) × (read_sample bytes ≡ s)
unfolding decode nth
read_sample_lem [] s h = ground arith
read_sample_lem (b ∷ bytes) s h = ground arith

-- A datagram that is decoded is the encoding of its sample, but for the three reserved bytes behind
-- the version, which the encoder clears.
pub encode-decode :
    (bytes : List ℕ) (s : RenderSample)
    → All IsByte bytes
    → decode bytes ≡ some s
    → encode s ≡ write_at 1 (0 ∷ 0 ∷ 0 ∷ []) bytes
encode-decode bytes s h k =
    let (long, version, same) = read_sample_lem bytes s k in
    let spelled = subst (λ n. tabulate n (nth bytes) ≡ bytes) long (tabulate-nth bytes) in
    sym (ap encode same)
    ∙ subst (λ b. encode (read_sample b) ≡ write_at 1 (0 ∷ 0 ∷ 0 ∷ []) b) spelled
        (encode-read_tabulated (nth bytes) version (subst (All IsByte) (sym spelled) h))

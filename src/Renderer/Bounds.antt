-- ===== src/Renderer/Bounds.antt =====
-- The buffers of the participants: bounded, and in the order of their sequence numbers.
use beatblock_online.Base.{
  ℕ, suc, ◌≤◌, ◌<◌, ◌≡◌, refl, false, inl, inr, Bool-cases, Option, none, some, List, [], ◌∷◌, ◌++◌,
  ltb, ◌==◌, length, any, All, Text, text_eq, lookup, put, delete, arith,
}
use beatblock_online.Render.{RenderSample}
use beatblock_online.Renderer.State.{Table, BufferedRenderSample, RenderTap, RenderScoreState}
use beatblock_online.Renderer.Buffers.{
  buffer_of, trim_front, last_of, is_stale, sample_sequence, score_sequence, push_sample_in,
  push_tap_in, push_score_in, max_render_samples, max_render_taps, max_render_scores,
}

module _ {A : Type 0} (key : A → ℕ) where
  -- The keys ascend; no two keys are the same.
  abbrev pub Ascending : List A → Type 0
  Ascending [] = Unit
  Ascending (x ∷ xs) = All (λ y. key x < key y) xs × Ascending xs

  abbrev pub DistinctKeys : List A → Type 0
  DistinctKeys [] = Unit
  DistinctKeys (x ∷ xs) = (any (λ y. key y == key x) xs ≡ false) × DistinctKeys xs

  abbrev last_key : Option A → Option ℕ
  last_key none = none
  last_key (some x) = some (key x)

module _ {A : Type 0} where
  pub length-trim_front-le : (limit : ℕ) (xs : List A) → length (trim_front limit xs) ≤ limit
  unfolding trim_front
  length-trim_front-le limit [] = omega arith
  length-trim_front-le limit (x ∷ xs) = ground (arith, length-trim_front-le limit xs)

  All-append_last : (P : A → Type 0) (xs : List A) (a : A) → All P xs → P a → All P (xs ++ a ∷ [])
  All-append_last P [] a h p = (p, tt)
  All-append_last P (x ∷ xs) a h p = (h.0, All-append_last P xs a h.1 p)

  All-last : (P : A → Type 0) (xs : List A) (a : A) → All P (xs ++ a ∷ []) → P a
  All-last P [] a h = h.0
  All-last P (x ∷ xs) a h = All-last P xs a h.1

module _ {A : Type 0} (key : A → ℕ) where
  trim_front-Ascending :
      (limit : ℕ) (xs : List A) → Ascending key xs → Ascending key (trim_front limit xs)
  unfolding trim_front
  trim_front-Ascending limit [] h = tt
  trim_front-Ascending limit (x ∷ xs) h = elim (Bool-cases (ltb limit (suc (length xs)))) [
    | inl long ↦ rw long (trim_front-Ascending limit xs h.1)
    | inr short ↦ rw short h
  ]

  trim_front-Distinct :
      (limit : ℕ) (xs : List A) → DistinctKeys key xs → DistinctKeys key (trim_front limit xs)
  unfolding trim_front
  trim_front-Distinct limit [] h = tt
  trim_front-Distinct limit (x ∷ xs) h = elim (Bool-cases (ltb limit (suc (length xs)))) [
    | inl long ↦ rw long (trim_front-Distinct limit xs h.1)
    | inr short ↦ rw short h
  ]

  -- A new key that the last one does not reach is above all of an ascending buffer.
  Ascending-append_last :
      (xs : List A) (a : A)
      → Ascending key xs
      → is_stale (key a) (last_key key (last_of xs)) ≡ false
      → Ascending key (xs ++ a ∷ [])
  unfolding last_of
  Ascending-append_last [] a h k = (tt, tt)
  Ascending-append_last (x ∷ []) a h k = ((ground arith, tt), (tt, tt))
  Ascending-append_last (x ∷ y ∷ xs) a h k =
      let rest = Ascending-append_last (y ∷ xs) a h.1 k in
      let behind : key y < key a = All-last (λ z. key y < key z) xs a rest.0 in
      let above : key x < key a = omega (arith, h.0.0, behind) in
      (All-append_last (λ z. key x < key z) (y ∷ xs) a h.0 above, rest)

  Distinct-append_last :
      (xs : List A) (a : A)
      → DistinctKeys key xs
      → any (λ e. key e == key a) xs ≡ false
      → DistinctKeys key (xs ++ a ∷ [])
  Distinct-append_last [] a h k = (refl, tt)
  Distinct-append_last (x ∷ xs) a h k =
      (apart xs x h.0 (ground arith), Distinct-append_last xs a h.1 (ground arith))
    where
      apart :
          (ys : List A) (y : A)
          → any (λ z. key z == key y) ys ≡ false
          → (key y == key a) ≡ false
          → any (λ z. key z == key y) (ys ++ a ∷ []) ≡ false
      apart [] y d e = ground arith
      apart (z ∷ ys) y d e = ground (arith, apart ys y)

-- A buffer within its limit, in order, and one without two equal keys.
pub record IsOrdered {A : Type 0} (limit : ℕ) (key : A → ℕ) (xs : List A) : Type 0 where
  pub size : length xs ≤ limit
  pub order : Ascending key xs

pub record IsSetOf {A : Type 0} (limit : ℕ) (key : A → ℕ) (xs : List A) : Type 0 where
  pub size : length xs ≤ limit
  pub keys : DistinctKeys key xs

abbrev pub sequence_of : BufferedRenderSample → ℕ
sequence_of b = b.sample.sequence

pub push_sample-IsOrdered :
    (sample : RenderSample) (now : ℕ) (buffer : List BufferedRenderSample)
    → IsOrdered max_render_samples sequence_of buffer
    → IsOrdered max_render_samples sequence_of (push_sample_in sample now buffer)
unfolding push_sample_in
push_sample-IsOrdered sample now buffer v =
    elim (Bool-cases (is_stale sample.sequence (sample_sequence (last_of buffer)))) [
      | inl stale ↦ rw stale v
      | inr new ↦ rw new (record {
        size =
            length-trim_front-le max_render_samples
              (buffer ++ record { sample = sample; received_at_us = now } ∷ []);
        order =
            trim_front-Ascending sequence_of max_render_samples _
              (Ascending-append_last sequence_of buffer _ v.order (last_same (last_of buffer) new));
      })
    ]
  where
    last_same :
        (o : Option BufferedRenderSample)
        → is_stale sample.sequence (sample_sequence o) ≡ false
        → is_stale sample.sequence (last_key sequence_of o) ≡ false
    last_same none h = h
    last_same (some b) h = h

pub push_score-IsOrdered :
    (state : RenderScoreState) (buffer : List RenderScoreState)
    → IsOrdered max_render_scores (λ s. s.sequence) buffer
    → IsOrdered max_render_scores (λ s. s.sequence) (push_score_in state buffer)
unfolding push_score_in
push_score-IsOrdered state buffer v =
    elim (Bool-cases (is_stale state.sequence (score_sequence (last_of buffer)))) [
      | inl stale ↦ rw stale v
      | inr new ↦ rw new (record {
        size = length-trim_front-le max_render_scores (buffer ++ state ∷ []);
        order =
            trim_front-Ascending (λ s. s.sequence) max_render_scores _
              (Ascending-append_last (λ s. s.sequence) buffer state v.order
                (last_same (last_of buffer) new));
      })
    ]
  where
    last_same :
        (o : Option RenderScoreState)
        → is_stale state.sequence (score_sequence o) ≡ false
        → is_stale state.sequence (last_key (λ (s : RenderScoreState). s.sequence) o) ≡ false
    last_same none h = h
    last_same (some b) h = h

pub push_tap-IsSetOf :
    (tap : RenderTap) (buffer : List RenderTap)
    → IsSetOf max_render_taps (λ t. t.sequence) buffer
    → IsSetOf max_render_taps (λ t. t.sequence) (push_tap_in tap buffer)
unfolding push_tap_in
push_tap-IsSetOf tap buffer v = elim (Bool-cases (any (λ e. e.sequence == tap.sequence) buffer)) [
  | inl known ↦ rw known v
  | inr new ↦ rw new (record {
    size = length-trim_front-le max_render_taps (buffer ++ tap ∷ []);
    keys =
        trim_front-Distinct (λ t. t.sequence) max_render_taps _
          (Distinct-append_last (λ t. t.sequence) buffer tap v.keys new);
  })
]

-- Every buffer of a table has a property; the empty one has it too.
module _ {V : Type 0} (P : V → Type 0) where
  abbrev pub AllOf : Table V → Type 0
  AllOf t = All (λ e. P e.1) t

  pub AllOf-put : (id : Text) (v : V) (t : Table V) → P v → AllOf t → AllOf (put id v t)
  unfolding put
  AllOf-put id v [] p h = (p, tt)
  AllOf-put id v ((j, w) ∷ t) p h = elim (Bool-cases (text_eq j id)) [
    | inl same ↦ rw same (p, h.1)
    | inr other ↦ rw other (h.0, AllOf-put id v t p h.1)
  ]

  pub AllOf-delete : (id : Text) (t : Table V) → AllOf t → AllOf (delete id t)
  unfolding delete
  AllOf-delete id [] h = tt
  AllOf-delete id ((j, w) ∷ t) h = elim (Bool-cases (text_eq j id)) [
    | inl same ↦ rw same (AllOf-delete id t h.1)
    | inr other ↦ rw other (h.0, AllOf-delete id t h.1)
  ]

module _ {A : Type 0} (P : List A → Type 0) where
  pub AllOf-buffer_of : (id : Text) (t : Table (List A)) → P [] → AllOf P t → P (buffer_of id t)
  unfolding lookup
  AllOf-buffer_of id [] e h = e
  AllOf-buffer_of id ((j, w) ∷ t) e h = elim (Bool-cases (text_eq j id)) [
    | inl same ↦ rw same h.0
    | inr other ↦ rw other (AllOf-buffer_of id t e h.1)
  ]

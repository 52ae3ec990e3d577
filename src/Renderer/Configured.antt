-- ===== src/Renderer/Configured.antt =====
-- The slots, their sizes and the featured one, and what configuring does to them.
use beatblock_online.Base.{
  ℕ, zero, suc, ◌+◌, ◌≤◌, ◌≡◌, refl, ◌∙◌, sym, ap, subst, Bool, true, false, ◌⊎◌, inl, inr,
  Bool-cases, Option, none, some, List, [], ◌∷◌, map, All, get_elem?, modify_at, count_if, is_some,
  Text, text, eq_ignore_ascii_case, arith,
}
use beatblock_online.Float.{Float}
use beatblock_online.Broadcast.{RendererSlot}
use beatblock_online.Renderer.State.{Manager}
use beatblock_online.Renderer.Slots
use beatblock_online.Renderer.Slots.{
  RendererRequest, Disk, ConfigureError, find_slot, configured, candidate, fresh_frames,
  render_changed, request_error, unfeatured, out_of_range, wrong_fps, or_old, clamped,
  wants_featured,
}

module _ {F : Type 0} where
  pub record IsSlot (s : RendererSlot F) : Type 0 where
    pub width : (320 ≤ s.width) × (s.width ≤ 1920)
    pub height : (180 ≤ s.height) × (s.height ≤ 1080)
    pub fps : (s.fps ≡ 30) ⊎ (s.fps ≡ 60)
    pub delay : (250 ≤ s.delay_ms) × (s.delay_ms ≤ 1500)
    pub active : s.active ≡ is_some s.participant_id

  abbrev pub featured_of : RendererSlot F → Bool
  featured_of s = s.featured

  pub record IsSlots (ss : List (RendererSlot F)) : Type 0 where
    pub ids : map (λ s. s.id) ss ≡ text "A" ∷ text "B" ∷ text "C" ∷ text "D" ∷ []
    pub featured : count_if featured_of ss ≡ 1
    pub slots : All IsSlot ss

module _ {A : Type 0} where
  All-modify_at :
      (P : A → Type 0) (v : A) (i : ℕ) (xs : List A)
      → P v
      → All P xs
      → All P (modify_at (λ _. v) i xs)
  All-modify_at P v i [] p h = tt
  All-modify_at P v zero (x ∷ xs) p h = (p, h.1)
  All-modify_at P v (suc i) (x ∷ xs) p h = (h.0, All-modify_at P v i xs p h.1)

  All-get_elem? :
      (P : A → Type 0) (i : ℕ) (xs : List A) {a : A} → All P xs → get_elem? xs i ≡ some a → P a
  All-get_elem? P i [] h e = absurd (ground arith)
  All-get_elem? P zero (x ∷ xs) {a} h e = let same : x ≡ a = ground arith in subst P same h.0
  All-get_elem? P (suc i) (x ∷ xs) {a} h e = All-get_elem? P i xs {a = a} h.1 e

  map-modify_at :
      {B : Type 0} (f : A → B) (v : A) (i : ℕ) (xs : List A) (a : A)
      → get_elem? xs i ≡ some a
      → f v ≡ f a
      → map f (modify_at (λ _. v) i xs) ≡ map f xs
  map-modify_at f v i [] a h e = refl
  map-modify_at f v zero (x ∷ xs) a h e =
      let same : x ≡ a = ground arith in ap (λ y. y ∷ map f xs) (e ∙ ap f (sym same))
  map-modify_at f v (suc i) (x ∷ xs) a h e = ap (λ ys. f x ∷ ys) (map-modify_at f v i xs a h e)

  count_if-modify_at :
      (p : A → Bool) (v : A) (i : ℕ) (xs : List A) (a : A)
      → get_elem? xs i ≡ some a
      → p v ≡ p a
      → count_if p (modify_at (λ _. v) i xs) ≡ count_if p xs
  count_if-modify_at p v i [] a h e = refl
  count_if-modify_at p v zero (x ∷ xs) a h e =
      let same : x ≡ a = ground arith in let test : p v ≡ p x = e ∙ ap p (sym same) in rw test refl
  count_if-modify_at p v (suc i) (x ∷ xs) a h e = omega (arith, count_if-modify_at p v i xs a h e)

module _ {F : Type 0} where
  count_if-unfeatured : (ss : List (RendererSlot F)) → count_if featured_of (map unfeatured ss) ≡ 0
  count_if-unfeatured [] = refl
  count_if-unfeatured (s ∷ ss) = omega (arith, count_if-unfeatured ss)

  count_if-take_over :
      (v : RendererSlot F) (i : ℕ) (ss : List (RendererSlot F)) (a : RendererSlot F)
      → get_elem? ss i ≡ some a
      → v.featured ≡ true
      → count_if featured_of (modify_at (λ _. v) i (map unfeatured ss)) ≡ 1
  count_if-take_over v i [] a h e = absurd (ground arith)
  count_if-take_over v zero (s ∷ ss) a h e = ground (arith, count_if-unfeatured ss)
  count_if-take_over v (suc i) (s ∷ ss) a h e = omega (arith, count_if-take_over v i ss a h e)

  get_elem?-unfeatured :
      (i : ℕ) (ss : List (RendererSlot F)) (a : RendererSlot F)
      → get_elem? ss i ≡ some a
      → get_elem? (map unfeatured ss) i ≡ some (unfeatured a)
  get_elem?-unfeatured i [] a h = absurd (ground arith)
  get_elem?-unfeatured zero (s ∷ ss) a h =
      let same : s ≡ a = ground arith in ap (λ x. some (unfeatured x)) same
  get_elem?-unfeatured (suc i) (s ∷ ss) a h = get_elem?-unfeatured i ss a h

  map-unfeatured :
      (ss : List (RendererSlot F)) → map (λ s. s.id) (map unfeatured ss) ≡ map (λ s. s.id) ss
  map-unfeatured [] = refl
  map-unfeatured (s ∷ ss) = ap (λ ys. s.id ∷ ys) (map-unfeatured ss)

  All-unfeatured : (ss : List (RendererSlot F)) → All IsSlot ss → All IsSlot (map unfeatured ss)
  All-unfeatured [] h = tt
  All-unfeatured (s ∷ ss) h = (
    record {
      width = h.0.width;
      height = h.0.height;
      fps = h.0.fps;
      delay = h.0.delay;
      active = h.0.active;
    },
    All-unfeatured ss h.1,
  )

  find_slot_lem :
      (slot_id : Text) (k : ℕ) (ss : List (RendererSlot F)) (i : ℕ) (s : RendererSlot F)
      → find_slot slot_id k ss ≡ some (i, s)
      → (j : ℕ) × (i ≡ k + j) × (get_elem? ss j ≡ some s)
  unfolding find_slot
  find_slot_lem slot_id k [] i s h = absurd (ground arith)
  find_slot_lem slot_id k (t ∷ ss) i s h = elim (Bool-cases (eq_ignore_ascii_case t.id slot_id)) [
    | inl here ↦ (0, ground arith, ground arith)
    | inr there ↦
        let (j, at, found) = find_slot_lem slot_id (suc k) ss i s (ground arith) in
        (suc j, omega (arith, at), found)
  ]

request_parts :
    (q : RendererRequest)
    → request_error q ≡ none
    → (out_of_range 320 1920 q.width ≡ false)
      × (out_of_range 180 1080 q.height ≡ false)
      × (wrong_fps q.fps ≡ false)
unfolding request_error
request_parts q h = ground arith

chosen_range :
    (lo hi : ℕ) (o : Option ℕ) (old : ℕ)
    → out_of_range lo hi o ≡ false
    → (lo ≤ old) × (old ≤ hi)
    → (lo ≤ or_old o old) × (or_old o old ≤ hi)
chosen_range lo hi none old h v = v
chosen_range lo hi (some n) old h v = ground arith

chosen_fps :
    (o : Option ℕ) (old : ℕ)
    → wrong_fps o ≡ false
    → (old ≡ 30) ⊎ (old ≡ 60)
    → (or_old o old ≡ 30) ⊎ (or_old o old ≡ 60)
chosen_fps none old h v = v
chosen_fps (some n) old h v = ground arith

chosen_delay :
    (o : Option ℕ) (old : ℕ)
    → (250 ≤ old) × (old ≤ 1500)
    → (250 ≤ clamped o old) × (clamped o old ≤ 1500)
chosen_delay none old v = v
chosen_delay (some n) old v = (omega arith, omega arith)

module _ {F : Type 0} ⦃fl : Float F⦄ where
  candidate-IsSlot :
      (q : RendererRequest) (s : RendererSlot F)
      → request_error q ≡ none
      → IsSlot s
      → IsSlot (candidate q s)
  unfolding candidate
  candidate-IsSlot q s h v =
      let (w, t, f) = request_parts q h in
      record {
        width = chosen_range 320 1920 q.width s.width w v.width;
        height = chosen_range 180 1080 q.height s.height t v.height;
        fps = chosen_fps q.fps s.fps f v.fps;
        delay = chosen_delay q.delay_ms s.delay_ms v.delay;
        active = refl;
      }

  fresh_frames-IsSlot : (s : RendererSlot F) → IsSlot s → IsSlot (fresh_frames s)
  unfolding fresh_frames
  fresh_frames-IsSlot s v = record {
    width = v.width;
    height = v.height;
    fps = v.fps;
    delay = v.delay;
    active = v.active;
  }

  configured-IsSlot :
      (q : RendererRequest) (s : RendererSlot F)
      → request_error q ≡ none
      → IsSlot s
      → IsSlot (configured q s)
        × ((configured q s).id ≡ s.id)
        × ((configured q s).featured ≡ s.featured)
  unfolding configured fresh_frames candidate
  configured-IsSlot q s h v = elim (Bool-cases (render_changed s (candidate q s))) [
    | inl changed ↦
        rw changed (fresh_frames-IsSlot (candidate q s) (candidate-IsSlot q s h v), refl, refl)
    | inr same ↦ rw same (candidate-IsSlot q s h v, refl, refl)
  ]

  slots-reset_files :
      (disk : Disk) (changed : Bool) (id : Text) (m : Manager F)
      → (Slots.reset_files disk changed id m).0.slots ≡ m.slots
  unfolding Slots.reset_files Slots.reset_maps Slots.forget_cursors
  slots-reset_files disk changed id m = ground arith

  published-IsSlots :
      (i : ℕ) (q : RendererRequest) (old new : RendererSlot F)
      (p : Manager F × Option ConfigureError)
      → get_elem? p.0.slots i ≡ some old
      → IsSlot new
      → new.id ≡ old.id
      → new.featured ≡ old.featured
      → IsSlots p.0.slots
      → IsSlots (Slots.published i q new p).0.slots
  unfolding Slots.published Slots.publish_slot
  published-IsSlots i q old new (m, some e) at w id f v = v
  published-IsSlots i q old new (m, none) at w id f v =
      elim (Bool-cases (wants_featured q.featured)) [
        | inl wanted ↦ rw wanted (record {
          ids =
              map-modify_at (λ s. s.id) (record new { featured = true }) i (map unfeatured m.slots)
                (unfeatured old) (get_elem?-unfeatured i m.slots old at) id
              ∙ map-unfeatured m.slots
              ∙ v.ids;
          featured = count_if-take_over (record new { featured = true }) i m.slots old at refl;
          slots =
              All-modify_at IsSlot (record new { featured = true }) i (map unfeatured m.slots)
                (record {
                  width = w.width;
                  height = w.height;
                  fps = w.fps;
                  delay = w.delay;
                  active = w.active;
                })
                (All-unfeatured m.slots v.slots);
        })
        | inr unwanted ↦ rw unwanted (record {
          ids = map-modify_at (λ s. s.id) new i m.slots old at id ∙ v.ids;
          featured = count_if-modify_at featured_of new i m.slots old at f ∙ v.featured;
          slots = All-modify_at IsSlot new i m.slots w v.slots;
        })
      ]

  configure_found-IsSlots :
      (disk : Disk) (q : RendererRequest) (o : Option (ℕ × RendererSlot F))
      (e : Option ConfigureError) (m : Manager F)
      → request_error q ≡ e
      → ((i : ℕ) (s : RendererSlot F) → o ≡ some (i, s) → get_elem? m.slots i ≡ some s)
      → IsSlots m.slots
      → IsSlots (Slots.configure_found disk q o e m).0.slots
  unfolding Slots.configure_found Slots.configure_slot
  configure_found-IsSlots disk q none e m h at v = v
  configure_found-IsSlots disk q (some (i, s)) (some e) m h at v = v
  configure_found-IsSlots disk q (some (i, s)) none m h at v =
      let place = at i s refl in
      let (w, id, f) =
        configured-IsSlot q s h (All-get_elem? IsSlot i m.slots {a = s} v.slots place) in
      let files =
        Slots.reset_files disk (render_changed s (configured q s)) (configured q s).id m in
      let same = slots-reset_files disk (render_changed s (configured q s)) (configured q s).id m in
      published-IsSlots i q s (configured q s) files (ap (λ l. get_elem? l i) same ∙ place) w id f
        (subst IsSlots (sym same) v)

  pub configure-IsSlots :
      (disk : Disk) (id : Text) (q : RendererRequest) (m : Manager F)
      → IsSlots m.slots
      → IsSlots (Slots.configure disk id q m).0.slots
  unfolding Slots.configure
  configure-IsSlots disk id q m v =
      configure_found-IsSlots disk q (find_slot id 0 m.slots) (request_error q) m refl
        (λ i s h.
          let (j, at, found) = find_slot_lem id 0 m.slots i s h in
          let here : j ≡ i = omega (arith, at) in
          subst (λ n. get_elem? m.slots n ≡ some s) here found)
        v

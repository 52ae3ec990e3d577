-- ===== src/Renderer/Taps.antt =====
-- companion/src/renderer.rs: which tap the publisher of a slot hands to the game next.
use beatblock_online.Base.{
  ℕ, ◌≤◌, ◌<◌, ◌≡◌, refl, inl, inr, true, false, Bool-cases, Option, none, some, List, [], ◌∷◌, leb,
  ◌||◌, arith,
}
use beatblock_online.Renderer.State.{Single, RenderTap}
use beatblock_online.Renderer.Align.{next_tap}

module _ ⦃sg : Single⦄ where
  -- The cursor that goes with a tap is its number, and lies behind the old cursor; the tap is due.
  abbrev pub IsNext : ℕ → ℕ → ℕ × Option RenderTap → Type 0
  IsNext beat cursor (c, none) = cursor ≤ c
  IsNext beat cursor (c, some e) =
      (cursor < c)
      × (c ≡ e.sequence)
      × (sg.is_ahead e.beat beat ≡ false)
      × (sg.is_current e.beat beat ≡ true)

  IsNext-past :
      (beat k c : ℕ) (r : ℕ × Option RenderTap) → k ≤ c → IsNext beat c r → IsNext beat k r
  IsNext-past beat k c (c', none) le h = omega arith
  IsNext-past beat k c (c', some e) le h = (omega (arith, h.0), h.1, h.2, h.3)

  -- Wherever the cursor of a slot stands, the tap that is handed over lies behind it, is neither ahead
  -- of the beat nor too old for it, and takes the cursor to its own number. Without a tap the cursor
  -- does not fall.
  pub next_tap-IsNext :
      (beat cursor : ℕ) (es : List RenderTap) → IsNext beat cursor (next_tap beat cursor es)
  unfolding next_tap
  next_tap-IsNext beat cursor [] = omega arith
  next_tap-IsNext beat cursor (e ∷ es) =
      elim (Bool-cases (leb e.sequence cursor || sg.is_ahead e.beat beat)) [
        | inl waits ↦ rw waits (next_tap-IsNext beat cursor es)
        | inr due ↦ elim (Bool-cases (sg.is_current e.beat beat)) [
          | inl current ↦ rw (due, current) (ground arith, refl, ground arith, current)
          | inr late ↦
              rw (due, late)
                (IsNext-past beat cursor e.sequence _ (ground arith)
                  (next_tap-IsNext beat e.sequence es))
        ]
      ]

-- ===== src/Float.antt =====
-- The floating point numbers of the program, as a parameter. `F` holds the values of `f64` and, as
-- every `f32` is one, those of `f32`; the operations that round to `f32` have fields of their own.
-- The only laws are those of `total_cmp`, which the standard library documents as a total order.
use beatblock_online.Base.{ℕ, ◌≡◌, Bool}
use Prim.Native.Nat.{Ordering}

-- `Ordering::reverse`
abbrev pub reversed : Ordering → Ordering
reversed Ordering.lt = Ordering.gt
reversed Ordering.eq = Ordering.eq
reversed Ordering.gt = Ordering.lt

pub record Float (F : Type 0) : Type 0 where
  -- `n as f64`
  pub of_u64 : ℕ → F
  pub fadd : F → F → F
  pub fsub : F → F → F
  pub fmul : F → F → F
  pub fdiv : F → F → F
  pub fmax : F → F → F
  pub floor : F → F
  -- `x.clamp(0.0, 1.0)`
  pub clamp_unit : F → F
  pub total_cmp : F → F → Ordering
  -- `rate.is_finite() && (0.5..=5.0).contains(&rate)`, on `f32`
  pub rate_in_range : F → Bool
  -- `let tenths = rate * 10.0; (tenths - tenths.round()).abs() > 0.0001`, on `f32`
  pub rate_off_step : F → Bool
  pub total_cmp-refl : (a : F) → total_cmp a a ≡ Ordering.eq
  pub total_cmp-swap : (a b : F) → total_cmp b a ≡ reversed (total_cmp a b)
  pub total_cmp-eq : (a b c : F) → total_cmp a b ≡ Ordering.eq → total_cmp b c ≡ total_cmp a c
  pub total_cmp_trans :
      (a b c : F)
      → total_cmp a b ≡ Ordering.lt
      → total_cmp b c ≡ Ordering.lt
      → total_cmp a c ≡ Ordering.lt

-- ===== src/Prelude/Float.antt =====
-- Go's float64, as a parameter: the operations that the program uses. Conversions to int32 of
-- values out of range depend on the platform, so only their range is relied on.
use mathlib.Core.Bool.{Bool}
use wayland_without_borders.Prelude.Int.{
  ℤ, ◌*ℤ◌, ◌+ℤ◌, ◌-ℤ◌, wrap32, wrap32-IsI32, IsI32, leb_ℤ, eqb_ℤ,
}

pub record Float64 : Type 1 where
  pub F : Type 0
  pub of_int : ℤ → F
  pub add : F → F → F
  pub sub : F → F → F
  pub mul : F → F → F
  pub div : F → F → F
  pub trunc : F → F
  pub le : F → F → Bool
  pub eq : F → F → Bool
  pub to_i32 : F → ℤ

-- What the program relies on: a conversion gives an int32.
abbrev pub ConvertsToI32 : Float64 → Type 0
ConvertsToI32 fl = (x : fl.F) → IsI32 (fl.to_i32 x)

-- The floats that are integers, with a wrapping conversion: they show that the relied-on facts can
-- hold, and run the model on integer inputs.
abbrev pub integral_floats : Float64
integral_floats = record {
  F = ℤ;
  of_int = λ z. z;
  add = ◌+ℤ◌;
  sub = ◌-ℤ◌;
  mul = ◌*ℤ◌;
  div = λ a b. a;
  trunc = λ z. z;
  le = leb_ℤ;
  eq = eqb_ℤ;
  to_i32 = wrap32;
}

pub integral_floats-ConvertsToI32 : ConvertsToI32 integral_floats
integral_floats-ConvertsToI32 x = wrap32-IsI32 x

-- ===== src/Base/Floats.antt =====
-- The C++ floating point numbers as an interface: one type stands for `float` and `double`, with the
-- operations that the code uses of it and no law.
use mathlib.Core.Bool.{Bool}
use estar_go.Base.Int.{ℤ, pos, ◌+ℤ◌, ◌-ℤ◌, ◌*ℤ◌, ltb_ℤ}
use estar_go.Base.Texts.{Text}

-- of_text is a literal of the source or `atof`; to_int a conversion to `int`.
pub record Floats : Type 1 where
  pub F : Type 0
  pub of_int : ℤ → F
  pub of_text : Text → F
  pub to_int : F → ℤ
  pub add : F → F → F
  pub sub : F → F → F
  pub mul : F → F → F
  pub div : F → F → F
  pub root : F → F
  pub less : F → F → Bool

-- The integers in their place, for examples; every literal text is 0, and division gives its first
-- argument.
abbrev pub int_floats : Floats
int_floats = record {
  F = ℤ;
  of_int = λ n. n;
  of_text = λ s. pos 0;
  to_int = λ n. n;
  add = ◌+ℤ◌;
  sub = ◌-ℤ◌;
  mul = ◌*ℤ◌;
  div = λ a b. a;
  root = λ a. a;
  less = ltb_ℤ;
}

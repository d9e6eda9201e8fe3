-- ===== src/Topology/Float.antt =====
-- Go's float64: an interface, since its arithmetic is not code of the repository.
use xk6_otel_gen.Prelude.{String, Bool}
use xk6_otel_gen.Prelude.Int.{ℤ}

pub record Float64 : Type 1 where
  pub F : Type 0
  pub zero_f : F
  pub one_f : F
  pub eq_f : F → F → Bool
  pub lt_f : F → F → Bool
  pub le_f : F → F → Bool
  pub add_f : F → F → F
  pub sub_f : F → F → F
  pub mul_f : F → F → F
  pub div_f : F → F → F
  -- math.Log, math.Exp, math.Sqrt, math.Cos.
  pub log_f : F → F
  pub exp_f : F → F
  pub sqrt_f : F → F
  pub cos_f : F → F
  -- A constant, by its text in the source.
  pub literal : String → F
  pub is_nan : F → Bool
  pub is_inf : F → Bool
  -- The conversions float64(x) and int64(x).
  pub of_int : ℤ → F
  pub to_int : F → ℤ

-- ===== src/Journey/Outcome/Backoff.antt =====
-- journey/executor.go: the delays of retryBackoffDelay.
use native.Mathlib.Omega.{pow_step}
use xk6_otel_gen.Prelude.{ℕ, zero, suc, ◌%◌, ◌+◌, ◌*◌, ◌^◌, ◌<◌, ◌≡◌, refl, arith}
use xk6_otel_gen.Prelude.Int.{ℤ, ◌*ℤ◌, pos, half_word, word, wrap, mul_64, shift_one}
use xk6_otel_gen.Topology.Enums.{BackoffPolicy}
use xk6_otel_gen.Topology.Types.{Edge}
use xk6_otel_gen.Journey.Outcome.{base_delay, delay_of, retry_backoff_delay}

wrap_small : (n : ℕ) → n < half_word → wrap (pos n) ≡ pos n
unfolding wrap
wrap_small n small = ground arith

mul_ℤ_pos : (a b : ℕ) → pos a *ℤ pos b ≡ pos (a * b)
unfolding ◌*ℤ◌
mul_ℤ_pos a b = ground arith

mul_64_small : (a b : ℕ) → a * b < half_word → mul_64 (pos a) (pos b) ≡ pos (a * b)
unfolding mul_64
mul_64_small a b small = rw (mul_ℤ_pos a b) (wrap_small (a * b) small)

shift_one_small : (n : ℕ) → 2 ^ n < half_word → shift_one n ≡ pos (2 ^ n)
unfolding shift_one
shift_one_small n small = wrap_small (2 ^ n) small

double : (a b : ℕ) → a ≡ b * word → 2 * a ≡ 2 * b * word
double a b e = omega arith

suc_shift : (n : ℕ) → suc n + 64 ≡ suc (n + 64)
suc_shift n = omega arith

pow_word : (n : ℕ) → 2 ^ (n + 64) ≡ 2 ^ n * word
pow_word zero = refl
pow_word (suc n) =
    rw (suc_shift n, pow_step 2 (n + 64), pow_step 2 n) (double (2 ^ (n + 64)) (2 ^ n) (pow_word n))

multiple : (a : ℕ) → a * word % word ≡ 0
multiple a = omega arith

shift_one_large : (n : ℕ) → shift_one (n + 64) ≡ pos 0
unfolding shift_one wrap
shift_one_large n = rw (pow_word n, multiple (2 ^ n)) refl

mul_64_zero : (a : ℤ) → mul_64 (pos 0) a ≡ pos 0
unfolding mul_64 ◌*ℤ◌ wrap
mul_64_zero a = ground arith

-- The delay before the retry n + 1 by the policy, as an exact number.
abbrev pub exact_delay : BackoffPolicy → ℕ → ℕ → ℕ
exact_delay BackoffPolicy.constant n base = base
exact_delay BackoffPolicy.linear n base = suc n * base
exact_delay _ n base = 2 ^ n * base

-- The factor of the policy.
abbrev pub factor : BackoffPolicy → ℕ → ℕ
factor policy n = exact_delay policy n 1

delay_of_exact :
    (policy : BackoffPolicy) (n base : ℕ)
    → factor policy n < half_word
    → exact_delay policy n base < half_word
    → delay_of policy n (pos base) ≡ pos (exact_delay policy n base)
unfolding delay_of
delay_of_exact BackoffPolicy.constant n base _ small = refl
delay_of_exact BackoffPolicy.linear n base _ small = mul_64_small (suc n) base small
delay_of_exact BackoffPolicy.exponential n base fits small =
    rw (shift_one_small n (omega arith)) (mul_64_small (2 ^ n) base small)
delay_of_exact (BackoffPolicy.other k) n base fits small =
    rw (shift_one_small n (omega arith)) (mul_64_small (2 ^ n) base small)

module _ {F : Type 0} (edge : Edge F) where
  -- With a base delay that is not negative, the delay before the retry n + 1 is the exact product of
  -- the policy's factor (1, n + 1, or 2 to the n) and the base, whenever that factor and that product
  -- are within int64.
  pub retry_backoff_delay_exact :
      (n base : ℕ)
      → base_delay edge ≡ pos base
      → factor edge.retry_backoff n < half_word
      → exact_delay edge.retry_backoff n base < half_word
      → retry_backoff_delay edge (suc n) ≡ pos (exact_delay edge.retry_backoff n base)
  unfolding retry_backoff_delay
  retry_backoff_delay_exact n base b fits small =
      rw b (delay_of_exact edge.retry_backoff n base fits small)

  -- From the 65th retry on, an exponential delay is 0, whatever the base: the shift has left int64.
  pub retry_backoff_delay_wraps :
      (n : ℕ)
      → edge.retry_backoff ≡ BackoffPolicy.exponential
      → retry_backoff_delay edge (suc (n + 64)) ≡ pos 0
  unfolding retry_backoff_delay delay_of
  retry_backoff_delay_wraps n exponential =
      rw (exponential, shift_one_large n) (mul_64_zero (base_delay edge))

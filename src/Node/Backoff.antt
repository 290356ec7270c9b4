-- ===== src/Node/Backoff.antt =====
-- Node::calculate_backoff_delay: its loop on uint32_t, against the closed formula.
use native.Mathlib.Nat.{
  pow-zero, pow-suc, mul-one, mul_assoc, div-add-mod, mul-add-mod_self_left, one-le-pow,
  mul-mod_left, suc-add, pow-le-pow_right,
}
use d_ro_cm.Base.{
  ℕ, zero, suc, ◌+◌, ◌-◌, ◌*◌, ◌/◌, ◌%◌, ◌^◌, ◌≤◌, ◌<◌, min, ◌≡◌, refl, ap, ◌∙◌, sym, true,
  if◌then◌else◌, arith, mul32, u32_mod,
}
use d_ro_cm.Node.{ReconnectStrategy}

-- `for (i = 1; i < attempt; ++i) delay *= 2`, by the rounds left.
unfoldable pub doubled : ℕ → ℕ → ℕ
unfolding mul32
doubled zero delay = delay
doubled (suc rounds) delay = doubled rounds (mul32 delay 2)

unfoldable pub calculate_backoff_delay : ReconnectStrategy → ℕ → ℕ
unfolding doubled
calculate_backoff_delay r attempt =
    if r.enable_backoff
    then min (doubled (attempt - 1) r.base_delay_ms) r.max_delay_ms
    else r.base_delay_ms

mod-mul-mod : (x p m : ℕ) → x % m * p % m ≡ x * p % m
mod-mul-mod x p m =
    sym (mul-add-mod_self_left m (x / m * p) (x % m * p)) ∙ ap (λ (t : ℕ). t % m) whole
  where
    whole : m * (x / m * p) + x % m * p ≡ x * p
    whole = omega (arith, ap (λ (t : ℕ). t * p) (div-add-mod x m))

-- The loop computes base * 2^n modulo 2^32.
doubled-mod : (n d : ℕ) → d < u32_mod → doubled n d ≡ d * 2 ^ n % u32_mod
unfolding doubled
doubled-mod zero d h = rw (pow-zero, mul-one) (omega arith)
doubled-mod (suc n) d h =
    doubled-mod n (d * 2 % u32_mod) (omega arith)
    ∙ mod-mul-mod (d * 2) (2 ^ n) u32_mod
    ∙ ap (λ (t : ℕ). t % u32_mod) (omega (arith, ap (λ (t : ℕ). d * t) (pow-suc 2 n)))

-- With backoff enabled and a base in 32 bits the delay is min(base * 2^(attempt-1) mod 2^32, max_delay).
pub calculate_backoff_delay_lem :
    (r : ReconnectStrategy) (attempt : ℕ)
    → r.enable_backoff ≡ true
    → r.base_delay_ms < u32_mod
    → calculate_backoff_delay r attempt
      ≡ min (r.base_delay_ms * 2 ^ (attempt - 1) % u32_mod) r.max_delay_ms
unfolding calculate_backoff_delay
calculate_backoff_delay_lem r attempt on fits =
    rw (on, doubled-mod (attempt - 1) r.base_delay_ms fits)

-- With backoff enabled, where base * 2^(attempt-1) fits in 32 bits, calculate_backoff_delay returns
-- it, capped at max_delay_ms.
pub calculate_backoff_delay-exact :
    (r : ReconnectStrategy) (attempt : ℕ)
    → r.enable_backoff ≡ true
    → r.base_delay_ms * 2 ^ (attempt - 1) < u32_mod
    → calculate_backoff_delay r attempt ≡ min (r.base_delay_ms * 2 ^ (attempt - 1)) r.max_delay_ms
calculate_backoff_delay-exact r attempt on fits =
    calculate_backoff_delay_lem r attempt on (omega (arith, base_le))
    ∙ ap (λ (t : ℕ). min t r.max_delay_ms) (omega arith)
  where
    base_le : r.base_delay_ms ≤ r.base_delay_ms * 2 ^ (attempt - 1)
    base_le = grind (arith, one-le-pow (attempt - 1) 2 (omega arith))

pow_add_32 : (k : ℕ) → 2 ^ (k + 32) ≡ 2 ^ k * u32_mod
pow_add_32 zero = refl
pow_add_32 (suc k) = rw suc-add (omega (arith, pow-suc 2 (k + 32), pow-suc 2 k, pow_add_32 k))

-- With backoff enabled and a base in 32 bits, the delay is 0 from attempt 33 on.
pub calculate_backoff_delay_wraps :
    (r : ReconnectStrategy) (attempt : ℕ)
    → r.enable_backoff ≡ true
    → r.base_delay_ms < u32_mod
    → 32 < attempt
    → calculate_backoff_delay r attempt ≡ 0
calculate_backoff_delay_wraps r attempt on fits late =
    calculate_backoff_delay_lem r attempt on fits
    ∙ ap (λ (t : ℕ). min t r.max_delay_ms) wrapped
    ∙ omega arith
  where
    rounds : ℕ
    rounds = attempt - 33

    split : r.base_delay_ms * 2 ^ (attempt - 1) ≡ r.base_delay_ms * 2 ^ rounds * u32_mod
    split =
        let e : attempt - 1 ≡ rounds + 32 = omega arith in
        rw (e, pow_add_32 rounds) (sym (mul_assoc r.base_delay_ms (2 ^ rounds) u32_mod))

    wrapped : r.base_delay_ms * 2 ^ (attempt - 1) % u32_mod ≡ 0
    wrapped = rw split (mul-mod_left (r.base_delay_ms * 2 ^ rounds) u32_mod)

-- With backoff enabled, as long as it does not wrap, the delay never falls from one attempt to the next.
pub calculate_backoff_delay_mono :
    (r : ReconnectStrategy) (attempt : ℕ)
    → r.enable_backoff ≡ true
    → r.base_delay_ms * 2 ^ attempt < u32_mod
    → calculate_backoff_delay r attempt ≤ calculate_backoff_delay r (suc attempt)
calculate_backoff_delay_mono r attempt on fits =
    rw
      (
        calculate_backoff_delay-exact r attempt on (omega (arith, smaller)),
        calculate_backoff_delay-exact r (suc attempt) on (rw same fits),
      )
      (rw same (omega (arith, smaller)))
  where
    same : suc attempt - 1 ≡ attempt
    same = omega arith

    pow_le : 2 ^ (attempt - 1) ≤ 2 ^ attempt
    pow_le = pow-le-pow_right (omega arith) (omega arith)

    smaller : r.base_delay_ms * 2 ^ (attempt - 1) ≤ r.base_delay_ms * 2 ^ attempt
    smaller = grind (arith, pow_le)

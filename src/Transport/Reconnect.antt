-- ===== src/Transport/Reconnect.antt =====
-- crates/transport/src/config.rs: the policy of connecting again. Delays are nanoseconds.
use native.Mathlib.Nat.{
  mod-eq_of_lt, pow-le-pow_right, one-le-pow, two-pow-succ, le-mul_of_pos_right, mul-le-mul_left,
  mul_left_comm,
}
use tevir.Prelude.{
  ℕ, ◌+◌, ◌*◌, ◌%◌, ◌^◌, ◌≤◌, ◌≡◌, refl, subst, min, ◌||◌, Option, none, some, Result, ok, err, eqb,
  ltb, leb, if◌then◌else◌, u32_max, arith, Bool-cases, inl, inr, ◌∙◌, sym, ap,
}

pub record ReconnectPolicy : Type 0 where
  pub maximum_attempts : ℕ
  pub initial_delay : ℕ
  pub maximum_delay : ℕ

pub data LimitsError : Type 0 where
  invalid_reconnect_delay : LimitsError

unfoldable pub new : ℕ → ℕ → ℕ → Result ReconnectPolicy LimitsError
new maximum_attempts initial_delay maximum_delay =
    if eqb initial_delay 0 || ltb maximum_delay initial_delay
    then err LimitsError.invalid_reconnect_delay
    else ok (record {
      maximum_attempts = maximum_attempts;
      initial_delay = initial_delay;
      maximum_delay = maximum_delay;
    })

-- `1u32.checked_shl`.
unfoldable pub shifted_one : ℕ → Option ℕ
shifted_one bits = if ltb bits 32 then some (2 ^ bits % 2 ^ 32) else none

unfoldable pub or_u32_max : Option ℕ → ℕ
or_u32_max none = u32_max
or_u32_max (some n) = n

unfoldable pub multiplier : ℕ → ℕ
unfolding shifted_one or_u32_max
multiplier attempt = or_u32_max (shifted_one (min attempt 31))

-- The longest `Duration`.
abbrev pub duration_max : ℕ
duration_max = 18446744073709551615999999999

unfoldable pub delay_before : ReconnectPolicy → ℕ → Option ℕ
delay_before policy attempt =
    if leb policy.maximum_attempts attempt
    then none
    else some
        (min (min (policy.initial_delay * multiplier attempt) duration_max) policy.maximum_delay)

-- `Default`.
abbrev pub default_policy : ReconnectPolicy
default_policy = record {
  maximum_attempts = 8;
  initial_delay = 250000000;
  maximum_delay = 15000000000;
}

-- The multiplier is at least one, and it doubles or stays.
multiplier-pow : (attempt : ℕ) → multiplier attempt ≡ 2 ^ min attempt 31
unfolding multiplier shifted_one
multiplier-pow attempt =
    let small =
      pow-le-pow_right {n = 2} (omega arith) {i = min attempt 31} {j = 31} (omega arith) in
    let same : 2 ^ min attempt 31 % 2 ^ 32 ≡ 2 ^ min attempt 31 =
      mod-eq_of_lt (omega (arith, small)) in
    ground (arith, same)

multiplier-le : (attempt : ℕ) → 1 ≤ multiplier attempt
multiplier-le attempt =
    let one_le = one-le-pow (min attempt 31) 2 (omega arith) in
    omega (arith, multiplier-pow attempt, one_le)

multiplier-suc :
    (attempt : ℕ)
    → (multiplier attempt ≤ multiplier (attempt + 1))
      × (multiplier (attempt + 1) ≤ 2 * multiplier attempt)
multiplier-suc attempt =
    let here = multiplier-pow attempt in
    let next = multiplier-pow (attempt + 1) in
    elim (Bool-cases (ltb attempt 31)) [
      | inl below ↦
          let low : min attempt 31 ≡ attempt = ground arith in
          let high : min (attempt + 1) 31 ≡ attempt + 1 = ground arith in
          let two : 2 ^ (attempt + 1) ≡ 2 ^ attempt + 2 ^ attempt =
            ap (λ n. 2 ^ n) (omega arith) ∙ two-pow-succ attempt in
          let now : multiplier attempt ≡ 2 ^ attempt = here ∙ ap (λ n. 2 ^ n) low in
          let then_ : multiplier (attempt + 1) ≡ 2 ^ (attempt + 1) = next ∙ ap (λ n. 2 ^ n) high in
          omega (arith, two, now, then_)
      | inr above ↦
          let same : min (attempt + 1) 31 ≡ min attempt 31 = ground arith in
          let equal : multiplier (attempt + 1) ≡ multiplier attempt =
            next ∙ ap (λ n. 2 ^ n) same ∙ sym here in
          omega (arith, equal)
    ]

capped :
    (initial maximum x y : ℕ)
    → 1 ≤ initial
    → initial ≤ maximum
    → maximum ≤ duration_max
    → initial ≤ x
    → x ≤ y
    → y ≤ 2 * x
    → (let a = min (min x duration_max) maximum in
        let b = min (min y duration_max) maximum in
        (1 ≤ a) × (initial ≤ a) × (a ≤ maximum) × (a ≤ b) × (b ≤ 2 * a))
capped initial maximum x y one ordered fits least grows twice = omega arith

new-ok :
    (maximum_attempts initial_delay maximum_delay : ℕ) (policy : ReconnectPolicy)
    → new maximum_attempts initial_delay maximum_delay ≡ ok policy
    → (policy.maximum_attempts ≡ maximum_attempts)
      × (policy.initial_delay ≡ initial_delay)
      × (policy.maximum_delay ≡ maximum_delay)
      × (1 ≤ initial_delay)
      × (initial_delay ≤ maximum_delay)
unfolding new
new-ok maximum_attempts initial_delay maximum_delay policy e = ground arith

-- The next delay, if there is one.
abbrev pub Longer : ℕ → Option ℕ → Type 0
Longer delay none = Unit
Longer delay (some next) = (delay ≤ next) × (next ≤ 2 * delay)

-- Of an accepted policy with delays that fit a `Duration`, every delay is positive and lies between the initial
-- and the maximal one, and the delay of the next attempt, if there is one, is at least as long and at most twice
-- as long.
pub delay_before-bounds :
    (maximum_attempts initial_delay maximum_delay attempt delay : ℕ) (policy : ReconnectPolicy)
    → new maximum_attempts initial_delay maximum_delay ≡ ok policy
    → maximum_delay ≤ duration_max
    → delay_before policy attempt ≡ some delay
    → (1 ≤ delay)
      × (initial_delay ≤ delay)
      × (delay ≤ maximum_delay)
      × Longer delay (delay_before policy (attempt + 1))
unfolding delay_before
delay_before-bounds maximum_attempts initial_delay maximum_delay attempt delay policy e fits d =
    let x = policy.initial_delay * multiplier attempt in
    let y = policy.initial_delay * multiplier (attempt + 1) in
    let least : policy.initial_delay ≤ x =
      le-mul_of_pos_right policy.initial_delay (multiplier-le attempt) in
    let grows : x ≤ y = mul-le-mul_left policy.initial_delay (multiplier-suc attempt).0 in
    let twice : y ≤ 2 * x =
      subst (λ n. y ≤ n) (mul_left_comm policy.initial_delay 2 (multiplier attempt))
        (mul-le-mul_left policy.initial_delay (multiplier-suc attempt).1) in
    let made = new-ok maximum_attempts initial_delay maximum_delay policy e in
    let c =
      capped policy.initial_delay policy.maximum_delay x y (omega (arith, made))
        (omega (arith, made)) (omega (arith, made, fits)) least grows twice in
    let this : delay ≡ min (min x duration_max) policy.maximum_delay = ground arith in
    (
      omega (arith, this, c),
      omega (arith, this, c, made),
      omega (arith, this, c, made),
      longer this c (delay_before policy (attempt + 1)) refl,
    )
  where
    longer :
        delay
          ≡ min (min (policy.initial_delay * multiplier attempt) duration_max) policy.maximum_delay
        → (let a =
              min
                (min (policy.initial_delay * multiplier attempt) duration_max)
                policy.maximum_delay in
            let b =
              min
                (min (policy.initial_delay * multiplier (attempt + 1)) duration_max)
                policy.maximum_delay in
            (1 ≤ a)
            × (policy.initial_delay ≤ a)
            × (a ≤ policy.maximum_delay)
            × (a ≤ b)
            × (b ≤ 2 * a))
        → (o : Option ℕ) → delay_before policy (attempt + 1) ≡ o
        → Longer delay o
    longer this c none n = tt
    longer this c (some next) n =
        let that : next
            ≡ min (min (policy.initial_delay * multiplier (attempt + 1)) duration_max)
                policy.maximum_delay =
          ground arith in
        omega (arith, this, that, c)

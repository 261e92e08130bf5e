-- ===== src/Backoff.antt =====
-- runtime/backoff.py. Delays are floats in the source; here an amount is twice the delay in units
-- in which base and most are whole, so that the halves of the equal jitter are whole too. The power
-- of two is a Python int that is multiplied with a float, so it must be less than 2 ** 1024.
use ravana.Prelude.{
  ℕ, zero, suc, ◌+◌, ◌-◌, ◌*◌, ◌^◌, ◌≤◌, min, ◌≡◌, refl, ◌⊎◌, inl, inr, arith, ltb, if◌then◌else◌,
  Bool-cases, false,
}
use ravana.Exception.{Result, ok, raise, value_error, overflow_error}

-- min(cap, base * 2 ** (failure_number - 1))
abbrev pub exponential : ℕ → ℕ → ℕ → ℕ
exponential base most failure_number = min most (base * 2 ^ (failure_number - 1))

-- exp / 2 + rng(0.0, exp / 2), doubled: `rng exp` is twice the random draw.
unfoldable pub backoff_delay : (ℕ → ℕ) → ℕ → ℕ → ℕ → Result ℕ
backoff_delay rng base most failure_number =
    if ltb failure_number 1
    then raise value_error
    else if ltb 1024 failure_number
    then raise overflow_error
    else ok (exponential base most failure_number + rng (exponential base most failure_number))

-- an amount after a number of doublings
abbrev pub doubled : ℕ → ℕ → ℕ
doubled base zero = base
doubled base (suc k) = doubled base k + doubled base k

power_suc : (base k : ℕ) → base * 2 ^ suc k ≡ 2 * (base * 2 ^ k)
power_suc base k = grind arith

doubled-power : (base k : ℕ) → base * 2 ^ k ≡ doubled base k
doubled-power base zero = omega arith
doubled-power base (suc k) = let h = doubled-power base k in omega (arith, h, power_suc base k)

module _ (rng : ℕ → ℕ) where
  -- A delay between half of the base that was doubled k times, or of the cap, and all of it, as
  -- the random draw says.
  abbrev pub Delayed : ℕ → ℕ → ℕ → Result ℕ → Type 0
  Delayed base most k answer =
      (d : ℕ) × (answer ≡ ok d)
      × (d ≡ min most (doubled base k) + rng (min most (doubled base k)))
      × (min most (doubled base k) ≤ d)
      × (d ≤ 2 * min most (doubled base k))
      × (d ≤ 2 * most)

  -- The answer for a failure number, by that number.
  abbrev pub Outcome : ℕ → ℕ → ℕ → Result ℕ → Type 0
  Outcome base most zero answer = answer ≡ raise value_error
  Outcome base most (suc k) answer =
      ((k ≤ 1023) × Delayed base most k answer) ⊎ ((1024 ≤ k) × (answer ≡ raise overflow_error))

  module _ (rng_bound : (n : ℕ) → rng n ≤ n) where
    pub backoff_delay_within :
        (base most failure_number : ℕ)
        → 1 ≤ failure_number
        → failure_number ≤ 1024
        → (d : ℕ) × (backoff_delay rng base most failure_number ≡ ok d)
          × (exponential base most failure_number ≤ d)
          × (d ≤ 2 * exponential base most failure_number)
    unfolding backoff_delay
    backoff_delay_within base most n low high =
        let x = exponential base most n in
        (x + rng x, ground arith, omega arith, omega (arith, rng_bound x))

    delayed :
        (base most k : ℕ)
        → ltb 1024 (suc k) ≡ false
        → backoff_delay rng base most (suc k)
          ≡ ok (min most (doubled base k) + rng (min most (doubled base k)))
    unfolding backoff_delay
    delayed base most k small =
        let first : ltb (suc k) 1 ≡ false = ground arith in
        let before : suc k - 1 ≡ k = omega arith in
        rw (first, small, before, doubled-power base k) refl

    -- When a random draw is at most its bound: failure 0 raises ValueError. Failure k + 1, for k
    -- up to 1023, has a delay of half of x and the draw from that half, where x is the base doubled
    -- k times and capped: at least half of x, at most x, and never past the cap. From failure 1025
    -- on the power of two is no float, and the call raises OverflowError.
    pub backoff_delay_bounds :
        (base most failure_number : ℕ)
        → Outcome base most failure_number (backoff_delay rng base most failure_number)
    unfolding backoff_delay
    backoff_delay_bounds base most zero = refl
    backoff_delay_bounds base most (suc k) = elim (Bool-cases (ltb 1024 (suc k))) [
      | inl large ↦ inr (ground arith, ground arith)
      | inr small ↦
          let x = min most (doubled base k) in
          inl (
            ground arith,
            (
              x + rng x,
              delayed base most k small,
              refl,
              omega arith,
              omega (arith, rng_bound x),
              omega (arith, rng_bound x),
            ),
          )
    ]

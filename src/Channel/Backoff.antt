-- ===== src/Channel/Backoff.antt =====
-- reconnectDelay of channel.go: exponential backoff with a limit.
use robine_ci.Prelude.{
  ℕ, zero, suc, ◌+◌, ◌-◌, ◌*◌, ◌≤◌, min, ◌≡◌, refl, ◌∙◌, false, ltb, arith, if◌then◌else◌,
  Bool-cases, inl, inr,
}
use robine_ci.Prelude.Int.{pos}
use robine_ci.Channel.{double_rounds, ceiling_after, reconnect_delay, quarter_second, half_minute}

-- A number doubled so many times.
unfoldable pub doubled : ℕ → ℕ → ℕ
doubled zero c = c
doubled (suc n) c = doubled n (c * 2)

le_doubled : (n c : ℕ) → c ≤ doubled n c
unfolding doubled
le_doubled zero c = omega arith
le_doubled (suc n) c = omega (arith, le_doubled n (c * 2))

min-double_rounds : (n c : ℕ) → min (double_rounds n c) half_minute ≡ min (doubled n c) half_minute
unfolding double_rounds doubled
min-double_rounds zero c = refl
min-double_rounds (suc n) c = elim (Bool-cases (ltb c half_minute)) [
  | inl e ↦ rw e (min-double_rounds n (c * 2))
  | inr e ↦
      let big : half_minute ≤ c = ground (arith, e) in
      rw e (omega (arith, big, le_doubled n (c * 2)))
]

clamped : (x : ℕ) → (if ltb half_minute x then half_minute else x) ≡ min x half_minute
clamped x = ground arith

ceiling_after-doubled : (n : ℕ) → ceiling_after (suc n) ≡ min (doubled n quarter_second) half_minute
unfolding ceiling_after
ceiling_after-doubled n =
    let same : suc n - 1 ≡ n = omega arith in
    rw same (clamped (double_rounds n quarter_second) ∙ min-double_rounds n quarter_second)

-- After the n-th failure in a row, and n counts from zero here, the delay is at most a quarter of a
-- second doubled n times, and at most half a minute, if the random number is below what it is drawn for.
pub reconnect_delay-doubled :
    (draw : ℕ → ℕ)
    → ((n : ℕ) → draw (n + 1) ≤ n)
    → (n : ℕ) → reconnect_delay draw (pos (suc n)) ≤ min (doubled n quarter_second) half_minute
unfolding reconnect_delay
reconnect_delay-doubled draw below n =
    let later : ltb (suc n) 1 ≡ false = ground arith in
    rw (later, ceiling_after-doubled n) (below (min (doubled n quarter_second) half_minute))

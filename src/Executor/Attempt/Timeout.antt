-- ===== src/Executor/Attempt/Timeout.antt =====
-- The timeout of a job's steps, after the conversion of milliseconds to an int64 of nanoseconds.
use robine_ci.Prelude.{
  ℕ, ◌*◌, ◌%◌, ◌^◌, ◌≤◌, ◌<◌, ◌≡◌, ap, ◌∙◌, ◌||◌, if◌then◌else◌, leb, ltb, ◌==◌, arith,
}
use robine_ci.Prelude.Int.{ℤ, pos}
use robine_ci.Executor.Attempt.{
  steps_timeout, duration_word, day, default_timeout, nanoseconds_per_ms,
}

abbrev of_word : ℕ → ℕ
of_word word = if word == 0 || leb (2 ^ 63) word || ltb day word then default_timeout else word

of_word_bounds : (word : ℕ) → (0 < of_word word) × (of_word word ≤ day)
of_word_bounds word = (ground arith, ground arith)

of_word_exact : (word : ℕ) → 0 < word → word ≤ day → of_word word ≡ word
of_word_exact word low high = ground arith

-- Whatever number the offer holds, the steps have a positive timeout of at most a day.
pub steps_timeout_bounds : (ms : ℤ) → (0 < steps_timeout ms) × (steps_timeout ms ≤ day)
unfolding steps_timeout
steps_timeout_bounds ms = of_word_bounds (duration_word ms)

-- A timeout from one millisecond to a day is kept as it is.
pub steps_timeout_exact :
    (n : ℕ) → 1 ≤ n → n ≤ 86_400_000 → steps_timeout (pos n) ≡ n * nanoseconds_per_ms
unfolding steps_timeout
steps_timeout_exact n low high =
    let same : n * nanoseconds_per_ms % 2 ^ 64 ≡ n * nanoseconds_per_ms = omega arith in
    ap of_word same ∙ of_word_exact (n * nanoseconds_per_ms) (omega arith) (omega arith)

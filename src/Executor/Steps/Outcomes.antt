-- ===== src/Executor/Steps/Outcomes.antt =====
-- How running the steps of a job can end.
use robine_ci.Prelude.{
  ℕ, ◌+◌, ◌≡◌, ◌≢◌, refl, sym, ◌∙◌, Bool, true, false, not, Option, none, some, List, [], ◌∷◌, ◌&&◌,
  ◌⊎◌, inl, inr, if◌then◌else◌,
}
use mathlib.Core.Bool.{false≢true}
use mathlib.Core.Path.{subst}
use robine_ci.Prelude.Bytes.{Bytes, codes, bytes_eq, bytes_eq_sound}
use robine_ci.Offer.{Offer, JobStep, is_empty}
use robine_ci.Run.{Run, pure, ◌>>=◌}
use robine_ci.Executor.{
  Env, State, ContextError, Outcome, context_outcome, condition_matches, deadline_exceeded,
  context_canceled,
}
use robine_ci.Executor.Environment.{Variables}
use robine_ci.Executor.Steps.{
  run_step, run_steps, steps_loop, one_step, after_step, skip_step, enter_step, start_step,
}

-- Every result of an action, whatever the state it starts from.
pub record Returns {S A : Type 0} (Q : A → Type 0) (m : Run S A) : Type 0 where
  pub at : (s : S) → Q (m s).0

module _ {S A : Type 0} {Q : A → Type 0} where
  pub Returns-pure : (a : A) → Q a → Returns {S = S} Q (pure a)
  unfolding pure
  Returns-pure a q = record { at = λ s. q }

  pub Returns-if :
      (b : Bool) (m n : Run S A)
      → (b ≡ true → Returns Q m)
      → (b ≡ false → Returns Q n)
      → Returns Q (if b then m else n)
  Returns-if true m n rm rn = rm refl
  Returns-if false m n rm rn = rn refl

  pub Returns-bind :
      {B : Type 0} (m : Run S B) (f : B → Run S A)
      → ((b : B) → Returns Q (f b))
      → Returns Q (m >>= f)
  unfolding ◌>>=◌
  Returns-bind m f rf = record { at = λ s. (rf (m s).0).at (m s).1 }

-- Interrupted: cancelled, or past the deadline.
abbrev pub IsInterrupted : Outcome → Type 0
IsInterrupted o =
    ((o.status ≡ codes "cancelled") × (o.reason ≡ codes "cancelled"))
    ⊎ ((o.status ≡ codes "failed") × (o.reason ≡ codes "timeout"))

-- The outcome of a run in which the first failure has the reason `r`.
abbrev pub FailedBy : Bytes → Outcome → Type 0
FailedBy r o = ((o.status ≡ codes "failed") × (o.reason ≡ r)) ⊎ IsInterrupted o

pub context_outcome-IsInterrupted : (e : Option ContextError) → IsInterrupted (context_outcome e)
unfolding context_outcome
context_outcome-IsInterrupted none = inl (refl, refl)
context_outcome-IsInterrupted (some deadline_exceeded) = inr (refl, refl)
context_outcome-IsInterrupted (some context_canceled) = inl (refl, refl)

module _ {env : Env} {Q : Outcome → Type 0}
    (interrupted : (o : Outcome) → IsInterrupted o → Q o) where
  pub after_step-Returns :
      (next : Bool → Bytes → Run (State env) Outcome) (failed : Bool) (reason step_reason : Bytes)
      → (is_empty step_reason ≡ true → Returns Q (next failed reason))
      → (is_empty step_reason ≡ false
          → Returns Q (next true (if is_empty reason then step_reason else reason)))
      → Returns Q (after_step next failed reason step_reason)
  unfolding after_step
  after_step-Returns next failed reason step_reason good bad =
      Returns-if (bytes_eq step_reason (codes "cancelled")) _ _
        (λ e. Returns-pure _ (interrupted _ (inl (refl, bytes_eq_sound _ _ e))))
        (λ _.
          Returns-if (bytes_eq step_reason (codes "timeout")) _ _
            (λ e. Returns-pure _ (interrupted _ (inr (refl, bytes_eq_sound _ _ e))))
            (λ _. Returns-if (is_empty step_reason) _ _ good bad))

  one_step-Returns :
      (run : ℕ → JobStep → Bytes → Run (State env) Bytes) (offer : Offer)
      (next : Bool → Bytes → ℕ → Run (State env) Outcome) (step : JobStep) (failed : Bool)
      (reason : Bytes) (position : ℕ)
      → ((n : ℕ) → Returns Q (next failed reason n))
      → ((n : ℕ) (r : Bytes)
          → is_empty r ≡ false
          → Returns Q (next true (if is_empty reason then r else reason) n))
      → Returns Q (one_step run offer next step failed reason position)
  unfolding one_step skip_step enter_step start_step
  one_step-Returns run offer next step failed reason position good bad =
      Returns-if (bytes_eq step.kind (codes "builtin") && bytes_eq step.value (codes "checkout")) _
        _ (λ _. good position)
        (λ _.
          Returns-if (not (condition_matches condition failed)) _ _
            (λ _. Returns-bind _ _ (λ sent. good (position + 1))) (λ _. Returns-bind _ _ started))
    where
      condition : Bytes
      condition = if is_empty step.condition then codes "success" else step.condition

      started :
          (e : Option ContextError)
          → Returns Q (
              start_step run
                (λ f r. next f r (position + 1))
                step
                condition
                (position + 1)
                failed
                reason
                e)
      started (some e) =
          Returns-bind _ _ (λ e'. Returns-pure _ (interrupted _ (context_outcome-IsInterrupted e')))
      started none = Returns-bind _ _ (λ r.
          after_step-Returns (λ f r'. next f r' (position + 1)) failed reason r
            (λ _. good (position + 1)) (bad (position + 1) r))

pub ne_empty : (r : Bytes) → r ≢ [] → is_empty r ≡ false
ne_empty [] h = absurd (h refl)
ne_empty (c ∷ r) h = refl

pub empty_ne : (r : Bytes) → is_empty r ≡ false → r ≢ []
empty_ne [] h = absurd (false≢true (sym h))
empty_ne (c ∷ r) h = λ e. cc

module _ {env : Env} (run : ℕ → JobStep → Bytes → Run (State env) Bytes) (offer : Offer) where
  failed-Returns :
      (steps : List JobStep) (reason : Bytes) (position : ℕ)
      → reason ≢ []
      → Returns (FailedBy reason) (steps_loop run offer steps true reason position)
  unfolding steps_loop
  failed-Returns [] reason position full = Returns-pure _ (inl (refl, refl))
  failed-Returns (step ∷ steps) reason position full =
      one_step-Returns (λ o i. inr i) run offer (steps_loop run offer steps) step true reason
        position (λ n. failed-Returns steps reason n full)
        (λ n r _.
          let same : reason ≡ (if is_empty reason then r else reason) = rw (ne_empty reason full) in
          subst (λ x. Returns (FailedBy reason) (steps_loop run offer steps true x n)) same
            (failed-Returns steps reason n full))

  -- Once a step has failed with a reason, the later steps, whatever they do, end in a failure with
  -- that reason, or in an interruption: cancelled, or failed with the reason "timeout".
  pub steps_after_failure :
      (steps : List JobStep) (reason : Bytes) (position : ℕ) (s : State env)
      → reason ≢ []
      → FailedBy reason (steps_loop run offer steps true reason position s).0
  steps_after_failure steps reason position s full =
      (failed-Returns steps reason position full).at s

-- Success has no reason; a failure has one; a cancellation names itself.
abbrev pub IsFinal : Outcome → Type 0
IsFinal o =
    ((o.status ≡ codes "succeeded") × (o.reason ≡ []))
    ⊎ ((o.status ≡ codes "failed") × (o.reason ≢ []))
    ⊎ ((o.status ≡ codes "cancelled") × (o.reason ≡ codes "cancelled"))

pub IsInterrupted-IsFinal : (o : Outcome) → IsInterrupted o → IsFinal o
IsInterrupted-IsFinal o (inl c) = inr (inr c)
IsInterrupted-IsFinal o (inr (f, r)) = inr (inl (f, λ e. cc))

FailedBy-IsFinal : (o : Outcome) (r : Bytes) → r ≢ [] → FailedBy r o → IsFinal o
FailedBy-IsFinal o r full (inl (f, e)) = inr (inl (f, λ e'. full (sym e ∙ e')))
FailedBy-IsFinal o r full (inr i) = IsInterrupted-IsFinal o i

module _ {env : Env} (run : ℕ → JobStep → Bytes → Run (State env) Bytes) (offer : Offer) where
  loop-IsFinal :
      (steps : List JobStep) (position : ℕ)
      → Returns IsFinal (steps_loop run offer steps false [] position)
  unfolding steps_loop
  loop-IsFinal [] position = Returns-pure _ (inl (refl, refl))
  loop-IsFinal (step ∷ steps) position =
      one_step-Returns IsInterrupted-IsFinal run offer (steps_loop run offer steps) step false []
        position (λ n. loop-IsFinal steps n)
        (λ n r full. record {
          at = λ s.
              FailedBy-IsFinal _ r (empty_ne r full)
                ((failed-Returns run offer steps r n (empty_ne r full)).at s);
        })

-- The steps of a job end either succeeded with no reason, or failed with a reason, or cancelled with
-- the reason "cancelled".
pub run_steps-IsFinal :
    {env : Env} (builtin : JobStep → Run (State env) (Option Bytes)) (offer : Offer)
    (workspace : Bytes) (secrets : Variables) (s : State env)
    → IsFinal (run_steps builtin offer workspace secrets s).0
unfolding run_steps
run_steps-IsFinal builtin offer workspace secrets s =
    (loop-IsFinal
        (λ position step condition.
          run_step builtin offer workspace secrets position step condition)
        offer offer.execution.steps 0).at
      s

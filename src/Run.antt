-- ===== src/Run.antt =====
-- Code that reads and writes a state: a function from the state to a result and the next state.
-- `Preserves P m` says that `m` leads from a state with `P` to a state with `P`.
use robine_ci.Prelude.{◌≡◌, ap, Bool, true, false, if◌then◌else◌}

abbrev pub Run : Type 0 → Type 0 → Type 0
Run S A = S → A × S

module _ {S A : Type 0} where
  unfoldable pub pure : A → Run S A
  pure a s = (a, s)

module _ {S A B : Type 0} where
  infixl 10 ◌>>=◌ ◌>>◌
  unfoldable pub ◌>>=◌ : Run S A → (A → Run S B) → Run S B
  ◌>>=◌ m f s = let (a, s') = m s in f a s'

  abbrev pub ◌>>◌ : Run S A → Run S B → Run S B
  m >> n = m >>= λ _. n

  -- The rest of a block, once the result of its first action is known.
  pub bind_result :
      (m : Run S A) (f : A → Run S B) (s : S) (a : A) → (m s).0 ≡ a → (m >>= f) s ≡ f a (m s).1
  unfolding ◌>>=◌
  bind_result m f s a e = ap (λ t. f t (m s).1) e

-- Started in a state with `Good`, the action ends in one.
pub record Preserves {S R : Type 0} (Good : S → Type 0) (action : Run S R) : Type 0 where
  pub at : (before : S) → Good before → Good (action before).1

module _ {S R T : Type 0} {Good : S → Type 0} where
  pub Preserves-bind :
      (first : Run S R) (rest : R → Run S T)
      → Preserves Good first
      → ((r : R) → Preserves Good (rest r))
      → Preserves Good (first >>= rest)
  unfolding ◌>>=◌
  Preserves-bind first rest kept later = record {
    at = λ before good. (later (first before).0).at (first before).1 (kept.at before good);
  }

module _ {S R : Type 0} {Good : S → Type 0} where
  pub Preserves-pure : (result : R) → Preserves Good (pure result)
  unfolding pure
  Preserves-pure result = record { at = λ before good. good }

  pub Preserves-if :
      (test : Bool) (chosen other : Run S R)
      → Preserves Good chosen
      → Preserves Good other
      → Preserves Good (if test then chosen else other)
  Preserves-if true chosen other kept _ = kept
  Preserves-if false chosen other _ kept = kept

pub ruleset preserves_rules = (Preserves-bind, Preserves-if, Preserves-pure)

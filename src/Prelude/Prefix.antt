-- ===== src/Prelude/Prefix.antt =====
-- When one list is the front part of another.
use Prim.Native.Nat.{◌≤◌}
use mathlib.Core.Path.{◌≡◌, refl}
use mathlib.Core.List.{List, [], ◌∷◌, ◌++◌}
use native.Mathlib.Omega.{arith}
use robine_ci.Prelude.Lists.{length}

module _ {A : Type 0} where
  -- Of two fronts of one list the shorter one is a front of the longer one.
  pub shorter_front :
      (a b c d : List A)
      → a ++ b ≡ c ++ d
      → length a ≤ length c
      → (r : List A) × (c ≡ a ++ r) × (b ≡ r ++ d)
  shorter_front [] b c d e h = (c, refl, e)
  shorter_front (x ∷ a) b [] d e h = absurd (omega arith)
  shorter_front (x ∷ a) b (y ∷ c) d e h =
      let (r, p, q) = shorter_front a b c d (cc) (omega arith) in (r, cc, q)

  pub length_le_of_front : (a b c : List A) → c ≡ a ++ b → length a ≤ length c
  length_le_of_front [] b c e = omega arith
  length_le_of_front (x ∷ a) b [] e = cc
  length_le_of_front (x ∷ a) b (y ∷ c) e = omega (arith, length_le_of_front a b c (cc))

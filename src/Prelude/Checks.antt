-- ===== src/Prelude/Checks.antt =====
-- A chain of checks that each may refuse with an error: what holds where none has refused.
use mathlib.Core.Path.{◌≡◌, refl, sym}
use mathlib.Core.Bool.{Bool, true, false, not, ◌&&◌, ◌||◌, false≢true}
use mathlib.Core.Option.{Option, none, some}
use robine_ci.Prelude.Tests.{if◌then◌else◌}

pub or_false : (a b : Bool) → a || b ≡ false → (a ≡ false) × (b ≡ false)
or_false true b h = absurd (false≢true (sym h))
or_false false b h = (refl, h)

pub neither : (a b : Bool) → a ≡ false → b ≡ false → a || b ≡ false
neither true b h k = absurd (false≢true (sym h))
neither false b h k = k

pub and_true : (a b : Bool) → a && b ≡ true → (a ≡ true) × (b ≡ true)
and_true true b h = (refl, h)
and_true false b h = absurd (false≢true h)

pub denied : (b : Bool) → not b ≡ false → b ≡ true
denied true h = refl
denied false h = absurd (false≢true (sym h))

pub refused : {E : Type 0} {e : E} → some e ≡ none → ⊥
refused h = cc

pub passed :
    {E : Type 0} (b : Bool) (e : E) (later : Option E)
    → (if b then some e else later) ≡ none
    → (b ≡ false) × (later ≡ none)
passed true e later h = absurd (refused h)
passed false e later h = (refl, h)

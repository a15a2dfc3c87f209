-- ===== src/Redactor/Masks.antt =====
-- What it is for an output to be a text with its secrets hidden, with no mention of chunks, buffers
-- or an order of the secrets, and that the loop over a whole text writes such an output.
use robine_ci.Prelude.{
  ℕ, zero, suc, ◌≤◌, ◌≡◌, ◌≢◌, refl, sym, ap, ◌∙◌, true, some, List, [], ◌∷◌, ◌++◌, inl, inr, arith,
  length, drop, In, Bool-cases, Option-cases,
}
use mathlib.Core.Bool.{false≢true}
use robine_ci.Prelude.Bytes.{Bytes}
use robine_ci.Redactor.{marker, match_secret, begins_with, round, rounds}
use robine_ci.Redactor.Rounds.{match_secret-none, begins_with_front, begins_with_sound}
use robine_ci.Redactor.Loop.{NoneEmpty, round-shrinks, rounds_acc}

-- Reading from the left: where a secret stands, the longest one that stands there is replaced by the
-- marker; where none stands, the byte is kept.
pub data Masks (secrets : List Bytes) : Bytes → Bytes → Type 0 where
  end : Masks secrets [] []
  hidden :
      {text rest out written : Bytes} (s : Bytes)
      → In s secrets
      → text ≡ s ++ rest
      → ((t r : Bytes) → In t secrets → text ≡ t ++ r → length t ≤ length s)
      → written ≡ marker ++ out
      → Masks secrets rest out
      → Masks secrets text written
  shown :
      {c : ℕ} {rest out : Bytes}
      → ((t r : Bytes) → In t secrets → c ∷ rest ≢ t ++ r)
      → Masks secrets rest out
      → Masks secrets (c ∷ rest) (c ∷ out)

-- The order that the loop needs: no secret is longer than one in front of it.
abbrev pub FallingFrom : ℕ → List Bytes → Type 0
FallingFrom n [] = Unit
FallingFrom n (s ∷ ss) = (length s ≤ n) × FallingFrom (length s) ss

abbrev pub Falling : List Bytes → Type 0
Falling [] = Unit
Falling (s ∷ ss) = FallingFrom (length s) ss

FallingFrom-bound :
    (n : ℕ) (ss : List Bytes) (t : Bytes) → FallingFrom n ss → In t ss → length t ≤ n
FallingFrom-bound n [] t f m = absurd m
FallingFrom-bound n (s ∷ ss) t f (inl e) = omega (arith, ap length e)
FallingFrom-bound n (s ∷ ss) t f (inr m) = omega (arith, FallingFrom-bound (length s) ss t f.1 m)

FallingFrom-Falling : (n : ℕ) (ss : List Bytes) → FallingFrom n ss → Falling ss
FallingFrom-Falling n [] f = tt
FallingFrom-Falling n (s ∷ ss) f = f.1

-- In such an order the first match is a longest one.
pub match_secret_longest :
    (ss : List Bytes) (p rest : Bytes)
    → Falling ss
    → match_secret ss p ≡ some rest
    → (s : Bytes) × In s ss
      × (p ≡ s ++ rest)
      × ((t r : Bytes) → In t ss → p ≡ t ++ r → length t ≤ length s)
unfolding match_secret
match_secret_longest [] p rest f h = cc
match_secret_longest (s ∷ ss) p rest f h = elim (Bool-cases (begins_with p s)) [
  | inl hit ↦
      let same : drop (length s) p ≡ rest = ground (arith, h, hit) in
      (
        s,
        inl refl,
        begins_with_sound p s hit ∙ ap (λ t. s ++ t) same,
        λ t r m e. elim m [
          | inl e' ↦ omega (arith, ap length e')
          | inr m' ↦ FallingFrom-bound (length s) ss t f m'
        ],
      )
  | inr miss ↦
      let (u, m, e, longest) =
        match_secret_longest ss p rest (FallingFrom-Falling (length s) ss f)
          (rw (miss, match_secret) at h) in
      (
        u,
        inr m,
        e,
        λ t r m' e'. elim m' [
          | inl same ↦ absurd (false≢true (sym miss ∙ begins_with_front p s r (rw same at e')))
          | inr later ↦ longest t r later e'
        ],
      )
]

-- One round of a final pass, as a step of `Masks`.
round-Masks :
    (ss : List Bytes) (c : ℕ) (p : Bytes)
    → NoneEmpty ss
    → Falling ss
    → (w rest : Bytes) × (round true ss c p ≡ some (w, rest))
      × (length rest ≤ length p)
      × ((out : Bytes) → Masks ss rest out → Masks ss (c ∷ p) (w ++ out))
round-Masks ss c p full sorted = elim (Option-cases (match_secret ss (c ∷ p))) [
  | inl e ↦ (
    c ∷ [],
    p,
    unfold round in rw (e, round),
    omega arith,
    λ out m.
        shown
          (λ t r at front.
            false≢true
              (sym (match_secret-none ss (c ∷ p) t e at) ∙ begins_with_front (c ∷ p) t r front))
          m,
  )
  | inr (rest, e) ↦
      let hit : round true ss c p ≡ some (marker, rest) = unfold round in rw (e, round) in
      let (s, at, split, longest) = match_secret_longest ss (c ∷ p) rest sorted e in
      (
        marker,
        rest,
        hit,
        round-shrinks true ss c p marker rest full hit,
        λ out m. hidden s at split longest refl m,
      )
]

pub rounds-Masks :
    (f : ℕ) (ss : List Bytes) (p : Bytes)
    → NoneEmpty ss
    → Falling ss
    → length p ≤ f
    → Masks ss p (rounds f true ss p []).0 × ((rounds f true ss p []).1 ≡ [])
unfolding rounds
rounds-Masks zero ss [] full sorted h = (end, refl)
rounds-Masks zero ss (c ∷ p) full sorted h = absurd (omega arith)
rounds-Masks (suc f) ss [] full sorted h = (end, refl)
rounds-Masks (suc f) ss (c ∷ p) full sorted h =
    let (w, rest, e, shorter, more) = round-Masks ss c p full sorted in
    let ih = rounds-Masks f ss rest full sorted (omega arith) in
    rw (e, rounds)
      (
        rw (rounds_acc f true ss rest w) (more (rounds f true ss rest []).0 ih.0),
        rw (rounds_acc f true ss rest w) ih.1,
      )

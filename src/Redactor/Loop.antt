-- ===== src/Redactor/Loop.antt =====
-- The redactor's loop: its fuel suffices, and it may be stopped and taken up with more bytes.
use robine_ci.Prelude.{
  ℕ, zero, suc, ◌≤◌, ◌<◌, ◌≡◌, ◌≢◌, refl, sym, ap, ◌∙◌, Bool, true, false, Option, none, some, List,
  [], ◌∷◌, ◌++◌, inl, inr, arith, length, length-append, In, Bool-cases, Option-cases, append_assoc,
  append-nil,
}
use robine_ci.Prelude.Bytes.{Bytes}
use robine_ci.Redactor.{marker, match_secret, incomplete_secret_prefix, round, rounds}
use robine_ci.Redactor.Rounds.{
  PrefixFree, match_secret_sound, match_secret-append_some, match_secret-append_none,
}

abbrev pub NoneEmpty : List Bytes → Type 0
NoneEmpty secrets = (s : Bytes) → In s secrets → s ≢ []

nonempty_pos : (s : Bytes) → s ≢ [] → 0 < length s
nonempty_pos [] h = absurd (h refl)
nonempty_pos (c ∷ s) h = omega arith

-- The cases of a round.
pub data Round (final : Bool) (ss : List Bytes) (c : ℕ) (p : Bytes)
    : Option (Bytes × Bytes) → Type 0 where
  hides :
      (rest : Bytes)
      → match_secret ss (c ∷ p) ≡ some rest
      → Round final ss c p (some (marker, rest))
  shows :
      match_secret ss (c ∷ p) ≡ none
      → (final ≡ false → incomplete_secret_prefix ss (c ∷ p) ≡ false)
      → Round final ss c p (some (c ∷ [], p))
  waits :
      match_secret ss (c ∷ p) ≡ none
      → final ≡ false
      → incomplete_secret_prefix ss (c ∷ p) ≡ true
      → Round final ss c p none

Round-unmatched :
    (final : Bool) (ss : List Bytes) (c : ℕ) (p : Bytes)
    → match_secret ss (c ∷ p) ≡ none
    → Round final ss c p (round final ss c p)
unfolding round
Round-unmatched true ss c p e = rw (e, round) (shows e (λ h. cc))
Round-unmatched false ss c p e = elim (Bool-cases (incomplete_secret_prefix ss (c ∷ p))) [
  | inl more ↦ rw (e, more, round) (waits e refl more)
  | inr done ↦ rw (e, done, round) (shows e (λ _. done))
]

pub Round-round :
    (final : Bool) (ss : List Bytes) (c : ℕ) (p : Bytes) → Round final ss c p (round final ss c p)
Round-round final ss c p = elim (Option-cases (match_secret ss (c ∷ p))) [
  | inl e ↦ Round-unmatched final ss c p e
  | inr (rest, e) ↦ unfold round in rw (e, round) (hides rest e)
]

-- A round that goes on leaves fewer bytes.
Round-shrinks :
    {final : Bool} {ss : List Bytes} {c : ℕ} {p : Bytes} {o : Option (Bytes × Bytes)}
    (w rest : Bytes)
    → NoneEmpty ss
    → Round final ss c p o
    → o ≡ some (w, rest)
    → length rest ≤ length p
Round-shrinks {ss} {c} {p} w rest full (hides r m) e =
    let (s, at, split) = match_secret_sound ss (c ∷ p) r m in
    let same : r ≡ rest = cc in
    rw (← same) (omega (arith, nonempty_pos s (full s at), ap length split, length-append s r))
Round-shrinks {p} w rest full (shows m n) e =
    let same : p ≡ rest = cc in omega (arith, ap length same)
Round-shrinks w rest full (waits m f n) e = cc

pub round-shrinks :
    (final : Bool) (ss : List Bytes) (c : ℕ) (p w rest : Bytes)
    → NoneEmpty ss
    → round final ss c p ≡ some (w, rest)
    → length rest ≤ length p
round-shrinks final ss c p w rest full h = Round-shrinks w rest full (Round-round final ss c p) h

pub rounds_acc :
    (f : ℕ) (final : Bool) (ss : List Bytes) (p out : Bytes)
    → rounds f final ss p out ≡ (out ++ (rounds f final ss p []).0, (rounds f final ss p []).1)
unfolding rounds
rounds_acc zero final ss p out = rw append-nil
rounds_acc (suc f) final ss [] out = rw append-nil
rounds_acc (suc f) final ss (c ∷ p) out = elim (Option-cases (round final ss c p)) [
  | inl e ↦ rw (e, rounds) (rw append-nil)
  | inr ((w, rest), e) ↦
      rw (e, rounds)
        (rounds_acc f final ss rest (out ++ w)
          ∙ ap (λ t. (t, (rounds f final ss rest []).1)) (append_assoc out w _)
          ∙ ap (λ t. (out ++ t.0, t.1)) (sym (rounds_acc f final ss rest w)))
]

-- More fuel than pending bytes changes nothing.
pub rounds_fuel :
    (f g : ℕ) (final : Bool) (ss : List Bytes) (p out : Bytes)
    → NoneEmpty ss
    → length p ≤ f
    → length p ≤ g
    → rounds f final ss p out ≡ rounds g final ss p out
unfolding rounds
rounds_fuel zero zero final ss p out full h k = refl
rounds_fuel zero (suc g) final ss [] out full h k = refl
rounds_fuel zero (suc g) final ss (c ∷ p) out full h k = absurd (omega arith)
rounds_fuel (suc f) zero final ss [] out full h k = refl
rounds_fuel (suc f) zero final ss (c ∷ p) out full h k = absurd (omega arith)
rounds_fuel (suc f) (suc g) final ss [] out full h k = refl
rounds_fuel (suc f) (suc g) final ss (c ∷ p) out full h k =
    elim (Option-cases (round final ss c p)) [
      | inl e ↦ rw (e, rounds)
      | inr ((w, rest), e) ↦
          let shorter = round-shrinks final ss c p w rest full e in
          rw (e, rounds) (rounds_fuel f g final ss rest (out ++ w) full (omega arith) (omega arith))
    ]

-- What the redactor writes of a whole text.
abbrev pub redacted : List Bytes → Bytes → Bytes
redacted ss p = (rounds (length p) true ss p []).0

pub redacted-cons :
    (ss : List Bytes) (c : ℕ) (p w rest : Bytes)
    → round true ss c p ≡ some (w, rest)
    → redacted ss (c ∷ p) ≡ (rounds (length p) true ss rest w).0
unfolding rounds
redacted-cons ss c p w rest e = rw (e, redacted, rounds)

-- The rounds of a `Push` are rounds that a `Finish` would make with `x` behind the bytes.
abbrev pub Extends : List Bytes → Bytes → Type 0
Extends ss x =
    (c : ℕ) (p w rest : Bytes)
    → round false ss c p ≡ some (w, rest)
    → round true ss c (p ++ x) ≡ some (w, rest ++ x)

-- To take up what a `Push` left, with `x` behind it, gives what the whole text gives.
pub redacted-resume :
    (f : ℕ) (ss : List Bytes) (p x : Bytes)
    → NoneEmpty ss
    → Extends ss x
    → length p ≤ f
    → redacted ss (p ++ x)
      ≡ (rounds f false ss p []).0 ++ redacted ss ((rounds f false ss p []).1 ++ x)
unfolding rounds
redacted-resume zero ss p x full ext h = refl
redacted-resume (suc f) ss [] x full ext h = refl
redacted-resume (suc f) ss (c ∷ p) x full ext h = elim (Option-cases (round false ss c p)) [
  | inl e ↦ rw (e, rounds)
  | inr ((w, rest), e) ↦
      let shorter = round-shrinks false ss c p w rest full e in
      let ih = redacted-resume f ss rest x full ext (omega arith) in
      let longer =
        rounds_fuel (length (p ++ x)) (length (rest ++ x)) true ss (rest ++ x) [] full
          (omega (arith, length-append p x, length-append rest x)) (omega arith) in
      rw (e, rounds)
        (redacted-cons ss c (p ++ x) w (rest ++ x) (ext c p w rest e)
          ∙ ap (λ t. t.0) (rounds_acc (length (p ++ x)) true ss (rest ++ x) w)
          ∙ ap (λ t. w ++ t.0) longer
          ∙ ap (λ t. w ++ t) ih
          ∙ sym (append_assoc w _ _)
          ∙ sym (ap (λ t. t.0 ++ redacted ss (t.1 ++ x)) (rounds_acc f false ss rest w)))
]

Round-extends :
    {ss : List Bytes} {c : ℕ} {p : Bytes} {o : Option (Bytes × Bytes)} (w rest x : Bytes)
    → PrefixFree ss
    → Round false ss c p o
    → o ≡ some (w, rest)
    → round true ss c (p ++ x) ≡ some (w, rest ++ x)
unfolding round
Round-extends {ss} {c} {p} w rest x free (hides r m) e =
    rw (match_secret-append_some ss (c ∷ p) r x free m, round) (cc)
Round-extends {ss} {c} {p} w rest x free (shows m n) e =
    rw (match_secret-append_none ss (c ∷ p) x m (n refl), round) (cc)
Round-extends w rest x free (waits m f n) e = cc

pub Extends-of_free : (ss : List Bytes) (x : Bytes) → PrefixFree ss → Extends ss x
Extends-of_free ss x free c p w rest h = Round-extends w rest x free (Round-round false ss c p) h

Round-final :
    {ss : List Bytes} {c : ℕ} {p : Bytes} {o : Option (Bytes × Bytes)} (w rest : Bytes)
    → Round false ss c p o
    → o ≡ some (w, rest)
    → round true ss c p ≡ some (w, rest)
unfolding round
Round-final w rest (hides r m) e = rw (m, round) (cc)
Round-final w rest (shows m n) e = rw (m, round) (cc)
Round-final w rest (waits m f n) e = cc

-- With nothing behind the bytes no condition on the secrets is needed.
pub Extends-nil : (ss : List Bytes) → Extends ss []
Extends-nil ss c p w rest h =
    rw (append-nil, append-nil) (Round-final w rest (Round-round false ss c p) h)

-- ===== src/Strings/Decimal.antt =====
-- Decimal numbers are read as they were printed.
use robine_ci.Prelude.{
  ℕ, zero, suc, ◌+◌, ◌-◌, ◌*◌, ◌/◌, ◌%◌, ◌^◌, ◌≤◌, ◌<◌, ◌≡◌, sym, ap, ◌∙◌, some, [], ◌∷◌, ◌++◌,
  arith, ltb, inl, inr, Bool-cases,
}
use robine_ci.Prelude.Bytes.{Bytes}
use robine_ci.Prelude.Int.{pos}
use robine_ci.Strings.{digits, print_nat, is_digit, read_digits, read_nat, parse_int}

-- Behind a text that is read to a number, one digit more.
read_digits-snoc :
    (s : Bytes) (n m d : ℕ)
    → d < 10
    → read_digits n s ≡ some m
    → read_digits n (s ++ (48 + d) ∷ []) ≡ some (m * 10 + d)
unfolding read_digits is_digit
read_digits-snoc [] n m d h e = let e' : n ≡ m = cc in ground (arith, e')
read_digits-snoc (c ∷ s) n m d h e = ground (arith, read_digits-snoc s (n * 10 + (c - 48)) m d h)

read_digits-digits : (f n : ℕ) → n < f → read_digits 0 (digits f n) ≡ some n
unfolding digits
read_digits-digits zero n h = absurd (omega arith)
read_digits-digits (suc f) n h = elim (Bool-cases (ltb n 10)) [
  | inl e ↦ rw e (unfold read_digits in ground arith)
  | inr e ↦
      let ih = read_digits-digits f (n / 10) (ground (arith, e)) in
      let back : n / 10 * 10 + n % 10 ≡ n = omega arith in
      rw e
        (read_digits-snoc (digits f (n / 10)) 0 (n / 10) (n % 10) (omega arith) ih ∙ ap some back)
]

-- The first byte of a printed number.
digits-first :
    (f n : ℕ) → n < f → (c : ℕ) × (s : Bytes) × (digits f n ≡ c ∷ s) × (48 ≤ c) × (c ≤ 57)
unfolding digits
digits-first zero n h = absurd (omega arith)
digits-first (suc f) n h = elim (Bool-cases (ltb n 10)) [
  | inl e ↦ (48 + n, [], rw e, omega arith, ground (arith, e))
  | inr e ↦
      let (c, s, same, low, high) = digits-first f (n / 10) (ground (arith, e)) in
      (c, s ++ (48 + n % 10) ∷ [], rw e (ap (λ t. t ++ (48 + n % 10) ∷ []) same), low, high)
]

pub print_nat-first : (n : ℕ) → (c : ℕ) × (s : Bytes) × (print_nat n ≡ c ∷ s) × (48 ≤ c) × (c ≤ 57)
unfolding print_nat
print_nat-first n = digits-first (suc n) n (omega arith)

pub read_nat-print_nat : (n : ℕ) → read_nat (print_nat n) ≡ some n
unfolding read_nat
read_nat-print_nat n =
    let (c, s, same, _, _) = print_nat-first n in
    ap read_nat same
    ∙ ap (read_digits 0) (sym same)
    ∙ (unfold print_nat in read_digits-digits (suc n) n (omega arith))

pub parse_int-print_nat : (n : ℕ) → n < 2 ^ 63 → parse_int (print_nat n) ≡ some (pos n)
unfolding parse_int
parse_int-print_nat n h =
    let (c, s, same, low, high) = print_nat-first n in
    let read : read_nat (c ∷ s) ≡ some n = ap read_nat (sym same) ∙ read_nat-print_nat n in
    ap parse_int same ∙ ground (arith, read)

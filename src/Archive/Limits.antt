-- ===== src/Archive/Limits.antt =====
-- The limit on the expanded size that extractArchive of archive.go keeps count of. An int64 is its
-- pattern of 64 bits; the patterns from 2 ^ 63 on are the negative numbers.
use mathlib.Core.Path.{subst}
use robine_ci.Prelude.{
  true, ℕ, ◌+◌, ◌*◌, ◌%◌, ◌^◌, ◌≤◌, ◌<◌, ◌≡◌, sym, Bool, ◌||◌, ◌&&◌, Option, none, some, List, [],
  ◌∷◌, ◌⊎◌, All, arith, inl, inr, Bool-cases, Option-cases, if◌then◌else◌, ltb, leb,
}

abbrev pub max_expanded_bytes : ℕ
max_expanded_bytes = 1_000_000_000

unfoldable pub is_negative : ℕ → Bool
is_negative word = leb (2 ^ 63) word

-- `a > b` of signed numbers
unfoldable pub is_greater : ℕ → ℕ → Bool
unfolding is_negative
is_greater a b = if is_negative a then is_negative b && ltb b a else is_negative b || ltb b a

-- The new count for a regular file of that size, if it is within the limits; `body` is the length of
-- the compressed archive.
unfoldable pub charge : ℕ → ℕ → ℕ → Option ℕ
unfolding is_greater is_negative
charge body expanded size =
    let total = (expanded + size) % 2 ^ 64 in
    if is_negative size
      || is_greater total max_expanded_bytes
      || (ltb 0 body && is_greater total (body * 100 % 2 ^ 64))
    then none
    else some total

-- The count over the files of an archive.
unfoldable pub charge_all : ℕ → ℕ → List ℕ → Option ℕ
charge_all body expanded [] = some expanded
charge_all body expanded (size ∷ sizes) = elim (charge body expanded size) [
  | none ↦ none
  | some total ↦ charge_all body total sizes
]

abbrev pub total_of : List ℕ → ℕ
total_of [] = 0
total_of (size ∷ sizes) = size + total_of sizes

some_ne_none : {a : ℕ} → some a ≡ none → ⊥
some_ne_none e = cc

abbrev Within : ℕ → ℕ → Type 0
Within body total = (total ≤ max_expanded_bytes) × ((body ≡ 0) ⊎ (total ≤ body * 100))

charge_sound :
    (body expanded size total : ℕ)
    → expanded ≤ max_expanded_bytes
    → size < 2 ^ 62
    → body * 100 < 2 ^ 63
    → charge body expanded size ≡ some total
    → (total ≡ expanded + size) × Within body total
unfolding charge is_greater is_negative
charge_sound body expanded size total small sized short e = (
  ground arith,
  (
    ground arith,
    elim (Bool-cases (ltb 0 body)) [ inl h ↦ inr (ground arith) | inr h ↦ inl (ground arith) ],
  ),
)

charge_all_sound :
    (body expanded total : ℕ) (sizes : List ℕ)
    → Within body expanded
    → body * 100 < 2 ^ 63
    → All (λ size. size < 2 ^ 62) sizes
    → charge_all body expanded sizes ≡ some total
    → (total ≡ expanded + total_of sizes) × Within body total
unfolding charge_all
charge_all_sound body expanded total [] within short sized e =
    let e' : expanded ≡ total = cc in (omega (arith, e'), subst (Within body) e' within)
charge_all_sound body expanded total (size ∷ sizes) within short sized e =
    elim (Option-cases (charge body expanded size)) [
      | inl refused ↦
          let e' : none ≡ some total = rw (refused, charge_all) at e in
          absurd (some_ne_none (sym e'))
      | inr (next, taken) ↦
          let (sum, fits) = charge_sound body expanded size next within.0 sized.0 short taken in
          let (rest, ends) =
            charge_all_sound body next total sizes fits short sized.1
              (rw (taken, charge_all) at e) in
          (omega (arith, sum, rest), ends)
    ]

-- If no file of an archive claims 2 ^ 62 bytes or more, and the compressed archive has less than
-- 2 ^ 63 / 100 bytes, then an archive whose files all pass the limit has at most a billion bytes in
-- its files, and at most a hundred times its compressed length unless that is zero; the count is
-- their sum.
pub charge_all_bounds :
    (body total : ℕ) (sizes : List ℕ)
    → body * 100 < 2 ^ 63
    → All (λ size. size < 2 ^ 62) sizes
    → charge_all body 0 sizes ≡ some total
    → (total ≡ total_of sizes) × (total ≤ max_expanded_bytes) × ((body ≡ 0) ⊎ (total ≤ body * 100))
charge_all_bounds body total sizes short sized e =
    let (sum, fits) =
      charge_all_sound body 0 total sizes (omega arith, inr (omega arith)) short sized e in
    (omega (arith, sum), fits.0, fits.1)

-- Where a count within the limit and the size of a file, which is not negative, add up to 2 ^ 63 or
-- more, and the compressed archive has less than 2 ^ 63 / 100 bytes, the file passes the limit, and
-- the count after it is a negative number.
pub charge_overflow :
    (body expanded size : ℕ)
    → expanded ≤ max_expanded_bytes
    → size < 2 ^ 63
    → 2 ^ 63 ≤ expanded + size
    → body * 100 < 2 ^ 63
    → (charge body expanded size ≡ some (expanded + size)) × (is_negative (expanded + size) ≡ true)
unfolding charge is_greater is_negative
charge_overflow body expanded size small sized over short = (ground arith, ground arith)

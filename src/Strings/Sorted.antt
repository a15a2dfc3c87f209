-- ===== src/Strings/Sorted.antt =====
-- sort.Strings sorts, and keeps each item.
use robine_ci.Prelude.{◌≡◌, refl, true, false, List, [], ◌∷◌, arith, inl, inr, Bool-cases}
use robine_ci.Prelude.Bytes.{Bytes}
use robine_ci.Strings.{bytes_le, insert_sorted, sort_strings}

abbrev pub IsSorted : List Bytes → Type 0
IsSorted [] = Unit
IsSorted (s ∷ []) = Unit
IsSorted (s ∷ t ∷ ss) = (bytes_le s t ≡ true) × IsSorted (t ∷ ss)

bytes_le-total : (s t : Bytes) → bytes_le s t ≡ false → bytes_le t s ≡ true
unfolding bytes_le
bytes_le-total [] t h = cc
bytes_le-total (b ∷ s) [] h = refl
bytes_le-total (b ∷ s) (c ∷ t) h = ground (arith, bytes_le-total s t)

insert_sorted-IsSorted : (v : Bytes) (ss : List Bytes) → IsSorted ss → IsSorted (insert_sorted v ss)
unfolding insert_sorted
insert_sorted-IsSorted v [] h = tt
insert_sorted-IsSorted v (s ∷ []) h = elim (Bool-cases (bytes_le v s)) [
  | inl e ↦ rw e (e, tt)
  | inr e ↦ rw e (bytes_le-total v s e, tt)
]
insert_sorted-IsSorted v (s ∷ t ∷ ss) h = elim (Bool-cases (bytes_le v s)) [
  | inl e ↦ rw e (e, h)
  | inr e ↦ elim (Bool-cases (bytes_le v t)) [
    | inl e' ↦ rw (e, e') (bytes_le-total v s e, (e', h.1))
    | inr e' ↦ let ih = rw e' at (insert_sorted-IsSorted v (t ∷ ss) h.1) in rw (e, e') (h.0, ih)
  ]
]

pub sort_strings-IsSorted : (ss : List Bytes) → IsSorted (sort_strings ss)
unfolding sort_strings
sort_strings-IsSorted [] = tt
sort_strings-IsSorted (s ∷ ss) =
    insert_sorted-IsSorted s (sort_strings ss) (sort_strings-IsSorted ss)

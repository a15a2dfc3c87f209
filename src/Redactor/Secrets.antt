-- ===== src/Redactor/Secrets.antt =====
-- Which secrets a new redactor holds, and in which order.
use robine_ci.Prelude.{
  ℕ, ◌≤◌, ◌≡◌, refl, true, List, [], ◌∷◌, if◌then◌else◌, ◌++◌, ◌⊎◌, inl, inr, arith, length, In,
  In-append_left, In-append_right, In-append_cases, Bool-cases, ltb,
}
use robine_ci.Prelude.Bytes.{Bytes, bytes_eq, bytes_eq_sound}
use robine_ci.Redactor.{new_redactor, insert_by_length, sort_by_length, seen_before, gather}
use robine_ci.Redactor.Loop.{NoneEmpty}
use robine_ci.Redactor.Masks.{Falling, FallingFrom}

-- The secret values of a job: the ones that are not empty.
abbrev pub secret_values : List (Bytes × Bytes) → List Bytes
secret_values [] = []
secret_values ((_, []) ∷ values) = secret_values values
secret_values ((_, c ∷ v) ∷ values) = (c ∷ v) ∷ secret_values values

seen_before-In : (v : Bytes) (ss : List Bytes) → seen_before v ss ≡ true → In v ss
unfolding seen_before
seen_before-In v [] h = cc
seen_before-In v (s ∷ ss) h = elim (Bool-cases (bytes_eq v s)) [
  | inl e ↦ inl (bytes_eq_sound v s e)
  | inr e ↦ inr (seen_before-In v ss (rw (e, seen_before) at h))
]

-- What one round of `gather` does with a value.
abbrev add : Bytes → List Bytes → List Bytes
add v acc = if seen_before v acc then acc else acc ++ v ∷ []

add-keeps : (v : Bytes) (acc : List Bytes) (s : Bytes) → In s acc → In s (add v acc)
add-keeps v acc s m = elim (Bool-cases (seen_before v acc)) [
  | inl e ↦ rw e m
  | inr e ↦ rw e (In-append_left s acc (v ∷ []) m)
]

add-adds : (v : Bytes) (acc : List Bytes) → In v (add v acc)
add-adds v acc = elim (Bool-cases (seen_before v acc)) [
  | inl e ↦ rw e (seen_before-In v acc e)
  | inr e ↦ rw e (In-append_right v acc (v ∷ []) (inl refl))
]

add-only : (v : Bytes) (acc : List Bytes) (s : Bytes) → In s (add v acc) → In s acc ⊎ (s ≡ v)
add-only v acc s m = elim (Bool-cases (seen_before v acc)) [
  | inl e ↦ inl (rw e at m)
  | inr e ↦
      let m' : In s (acc ++ v ∷ []) = rw e at m in
      elim (In-append_cases s acc (v ∷ []) m') [
        | inl old ↦ inl old
        | inr (inl new) ↦ inr new
        | inr (inr never) ↦ absurd never
      ]
]

gather-keeps :
    (values : List (Bytes × Bytes)) (acc : List Bytes) (s : Bytes)
    → In s acc
    → In s (gather values acc)
unfolding gather
gather-keeps [] acc s m = m
gather-keeps ((_, []) ∷ values) acc s m = gather-keeps values acc s m
gather-keeps ((_, c ∷ v) ∷ values) acc s m = gather-keeps values _ s (add-keeps (c ∷ v) acc s m)

gather-adds :
    (values : List (Bytes × Bytes)) (acc : List Bytes) (s : Bytes)
    → In s (secret_values values)
    → In s (gather values acc)
unfolding gather
gather-adds [] acc s m = absurd m
gather-adds ((_, []) ∷ values) acc s m = gather-adds values acc s m
gather-adds ((_, c ∷ v) ∷ values) acc s (inl e) =
    gather-keeps values _ s (rw e (add-adds (c ∷ v) acc))
gather-adds ((_, c ∷ v) ∷ values) acc s (inr m) = gather-adds values _ s m

gather-only :
    (values : List (Bytes × Bytes)) (acc : List Bytes) (s : Bytes)
    → In s (gather values acc)
    → In s acc ⊎ In s (secret_values values)
unfolding gather
gather-only [] acc s m = inl m
gather-only ((_, []) ∷ values) acc s m = gather-only values acc s m
gather-only ((_, c ∷ v) ∷ values) acc s m = elim (gather-only values (add (c ∷ v) acc) s m) [
  | inr later ↦ inr (inr later)
  | inl here ↦ elim (add-only (c ∷ v) acc s here) [ inl old ↦ inl old | inr new ↦ inr (inl new) ]
]

insert-adds :
    (v : Bytes) (ss : List Bytes) (s : Bytes) → In s (v ∷ ss) → In s (insert_by_length v ss)
unfolding insert_by_length
insert-adds v [] s m = m
insert-adds v (t ∷ ss) s m = elim (Bool-cases (ltb (length v) (length t))) [
  | inr e ↦ rw e m
  | inl e ↦ rw e (elim m [
    | inl new ↦ inr (insert-adds v ss s (inl new))
    | inr (inl head) ↦ inl head
    | inr (inr tail) ↦ inr (insert-adds v ss s (inr tail))
  ])
]

insert-only :
    (v : Bytes) (ss : List Bytes) (s : Bytes) → In s (insert_by_length v ss) → In s (v ∷ ss)
unfolding insert_by_length
insert-only v [] s m = m
insert-only v (t ∷ ss) s m = elim (Bool-cases (ltb (length v) (length t))) [
  | inr e ↦ rw e at m
  | inl e ↦
      let m' : In s (t ∷ insert_by_length v ss) = rw e at m in
      elim m' [
        | inl head ↦ inr (inl head)
        | inr tail ↦ elim (insert-only v ss s tail) [ inl new ↦ inl new | inr old ↦ inr (inr old) ]
      ]
]

sort-adds : (ss : List Bytes) (s : Bytes) → In s ss → In s (sort_by_length ss)
unfolding sort_by_length
sort-adds [] s m = m
sort-adds (v ∷ ss) s (inl e) = insert-adds v (sort_by_length ss) s (inl e)
sort-adds (v ∷ ss) s (inr m) = insert-adds v (sort_by_length ss) s (inr (sort-adds ss s m))

sort-only : (ss : List Bytes) (s : Bytes) → In s (sort_by_length ss) → In s ss
unfolding sort_by_length
sort-only [] s m = m
sort-only (v ∷ ss) s m = elim (insert-only v (sort_by_length ss) s m) [
  | inl e ↦ inl e
  | inr tail ↦ inr (sort-only ss s tail)
]

insert-FallingFrom :
    (n : ℕ) (v : Bytes) (ss : List Bytes)
    → length v ≤ n
    → FallingFrom n ss
    → FallingFrom n (insert_by_length v ss)
unfolding insert_by_length
insert-FallingFrom n v [] h f = (h, tt)
insert-FallingFrom n v (s ∷ ss) h f = elim (Bool-cases (ltb (length v) (length s))) [
  | inl e ↦ rw e (f.0, insert-FallingFrom (length s) v ss (ground arith) f.1)
  | inr e ↦ rw e (h, (ground arith, f.1))
]

insert-Falling : (v : Bytes) (ss : List Bytes) → Falling ss → Falling (insert_by_length v ss)
unfolding insert_by_length
insert-Falling v [] f = tt
insert-Falling v (s ∷ ss) f = elim (Bool-cases (ltb (length v) (length s))) [
  | inl e ↦ rw e (insert-FallingFrom (length s) v ss (ground arith) f)
  | inr e ↦ rw e (ground arith, f)
]

sort-Falling : (ss : List Bytes) → Falling (sort_by_length ss)
unfolding sort_by_length
sort-Falling [] = tt
sort-Falling (v ∷ ss) = insert-Falling v (sort_by_length ss) (sort-Falling ss)

module _ (values : List (Bytes × Bytes)) where
  pub new_redactor-adds :
      (s : Bytes) → In s (secret_values values) → In s (new_redactor values).secrets
  unfolding new_redactor
  new_redactor-adds s m = sort-adds (gather values []) s (gather-adds values [] s m)

  pub new_redactor-only :
      (s : Bytes) → In s (new_redactor values).secrets → In s (secret_values values)
  unfolding new_redactor
  new_redactor-only s m = elim (gather-only values [] s (sort-only (gather values []) s m)) [
    | inl never ↦ absurd never
    | inr at ↦ at
  ]

  pub new_redactor-Falling : Falling (new_redactor values).secrets
  unfolding new_redactor
  new_redactor-Falling = sort-Falling (gather values [])

pub secret_values-NoneEmpty : (values : List (Bytes × Bytes)) → NoneEmpty (secret_values values)
secret_values-NoneEmpty [] s m = absurd m
secret_values-NoneEmpty ((_, []) ∷ values) s m = secret_values-NoneEmpty values s m
secret_values-NoneEmpty ((_, c ∷ v) ∷ values) s (inl e) = λ none_left. cc
secret_values-NoneEmpty ((_, c ∷ v) ∷ values) s (inr m) = secret_values-NoneEmpty values s m

pub new_redactor-NoneEmpty :
    (values : List (Bytes × Bytes)) → NoneEmpty (new_redactor values).secrets
new_redactor-NoneEmpty values s m = secret_values-NoneEmpty values s (new_redactor-only values s m)

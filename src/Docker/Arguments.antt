-- ===== src/Docker/Arguments.antt =====
-- docker_executor.go: dockerEnvironmentArgs, uniqueStrings and cpuLimit.
use robine_ci.Prelude.{
  ℕ, ◌+◌, ◌/◌, ◌%◌, ◌≡◌, refl, sym, Bool, true, false, ◌||◌, none, some, List, [], ◌∷◌, ◌++◌, ltb,
  ◌==◌, if◌then◌else◌, inl, inr, In, All, Bool-cases,
}
use robine_ci.Prelude.Bytes.{Bytes, codes, bytes_eq, bytes_eq_sound, bytes_eq_refl}
use robine_ci.Prelude.Int.{ℤ, pos, negsuc}
use robine_ci.Executor.Environment.{Variables, lookup}
use robine_ci.Strings.{print_nat, sort_strings}

-- The keys of a map.
unfoldable pub keys : {A : Type 0} → List (Bytes × A) → List Bytes
keys [] = []
keys ((k, v) ∷ m) = k ∷ keys m

-- `m[key]` of a map of strings, which is empty for a key that there is not.
unfoldable pub value_at : Variables → Bytes → Bytes
unfolding lookup
value_at m key = elim (lookup key m) [ none ↦ [] | some v ↦ v ]

unfoldable pub argument_pairs : Variables → List Bytes → List Bytes
argument_pairs environment [] = []
argument_pairs environment (key ∷ rest) =
    codes "--env" ∷ (key ++ 61 ∷ value_at environment key) ∷ argument_pairs environment rest

unfoldable pub environment_args : Variables → List Bytes
unfolding keys argument_pairs
environment_args environment = argument_pairs environment (sort_strings (keys environment))

-- `_, ok := seen[value]`
unfoldable pub mem : Bytes → List Bytes → Bool
mem value [] = false
mem value (s ∷ seen) = bytes_eq s value || mem value seen

unfoldable pub unique_from : List Bytes → List Bytes → List Bytes
unfolding mem
unique_from seen [] = []
unique_from seen (value ∷ values) =
    let known = unique_from seen values in
    let fresh = value ∷ unique_from (value ∷ seen) values in if mem value seen then known else fresh

unfoldable pub unique_strings : List Bytes → List Bytes
unfolding unique_from
unique_strings values = unique_from [] values

-- "%03d"
unfoldable pub three_digits : ℕ → Bytes
three_digits n = (48 + n / 100 % 10) ∷ (48 + n / 10 % 10) ∷ (48 + n % 10) ∷ []

-- "%d" and "%03d" of a number that is not positive, by its absolute value.
negated : ℕ → Bytes
negated n = if n == 0 then codes "0" else 45 ∷ print_nat n

negated_three : ℕ → Bytes
unfolding three_digits
negated_three n =
    if n == 0
    then codes "000"
    else if ltb n 100
    then 45 ∷ (48 + n / 10 % 10) ∷ (48 + n % 10) ∷ []
    else 45 ∷ three_digits n

unfoldable pub cpu_limit : ℤ → Bytes
unfolding three_digits negated negated_three
cpu_limit (pos n) = print_nat (n / 1000) ++ codes "." ++ three_digits (n % 1000)
cpu_limit (negsuc n) = negated ((n + 1) / 1000) ++ codes "." ++ negated_three ((n + 1) % 1000)

abbrev pub IsDistinct : List Bytes → Type 0
IsDistinct [] = Unit
IsDistinct (s ∷ ss) = ¬ In s ss × IsDistinct ss

pub mem_sound : (v : Bytes) (ss : List Bytes) → mem v ss ≡ true → In v ss
unfolding mem
mem_sound v [] h = cc
mem_sound v (s ∷ ss) h = elim (Bool-cases (bytes_eq s v)) [
  | inl e ↦ inl (sym (bytes_eq_sound s v e))
  | inr e ↦ inr (mem_sound v ss (rw e at h))
]

pub mem_complete : (v : Bytes) (ss : List Bytes) → In v ss → mem v ss ≡ true
unfolding mem
mem_complete v [] h = absurd h
mem_complete v (s ∷ ss) (inl e) = rw (sym e, bytes_eq_refl v)
mem_complete v (s ∷ ss) (inr h) = elim (Bool-cases (bytes_eq s v)) [
  | inl e ↦ rw e
  | inr e ↦ rw (e, mem_complete v ss h)
]

-- What is not seen yet and only that is given, once.
unique_from_lem :
    (values seen : List Bytes)
    → IsDistinct (unique_from seen values)
      × ((v : Bytes) → In v (unique_from seen values) → In v values × (¬ In v seen))
      × ((v : Bytes) → In v values → ¬ In v seen → In v (unique_from seen values))
unfolding unique_from
unique_from_lem [] seen = (tt, λ v h. absurd h, λ v h k. h)
unique_from_lem (w ∷ values) seen = elim (Bool-cases (mem w seen)) [
  | inl e ↦
      let (distinct, sound, complete) = unique_from_lem values seen in
      rw e (
        distinct,
        λ v h. (inr (sound v h).0, (sound v h).1),
        λ v h k. elim h [
          | inl same ↦ absurd (k (rw same (mem_sound w seen e)))
          | inr there ↦ complete v there k
        ],
      )
  | inr e ↦
      let (distinct, sound, complete) = unique_from_lem values (w ∷ seen) in
      rw e (
        (λ h. (sound w h).1 (inl refl), distinct),
        λ v h. elim h [
          | inl same ↦ (inl same, λ k. cc (e, mem_complete w seen (rw (sym same) k)))
          | inr there ↦ (inr (sound v there).0, λ k. (sound v there).1 (inr k))
        ],
        λ v h k. elim h [
          | inl same ↦ inl same
          | inr there ↦ elim (Bool-cases (bytes_eq v w)) [
            | inl same ↦ inl (bytes_eq_sound v w same)
            | inr other ↦ inr (
                complete v there (λ m. elim m [
                  | inl same ↦ cc (other, bytes_eq_refl w, same)
                  | inr before ↦ k before
                ]))
          ]
        ],
      )
]

every : (xs : List Bytes) (P : Bytes → Type 0) → ((v : Bytes) → In v xs → P v) → All P xs
every [] P h = tt
every (x ∷ xs) P h = (h x (inl refl), every xs P (λ v m. h v (inr m)))

-- uniqueStrings gives each of the strings once, and none else.
pub unique_strings-IsDistinct :
    (values : List Bytes)
    → IsDistinct (unique_strings values)
      × All (λ v. In v values) (unique_strings values)
      × All (λ v. In v (unique_strings values)) values
unfolding unique_strings
unique_strings-IsDistinct values =
    let (distinct, sound, complete) = unique_from_lem values [] in
    (
      distinct,
      every (unique_from [] values) (λ v. In v values) (λ v h. (sound v h).0),
      every values (λ v. In v (unique_from [] values)) (λ v h. complete v h (λ k. k)),
    )

-- ===== src/Executor/Environment.antt =====
-- mergedEnvironment of executor.go, with jobEnvironment and cloneStrings of docker_executor.go. A map
-- that is built is a list with one entry for each key.
use robine_ci.Prelude.{
  ◌≡◌, refl, ◌∙◌, Option, none, some, List, [], ◌∷◌, arith, ◌==◌, if◌then◌else◌,
}
use robine_ci.Prelude.Bytes.{Bytes, bytes_eq, bytes_eq_iff}
use robine_ci.Offer.{Execution}

abbrev pub Variables : Type 0
Variables = List (Bytes × Bytes)

-- `values[key]`
unfoldable pub lookup : Bytes → Variables → Option Bytes
lookup key [] = none
lookup key ((k, v) ∷ m) = if bytes_eq k key then some v else lookup key m

-- `values[key] = value`
unfoldable pub insert : Bytes → Bytes → Variables → Variables
insert key value [] = (key, value) ∷ []
insert key value ((k, v) ∷ m) =
    if bytes_eq k key then (key, value) ∷ m else (k, v) ∷ insert key value m

-- `for key, value := range entries { values[key] = value }`
unfoldable pub insert_all : Variables → Variables → Variables
insert_all [] values = values
insert_all ((k, v) ∷ entries) values = insert_all entries (insert k v values)

-- strings.Cut at the first `=`
unfoldable pub cut_at_equals : Bytes → Option (Bytes × Bytes)
cut_at_equals [] = none
cut_at_equals (c ∷ s) =
    if c == b'='
    then some ([], s)
    else elim (cut_at_equals s) [ none ↦ none | some (k, v) ↦ some (c ∷ k, v) ]

insert_cut : Option (Bytes × Bytes) → Variables → Variables
insert_cut none values = values
insert_cut (some (k, v)) values = insert k v values

unfoldable pub insert_environ : List Bytes → Variables → Variables
unfolding insert_cut
insert_environ [] values = values
insert_environ (entry ∷ entries) values =
    insert_environ entries (insert_cut (cut_at_equals entry) values)

-- The variables of a job's process, as a map; the order in which they are listed is left open.
unfoldable pub merged_environment : List Bytes → Execution → Variables → Variables
merged_environment environ execution secrets =
    insert_all secrets
      (insert_all execution.build_env (insert_all execution.env (insert_environ environ [])))

-- The variables of a container.
unfoldable pub job_environment : Execution → Variables → Variables
job_environment execution secrets =
    insert_all secrets (insert_all execution.build_env (insert_all execution.env []))

lookup-insert :
    (key j value : Bytes) (m : Variables)
    → lookup j (insert key value m) ≡ (if bytes_eq key j then some value else lookup j m)
unfolding lookup insert
lookup-insert key j value [] = refl
lookup-insert key j value ((k, v) ∷ m) =
    ground
      (arith, bytes_eq_iff key j, bytes_eq_iff k key, bytes_eq_iff k j, lookup-insert key j value m)

-- The last of several entries for a key counts.
abbrev pub last_entry : Bytes → Variables → Option Bytes
last_entry key [] = none
last_entry key ((k, v) ∷ entries) = elim (last_entry key entries) [
  | some later ↦ some later
  | none ↦ if bytes_eq k key then some v else none
]

abbrev pub or_else : Option Bytes → Option Bytes → Option Bytes
or_else (some v) w = some v
or_else none w = w

lookup-insert_all :
    (entries values : Variables) (key : Bytes)
    → lookup key (insert_all entries values) ≡ or_else (last_entry key entries) (lookup key values)
unfolding insert_all
lookup-insert_all [] values key = refl
lookup-insert_all ((k, v) ∷ entries) values key =
    lookup-insert_all entries (insert k v values) key ∙ ground (arith, lookup-insert k key v values)

-- The first of a secret, a build variable, a variable of the job and what is left.
abbrev pub job_value : Execution → Variables → Bytes → Option Bytes → Option Bytes
job_value execution secrets key rest =
    or_else (last_entry key secrets)
      (or_else (last_entry key execution.build_env) (or_else (last_entry key execution.env) rest))

-- A job's process sees a secret before a build variable, that before a variable of the job, and that
-- before one of the runner; a container sees the first three in the same order.
pub environment_precedence :
    (environ : List Bytes) (execution : Execution) (secrets : Variables) (key : Bytes)
    → (lookup key (merged_environment environ execution secrets)
        ≡ job_value execution secrets key (lookup key (insert_environ environ [])))
      × (lookup key (job_environment execution secrets) ≡ job_value execution secrets key none)
unfolding merged_environment job_environment lookup
environment_precedence environ execution secrets key =
    (simp lookup-insert_all, simp lookup-insert_all)

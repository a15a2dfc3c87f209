-- ===== src/Redactor.antt =====
-- runner-go/internal/runner/redactor.go: the streaming filter that hides secret values in output.
-- A Go map is the list of its entries in the order in which `range` happens to visit them. The
-- `for len(r.pending) > 0` loop takes fuel: every round that goes on drops at least one byte, so the
-- number of pending bytes is enough (Redactor/Rounds).
pub mod Rounds
pub mod Loop
pub mod Masks
pub mod Stream
pub mod Secrets
pub mod Correct
pub mod Overlap
use robine_ci.Prelude.{
  ℕ, zero, suc, Bool, true, false, not, ◌&&◌, ◌||◌, Option, none, some, List, [], ◌∷◌, ◌++◌, ltb,
  leb, length, take, drop, if◌then◌else◌,
}
use robine_ci.Prelude.Bytes.{Bytes, codes, bytes_eq}

pub record Redactor : Type 0 where
  pub secrets : List Bytes
  pub pending : Bytes

abbrev pub marker : Bytes
marker = codes "[REDACTED]"

-- `_, exists := seen[value]`
pub seen_before : Bytes → List Bytes → Bool
seen_before v [] = false
seen_before v (s ∷ ss) = bytes_eq v s || seen_before v ss

-- The loop over the values: empty and repeated ones are skipped.
pub gather : List (Bytes × Bytes) → List Bytes → List Bytes
gather [] secrets = secrets
gather ((_, []) ∷ values) secrets = gather values secrets
gather ((_, c ∷ v) ∷ values) secrets =
    gather values (if seen_before (c ∷ v) secrets then secrets else secrets ++ (c ∷ v) ∷ [])

-- `sort.Slice` by falling length. It leaves the order of equal lengths open; this keeps it.
pub insert_by_length : Bytes → List Bytes → List Bytes
insert_by_length v [] = v ∷ []
insert_by_length v (s ∷ ss) =
    if ltb (length v) (length s) then s ∷ insert_by_length v ss else v ∷ s ∷ ss

pub sort_by_length : List Bytes → List Bytes
unfolding insert_by_length
sort_by_length [] = []
sort_by_length (v ∷ vs) = insert_by_length v (sort_by_length vs)

unfoldable pub new_redactor : List (Bytes × Bytes) → Redactor
unfolding gather sort_by_length seen_before
new_redactor values = record { secrets = sort_by_length (gather values []); pending = [] }

-- `len(pending) >= len(secret) && bytes.Equal(pending[:len(secret)], secret)`
unfoldable pub begins_with : Bytes → Bytes → Bool
begins_with pending secret =
    leb (length secret) (length pending) && bytes_eq (take (length secret) pending) secret

-- The inner loop: what is left behind the first secret that the pending bytes begin with.
pub match_secret : List Bytes → Bytes → Option Bytes
match_secret [] pending = none
match_secret (s ∷ ss) pending =
    if begins_with pending s then some (drop (length s) pending) else match_secret ss pending

pub incomplete_secret_prefix : List Bytes → Bytes → Bool
incomplete_secret_prefix [] value = false
incomplete_secret_prefix (s ∷ ss) value =
    (ltb (length value) (length s) && bytes_eq value (take (length value) s))
    || incomplete_secret_prefix ss value

-- One round over the pending bytes `c ∷ p`: what it writes and what it leaves; `none` is `break`.
unfoldable pub round : Bool → List Bytes → ℕ → Bytes → Option (Bytes × Bytes)
round final secrets c p = elim (match_secret secrets (c ∷ p)) [
  | some rest ↦ some (marker, rest)
  | none ↦ if not final && incomplete_secret_prefix secrets (c ∷ p) then none else some (c ∷ [], p)
]

pub rounds : ℕ → Bool → List Bytes → Bytes → Bytes → Bytes × Bytes
rounds zero final secrets pending output = (output, pending)
rounds (suc fuel) final secrets [] output = (output, [])
rounds (suc fuel) final secrets (c ∷ p) output = elim (round final secrets c p) [
  | none ↦ (output, c ∷ p)
  | some (written, rest) ↦ rounds fuel final secrets rest (output ++ written)
]

-- The output, and the redactor that is left.
unfoldable pub consume : Bool → Redactor → Bytes × Redactor
unfolding rounds round match_secret begins_with incomplete_secret_prefix
consume final r =
    let (output, pending) = rounds (length r.pending) final r.secrets r.pending [] in
    (output, record r { pending = pending })

unfoldable pub push : Redactor → Bytes → Bytes × Redactor
push r chunk = consume false (record r { pending = r.pending ++ chunk })

unfoldable pub finish : Redactor → Bytes × Redactor
finish r = consume true r

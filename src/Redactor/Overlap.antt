-- ===== src/Redactor/Overlap.antt =====
-- Where one secret value starts with another one, the cut between chunks decides what is hidden.
use robine_ci.Prelude.{
  ℕ, zero, suc, ◌≤◌, ◌<◌, ◌≡◌, ◌≢◌, refl, sym, ap, ◌∙◌, Bool, false, some, List, [], ◌∷◌, ◌++◌, inl,
  inr, arith, length, length-append, In, Option-cases, append-nil,
}
use mathlib.Core.Bool.{false≢true}
use robine_ci.Prelude.Bytes.{Bytes}
use robine_ci.Prelude.Prefix.{length_le_of_front}
use robine_ci.Redactor.{marker, new_redactor, push, finish, consume, rounds, round, match_secret}
use robine_ci.Redactor.Rounds.{match_secret-none, begins_with_front}
use robine_ci.Redactor.Masks.{Masks, end, shown, match_secret_longest}
use robine_ci.Redactor.Stream.{stream}
use robine_ci.Redactor.Secrets.{
  secret_values, new_redactor-adds, new_redactor-Falling, secret_values-NoneEmpty,
}
use robine_ci.Redactor.Correct.{Masks-unique, stream_once-Masks}

all_of_it : (s u rest : Bytes) → s ≡ u ++ rest → length s ≤ length u → rest ≡ []
all_of_it s u [] e h = refl
all_of_it s u (c ∷ rest) e h = absurd (omega (arith, ap length e, length-append u (c ∷ rest)))

rounds_nil :
    (f : ℕ) (final : Bool) (ss : List Bytes) (out : Bytes) → rounds f final ss [] out ≡ (out, [])
unfolding rounds
rounds_nil zero final ss out = refl
rounds_nil (suc f) final ss out = refl

rounds_whole :
    (final : Bool) (ss : List Bytes) (s : Bytes)
    → s ≢ []
    → match_secret ss s ≡ some []
    → rounds (length s) final ss s [] ≡ (marker, [])
unfolding rounds round
rounds_whole final ss [] full e = absurd (full refl)
rounds_whole final ss (c ∷ s) full e = rw (e, round, rounds) (rounds_nil (length s) final ss marker)

-- A text that is shorter than every secret is kept.
short-Masks :
    (ss : List Bytes) (t : Bytes) → ((s : Bytes) → In s ss → length t < length s) → Masks ss t t
short-Masks ss [] long = end
short-Masks ss (c ∷ t) long =
    shown (λ s r at e. absurd (omega (arith, long s at, length_le_of_front s r (c ∷ t) e)))
      (short-Masks ss t (λ s at. omega (arith, long s at)))

module _ (values : List (Bytes × Bytes)) (s : Bytes) (at : In s (secret_values values)) where
  match_whole : match_secret (new_redactor values).secrets s ≡ some []
  match_whole = elim (Option-cases (match_secret (new_redactor values).secrets s)) [
    | inl e ↦ absurd (
        false≢true (
          sym
            (match_secret-none (new_redactor values).secrets s s e (new_redactor-adds values s at))
          ∙ begins_with_front s s [] (sym (append-nil s))))
    | inr (rest, e) ↦
        let (u, _, split, longest) =
          match_secret_longest (new_redactor values).secrets s rest (new_redactor-Falling values)
            e in
        let front = longest s [] (new_redactor-adds values s at) (sym (append-nil s)) in
        e ∙ ap some (all_of_it s u rest split front)
  ]

  -- A chunk that is just one secret value is replaced at once.
  pub push_whole : push (new_redactor values) s ≡ (marker, new_redactor values)
  unfolding push consume new_redactor
  push_whole =
      let e =
        rounds_whole false (new_redactor values).secrets s (secret_values-NoneEmpty values s at)
          match_whole in
      ap (λ t. (t.0, record { secrets = (new_redactor values).secrets; pending = t.1 })) e

finish_fresh : (values : List (Bytes × Bytes)) → (finish (new_redactor values)).0 ≡ []
unfolding finish consume new_redactor rounds
finish_fresh values = refl

-- Let `s` and `s ++ t` both be secret values, and every secret value be longer than `t`. In one chunk
-- the longer value is hidden whole; cut behind `s`, its rest `t` is written as it stands.
pub stream_cut_behind_shorter :
    (values : List (Bytes × Bytes)) (s t : Bytes)
    → In s (secret_values values)
    → In (s ++ t) (secret_values values)
    → ((u : Bytes) → In u (secret_values values) → length t < length u)
    → (stream (new_redactor values) ((s ++ t) ∷ []) ≡ marker)
      × (stream (new_redactor values) (s ∷ t ∷ []) ≡ marker ++ t)
unfolding stream
stream_cut_behind_shorter values s t short long brief =
    let kept : stream (new_redactor values) (t ∷ []) ≡ t =
      Masks-unique (secret_values-NoneEmpty values) refl (stream_once-Masks values t)
        (short-Masks (secret_values values) t brief) in
    (
      ap (λ x. x.0 ++ (finish x.1).0) (push_whole values (s ++ t) long)
          ∙ ap (λ x. marker ++ x) (finish_fresh values),
      ap (λ x. x.0 ++ stream x.1 (t ∷ [])) (push_whole values s short) ∙ ap (λ x. marker ++ x) kept,
    )

-- ===== src/Tests/Redaction.antt =====
-- Tests of the redactor.
use robine_ci.Prelude.{
  ◌<◌, ◌≡◌, refl, ap, List, [], ◌∷◌, ◌++◌, ◌⊎◌, inl, inr, arith, length, length-append, In, concat,
}
use robine_ci.Prelude.Bytes.{Bytes, codes, bytes_eq}
use robine_ci.Redactor.{consume, marker, new_redactor, push, finish}
use robine_ci.Redactor.Rounds.{PrefixFree}
use robine_ci.Redactor.Masks.{Masks}
use robine_ci.Redactor.Stream.{stream}
use robine_ci.Redactor.Secrets.{secret_values}
use robine_ci.Redactor.Correct.{
  held_back, push_holds_back, stream-Masks, stream_same, stream_once-Masks,
}
use robine_ci.Redactor.Overlap.{stream_cut_behind_shorter}
use robine_ci.Tests.Data.{token_values, pieces}

stream_hides : stream (new_redactor token_values) pieces ≡ codes "x[REDACTED]y"
unfolding stream new_redactor push finish consume bytes_eq
stream_hides = refl

token-PrefixFree : PrefixFree (secret_values token_values)
token-PrefixFree s t [] (inl es) (inl et) e = refl
token-PrefixFree s t (c ∷ r) (inl es) (inl et) e =
    absurd (omega (arith, ap length es, ap length et, ap length e, length-append s (c ∷ r)))
token-PrefixFree s t r (inl es) (inr never) e = absurd never
token-PrefixFree s t r (inr never) at e = absurd never

stream-Masks_example :
    Masks (secret_values token_values) (concat pieces) (stream (new_redactor token_values) pieces)
stream-Masks_example = stream-Masks token_values pieces token-PrefixFree

abbrev more_values : List (Bytes × Bytes)
more_values = (codes "EMPTY", []) ∷ (codes "COPY", codes "ab") ∷ token_values

same_secrets : (s : Bytes) → In s (secret_values more_values) → In s (secret_values token_values)
same_secrets s (inl e) = inl e
same_secrets s (inr (inl e)) = inl e
same_secrets s (inr (inr never)) = absurd never

stream_same_example :
    stream (new_redactor token_values) pieces
    ≡ stream (new_redactor more_values) (codes "xaby" ∷ [])
stream_same_example =
    stream_same token_values more_values pieces (codes "xaby" ∷ []) token-PrefixFree
      (λ s at. inr at) same_secrets refl

abbrev nested_values : List (Bytes × Bytes)
nested_values = (codes "SHORT", codes "abc") ∷ (codes "LONG", codes "abcd") ∷ []

stream_once-Masks_example :
    Masks
      (secret_values nested_values)
      (codes "xabcdy")
      (stream (new_redactor nested_values) (codes "xabcdy" ∷ []))
stream_once-Masks_example = stream_once-Masks nested_values (codes "xabcdy")

stream_cut_behind_shorter_example :
    (stream (new_redactor nested_values) (codes "abcd" ∷ []) ≡ marker)
    × (stream (new_redactor nested_values) (codes "abc" ∷ codes "d" ∷ []) ≡ marker ++ codes "d")
stream_cut_behind_shorter_example =
    stream_cut_behind_shorter nested_values (codes "abc") (codes "d") (inl refl) (inr (inl refl))
      longer
  where
    longer : (u : Bytes) → In u (secret_values nested_values) → 1 < length u
    longer u (inl e) = omega (arith, ap length e)
    longer u (inr (inl e)) = omega (arith, ap length e)
    longer u (inr (inr never)) = absurd never

push_holds_back_example :
    (held_back token_values [] (codes "xa") ≡ [])
    ⊎ ((s rest : Bytes) × In s (secret_values token_values)
        × (s ≡ held_back token_values [] (codes "xa") ++ rest)
        × (length (held_back token_values [] (codes "xa")) < length s))
push_holds_back_example = push_holds_back token_values [] (codes "xa")

held_back_a : held_back token_values [] (codes "xa") ≡ codes "a"
unfolding new_redactor push consume bytes_eq
held_back_a = refl

-- ===== src/Redactor/Correct.antt =====
-- What the redactor writes of a whole output, in terms of the job's secret values alone.
use robine_ci.Prelude.{
  ℕ, zero, suc, ◌≤◌, ◌<◌, ◌≡◌, refl, sym, ap, ap₂, ◌∙◌, false, Option, none, List, [], ◌∷◌, ◌++◌,
  ◌⊎◌, inl, inr, arith, length, length-append, In, Option-cases, append-nil, concat,
}
use robine_ci.Prelude.Bytes.{Bytes}
use robine_ci.Prelude.Prefix.{shorter_front}
use robine_ci.Redactor.{marker, new_redactor, push, finish, consume, rounds, round}
use robine_ci.Redactor.Rounds.{PrefixFree, incomplete_true}
use robine_ci.Redactor.Loop.{
  NoneEmpty, redacted, Round, hides, shows, waits, Round-round, round-shrinks, redacted-resume,
  Extends-nil,
}
use robine_ci.Redactor.Masks.{Masks, end, hidden, shown, rounds-Masks}
use robine_ci.Redactor.Stream.{stream, stream-redacted}
use robine_ci.Redactor.Secrets.{
  secret_values, new_redactor-adds, new_redactor-only, new_redactor-Falling, new_redactor-NoneEmpty,
  secret_values-NoneEmpty,
}

equal_fronts :
    (a b c d : Bytes) → a ++ b ≡ c ++ d → length a ≤ length c → length c ≤ length a → b ≡ d
equal_fronts a b c d e h k =
    let (r, split, rest) = shorter_front a b c d e h in
    let none_left : r ≡ [] = empty r (omega (arith, ap length split, length-append a r)) in
    rest ∙ ap (λ t. t ++ d) none_left
  where
    empty : (r : Bytes) → length r ≤ 0 → r ≡ []
    empty [] z = refl
    empty (c ∷ r) z = absurd (omega arith)

front_nil : (s rest : Bytes) → s ++ rest ≡ [] → s ≡ []
front_nil [] rest e = refl
front_nil (c ∷ s) rest e = cc

module _ {ss us : List Bytes} where
  -- `Masks` depends only on which values are secret.
  pub Masks-transfer :
      {text out : Bytes}
      → ((s : Bytes) → In s ss → In s us)
      → ((s : Bytes) → In s us → In s ss)
      → Masks ss text out
      → Masks us text out
  Masks-transfer to from end = end
  Masks-transfer to from (hidden s at split longest w m) =
      hidden s (to s at) split (λ t r at'. longest t r (from t at')) w (Masks-transfer to from m)
  Masks-transfer to from (shown clear m) =
      shown (λ t r at. clear t r (from t at)) (Masks-transfer to from m)

module _ {ss : List Bytes} where
  -- At most one output hides the secrets of a text.
  pub Masks-unique :
      {text text' out out' : Bytes}
      → NoneEmpty ss
      → text ≡ text'
      → Masks ss text out
      → Masks ss text' out'
      → out ≡ out'
  Masks-unique full e end end = refl
  Masks-unique full e end (hidden s at split longest w m) =
      absurd (full s at (front_nil s _ (sym (e ∙ split))))
  Masks-unique full e end (shown clear m) = cc
  Masks-unique full e (hidden s at split longest w m) end =
      absurd (full s at (front_nil s _ (sym split ∙ e)))
  Masks-unique full e (shown clear m) end = cc
  Masks-unique full e (hidden {text} {rest} s at split longest w m)
        (hidden {text = text'} {rest = rest'} s' at' split' longest' w' m') =
      let same : rest ≡ rest' =
        equal_fronts s rest s' rest' (sym split ∙ e ∙ split') (longest' s rest at (sym e ∙ split))
          (longest s' rest' at' (e ∙ split')) in
      w ∙ ap (λ t. marker ++ t) (Masks-unique full same m m') ∙ sym w'
  Masks-unique full e (hidden s at split longest w m) (shown clear m') =
      absurd (clear s _ at (sym e ∙ split))
  Masks-unique full e (shown clear m) (hidden s at split longest w m') =
      absurd (clear s _ at (e ∙ split))
  Masks-unique full e (shown {c} {rest} clear m) (shown {c = c'} {rest = rest'} clear' m') =
      let same : rest ≡ rest' = cc in
      let head : c ≡ c' = cc in ap₂ ◌∷◌ head (Masks-unique full same m m')

rounds_waits :
    (f : ℕ) (ss : List Bytes) (p out : Bytes)
    → NoneEmpty ss
    → length p ≤ f
    → let q = (rounds f false ss p out).1 in
      (q ≡ []) ⊎ ((s r : Bytes) × In s ss × (s ≡ q ++ r) × (length q < length s))
unfolding rounds
rounds_waits zero ss [] out full h = inl refl
rounds_waits zero ss (c ∷ p) out full h = absurd (omega arith)
rounds_waits (suc f) ss [] out full h = inl refl
rounds_waits (suc f) ss (c ∷ p) out full h = elim (Option-cases (round false ss c p)) [
  | inl e ↦ rw (e, rounds) (inr (stopped e (Round-round false ss c p)))
  | inr ((w, rest), e) ↦
      let shorter = round-shrinks false ss c p w rest full e in
      rw (e, rounds) (rounds_waits f ss rest (out ++ w) full (omega arith))
]
  where
    stopped :
        {o : Option (Bytes × Bytes)}
        → o ≡ none
        → Round false ss c p o
        → (s r : Bytes) × In s ss × (s ≡ (c ∷ p) ++ r) × (length (c ∷ p) < length s)
    stopped e (hides r m) = cc
    stopped e (shows m n) = cc
    stopped e (waits m n more) = incomplete_true ss (c ∷ p) more

-- What is held back after a chunk is pushed.
abbrev pub held_back : List (Bytes × Bytes) → Bytes → Bytes → Bytes
held_back values pending chunk =
    (push (record (new_redactor values) { pending = pending }) chunk).1.pending

-- After a chunk is pushed, whatever the secrets, the redactor holds back nothing, or a strictly
-- shorter front part of one of them.
pub push_holds_back :
    (values : List (Bytes × Bytes)) (pending chunk : Bytes)
    → (held_back values pending chunk ≡ [])
      ⊎ ((s rest : Bytes) × In s (secret_values values)
          × (s ≡ held_back values pending chunk ++ rest)
          × (length (held_back values pending chunk) < length s))
unfolding push consume
push_holds_back values pending chunk =
    elim (rounds_waits (length (pending ++ chunk)) (new_redactor values).secrets (pending ++ chunk)
      [] (new_redactor-NoneEmpty values) (omega arith)) [
        | inl e ↦ inl e
        | inr (s, r, at, split, l) ↦ inr (s, r, new_redactor-only values s at, split, l)
      ]

PrefixFree-secrets :
    (values : List (Bytes × Bytes))
    → PrefixFree (secret_values values)
    → PrefixFree (new_redactor values).secrets
PrefixFree-secrets values free s t r ms mt e =
    free s t r (new_redactor-only values s ms) (new_redactor-only values t mt) e

redacted-Masks :
    (values : List (Bytes × Bytes)) (text : Bytes)
    → Masks (secret_values values) text (redacted (new_redactor values).secrets text)
redacted-Masks values text =
    Masks-transfer (new_redactor-only values) (new_redactor-adds values)
      (rounds-Masks (length text) (new_redactor values).secrets text (new_redactor-NoneEmpty values)
        (new_redactor-Falling values) (omega arith)).0

-- Where no secret value starts with another one, however the output is cut into chunks, all that is
-- written is the whole output with its secret values hidden.
pub stream-Masks :
    (values : List (Bytes × Bytes)) (chunks : List Bytes)
    → PrefixFree (secret_values values)
    → Masks (secret_values values) (concat chunks) (stream (new_redactor values) chunks)
unfolding new_redactor
stream-Masks values chunks free =
    let e : stream (new_redactor values) chunks
        ≡ redacted (new_redactor values).secrets (concat chunks) =
      stream-redacted (new_redactor values) chunks (new_redactor-NoneEmpty values)
        (PrefixFree-secrets values free) in
    rw e (redacted-Masks values (concat chunks))

-- Where no secret value starts with another one, what is written depends on the text and on the set
-- of secret values only: not on the chunks, nor on the order in which the map is visited, nor on
-- names, repeats or empty values.
pub stream_same :
    (values values' : List (Bytes × Bytes)) (chunks chunks' : List Bytes)
    → PrefixFree (secret_values values)
    → ((s : Bytes) → In s (secret_values values) → In s (secret_values values'))
    → ((s : Bytes) → In s (secret_values values') → In s (secret_values values))
    → concat chunks ≡ concat chunks'
    → stream (new_redactor values) chunks ≡ stream (new_redactor values') chunks'
stream_same values values' chunks chunks' free to from same =
    let free' : PrefixFree (secret_values values') =
      λ s t r ms mt e. free s t r (from s ms) (from t mt) e in
    Masks-unique (secret_values-NoneEmpty values) same (stream-Masks values chunks free)
      (Masks-transfer from to (stream-Masks values' chunks' free'))

pub stream_once-redacted :
    (values : List (Bytes × Bytes)) (text : Bytes)
    → stream (new_redactor values) (text ∷ []) ≡ redacted (new_redactor values).secrets text
unfolding new_redactor stream push consume finish
stream_once-redacted values text =
    let ss = (new_redactor values).secrets in
    let e =
      redacted-resume (length text) ss text [] (new_redactor-NoneEmpty values) (Extends-nil ss)
        (omega arith) in
    sym (rw (append-nil, append-nil) at e)

-- Whatever the secret values, an output that comes as one chunk is written with them hidden.
pub stream_once-Masks :
    (values : List (Bytes × Bytes)) (text : Bytes)
    → Masks (secret_values values) text (stream (new_redactor values) (text ∷ []))
stream_once-Masks values text = rw (stream_once-redacted values text) (redacted-Masks values text)

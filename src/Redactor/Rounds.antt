-- ===== src/Redactor/Rounds.antt =====
-- What one round of the redactor's loop finds at the head of the pending bytes.
use robine_ci.Prelude.{
  ◌<◌, ◌+◌, ◌≡◌, ◌≢◌, refl, sym, ap, ◌∙◌, true, false, none, some, List, [], ◌∷◌, ◌++◌, inl, inr,
  arith, length, take, drop, take-append-drop, take-append_self, length-append, drop-append_self,
  In, Bool-cases, append_assoc, ◌&&◌, ltb,
}
use mathlib.Core.Bool.{false≢true}
use native.Mathlib.Decide.{dec_le}
use robine_ci.Prelude.Bytes.{Bytes, bytes_eq, bytes_eq_sound, bytes_eq_refl}
use robine_ci.Prelude.Prefix.{shorter_front}
use robine_ci.Redactor.{begins_with, match_secret, incomplete_secret_prefix}

pub append-eq-nil : (a b : Bytes) → a ++ b ≡ [] → b ≡ []
append-eq-nil [] b e = e
append-eq-nil (x ∷ a) b e = cc

-- No secret of the list starts with another one.
abbrev pub PrefixFree : List Bytes → Type 0
PrefixFree secrets = (s t r : Bytes) → In s secrets → In t secrets → t ≡ s ++ r → r ≡ []

pub begins_with_sound : (p s : Bytes) → begins_with p s ≡ true → p ≡ s ++ drop (length s) p
unfolding begins_with
begins_with_sound p s h =
    let e : take (length s) p ≡ s = bytes_eq_sound (take (length s) p) s (ground arith) in
    sym (take-append-drop (length s) p) ∙ ap (λ t. t ++ drop (length s) p) e

pub begins_with_complete : (s r : Bytes) → begins_with (s ++ r) s ≡ true
unfolding begins_with
begins_with_complete s r =
    rw (take-append_self s r) (ground (arith, bytes_eq_refl s, length-append s r))

pub begins_with_front : (p s r : Bytes) → p ≡ s ++ r → begins_with p s ≡ true
begins_with_front p s r e = rw e (begins_with_complete s r)

pub match_secret_sound :
    (ss : List Bytes) (p rest : Bytes)
    → match_secret ss p ≡ some rest
    → (s : Bytes) × In s ss × (p ≡ s ++ rest)
unfolding match_secret
match_secret_sound [] p rest h = cc
match_secret_sound (s ∷ ss) p rest h = elim (Bool-cases (begins_with p s)) [
  | inl hit ↦
      let e : drop (length s) p ≡ rest = ground (arith, h, hit) in
      (s, inl refl, begins_with_sound p s hit ∙ ap (λ t. s ++ t) e)
  | inr miss ↦
      let (t, m, e) = match_secret_sound ss p rest (rw (miss, match_secret) at h) in (t, inr m, e)
]

pub match_secret-none :
    (ss : List Bytes) (p s : Bytes) → match_secret ss p ≡ none → In s ss → begins_with p s ≡ false
unfolding match_secret
match_secret-none [] p s h m = absurd m
match_secret-none (t ∷ ss) p s h (inl e) = rw e (ground arith)
match_secret-none (t ∷ ss) p s h (inr m) = match_secret-none ss p s (ground arith) m

pub incomplete_false :
    (ss : List Bytes) (p s r : Bytes)
    → incomplete_secret_prefix ss p ≡ false
    → In s ss
    → s ≡ p ++ r
    → r ≡ []
unfolding incomplete_secret_prefix
incomplete_false [] p s r h m e = absurd m
incomplete_false (t ∷ ss) p s [] h m e = refl
incomplete_false (t ∷ ss) p s (c ∷ r) h (inl same) e =
    let e' : t ≡ p ++ c ∷ r = sym same ∙ e in
    let front : take (length p) t ≡ p = rw e' (take-append_self p (c ∷ r)) in
    let l : length t ≡ length p + length (c ∷ r) = rw e' (length-append p (c ∷ r)) in
    ground (arith, l, front, bytes_eq_refl p)
incomplete_false (t ∷ ss) p s (c ∷ r) h (inr m) e =
    incomplete_false ss p s (c ∷ r) (ground arith) m e

pub incomplete_true :
    (ss : List Bytes) (p : Bytes)
    → incomplete_secret_prefix ss p ≡ true
    → (s r : Bytes) × In s ss × (s ≡ p ++ r) × (length p < length s)
unfolding incomplete_secret_prefix
incomplete_true [] p h = cc
incomplete_true (t ∷ ss) p h =
    elim (Bool-cases (ltb (length p) (length t) && bytes_eq p (take (length p) t))) [
      | inl hit ↦
          let e : p ≡ take (length p) t = bytes_eq_sound p (take (length p) t) (ground arith) in
          (
            t,
            drop (length p) t,
            inl refl,
            sym (take-append-drop (length p) t) ∙ ap (λ x. x ++ drop (length p) t) (sym e),
            ground arith,
          )
      | inr miss ↦
          let (s, r, m, e, l) = incomplete_true ss p (rw (miss, incomplete_secret_prefix) at h) in
          (s, r, inr m, e, l)
    ]

begins_with-append :
    (p s x : Bytes)
    → begins_with p s ≡ true
    → (begins_with (p ++ x) s ≡ true) × (drop (length s) (p ++ x) ≡ drop (length s) p ++ x)
begins_with-append p s x h =
    let e = begins_with_sound p s h in
    let d = drop (length s) p in
    let e' : p ++ x ≡ s ++ (d ++ x) = ap (λ t. t ++ x) e ∙ append_assoc s d x in
    (
      begins_with_front (p ++ x) s (d ++ x) e',
      ap (drop (length s)) e' ∙ drop-append_self s (d ++ x),
    )

-- A secret that shows only with more bytes goes on behind the pending ones.
begins_with-append_late :
    (p s x : Bytes)
    → begins_with p s ≡ false
    → begins_with (p ++ x) s ≡ true
    → (r : Bytes) × (s ≡ p ++ r) × (r ≢ [])
begins_with-append_late p s x miss hit = elim (dec_le (length s) (length p)) [
  | yes short ↦
      let e = sym (begins_with_sound (p ++ x) s hit) in
      let (r, split, _) = shorter_front s _ p x e short in
      absurd (false≢true (sym miss ∙ begins_with_front p s r split))
  | no long ↦
      let e = begins_with_sound (p ++ x) s hit in
      let (r, split, _) = shorter_front p x s _ e (omega arith) in
      (
        r,
        split,
        λ none_left. long (omega (arith, ap length split, length-append p r, ap length none_left)),
      )
]

-- A secret that the pending bytes begin with stays the one that is found when more bytes follow.
pub match_secret-append_some :
    (ss : List Bytes) (p rest x : Bytes)
    → PrefixFree ss
    → match_secret ss p ≡ some rest
    → match_secret ss (p ++ x) ≡ some (rest ++ x)
unfolding match_secret
match_secret-append_some [] p rest x free h = cc
match_secret-append_some (s ∷ ss) p rest x free h = elim (Bool-cases (begins_with p s)) [
  | inl hit ↦
      let (hit', dropped) = begins_with-append p s x hit in
      let e : some (drop (length s) p) ≡ some rest = rw (hit, match_secret) at h in
      rw (hit', match_secret) (cc)
  | inr miss ↦
      let h' : match_secret ss p ≡ some rest = rw (miss, match_secret) at h in
      elim (Bool-cases (begins_with (p ++ x) s)) [
        | inl late ↦
            let (t, m, e) = match_secret_sound ss p rest h' in
            let (r, split, ne) = begins_with-append_late p s x miss late in
            let longer : s ≡ t ++ (rest ++ r) =
              split ∙ ap (λ a. a ++ r) e ∙ append_assoc t rest r in
            absurd (ne (append-eq-nil rest r (free t s (rest ++ r) (inr m) (inl refl) longer)))
        | inr never ↦
            let tail =
              match_secret-append_some ss p rest x (λ a b r ma mb. free a b r (inr ma) (inr mb))
                h' in
            rw (never, match_secret) tail
      ]
]

pub match_secret-append_none :
    (ss : List Bytes) (p x : Bytes)
    → match_secret ss p ≡ none
    → incomplete_secret_prefix ss p ≡ false
    → match_secret ss (p ++ x) ≡ none
unfolding match_secret incomplete_secret_prefix
match_secret-append_none [] p x h n = refl
match_secret-append_none (s ∷ ss) p x h n =
    let miss = match_secret-none (s ∷ ss) p s h (inl refl) in
    elim (Bool-cases (begins_with (p ++ x) s)) [
      | inl late ↦
          let (r, split, ne) = begins_with-append_late p s x miss late in
          absurd (ne (incomplete_false (s ∷ ss) p s r n (inl refl) split))
      | inr never ↦
          let h' : match_secret ss p ≡ none = rw (miss, match_secret) at h in
          let n' : incomplete_secret_prefix ss p ≡ false = ground arith in
          let tail = match_secret-append_none ss p x h' n' in rw (never, match_secret) tail
    ]

-- ===== src/Archive/Parts.antt =====
-- Paths and their parts: splitting, joining and cleaning.
use robine_ci.Prelude.{
  ℕ, ◌≡◌, ◌≢◌, refl, sym, ap, ap₂, ◌∙◌, Bool, true, false, List, [], ◌∷◌, ◌++◌, ◌==◌, All,
  append_assoc, arith, inl, inr, Bool-cases,
}
use mathlib.Core.Bool.{false≢true}
use robine_ci.Prelude.Bytes.{Bytes, bytes_eq, bytes_eq_ne, bytes_eq_iff}
use robine_ci.Archive.{
  slash, dot, dots, cons_first, split, join_parts, back, push_part, clean_onto, unstack,
}

abbrev pub HasNoSlash : Bytes → Type 0
HasNoSlash p = All (λ c. c ≢ slash) p

-- A part that names an entry of a directory.
pub record IsPlain (p : Bytes) : Type 0 where
  pub some_name : p ≢ []
  pub no_dot : p ≢ dot
  pub no_dots : p ≢ dots
  pub no_slash : HasNoSlash p

pub ne_of_false : (s t : Bytes) → bytes_eq s t ≡ false → s ≢ t
ne_of_false s t e same = false≢true (sym e ∙ (bytes_eq_iff s t).1 same)

cons_first_nonempty : (c : ℕ) (ps : List Bytes) → cons_first c ps ≢ []
unfolding cons_first
cons_first_nonempty c [] e = cc
cons_first_nonempty c (p ∷ ps) e = cc

cons_first-HasNoSlash :
    (c : ℕ) (ps : List Bytes) → c ≢ slash → All HasNoSlash ps → All HasNoSlash (cons_first c ps)
unfolding cons_first
cons_first-HasNoSlash c [] h k = ((h, tt), tt)
cons_first-HasNoSlash c (p ∷ ps) h k = ((h, k.0), k.1)

pub split_nonempty : (s : Bytes) → split s ≢ []
unfolding split
split_nonempty [] e = cc
split_nonempty (c ∷ s) e = elim (Bool-cases (c == slash)) [
  | inl hit ↦ let e' : [] ∷ split s ≡ [] = rw hit at e in cc
  | inr miss ↦ cons_first_nonempty c (split s) (rw miss at e)
]

cons_first-append :
    (c : ℕ) (ps qs : List Bytes) → ps ≢ [] → cons_first c (ps ++ qs) ≡ cons_first c ps ++ qs
unfolding cons_first
cons_first-append c [] qs h = absurd (h refl)
cons_first-append c (p ∷ ps) qs h = refl

pub split-append : (a b : Bytes) → split (a ++ slash ∷ b) ≡ split a ++ split b
unfolding split
split-append [] b = refl
split-append (c ∷ a) b = elim (Bool-cases (c == slash)) [
  | inl e ↦ rw e (ap (◌∷◌ []) (split-append a b))
  | inr e ↦ rw e (
      ap (cons_first c) (split-append a b)
      ∙ cons_first-append c (split a) (split b) (split_nonempty a))
]

pub split_plain : (p : Bytes) → HasNoSlash p → split p ≡ p ∷ []
unfolding split cons_first
split_plain [] h = refl
split_plain (c ∷ p) h = elim (Bool-cases (c == slash)) [
  | inl e ↦ absurd (h.0 (ground (arith, e)))
  | inr e ↦ rw e (ap (cons_first c) (split_plain p h.1))
]

pub split-HasNoSlash : (s : Bytes) → All HasNoSlash (split s)
unfolding split
split-HasNoSlash [] = (tt, tt)
split-HasNoSlash (c ∷ s) = elim (Bool-cases (c == slash)) [
  | inl e ↦ rw e (tt, split-HasNoSlash s)
  | inr e ↦ rw e (cons_first-HasNoSlash c (split s) (ground (arith, e)) (split-HasNoSlash s))
]

pub split-join :
    (p : Bytes) (ps : List Bytes) → All IsPlain (p ∷ ps) → split (join_parts (p ∷ ps)) ≡ p ∷ ps
unfolding join_parts
split-join p [] h = split_plain p h.0.no_slash
split-join p (q ∷ ps) h =
    split-append p (join_parts (q ∷ ps))
    ∙ ap₂ ◌++◌ (split_plain p h.0.no_slash) (split-join q ps h.1)

pub clean_onto-append :
    (r : Bool) (stack ps qs : List Bytes)
    → clean_onto r stack (ps ++ qs) ≡ clean_onto r (clean_onto r stack ps) qs
unfolding clean_onto
clean_onto-append r stack [] qs = refl
clean_onto-append r stack (p ∷ ps) qs = clean_onto-append r (push_part r stack p) ps qs

push_part_plain :
    (r : Bool) (stack : List Bytes) (p : Bytes) → IsPlain p → push_part r stack p ≡ p ∷ stack
unfolding push_part
push_part_plain r stack [] h = absurd (h.some_name refl)
push_part_plain r stack (c ∷ p) h =
    rw (bytes_eq_ne (c ∷ p) dot h.no_dot, bytes_eq_ne (c ∷ p) dots h.no_dots)

pub clean_onto_plain :
    (r : Bool) (stack ps rest : List Bytes)
    → All IsPlain ps
    → unstack (clean_onto r stack ps) rest ≡ unstack stack (ps ++ rest)
unfolding clean_onto unstack
clean_onto_plain r stack [] rest h = refl
clean_onto_plain r stack (p ∷ ps) rest h =
    ap (λ s. unstack (clean_onto r s ps) rest) (push_part_plain r stack p h.0)
    ∙ clean_onto_plain r (p ∷ stack) ps rest h.1

pub unstack-append : (stack ps qs : List Bytes) → unstack stack (ps ++ qs) ≡ unstack stack ps ++ qs
unfolding unstack
unstack-append [] ps qs = refl
unstack-append (p ∷ stack) ps qs = unstack-append stack (p ∷ ps) qs

pub join-append :
    (p : Bytes) (ps : List Bytes) (q : Bytes) (qs : List Bytes)
    → join_parts ((p ∷ ps) ++ q ∷ qs) ≡ join_parts (p ∷ ps) ++ slash ∷ join_parts (q ∷ qs)
unfolding join_parts
join-append p [] q qs = refl
join-append p (r ∷ ps) q qs =
    ap (λ t. p ++ slash ∷ t) (join-append r ps q qs)
    ∙ sym (append_assoc p (slash ∷ join_parts (r ∷ ps)) (slash ∷ join_parts (q ∷ qs)))

back-IsPlain : (stack : List Bytes) → All IsPlain stack → All IsPlain (back true stack)
unfolding back
back-IsPlain [] plain = tt
back-IsPlain (top ∷ stack) plain = rw (bytes_eq_ne top dots plain.0.no_dots) plain.1

push_part-IsPlain :
    (stack : List Bytes) (p : Bytes)
    → HasNoSlash p
    → All IsPlain stack
    → All IsPlain (push_part true stack p)
unfolding push_part
push_part-IsPlain stack [] h plain = plain
push_part-IsPlain stack (c ∷ p) h plain = elim (Bool-cases (bytes_eq (c ∷ p) dot)) [
  | inl e ↦ rw e plain
  | inr e ↦ elim (Bool-cases (bytes_eq (c ∷ p) dots)) [
    | inl e' ↦ rw (e, e') (back-IsPlain stack plain)
    | inr e' ↦
        rw (e, e')
          (
            record {
              some_name = λ q. cc;
              no_dot = ne_of_false (c ∷ p) dot e;
              no_dots = ne_of_false (c ∷ p) dots e';
              no_slash = h;
            },
            plain,
          )
  ]
]

pub clean_onto-IsPlain :
    (stack ps : List Bytes)
    → All HasNoSlash ps
    → All IsPlain stack
    → All IsPlain (clean_onto true stack ps)
unfolding clean_onto
clean_onto-IsPlain stack [] h plain = plain
clean_onto-IsPlain stack (p ∷ ps) h plain =
    clean_onto-IsPlain (push_part true stack p) ps h.1 (push_part-IsPlain stack p h.0 plain)

pub unstack-IsPlain :
    (stack ps : List Bytes) → All IsPlain stack → All IsPlain ps → All IsPlain (unstack stack ps)
unfolding unstack
unstack-IsPlain [] ps h k = k
unstack-IsPlain (p ∷ stack) ps h k = unstack-IsPlain stack (p ∷ ps) h.1 (h.0, k)

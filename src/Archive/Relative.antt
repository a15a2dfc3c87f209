-- ===== src/Archive/Relative.antt =====
-- A path that safeWorkspaceRelative accepts stays below the workspace.
use robine_ci.Prelude.{
  ◌≡◌, ◌≢◌, refl, sym, ap, ◌∙◌, Bool, true, false, ◌||◌, Option, none, some, List, [], ◌∷◌, ◌++◌,
  ◌⊎◌, All, inl, inr, Bool-cases, if◌then◌else◌, ltb, length,
}
use mathlib.Core.Bool.{false≢true}
use robine_ci.Prelude.Bytes.{Bytes, codes, bytes_eq, bytes_eq_ne, bytes_eq_refl}
use robine_ci.Offer.{is_empty}
use robine_ci.Redactor.{begins_with}
use robine_ci.Redactor.Rounds.{begins_with_front}
use robine_ci.Archive.{
  slash, dot, dots, split, join_parts, back, push_part, clean_onto, unstack, clean, clean_parts,
  is_rooted, workspace_path, safe_workspace_relative, contains_nul, max_archive_path_size,
}
use robine_ci.Archive.Parts.{IsPlain, HasNoSlash, ne_of_false, split-HasNoSlash, unstack-IsPlain}
use robine_ci.Archive.Inside.{plain_inside}
use robine_ci.Archive.Names.{clean-relative, or_false}

-- The parts of a relative path: plain ones on top of `..`s.
data Stacked : List Bytes → Type 0 where
  up : {stack : List Bytes} → All (λ p. p ≡ dots) stack → Stacked stack
  on : {p : Bytes} {stack : List Bytes} → IsPlain p → Stacked stack → Stacked (p ∷ stack)

back-Stacked : (stack : List Bytes) → Stacked stack → Stacked (back false stack)
unfolding back
back-Stacked [] (up h) = up (refl, tt)
back-Stacked (top ∷ stack) (up h) = rw (h.0, bytes_eq_refl dots) (up (refl, (refl, h.1)))
back-Stacked (top ∷ stack) (on plain below) = rw (bytes_eq_ne top dots plain.no_dots) below

push_part-Stacked :
    (stack : List Bytes) (p : Bytes)
    → HasNoSlash p
    → Stacked stack
    → Stacked (push_part false stack p)
unfolding push_part
push_part-Stacked stack [] h stacked = stacked
push_part-Stacked stack (c ∷ p) h stacked = elim (Bool-cases (bytes_eq (c ∷ p) dot)) [
  | inl e ↦ rw e stacked
  | inr e ↦ elim (Bool-cases (bytes_eq (c ∷ p) dots)) [
    | inl e' ↦ rw (e, e') (back-Stacked stack stacked)
    | inr e' ↦
        rw (e, e')
          (on
            (record {
              some_name = λ q. cc;
              no_dot = ne_of_false (c ∷ p) dot e;
              no_dots = ne_of_false (c ∷ p) dots e';
              no_slash = h;
            })
            stacked)
  ]
]

clean_onto-Stacked :
    (stack ps : List Bytes)
    → All HasNoSlash ps
    → Stacked stack
    → Stacked (clean_onto false stack ps)
unfolding clean_onto
clean_onto-Stacked stack [] h stacked = stacked
clean_onto-Stacked stack (p ∷ ps) h stacked =
    clean_onto-Stacked (push_part false stack p) ps h.1 (push_part-Stacked stack p h.0 stacked)

dots_first :
    (stack parts : List Bytes)
    → All (λ p. p ≡ dots) stack
    → (r : List Bytes) × (unstack stack (dots ∷ parts) ≡ dots ∷ r)
unfolding unstack
dots_first [] parts h = (parts, refl)
dots_first (p ∷ stack) parts h =
    let (r, e) = dots_first stack (dots ∷ parts) h.1 in
    (r, ap (λ x. unstack stack (x ∷ dots ∷ parts)) h.0 ∙ e)

-- Either all parts are plain, or the first one is `..`.
bottom_cases :
    (stack : List Bytes)
    → Stacked stack
    → All IsPlain stack
      ⊎ ((parts : List Bytes) → (r : List Bytes) × (unstack stack parts ≡ dots ∷ r))
unfolding unstack
bottom_cases [] s = inl tt
bottom_cases (p ∷ stack) (up h) = inr (λ parts.
    let (r, e) = dots_first stack parts h.1 in (r, ap (λ x. unstack stack (x ∷ parts)) h.0 ∙ e))
bottom_cases (p ∷ stack) (on plain below) = elim (bottom_cases stack below) [
  | inl all ↦ inl (plain, all)
  | inr first ↦ inr (λ parts. first (p ∷ parts))
]

or_true : (a b : Bool) → b ≡ true → a || b ≡ true
or_true true b h = refl
or_true false b h = h

-- A path whose first part is `..` is `..` or starts with `../`.
refused_up :
    (r : List Bytes)
    → bytes_eq (join_parts (dots ∷ r)) dots || begins_with (join_parts (dots ∷ r)) (codes "../")
      ≡ true
unfolding join_parts
refused_up [] = rw (bytes_eq_refl dots)
refused_up (q ∷ qs) =
    let path = join_parts (dots ∷ q ∷ qs) in
    or_true (bytes_eq path dots) (begins_with path (codes "../"))
      (begins_with_front path (codes "../") (join_parts (q ∷ qs)) refl)

path_parts :
    (parts : List Bytes) (path : Bytes)
    → All IsPlain parts ⊎ ((r : List Bytes) × (parts ≡ dots ∷ r))
    → path ≡ (if is_empty parts then dot else join_parts parts)
    → bytes_eq path dot ≡ false
    → bytes_eq path dots || begins_with path (codes "../") ≡ false
    → (p : Bytes) × (ps : List Bytes) × All IsPlain (p ∷ ps) × (path ≡ join_parts (p ∷ ps))
path_parts [] path h e here no_up =
    absurd (false≢true (sym here ∙ ap (λ x. bytes_eq x dot) e ∙ bytes_eq_refl dot))
path_parts (p ∷ ps) path (inl plain) e here no_up = (p, ps, plain, e)
path_parts (p ∷ ps) path (inr (r, first)) e here no_up =
    let e' = e ∙ ap join_parts first in
    absurd (
      false≢true
        (sym no_up ∙ ap (λ x. bytes_eq x dots || begins_with x (codes "../")) e' ∙ refused_up r))

relative_parts :
    (path : Bytes)
    → is_rooted path ≡ false
    → All IsPlain (clean_parts path) ⊎ ((r : List Bytes) × (clean_parts path ≡ dots ∷ r))
relative_parts path e =
    let stack = clean_onto (is_rooted path) [] (split path) in
    let stacked : Stacked stack =
      rw e (clean_onto-Stacked [] (split path) (split-HasNoSlash path) (up tt)) in
    elim (bottom_cases stack stacked) [
      | inl plain ↦ inl (unstack-IsPlain stack [] plain tt)
      | inr first ↦ inr (first [])
    ]

neither : (a b : Bool) → a ≡ false → b ≡ false → a || b ≡ false
neither true b h k = absurd (false≢true (sym h))
neither false b h k = k

some_ne_none : {a : Bytes} → some a ≡ none → ⊥
some_ne_none e = cc

accepted_parts :
    (path relative : Bytes)
    → safe_workspace_relative path ≡ some relative
    → (p : Bytes) × (ps : List Bytes) × All IsPlain (p ∷ ps) × (relative ≡ join_parts (p ∷ ps))
unfolding safe_workspace_relative
accepted_parts path relative e =
    let cleaned = clean path in
    let dotted = bytes_eq cleaned dots in
    let climbs = begins_with cleaned (codes "../") in
    let at_top = is_empty path || is_rooted path in
    let named = at_top || bytes_eq cleaned dot in
    let upward = named || dotted || climbs in
    let long = upward || ltb max_archive_path_size (length cleaned) in
    elim (Bool-cases (long || contains_nul cleaned)) [
      | inl refused ↦
          let e' : none ≡ some relative = rw refused at e in absurd (some_ne_none (sym e'))
      | inr fine ↦
          let e' : some cleaned ≡ some relative = rw fine at e in
          let same : cleaned ≡ relative = cc in
          let short = (or_false long (contains_nul cleaned) fine).0 in
          let not_up = (or_false upward (ltb max_archive_path_size (length cleaned)) short).0 in
          let (early, no_climb) = or_false (named || dotted) climbs not_up in
          let (first, no_dots) = or_false named dotted early in
          let (top, here) = or_false at_top (bytes_eq cleaned dot) first in
          let level = (or_false (is_empty path) (is_rooted path) top).1 in
          let (p, ps, plain, parts) =
            path_parts (clean_parts path) cleaned (relative_parts path level)
              (clean-relative path level) here (neither dotted climbs no_dots no_climb) in
          (p, ps, plain, sym same ∙ parts)
    ]

-- A path that safeWorkspaceRelative accepts stays below the workspace, wherever that is: for an
-- absolute workspace other than `/` workspacePath does not refuse what it returns, and gives the
-- clean workspace with a slash and that path behind it.
pub relative_path_inside :
    (path relative workspace : Bytes) (cwd : Option Bytes)
    → safe_workspace_relative path ≡ some relative
    → is_rooted workspace ≡ true
    → clean workspace ≢ slash ∷ []
    → workspace_path cwd workspace relative ≡ some (clean workspace ++ slash ∷ relative)
relative_path_inside path relative workspace cwd e rooted deep =
    let (p, ps, plain, same) = accepted_parts path relative e in
    ap (workspace_path cwd workspace) same
    ∙ plain_inside cwd workspace p ps rooted deep plain
    ∙ ap (λ x. some (clean workspace ++ slash ∷ x)) (sym same)

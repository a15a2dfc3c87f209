-- ===== src/Archive/Inside.antt =====
-- An entry of an archive that has a safe name is unpacked below the workspace.
use robine_ci.Prelude.{
  ℕ, ◌≡◌, ◌≢◌, refl, sym, ap, ◌∙◌, true, Option, some, List, [], ◌∷◌, ◌++◌, All, All-append,
  append-nil, append_assoc, arith,
}
use mathlib.Core.Bool.{false≢true}
use mathlib.Core.Path.{subst}
use robine_ci.Prelude.Bytes.{Bytes}
use robine_ci.Redactor.{begins_with}
use robine_ci.Redactor.Rounds.{begins_with_front}
use robine_ci.Archive.{
  slash, split, join_parts, push_part, clean_onto, unstack, clean, clean_parts, is_rooted,
  join_path, drop_empty, absolute, workspace_path, within,
}
use robine_ci.Archive.Parts.{
  IsPlain, split-append, split-join, split-HasNoSlash, clean_onto-append, clean_onto_plain,
  unstack-append, join-append, clean_onto-IsPlain, unstack-IsPlain,
}

clean_parts-append :
    (c : ℕ) (w p : Bytes) (ps : List Bytes)
    → All IsPlain (p ∷ ps)
    → clean_parts ((c ∷ w) ++ slash ∷ join_parts (p ∷ ps)) ≡ clean_parts (c ∷ w) ++ p ∷ ps
unfolding is_rooted unstack
clean_parts-append c w p ps h =
    let rooted = is_rooted (c ∷ w) in
    let stack = clean_onto rooted [] (split (c ∷ w)) in
    ap (λ l. unstack (clean_onto rooted [] l) [])
      (split-append (c ∷ w) (join_parts (p ∷ ps))
        ∙ ap (λ l. split (c ∷ w) ++ l) (split-join p ps h))
    ∙ ap (λ s. unstack s []) (clean_onto-append rooted [] (split (c ∷ w)) (p ∷ ps))
    ∙ clean_onto_plain rooted stack (p ∷ ps) [] h
    ∙ ap (unstack stack) (append-nil (p ∷ ps))
    ∙ unstack-append stack [] (p ∷ ps)

pub clean_parts-IsPlain : (s : Bytes) → is_rooted s ≡ true → All IsPlain (clean_parts s)
clean_parts-IsPlain s e =
    unstack-IsPlain (clean_onto (is_rooted s) [] (split s)) []
      (rw e (clean_onto-IsPlain [] (split s) (split-HasNoSlash s) tt)) tt

-- An absolute path of plain parts is clean.
pub clean_plain :
    (p : Bytes) (ps : List Bytes)
    → All IsPlain (p ∷ ps)
    → clean (slash ∷ join_parts (p ∷ ps)) ≡ slash ∷ join_parts (p ∷ ps)
unfolding clean is_rooted split clean_onto push_part unstack
clean_plain p ps h =
    ap (λ l. slash ∷ join_parts (unstack (clean_onto true [] l) [])) (split-join p ps h)
    ∙ ap (λ l. slash ∷ join_parts l) (clean_onto_plain true [] (p ∷ ps) [] h ∙ append-nil (p ∷ ps))

pub join_plain_first :
    (p : Bytes) (ps : List Bytes)
    → IsPlain p
    → (d : ℕ) × (r : Bytes) × (join_parts (p ∷ ps) ≡ d ∷ r) × (d ≢ slash)
unfolding join_parts
join_plain_first [] ps h = absurd (h.some_name refl)
join_plain_first (d ∷ p) [] h = (d, p, refl, h.no_slash.0)
join_plain_first (d ∷ p) (q ∷ ps) h = (d, p ++ slash ∷ join_parts (q ∷ ps), refl, h.no_slash.0)

-- The path below a directory.
pub join_path_below :
    (c d : ℕ) (w r : Bytes) → join_path ((c ∷ w) ∷ (d ∷ r) ∷ []) ≡ clean ((c ∷ w) ++ slash ∷ d ∷ r)
unfolding join_path drop_empty join_parts
join_path_below c d w r = refl

pub clean-rooted : (s : Bytes) → is_rooted s ≡ true → clean s ≡ slash ∷ join_parts (clean_parts s)
unfolding clean
clean-rooted s e = rw e

pub some_part :
    (ps : List Bytes)
    → slash ∷ join_parts ps ≢ slash ∷ []
    → (q : Bytes) × (qs : List Bytes) × (ps ≡ q ∷ qs)
unfolding join_parts
some_part [] h = absurd (h refl)
some_part (q ∷ qs) h = (q, qs, refl)

pub absolute-rooted :
    (cwd : Option Bytes) (s : Bytes) → is_rooted s ≡ true → absolute cwd s ≡ some (clean s)
unfolding absolute
absolute-rooted cwd s e = rw e

within_front :
    (root target : Bytes)
    → begins_with target (root ++ slash ∷ []) ≡ true
    → within root target ≡ some target
unfolding within
within_front root target e = ground (arith, e)

workspace_path_found :
    (cwd : Option Bytes) (workspace relative root target : Bytes)
    → absolute cwd workspace ≡ some root
    → absolute cwd (join_path (workspace ∷ relative ∷ [])) ≡ some target
    → begins_with target (root ++ slash ∷ []) ≡ true
    → workspace_path cwd workspace relative ≡ some target
unfolding workspace_path
workspace_path_found cwd workspace relative root target e e' front =
    rw (e, e', workspace_path) (within_front root target front)

-- A workspace that is `/` followed by the parts `q ∷ qs`.
module _ (c : ℕ) (w q : Bytes) (qs : List Bytes) (rooted : is_rooted (c ∷ w) ≡ true)
    (parts : clean_parts (c ∷ w) ≡ q ∷ qs) where
  clean_root : clean (c ∷ w) ≡ slash ∷ join_parts (q ∷ qs)
  clean_root = clean-rooted (c ∷ w) rooted ∙ ap (λ l. slash ∷ join_parts l) parts

  module _ (p : Bytes) (ps : List Bytes) (h : All IsPlain (p ∷ ps)) where
    abbrev target : Bytes
    target = slash ∷ join_parts (q ∷ (qs ++ p ∷ ps))

    pub join_path-target : join_path ((c ∷ w) ∷ join_parts (p ∷ ps) ∷ []) ≡ target
    unfolding is_rooted
    join_path-target =
        let (d, r, first, _) = join_plain_first p ps h.0 in
        let below = (c ∷ w) ++ slash ∷ join_parts (p ∷ ps) in
        ap (λ x. join_path ((c ∷ w) ∷ x ∷ [])) first
        ∙ join_path_below c d w r
        ∙ ap (λ x. clean ((c ∷ w) ++ slash ∷ x)) (sym first)
        ∙ clean-rooted below rooted
        ∙ ap (λ l. slash ∷ join_parts l)
            (clean_parts-append c w p ps h ∙ ap (λ l. l ++ p ∷ ps) parts)

    pub target-IsPlain : All IsPlain (q ∷ (qs ++ p ∷ ps))
    target-IsPlain =
        let plain : All IsPlain (q ∷ qs) =
          subst (λ l. All IsPlain l) parts (clean_parts-IsPlain (c ∷ w) rooted) in
        All-append IsPlain (q ∷ qs) (p ∷ ps) plain h

    pub target_split : target ≡ clean (c ∷ w) ++ slash ∷ join_parts (p ∷ ps)
    target_split =
        ap (◌∷◌ slash) (join-append q qs p ps)
        ∙ ap (λ x. x ++ slash ∷ join_parts (p ∷ ps)) (sym clean_root)

    workspace_path_parts :
        (cwd : Option Bytes)
        → workspace_path cwd (c ∷ w) (join_parts (p ∷ ps))
          ≡ some (clean (c ∷ w) ++ slash ∷ join_parts (p ∷ ps))
    unfolding is_rooted
    workspace_path_parts cwd =
        workspace_path_found cwd (c ∷ w) (join_parts (p ∷ ps)) (clean (c ∷ w)) target
          (absolute-rooted cwd (c ∷ w) rooted)
          (ap (absolute cwd) join_path-target
            ∙ absolute-rooted cwd target refl
            ∙ ap some (clean_plain q (qs ++ p ∷ ps) target-IsPlain))
          (begins_with_front target (clean (c ∷ w) ++ slash ∷ []) (join_parts (p ∷ ps))
            (target_split ∙ sym (append_assoc (clean (c ∷ w)) (slash ∷ []) (join_parts (p ∷ ps)))))
        ∙ ap some target_split

-- Plain parts below an absolute workspace other than `/`.
pub plain_inside :
    (cwd : Option Bytes) (workspace p : Bytes) (ps : List Bytes)
    → is_rooted workspace ≡ true
    → clean workspace ≢ slash ∷ []
    → All IsPlain (p ∷ ps)
    → workspace_path cwd workspace (join_parts (p ∷ ps))
      ≡ some (clean workspace ++ slash ∷ join_parts (p ∷ ps))
plain_inside cwd [] p ps rooted deep h = absurd (false≢true (unfold is_rooted in rooted))
plain_inside cwd (c ∷ w) p ps rooted deep h =
    let (q, qs, parts) =
      some_part (clean_parts (c ∷ w)) (λ r. deep (clean-rooted (c ∷ w) rooted ∙ r)) in
    workspace_path_parts c w q qs rooted parts p ps h cwd

-- ===== src/Archive/Anchors.antt =====
-- Directories that stand for themselves: paths below them, what workspacePath gives in them, and that
-- filepath.Clean leaves both alone.
use robine_ci.Prelude.{
  ℕ, ◌≡◌, ◌≢◌, refl, sym, ap, ◌∙◌, true, Option, none, some, Bool-cases, inl, inr, List, [], ◌∷◌,
  ◌++◌, All, arith,
}
use mathlib.Core.Bool.{false≢true}
use mathlib.Core.Path.{subst}
use robine_ci.Prelude.Bytes.{Bytes, bytes_eq, bytes_eq_refl, bytes_eq_sound}
use robine_ci.Redactor.{begins_with}
use robine_ci.Archive.{
  slash, join_parts, clean, clean_parts, is_rooted, join_path, drop_empty, absolute, workspace_path,
  within, join_kept,
}
use robine_ci.Archive.Parts.{IsPlain}
use robine_ci.Archive.Inside.{
  absolute-rooted, clean-rooted, clean_parts-IsPlain, clean_plain, join_path-target,
  join_path_below, some_part, target-IsPlain, target_split,
}

below_parts :
    (workspace p : Bytes) (ps : List Bytes)
    → is_rooted workspace ≡ true
    → clean workspace ≢ slash ∷ []
    → All IsPlain (p ∷ ps)
    → (join_path (workspace ∷ join_parts (p ∷ ps) ∷ [])
        ≡ clean workspace ++ slash ∷ join_parts (p ∷ ps))
      × (clean (clean workspace ++ slash ∷ join_parts (p ∷ ps))
          ≡ clean workspace ++ slash ∷ join_parts (p ∷ ps))
below_parts [] p ps rooted deep h = absurd (false≢true (unfold is_rooted in rooted))
below_parts (c ∷ w) p ps rooted deep h =
    let (q, qs, parts) =
      some_part (clean_parts (c ∷ w)) (λ r. deep (clean-rooted (c ∷ w) rooted ∙ r)) in
    let split = target_split c w q qs rooted parts p ps h in
    (
      join_path-target c w q qs rooted parts p ps h ∙ split,
      ap clean (sym split)
          ∙ clean_plain q (qs ++ p ∷ ps) (target-IsPlain c w q qs rooted parts p ps h)
          ∙ split,
    )

clean-clean : (s : Bytes) → is_rooted s ≡ true → clean s ≢ slash ∷ [] → clean (clean s) ≡ clean s
clean-clean s rooted deep =
    let (q, qs, parts) = some_part (clean_parts s) (λ r. deep (clean-rooted s rooted ∙ r)) in
    let named = clean-rooted s rooted ∙ ap (λ l. slash ∷ join_parts l) parts in
    let plain = subst (λ l. All IsPlain l) parts (clean_parts-IsPlain s rooted) in
    ap clean named ∙ clean_plain q qs plain ∙ sym named

-- A directory in which a path is looked up, and its name.
pub record Anchor (current base : Bytes) : Type 0 where
  pub rooted : is_rooted current ≡ true
  pub deep : clean current ≢ slash ∷ []
  pub named : clean current ≡ base

longer : (c : ℕ) (s t : Bytes) → c ∷ (s ++ slash ∷ t) ≢ slash ∷ []
longer c [] t e = cc
longer c (d ∷ s) t e = cc

below_deep : (s t : Bytes) → is_rooted s ≡ true → s ++ slash ∷ t ≢ slash ∷ []
below_deep [] t rooted e = absurd (false≢true (unfold is_rooted in rooted))
below_deep (c ∷ s) t rooted e = longer c s t e

rooted-append : (s t : Bytes) → is_rooted s ≡ true → is_rooted (s ++ t) ≡ true
unfolding is_rooted
rooted-append [] t e = absurd (false≢true e)
rooted-append (c ∷ s) t e = e

pub rooted-clean : (s : Bytes) → is_rooted s ≡ true → is_rooted (clean s) ≡ true
rooted-clean s e = rw (clean-rooted s e) (unfold is_rooted in refl)

pub Anchor-step :
    {current base : Bytes} (p : Bytes)
    → Anchor current base
    → IsPlain p
    → (join_path (current ∷ p ∷ []) ≡ base ++ slash ∷ p)
      × Anchor (base ++ slash ∷ p) (base ++ slash ∷ p)
unfolding join_parts
Anchor-step {current} {base} p a h =
    let (joined, settled) = below_parts current p [] a.rooted a.deep (h, tt) in
    let top = subst (λ b. is_rooted b ≡ true) a.named (rooted-clean current a.rooted) in
    let same = subst (λ b. clean (b ++ slash ∷ p) ≡ b ++ slash ∷ p) a.named settled in
    (
      joined ∙ ap (λ b. b ++ slash ∷ p) a.named,
      record {
        rooted = rooted-append base (slash ∷ p) top;
        deep = λ e. below_deep base p top (sym same ∙ e);
        named = same;
      },
    )

within_itself : (root : Bytes) → within root root ≡ some root
unfolding within
within_itself root = rw (bytes_eq_refl root) refl

join_path_empty : (c : ℕ) (w : Bytes) → join_path ((c ∷ w) ∷ [] ∷ []) ≡ clean (c ∷ w)
unfolding join_path drop_empty join_kept join_parts
join_path_empty c w = refl

-- The workspace itself.
pub workspace_itself :
    (cwd : Option Bytes) (workspace : Bytes)
    → is_rooted workspace ≡ true
    → clean workspace ≢ slash ∷ []
    → workspace_path cwd workspace [] ≡ some (clean workspace)
unfolding workspace_path
workspace_itself cwd [] rooted deep = absurd (false≢true (unfold is_rooted in rooted))
workspace_itself cwd (c ∷ w) rooted deep =
    let root = clean (c ∷ w) in
    let e = absolute-rooted cwd (c ∷ w) rooted in
    let e' =
      ap (absolute cwd) (join_path_empty c w)
      ∙ absolute-rooted cwd root (rooted-clean (c ∷ w) rooted)
      ∙ ap some (clean-clean (c ∷ w) rooted deep) in
    rw (e, e', workspace_path) (within_itself root)

nothing_rooted : (s : Bytes) → is_rooted s ≡ true → clean s ≢ []
unfolding is_rooted
nothing_rooted s rooted empty = false≢true (ap is_rooted (sym empty) ∙ rooted-clean s rooted)

join_path-rooted :
    (c : ℕ) (w s : Bytes)
    → is_rooted (c ∷ w) ≡ true
    → is_rooted (join_path ((c ∷ w) ∷ s ∷ [])) ≡ true
unfolding is_rooted
join_path-rooted c w [] rooted = rw (join_path_empty c w) (rooted-clean (c ∷ w) rooted)
join_path-rooted c w (d ∷ s) rooted =
    rw (join_path_below c d w s) (rooted-clean ((c ∷ w) ++ slash ∷ d ∷ s) rooted)

gone : {a : Bytes} → none ≡ some a → ⊥
gone e = cc

too_short : (c : ℕ) (x : Bytes) → begins_with (slash ∷ []) ((c ∷ x) ++ slash ∷ []) ≡ true → ⊥
unfolding begins_with
too_short c [] e = ground (arith, e)
too_short c (d ∷ x) e = ground (arith, e)

within-deep :
    (root target found : Bytes)
    → root ≢ slash ∷ []
    → root ≢ []
    → within root target ≡ some found
    → (target ≡ found) × (target ≢ slash ∷ [])
unfolding within
within-deep [] target found deep full e = absurd (full refl)
within-deep (c ∷ x) target found deep full e = elim (Bool-cases (bytes_eq target (c ∷ x))) [
  | inl same ↦
      let e' : some target ≡ some found = rw same at e in
      let is = bytes_eq_sound target (c ∷ x) same in (cc, λ top. deep (sym is ∙ top))
  | inr other ↦ elim (Bool-cases (begins_with target ((c ∷ x) ++ slash ∷ []))) [
    | inl front ↦
        let e' : some target ≡ some found = rw (other, front) at e in
        (
          cc,
          λ top. too_short c x (ap (λ t. begins_with t ((c ∷ x) ++ slash ∷ [])) (sym top) ∙ front),
        )
    | inr apart ↦ let e' : none ≡ some found = rw (other, apart) at e in absurd (gone e')
  ]
]

-- What workspacePath returns is absolute, clean and not `/`, if the workspace is absolute and not `/`.
pub workspace_path-Anchor :
    (cwd : Option Bytes) (workspace relative target : Bytes)
    → is_rooted workspace ≡ true
    → clean workspace ≢ slash ∷ []
    → workspace_path cwd workspace relative ≡ some target
    → Anchor target target
unfolding workspace_path
workspace_path-Anchor cwd [] relative target rooted deep e =
    absurd (false≢true (unfold is_rooted in rooted))
workspace_path-Anchor cwd (c ∷ w) relative target rooted deep e =
    let joined = join_path ((c ∷ w) ∷ relative ∷ []) in
    let rooted' = join_path-rooted c w relative rooted in
    let e' : within (clean (c ∷ w)) (clean joined) ≡ some target =
      rw (absolute-rooted cwd (c ∷ w) rooted, absolute-rooted cwd joined rooted', workspace_path) at
        e in
    let full = λ (empty : clean (c ∷ w) ≡ []). nothing_rooted (c ∷ w) rooted empty in
    let (same, deep') = within-deep (clean (c ∷ w)) (clean joined) target deep full e' in
    let named = clean-clean joined rooted' deep' in
    record {
      rooted = subst (λ t. is_rooted t ≡ true) same (rooted-clean joined rooted');
      deep = subst (λ t. clean t ≢ slash ∷ []) same (λ top. deep' (sym named ∙ top));
      named = subst (λ t. clean t ≡ t) same named;
    }

-- ===== src/Archive/Extract/Walk.antt =====
-- rejectSymlinkComponents: where it refuses nothing, no component of the path is a symbolic link.
use robine_ci.Prelude.{
  ◌≡◌, ◌≢◌, refl, sym, ap, ◌∙◌, false, ◌||◌, Option, none, some, List, [], ◌∷◌, ◌++◌, All,
  Bool-cases, inl, inr,
}
use robine_ci.Prelude.Bytes.{Bytes, bytes_eq, bytes_eq_ne}
use robine_ci.Run.{Run, pure, ◌>>=◌}
use robine_ci.Offer.{is_empty}
use robine_ci.Archive.{slash, dot, split, join_parts, join_path}
use robine_ci.Archive.Parts.{IsPlain, split-join}
use robine_ci.Archive.Anchors.{Anchor, Anchor-step}
use robine_ci.Archive.Names.{clean_join}
use robine_ci.Archive.Extract.{
  Files, Kind, absent, link, other, State, Failure, outside, judge, walk, reject_symlink_components,
}

-- The paths that lead from a directory to what the parts name below it.
abbrev pub paths_below : Bytes → List Bytes → List Bytes
paths_below base [] = []
paths_below base (p ∷ ps) = (base ++ slash ∷ p) ∷ paths_below (base ++ slash ∷ p) ps

not_skipped : (p : Bytes) → IsPlain p → bytes_eq p dot || is_empty p ≡ false
not_skipped [] h = absurd (h.some_name refl)
not_skipped (c ∷ p) h = rw (bytes_eq_ne (c ∷ p) dot h.no_dot) refl

module _ (files : Files) where
  open files use {World, kind}

  abbrev pub NoLinks : List Bytes → World → Type 0
  NoLinks paths w = All (λ q. kind q w ≢ link) paths

  kind-ne-link : {k : Kind} → k ≡ absent → k ≢ link
  kind-ne-link e l = cc

  other-ne-link : {k : Kind} → k ≡ other → k ≢ link
  other-ne-link e l = cc

  absent-NoLinks :
      (base : Bytes) (ps : List Bytes) (w : World)
      → kind base w ≡ absent
      → NoLinks (paths_below base ps) w
  absent-NoLinks base [] w gone = tt
  absent-NoLinks base (p ∷ ps) w gone =
      let gone' = files.absent_below base p w gone in
      (kind-ne-link gone', absent-NoLinks (base ++ slash ∷ p) ps w gone')

  pub NoLinks-kept :
      (paths : List Bytes) (w w' : World)
      → ((q : Bytes) → kind q w ≢ link → kind q w' ≢ link)
      → NoLinks paths w
      → NoLinks paths w'
  NoLinks-kept [] w w' kept h = tt
  NoLinks-kept (q ∷ paths) w w' kept h = (kept q h.0, NoLinks-kept paths w w' kept h.1)

  -- What an action that only looks at the files keeps.
  pub record Looks (s t : State files) : Type 0 where
    pub kinds : (q : Bytes) → kind q t.world ≡ kind q s.world
    pub nothing_made : t.made ≡ s.made

  lstat-Looks : (p : Bytes) (s : State files) → Looks s (outside files (files.lstat p) s).1
  unfolding outside
  lstat-Looks p s = record { kinds = λ q. files.lstat_keeps p q s.world; nothing_made = refl }

  Looks-trans : {s t u : State files} → Looks s t → Looks t u → Looks s u
  Looks-trans a b = record {
    kinds = λ q. b.kinds q ∙ a.kinds q;
    nothing_made = b.nothing_made ∙ a.nothing_made;
  }

  Looks-refl : (s : State files) → Looks s s
  Looks-refl s = record { kinds = λ q. refl; nothing_made = refl }

  -- One round of the loop, for a part that is not skipped.
  abbrev round : Bytes → List Bytes → Run (State files) (Option Failure)
  round next ps =
      outside files (files.lstat next) >>= λ found. judge files found (walk files next ps)

  walk-round :
      (current p : Bytes) (ps : List Bytes) (s : State files)
      → IsPlain p
      → walk files current (p ∷ ps) s ≡ round (join_path (current ∷ p ∷ [])) ps s
  unfolding walk
  walk-round current p ps s h = rw (not_skipped p h) refl

  judge-Looks :
      (found : Option Kind) (rest : Run (State files) (Option Failure)) (s : State files)
      → Looks s (rest s).1
      → Looks s (judge files found rest s).1
  unfolding judge pure
  judge-Looks none rest s h = Looks-refl s
  judge-Looks (some absent) rest s h = Looks-refl s
  judge-Looks (some link) rest s h = Looks-refl s
  judge-Looks (some other) rest s h = h

  pub walk-Looks :
      (current : Bytes) (ps : List Bytes) (s : State files) → Looks s (walk files current ps s).1
  unfolding walk pure ◌>>=◌
  walk-Looks current [] s = Looks-refl s
  walk-Looks current (p ∷ ps) s = elim (Bool-cases (bytes_eq p dot || is_empty p)) [
    | inl e ↦ rw e (walk-Looks current ps s)
    | inr e ↦
        let next = join_path (current ∷ p ∷ []) in
        let seen = outside files (files.lstat next) s in
        rw e (
          Looks-trans (lstat-Looks next s)
            (judge-Looks seen.0 (walk files next ps) seen.1 (walk-Looks next ps seen.1)))
  ]

  -- What was judged to be no link.
  judge-clear :
      (found : Option Kind) (rest : Run (State files) (Option Failure)) (s : State files)
      (q : Bytes) (ps : List Bytes)
      → ((k : Kind) → found ≡ some k → kind q s.world ≡ k)
      → ((rest s).0 ≡ none → NoLinks (paths_below q ps) s.world)
      → (judge files found rest s).0 ≡ none
      → (kind q s.world ≢ link) × NoLinks (paths_below q ps) s.world
  unfolding judge pure
  judge-clear none rest s q ps reads later e = cc
  judge-clear (some absent) rest s q ps reads later e =
      (kind-ne-link (reads absent refl), absent-NoLinks q ps s.world (reads absent refl))
  judge-clear (some link) rest s q ps reads later e = cc
  judge-clear (some other) rest s q ps reads later e = (other-ne-link (reads other refl), later e)

  pub walk_clear :
      (current base : Bytes) (ps : List Bytes) (s : State files)
      → Anchor current base
      → All IsPlain ps
      → (walk files current ps s).0 ≡ none
      → NoLinks (paths_below base ps) s.world
  unfolding ◌>>=◌
  walk_clear current base [] s a h e = tt
  walk_clear current base (p ∷ ps) s a h e =
      let (joined, a') = Anchor-step p a h.0 in
      let q = base ++ slash ∷ p in
      let seen = outside files (files.lstat q) s in
      let looked = lstat-Looks q s in
      let e' : (judge files seen.0 (walk files q ps) seen.1).0 ≡ none =
        ap (λ x. (round x ps s).0) (sym joined)
        ∙ ap (λ r. r.0) (sym (walk-round current p ps s h.0))
        ∙ e in
      let (first, rest) =
        judge-clear seen.0 (walk files q ps) seen.1 q ps
          (λ k found. looked.kinds q ∙ files.lstat_reads q k s.world (unfold outside in found))
          (λ fine. walk_clear q q ps seen.1 a' h.1 fine) e' in
      let back = λ (x : Bytes).
        λ (n : kind x seen.1.world ≢ link). λ (l : kind x s.world ≡ link). n (looked.kinds x ∙ l) in
      (back q first, NoLinks-kept (paths_below q ps) seen.1.world s.world back rest)

  -- What rejectSymlinkComponents lets pass below a directory.
  pub reject-clear :
      (root base p : Bytes) (ps : List Bytes) (s : State files)
      → Anchor root base
      → All IsPlain (p ∷ ps)
      → (reject_symlink_components files root (join_parts (p ∷ ps)) s).0 ≡ none
      → NoLinks (paths_below base (p ∷ ps)) s.world
  unfolding reject_symlink_components
  reject-clear root base p ps s a h e =
      let parts = ap split (clean_join p ps h) ∙ split-join p ps h in
      walk_clear root base (p ∷ ps) s a h (ap (λ l. (walk files root l s).0) (sym parts) ∙ e)

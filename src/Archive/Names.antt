-- ===== src/Archive/Names.antt =====
-- What safeArchiveName returns.
use robine_ci.Prelude.{
  ◌≡◌, ◌≢◌, refl, sym, ap, ◌∙◌, Bool, true, false, ◌||◌, Option, none, some, List, [], ◌∷◌, ◌++◌,
  All, append-nil, arith, inl, inr, Bool-cases, if◌then◌else◌, ltb, length,
}
use mathlib.Core.Bool.{false≢true}
use robine_ci.Prelude.Bytes.{Bytes, codes, bytes_eq}
use robine_ci.Offer.{is_empty}
use robine_ci.Archive.{
  slash, dot, dots, split, join_parts, clean_onto, unstack, clean, clean_parts, is_rooted,
  join_path, drop_empty, join_kept, workspace_path, is_unsafe_part, any_unsafe, strip_source,
  safe_archive_name, archive_name, contains_nul, max_archive_path_size,
}
use robine_ci.Archive.Parts.{
  IsPlain, HasNoSlash, ne_of_false, split_nonempty, split-join, split-HasNoSlash, clean_onto_plain,
}
use robine_ci.Archive.Inside.{join_plain_first, plain_inside}

some_ne_none : {a : Bytes} → some a ≡ none → ⊥
some_ne_none e = cc

pub or_false : (a b : Bool) → a || b ≡ false → (a ≡ false) × (b ≡ false)
or_false true b h = absurd (false≢true (sym h))
or_false false b h = (refl, h)

part-IsPlain : (p : Bytes) → is_unsafe_part p ≡ false → HasNoSlash p → IsPlain p
unfolding is_unsafe_part
part-IsPlain [] e h = absurd (false≢true (sym e))
part-IsPlain (c ∷ p) e h =
    let (d, d') = or_false (bytes_eq (c ∷ p) dot) (bytes_eq (c ∷ p) dots) e in
    record {
      some_name = λ q. cc;
      no_dot = ne_of_false (c ∷ p) dot d;
      no_dots = ne_of_false (c ∷ p) dots d';
      no_slash = h;
    }

parts-IsPlain : (ps : List Bytes) → any_unsafe ps ≡ false → All HasNoSlash ps → All IsPlain ps
unfolding any_unsafe
parts-IsPlain [] e h = tt
parts-IsPlain (p ∷ ps) e h =
    let (a, b) = or_false (is_unsafe_part p) (any_unsafe ps) e in
    (part-IsPlain p a h.0, parts-IsPlain ps b h.1)

drop_empty_plain : (ps : List Bytes) → All IsPlain ps → drop_empty ps ≡ ps
unfolding drop_empty
drop_empty_plain [] h = refl
drop_empty_plain ([] ∷ ps) h = absurd (h.0.some_name refl)
drop_empty_plain ((c ∷ p) ∷ ps) h = ap (◌∷◌ (c ∷ p)) (drop_empty_plain ps h.1)

clean_parts_plain :
    (p : Bytes) (ps : List Bytes)
    → All IsPlain (p ∷ ps)
    → clean_parts (join_parts (p ∷ ps)) ≡ p ∷ ps
unfolding unstack
clean_parts_plain p ps h =
    let rooted = is_rooted (join_parts (p ∷ ps)) in
    ap (λ l. unstack (clean_onto rooted [] l) []) (split-join p ps h)
    ∙ clean_onto_plain rooted [] (p ∷ ps) [] h
    ∙ append-nil (p ∷ ps)

plain-relative : (p : Bytes) (ps : List Bytes) → IsPlain p → is_rooted (join_parts (p ∷ ps)) ≡ false
unfolding is_rooted
plain-relative p ps h =
    let (d, r, e, ne) = join_plain_first p ps h in ap is_rooted e ∙ ground (arith, ne)

pub clean-relative :
    (s : Bytes)
    → is_rooted s ≡ false
    → clean s ≡ (if is_empty (clean_parts s) then dot else join_parts (clean_parts s))
unfolding clean
clean-relative s e = rw e

-- A relative path of plain parts is clean.
pub clean_join :
    (p : Bytes) (ps : List Bytes)
    → All IsPlain (p ∷ ps)
    → clean (join_parts (p ∷ ps)) ≡ join_parts (p ∷ ps)
clean_join p ps h =
    clean-relative (join_parts (p ∷ ps)) (plain-relative p ps h.0)
    ∙ ap (λ l. if is_empty l then dot else join_parts l) (clean_parts_plain p ps h)

pub join_path_plain :
    (p : Bytes) (ps : List Bytes) → All IsPlain (p ∷ ps) → join_path (p ∷ ps) ≡ join_parts (p ∷ ps)
unfolding join_path join_kept
join_path_plain p ps h = ap join_kept (drop_empty_plain (p ∷ ps) h) ∙ clean_join p ps h

-- The result of safeArchiveName names the workspace itself, or plain parts below it.
pub data IsSafe : Bytes → Type 0 where
  itself : {name : Bytes} → name ≡ [] → IsSafe name
  below :
      {name : Bytes} (p : Bytes) (ps : List Bytes)
      → All IsPlain (p ∷ ps)
      → name ≡ join_parts (p ∷ ps)
      → IsSafe name

strip_source-IsSafe :
    (strip : Bool) (parts : List Bytes) (name : Bytes)
    → parts ≢ []
    → All IsPlain parts
    → strip_source strip parts ≡ some name
    → IsSafe name
unfolding strip_source
strip_source-IsSafe strip [] name full h e = absurd (full refl)
strip_source-IsSafe false (p ∷ ps) name full h e =
    let e' : join_path (p ∷ ps) ≡ name = cc in below p ps h (sym e' ∙ join_path_plain p ps h)
strip_source-IsSafe true (p ∷ []) name full h e = elim (Bool-cases (bytes_eq p (codes "source"))) [
  | inl hit ↦
      let e' : some [] ≡ some name = rw hit at e in let e'' : [] ≡ name = cc in itself (sym e'')
  | inr miss ↦ let e' : none ≡ some name = rw miss at e in absurd (some_ne_none (sym e'))
]
strip_source-IsSafe true (p ∷ q ∷ ps) name full h e =
    elim (Bool-cases (bytes_eq p (codes "source"))) [
      | inl hit ↦
          let e' : some (join_path (q ∷ ps)) ≡ some name = rw hit at e in
          let e'' : join_path (q ∷ ps) ≡ name = cc in
          below q ps h.1 (sym e'' ∙ join_path_plain q ps h.1)
      | inr miss ↦ let e' : none ≡ some name = rw miss at e in absurd (some_ne_none (sym e'))
    ]

-- A name that safeArchiveName returns, with or without the root `source`, is empty or is made of parts
-- joined by slashes, none of which is empty, `.` or `..` or has a slash in it.
pub safe_archive_name-IsSafe :
    (raw : Bytes) (strip : Bool) (name : Bytes)
    → safe_archive_name raw strip ≡ some name
    → IsSafe name
unfolding safe_archive_name
safe_archive_name-IsSafe raw strip name e =
    let n = archive_name raw in
    let bad = is_empty n || ltb max_archive_path_size (length n) || contains_nul n || is_rooted n in
    elim (Bool-cases bad) [
      | inl refused ↦ let e' : none ≡ some name = rw refused at e in absurd (some_ne_none (sym e'))
      | inr fine ↦ elim (Bool-cases (any_unsafe (split n))) [
        | inl unsafe ↦
            let e' : none ≡ some name = rw (fine, unsafe) at e in absurd (some_ne_none (sym e'))
        | inr safe ↦
            strip_source-IsSafe strip (split n) name (split_nonempty n)
              (parts-IsPlain (split n) safe (split-HasNoSlash n)) (rw (fine, safe) at e)
      ]
    ]

-- An entry of an archive is unpacked below the workspace, wherever that is: if its name is safe and
-- does not name the workspace itself, then for an absolute workspace other than `/` workspacePath
-- does not refuse it, and gives the clean workspace with a slash and the name behind it.
pub archive_entry_inside :
    (raw : Bytes) (strip : Bool) (name workspace : Bytes) (cwd : Option Bytes)
    → safe_archive_name raw strip ≡ some name
    → name ≢ []
    → is_rooted workspace ≡ true
    → clean workspace ≢ slash ∷ []
    → workspace_path cwd workspace name ≡ some (clean workspace ++ slash ∷ name)
archive_entry_inside raw strip name workspace cwd e full rooted deep =
    elim (safe_archive_name-IsSafe raw strip name e) [
      | itself gone ↦ absurd (full gone)
      | below p ps h same ↦
          ap (workspace_path cwd workspace) same
          ∙ plain_inside cwd workspace p ps rooted deep h
          ∙ ap (λ x. some (clean workspace ++ slash ∷ x)) (sym same)
    ]

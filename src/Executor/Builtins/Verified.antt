-- ===== src/Executor/Builtins/Verified.antt =====
-- What a built-in step makes in the workspace comes from a response whose digest was checked.
use mathlib.Core.Path.{subst}
use robine_ci.Prelude.{
  ◌≡◌, ◌≢◌, refl, sym, ap, ap₂, ◌∙◌, Bool, true, false, not, ◌||◌, ◌&&◌, Option, none, some, List,
  [], ◌∷◌, ◌++◌, ◌⊎◌, inl, inr, ◌==◌, All, Bool-cases, Option-cases, arith,
}
use robine_ci.Prelude.Bytes.{Bytes, codes, bytes_eq}
use robine_ci.Prelude.Checks.{denied}
use robine_ci.Run.{pure, ◌>>=◌}
use robine_ci.Offer.{JobStep, is_empty}
use robine_ci.Archive.{slash, split, clean, is_rooted, workspace_path, dot}
use robine_ci.Archive.Anchors.{workspace_path-Anchor}
use robine_ci.Archive.Extract.{
  Files, State, Made, Entries, making, reject_symlink_components, extract_archive,
}
use robine_ci.Archive.Extract.Walk.{walk-Looks}
use robine_ci.Archive.Extract.Confined.{Guarded, Confined, extract_archive-Confined}
use robine_ci.Archive.Create.{Packing}
use robine_ci.Transfer
use robine_ci.Transfer.{Http, Response, Client, Download, equal_fold, get_transfer, get_request}
use robine_ci.Transfer.Whole.{
  IsAuthentic, IsWhole, get_transfer-IsWhole, HasDigest, get_transfer-HasDigest,
}
use robine_ci.Executor.Builtins.{
  Both, on_files, on_http, after_make, after_reject, after_target, after_get, download_from,
  download_artifact, restore_cache, execute_builtin,
}

apart :
    {failure : Transfer.Failure} {d : Download}
    → ◌≡◌ {A = Download ⊎ Transfer.Failure} (inr failure) (inl d)
    → ⊥
apart e = cc

module _ (files : Files) (packing : Packing files.World) (http : Http) (client : Client)
    (unpack : Bytes → Option Entries) (with_query : Bytes → List (Bytes × Bytes) → Option Bytes)
    (os architecture : Bytes) (cwd : Option Bytes) (builtins_url workspace : Bytes) where
  -- The response that a request for an archive brought, from the world of the request: its status is
  -- 200, and the digest that it gives is that of its body.
  pub record IsVerified (w : http.World) (response : Response) : Type 0 where
    pub endpoint : Bytes
    pub answered :
        (http.call (get_request client endpoint (codes "application/gzip")) w).0 ≡ some response
    pub status : response.status == 200 ≡ true
    pub given : is_empty response.content_digest ≡ false
    pub digest : equal_fold response.content_digest (http.digest response.body) ≡ true

  -- os.MkdirAll of the target, where no component of the destination was refused.
  abbrev pub make_target : Bytes → Bytes → State files → Bool × State files
  make_target destination target start =
      making files target (files.make_dirs target)
        (reject_symlink_components files workspace destination start).1

  -- How the files come from `start` to `final` with what the response holds: the destination is one
  -- that workspacePath gives and rejectSymlinkComponents lets pass at `start`; its directory is made;
  -- and if that works the body is unpacked there, and nothing else is done. All that was made is that
  -- directory, or stands there, with no link on the way.
  pub record Unpacked (w : http.World) (start final : State files) : Type 0 where
    pub response : Response
    pub verified : IsVerified w response
    pub destination : Bytes
    pub target : Bytes
    pub found : workspace_path cwd workspace destination ≡ some target
    pub accepted : (reject_symlink_components files workspace destination start).0 ≡ none
    pub made :
        (((make_target destination target start).0 ≡ false)
          × (final ≡ (make_target destination target start).1))
        ⊎ (((make_target destination target start).0 ≡ true)
            × (final
                ≡ (extract_archive files unpack cwd response.body target false
                    (make_target destination target start).1).1))
    pub all : All (Guarded files target) final.made

  -- Nothing was made, or what a checked response holds.
  abbrev pub Fine : http.World → State files → Both files packing http → Type 0
  Fine w start s = (s.0.made ≡ []) ⊎ Unpacked w start s.0

  module _ (rooted : is_rooted workspace ≡ true) (deep : clean workspace ≢ slash ∷ [])
      (w : http.World) (start : State files) (response : Response)
      (verified : IsVerified w response) (destination : Bytes) where
    module _ (target : Bytes) (found : workspace_path cwd workspace destination ≡ some target)
        (accepted : (reject_symlink_components files workspace destination start).0 ≡ none) where
      abbrev with_target : Bool × State files
      with_target = make_target destination target start

      after_make-Fine :
          (made : Bool) (final : http.World)
          → with_target.0 ≡ made
          → Confined files target with_target.1
          → Fine w start
              (after_make files packing http client unpack with_query os architecture cwd
                builtins_url workspace response.body target made
                (with_target.1, final)).1
      unfolding after_make on_files ◌>>=◌ pure
      after_make-Fine false final e c = inr (record {
        response = response;
        verified = verified;
        destination = destination;
        target = target;
        found = found;
        accepted = accepted;
        made = inl (e, refl);
        all = c.all;
      })
      after_make-Fine true final e c =
          let a = workspace_path-Anchor cwd workspace destination target rooted deep found in
          let c' =
            extract_archive-Confined files unpack cwd response.body target false with_target.1
              a.rooted a.deep c in
          inr (record {
            response = response;
            verified = verified;
            destination = destination;
            target = target;
            found = found;
            accepted = accepted;
            made = inr (e, refl);
            all = c'.all;
          })

      make_target-Confined : start.made ≡ [] → Confined files target with_target.1
      unfolding making reject_symlink_components
      make_target-Confined empty =
          let a = workspace_path-Anchor cwd workspace destination target rooted deep found in
          let looked = walk-Looks files workspace (split (clean destination)) start in
          let before = (reject_symlink_components files workspace destination start).1.world in
          let entry : Made files = record { path = target; before = before } in
          let first : Guarded files target entry = record {
            parts = [];
            plain = tt;
            stands = inl (sym a.named);
            clear = tt;
          } in
          record {
            all =
                subst (λ m. All (Guarded files target) (m ++ entry ∷ []))
                  (sym (looked.nothing_made ∙ empty)) (first, tt);
          }

    after_target-Fine :
        (final : http.World)
        → start.made ≡ []
        → Fine w start
            (after_target files packing http client unpack with_query os architecture cwd
              builtins_url workspace response.body destination
              (workspace_path cwd workspace destination)
              (start, final)).1
    unfolding after_target after_reject on_files reject_symlink_components ◌>>=◌ pure
    after_target-Fine final empty = elim (Option-cases (workspace_path cwd workspace destination)) [
      | inl e ↦ rw (e, after_target) (inl empty)
      | inr (target, e) ↦
          let looked = walk-Looks files workspace (split (clean destination)) start in
          elim (Option-cases (reject_symlink_components files workspace destination start).0) [
            | inr (failure, e') ↦
                rw (e, after_target, e', after_reject) (inl (looked.nothing_made ∙ empty))
            | inl e' ↦
                rw (e, after_target, e', after_reject)
                  (after_make-Fine target e e' (make_target destination target start).0 final refl
                    (make_target-Confined target e e' empty))
          ]
    ]

  checked :
      (given : Bytes) (same : Bool) (ok : Bool)
      → ok ≡ true
      → is_empty given ≡ false
      → (ok ≡ false) ⊎ (given ≡ []) ⊎ (same ≡ true)
      → same ≡ true
  checked given same ok e full (inl bad) = absurd (ground (arith, e, bad))
  checked given same ok e full (inr (inl empty)) = absurd (ground (arith, full, ap is_empty empty))
  checked given same ok e full (inr (inr fine)) = fine

  -- A download that `get` returns, with the response that it was read from.
  record IsFetched (w : http.World) (d : Download) : Type 0 where
    pub endpoint : Bytes
    pub response : Response
    pub answered :
        (http.call (get_request client endpoint (codes "application/gzip")) w).0 ≡ some response
    pub body : d.body ≡ response.body
    pub status : d.status ≡ response.status
    pub digest : d.content_digest ≡ response.content_digest
    pub authentic : IsAuthentic http d

  get_transfer-IsFetched :
      (endpoint : Bytes) (w : http.World) (answer : Option Response)
      (result : Download ⊎ Transfer.Failure) (d : Download)
      → (http.call (get_request client endpoint (codes "application/gzip")) w).0 ≡ answer
      → IsWhole http client answer result
      → HasDigest http client answer result
      → result ≡ inl d
      → IsFetched w d
  get_transfer-IsFetched endpoint w none (inl d') d answered h g e = absurd h
  get_transfer-IsFetched endpoint w (some response) (inl d') d answered h g e =
      let same : d' ≡ d = cc in
      record {
        endpoint = endpoint;
        response = response;
        answered = answered;
        body = ap (λ x. x.body) (sym same) ∙ h.0;
        status = ap (λ x. x.status) (sym same) ∙ h.1;
        digest = ap (λ x. x.content_digest) (sym same) ∙ g;
        authentic = subst (IsAuthentic http) same h.3;
      }
  get_transfer-IsFetched endpoint w answer (inr failure) d answered h g e = absurd (apart e)

  IsFetched-IsVerified :
      (w : http.World) (d : Download) (f : IsFetched w d)
      → d.status == 200 ≡ true
      → is_empty d.content_digest ≡ false
      → IsVerified w f.response
  IsFetched-IsVerified w d f ok full =
      let same = checked d.content_digest _ (d.status == 200) ok full f.authentic in
      record {
        endpoint = f.endpoint;
        answered = f.answered;
        status = ap (λ n. n == 200) (sym f.status) ∙ ok;
        given = ap is_empty (sym f.digest) ∙ full;
        digest = ap₂ (λ x y. equal_fold x (http.digest y)) (sym f.digest) (sym f.body) ∙ same;
      }

  module _ (rooted : is_rooted workspace ≡ true) (deep : clean workspace ≢ slash ∷ [])
      (w : http.World) (start : State files) (empty : start.made ≡ []) where
    after_get-Fine :
        {E : Type 0} (value destination : Bytes) (result : Download ⊎ E) (final : http.World)
        → ((d : Download) → result ≡ inl d → IsFetched w d)
        → Fine w start
            (after_get files packing http client unpack with_query os architecture cwd builtins_url
              workspace value destination result
              (start, final)).1
    unfolding after_get pure
    after_get-Fine value destination (inr failure) final fetched = inl empty
    after_get-Fine value destination (inl d) final fetched =
        elim (Bool-cases (d.status == 204 && bytes_eq value (codes "cache/restore"))) [
          | inl e ↦ rw e (inl empty)
          | inr e ↦ elim (Bool-cases (not (d.status == 200))) [
            | inl e' ↦ rw (e, e') (inl empty)
            | inr e' ↦ elim (Bool-cases (is_empty d.content_digest)) [
              | inl e'' ↦ rw (e, e', e'') (inl empty)
              | inr e'' ↦
                  let f = fetched d refl in
                  let v = IsFetched-IsVerified w d f (denied (d.status == 200) e') e'' in
                  rw (e, e', e'', f.body)
                    (after_target-Fine rooted deep w start f.response v destination final empty)
            ]
          ]
        ]

    download_from-Fine :
        (value destination : Bytes) (url : Option Bytes)
        → Fine w start
            (download_from files packing http client unpack with_query os architecture cwd
              builtins_url workspace value destination url
              (start, w)).1
    unfolding download_from on_http ◌>>=◌ pure
    download_from-Fine value destination none = inl empty
    download_from-Fine value destination (some url) =
        let accept = codes "application/gzip" in
        let result = get_transfer http client url accept w in
        after_get-Fine value destination result.0 result.1 (λ d e.
          get_transfer-IsFetched url w _ result.0 d refl
            (get_transfer-IsWhole http client url accept w)
            (get_transfer-HasDigest http client url accept w) e)

    download_artifact-Fine :
        (step : JobStep) (name from : Option Bytes)
        → Fine w start
            (download_artifact files packing http client unpack with_query os architecture cwd
              builtins_url workspace step name from
              (start, w)).1
    unfolding download_artifact pure
    download_artifact-Fine step (some name) (some from) = download_from-Fine step.value _ _
    download_artifact-Fine step none from = inl empty
    download_artifact-Fine step (some name) none = inl empty

    restore_cache-Fine :
        (step : JobStep) (key : Option Bytes)
        → Fine w start
            (restore_cache files packing http client unpack with_query os architecture cwd
              builtins_url workspace step key
              (start, w)).1
    unfolding restore_cache pure
    restore_cache-Fine step none = inl empty
    restore_cache-Fine step (some key) = download_from-Fine step.value dot _

  module _ (rooted : is_rooted workspace ≡ true) (deep : clean workspace ≢ slash ∷ []) where
    -- A built-in step that does not upload, and begins with nothing made in an absolute workspace other
    -- than `/`, makes nothing, or: a request from the world of the step brought a response with the
    -- status 200 that gives the digest of its body; workspacePath gives a directory for the step's
    -- destination, and rejectSymlinkComponents lets the destination pass; that directory is made, and
    -- if that works the body of that response is unpacked there, and nothing else is made. Each thing
    -- made is that directory, or stands below it under plain names, or is the directory that holds such
    -- a path, and when it was made no path that leads there from that directory was a symbolic link.
    pub execute_builtin-Unpacked :
        (step : JobStep) (start : State files) (w : http.World)
        → bytes_eq step.value (codes "artifacts/upload") || bytes_eq step.value (codes "cache/save")
          ≡ false
        → start.made ≡ []
        → Fine w start
            (execute_builtin files packing http client unpack with_query os architecture cwd
              builtins_url workspace step
              (start, w)).1
    unfolding execute_builtin pure
    execute_builtin-Unpacked step start w no_upload empty =
        rw no_upload (elim (Bool-cases (bytes_eq step.value (codes "artifacts/download"))) [
          | inl e ↦ rw e (download_artifact-Fine rooted deep w start empty step _ _)
          | inr e ↦ elim (Bool-cases (bytes_eq step.value (codes "cache/restore"))) [
            | inl e' ↦ rw (e, e') (restore_cache-Fine rooted deep w start empty step _)
            | inr e' ↦ rw (e, e') (inl empty)
          ]
        ])

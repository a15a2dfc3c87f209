-- ===== src/Transfer/Enrolled.antt =====
-- Enroll of http.go: the configuration of an enrollment whose options ParseCommand has checked.
use mathlib.Core.Path.{subst}
use robine_ci.Prelude.{
  take, ℕ, suc, ◌≡◌, refl, sym, false, not, ◌||◌, Option, none, some, [], ◌∷◌, length, ltb, ◌==◌,
  if◌then◌else◌, Bool-cases, ◌⊎◌, inl, inr, arith,
}
use robine_ci.Prelude.Bytes.{Bytes, bytes_eq}
use robine_ci.Prelude.Int.{ℤ, pos, negsuc}
use robine_ci.Prelude.Checks.{or_false, passed, refused}
use robine_ci.Offer.{is_empty}
use robine_ci.Run.{pure, ◌>>=◌}
use robine_ci.Strings.{trim_space}
use robine_ci.Config.{
  Config, Url, below, above, is_zero, has_separator, or_default, executor_of, namespace_of,
  cpu_millis_of, memory_bytes_of, pids_limit_of, validate, validate_executor_options,
  transfer_max_archive_bytes,
}
use robine_ci.Config.Commands.{EnrollOptions}
use robine_ci.Config.Commands.Accepted.{IsEnrollable}
use robine_ci.Transfer.{
  Http, Response, Failure, enroll, enroll_request, enrolled, enrolled_from, enrolled_as,
  enrolled_config,
}

-- A number that is refused where it is zero is not replaced by a default.
kept_number : (c d : ℤ) (low : ℕ) → below c (suc low) ≡ false → (if is_zero c then d else c) ≡ c
unfolding below is_zero
kept_number (pos n) d low h = let some_of : n == 0 ≡ false = ground (arith, h) in rw some_of refl
kept_number (negsuc n) d low h = refl

kept_text : (s d : Bytes) → is_empty s ≡ false → or_default s d ≡ s
kept_text [] d h = cc
kept_text (c ∷ s) d h = refl

executor_given :
    (e n : Bytes) (c m p : ℤ) → validate_executor_options e n c m p ≡ none → is_empty e ≡ false
unfolding validate_executor_options bytes_eq
executor_given [] n c m p h = absurd (refused h)
executor_given (x ∷ e) n c m p h = refl

-- The options that are checked are not replaced by defaults.
options_kept :
    (e n : Bytes) (c m p : ℤ)
    → validate_executor_options e n c m p ≡ none
    → (is_empty n ≡ false)
      × (below c 100 ≡ false)
      × (below m 67_108_864 ≡ false)
      × (below p 16 ≡ false)
unfolding validate_executor_options
options_kept e n c m p h =
    let (_, h1) = passed _ _ _ h in
    let (named, h2) = passed (is_empty n || ltb 80 (length n) || has_separator n) _ _ h1 in
    let (limits, _) =
      passed
        (below c 100
          || above c 256_000
          || below m 67_108_864
          || above m 1_099_511_627_776
          || below p 16
          || above p 1_000_000)
        _ _ h2 in
    let (l5, _) = or_false _ (above p 1_000_000) limits in
    let (l4, pids) = or_false _ (below p 16) l5 in
    let (l3, _) = or_false _ (above m 1_099_511_627_776) l4 in
    let (l2, memory) = or_false _ (below m 67_108_864) l3 in
    let (cpu, _) = or_false (below c 100) _ l2 in
    let (l1, _) = or_false (is_empty n || ltb 80 (length n)) _ named in
    ((or_false (is_empty n) _ l1).0, cpu, memory, pids)

module _ (http : Http) (o : EnrollOptions) where
  -- The configuration is made of the options and of what the server has given.
  abbrev IsMade : Config ⊎ Failure → Type 0
  IsMade (inl cfg) =
      (id : Bytes) × (credential : Bytes) × (cfg ≡ enrolled_config http o id credential)
  IsMade (inr failure) = Unit

  enrolled_as-IsMade : (decoded : Option (Bytes × Bytes)) → IsMade (enrolled_as http o decoded)
  unfolding enrolled_as
  enrolled_as-IsMade none = tt
  enrolled_as-IsMade (some (id, credential)) =
      elim (Bool-cases (is_empty id || is_empty credential)) [
        | inl e ↦ rw e tt
        | inr e ↦ rw e (id, credential, refl)
      ]

  enrolled-IsMade : (response : Option Response) → IsMade (enrolled http o response)
  unfolding enrolled
  enrolled-IsMade none = tt
  enrolled-IsMade (some response) = elim (Bool-cases (not (response.status == 201))) [
    | inl e ↦ rw e tt
    | inr e ↦ rw e (
        unfold enrolled_from in
        enrolled_as-IsMade (http.decode_enrollment (take 65_536 response.body)))
  ]

  made-valid :
      (parse_url : Bytes → Option Url) (token variable id credential : Bytes)
      → IsEnrollable parse_url token o
      → is_empty (trim_space o.name) ≡ false
      → is_empty (trim_space id) ≡ false
      → is_empty (trim_space credential) ≡ false
      → (transfer_max_archive_bytes variable).1 ≡ none
      → validate parse_url variable (enrolled_config http o id credential) ≡ none
  unfolding enrolled_config validate executor_of namespace_of cpu_millis_of memory_bytes_of
      pids_limit_of
  made-valid parse_url token variable id credential ok name runner secret limit =
      let executor =
        executor_given o.executor o.resource_namespace o.cpu_millis o.memory_bytes o.pids_limit
          ok.executor in
      let (namespace, cpu, memory, pids) =
        options_kept o.executor o.resource_namespace o.cpu_millis o.memory_bytes o.pids_limit
          ok.executor in
      rw
        (
          runner,
          secret,
          name,
          ok.server,
          limit,
          executor,
          namespace,
          kept_number o.cpu_millis (pos 2_000) 99 cpu,
          kept_number o.memory_bytes (pos 4_294_967_296) 67_108_863 memory,
          kept_number o.pids_limit (pos 512) 15 pids,
        )
        ok.executor

  -- With the options of an enrollment that ParseCommand has checked, a name that is not blank, a limit on
  -- transfers that is valid, and an id and a credential from the server that are not blank, the
  -- configuration that Enroll gives is valid, so that it can be written and loaded.
  pub enroll-valid :
      (parse_url : Bytes → Option Url) (token variable : Bytes) (w : http.World) (cfg : Config)
      → IsEnrollable parse_url token o
      → is_empty (trim_space o.name) ≡ false
      → (transfer_max_archive_bytes variable).1 ≡ none
      → (enroll http o w).0 ≡ inl cfg
      → is_empty (trim_space cfg.runner_id) ≡ false
      → is_empty (trim_space cfg.credential) ≡ false
      → validate parse_url variable cfg ≡ none
  unfolding enroll enrolled_config ◌>>=◌ pure
  enroll-valid parse_url token variable w cfg ok name limit given runner secret =
      let (id, credential, same) =
        subst IsMade given (enrolled-IsMade (http.call (enroll_request http o) w).0) in
      let valid =
        made-valid parse_url token variable id credential ok name (rw same at runner)
          (rw same at secret) limit in
      subst (λ c. validate parse_url variable c ≡ none) (sym same) valid

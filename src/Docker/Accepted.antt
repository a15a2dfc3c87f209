-- ===== src/Docker/Accepted.antt =====
-- docker_executor.go: decodeDockerServices. What holds of the services that it accepts.
use robine_ci.Prelude.{
  ◌≤◌, ◌≡◌, ◌≢◌, refl, sym, ap₂, Bool, true, false, not, ◌||◌, ◌&&◌, Option, none, some, List, [],
  ◌∷◌, ltb, length, if◌then◌else◌, ◌⊎◌, inl, inr, arith, In, All, Bool-cases,
}
use mathlib.Core.Path.{subst}
use mathlib.Core.Bool.{false≢true}
use robine_ci.Prelude.Bytes.{Bytes, codes, bytes_eq, bytes_eq_sound}
use robine_ci.Prelude.Checks.{or_false, neither, and_true, denied, passed}
use robine_ci.Offer.{Json, is_empty}
use robine_ci.Redactor.{begins_with}
use robine_ci.Config.Valid.{Between, between}
use robine_ci.Config.{below, above}
use robine_ci.Strings.{contains, sort_strings}
use robine_ci.Executor.Environment.{Variables}
use robine_ci.Docker.{Service, Readiness, safe_id}
use robine_ci.Docker.Arguments.{keys, mem, mem_sound}
use robine_ci.Docker.Services.{
  secrets_available, readiness_refused, service_error, decoded_service, accepted, with_service,
  decode_ids, decode_services, unmarshal_of, document_of,
}

abbrev pub IsReady : Option Readiness → Type 0
IsReady none = Unit
IsReady (some r) = Between 1 65535 r.tcp × Between 1_000 120_000 r.timeout_ms

-- A service that may run, with the secrets of the job.
pub record IsAllowed (secrets : Variables) (service : Service) : Type 0 where
  pub named : service.id ≢ []
  pub safe : safe_id service.id ≡ service.id
  pub pictured : service.image ≢ []
  pub short :
      (length service.env ≤ 64) × (length service.secret_env ≤ 64) × (length service.command ≤ 32)
  pub privilege :
      (service.privileged ≡ false)
      ⊎ ((service.id ≡ codes "docker")
          × (begins_with service.image (codes "docker:") ≡ true)
          × (contains service.image (codes "dind") ≡ true))
  pub secret : All (λ e. In e.1 (keys secrets)) service.secret_env
  pub ready : IsReady service.readiness

nonempty : {s : Bytes} → is_empty s ≡ false → s ≢ []
nonempty {s = []} h = absurd (false≢true (sym h))
nonempty {s = c ∷ s} h = λ e. cc

secrets_available-All :
    (m secrets : Variables)
    → secrets_available m secrets ≡ true
    → All (λ e. In e.1 (keys secrets)) m
unfolding secrets_available
secrets_available-All [] secrets h = tt
secrets_available-All ((name, secret) ∷ m) secrets h =
    let (here, later) = and_true (mem secret (keys secrets)) _ h in
    (mem_sound secret (keys secrets) here, secrets_available-All m secrets later)

readiness-IsReady : (r : Option Readiness) → readiness_refused r ≡ false → IsReady r
unfolding readiness_refused
readiness-IsReady none h = tt
readiness-IsReady (some r) h =
    let (l3, high) =
      or_false (below r.tcp 1 || above r.tcp 65535 || below r.timeout_ms 1_000) _ h in
    let (l2, low) = or_false (below r.tcp 1 || above r.tcp 65535) _ l3 in
    (between 1 65535 r.tcp l2, between 1_000 120_000 r.timeout_ms (neither _ _ low high))

privilege_of :
    (p a b c : Bool)
    → p && (not a || not b || not c) ≡ false
    → (p ≡ false) ⊎ ((a ≡ true) × (b ≡ true) × (c ≡ true))
privilege_of false a b c h = inl refl
privilege_of true a b c h =
    let (ab, nc) = or_false (not a || not b) _ h in
    let (na, nb) = or_false (not a) _ ab in inr (denied _ na, denied _ nb, denied _ nc)

service_error-IsAllowed :
    (secrets : Variables) (id : Bytes) (service : Service)
    → service_error secrets id service ≡ none
    → (service.id ≡ id) × IsAllowed secrets service
unfolding service_error
service_error-IsAllowed secrets id s e =
    let (plain, e1) =
      passed
        (not (bytes_eq s.id id)
          || is_empty s.id
          || not (bytes_eq (safe_id s.id) s.id)
          || is_empty s.image
          || ltb 64 (length s.env)
          || ltb 64 (length s.secret_env)
          || ltb 32 (length s.command))
        _ _ e in
    let (privilege, e2) =
      passed
        (s.privileged
          && (not (bytes_eq s.id (codes "docker"))
              || not (begins_with s.image (codes "docker:"))
              || not (contains s.image (codes "dind"))))
        _ _ e1 in
    let (secret, e3) = passed (not (secrets_available s.secret_env secrets)) _ _ e2 in
    let (ready, _) = passed (readiness_refused s.readiness) _ _ e3 in
    let (l6, command) =
      or_false
        (not (bytes_eq s.id id)
          || is_empty s.id
          || not (bytes_eq (safe_id s.id) s.id)
          || is_empty s.image
          || ltb 64 (length s.env)
          || ltb 64 (length s.secret_env))
        _ plain in
    let (l5, secret_env) =
      or_false
        (not (bytes_eq s.id id)
          || is_empty s.id
          || not (bytes_eq (safe_id s.id) s.id)
          || is_empty s.image
          || ltb 64 (length s.env))
        _ l6 in
    let (l4, env) =
      or_false
        (not (bytes_eq s.id id)
          || is_empty s.id
          || not (bytes_eq (safe_id s.id) s.id)
          || is_empty s.image)
        _ l5 in
    let (l3, image) =
      or_false (not (bytes_eq s.id id) || is_empty s.id || not (bytes_eq (safe_id s.id) s.id)) _
        l4 in
    let (l2, safe) = or_false (not (bytes_eq s.id id) || is_empty s.id) _ l3 in
    let (same, named) = or_false (not (bytes_eq s.id id)) _ l2 in
    (
      bytes_eq_sound s.id id (denied _ same),
      record {
        named = nonempty named;
        safe = bytes_eq_sound _ _ (denied _ safe);
        pictured = nonempty image;
        short = (ground (arith, env), ground (arith, secret_env), ground (arith, command));
        privilege =
            elim (privilege_of s.privileged (bytes_eq s.id (codes "docker")) _ _ privilege) [
              | inl plain ↦ inl plain
              | inr (a, b, c) ↦ inr (bytes_eq_sound s.id _ a, b, c)
            ];
        secret = secrets_available-All s.secret_env secrets (denied _ secret);
        ready = readiness-IsReady s.readiness ready;
      },
    )

-- The ids of services.
abbrev pub ids_of : List Service → List Bytes
ids_of [] = []
ids_of (s ∷ services) = s.id ∷ ids_of services

-- The services decoded are those of the list of ids, in its order, and each may run.
abbrev pub IsDecoded : Variables → List Bytes → List Service ⊎ Bytes → Type 0
IsDecoded secrets ids (inl services) = (ids_of services ≡ ids) × All (IsAllowed secrets) services
IsDecoded secrets ids (inr error) = Unit

with_service-IsDecoded :
    (secrets : Variables) (id : Bytes) (ids : List Bytes) (s : Service)
    (rest : List Service ⊎ Bytes)
    → (s.id ≡ id)
    → IsAllowed secrets s
    → IsDecoded secrets ids rest
    → IsDecoded secrets (id ∷ ids) (with_service s rest)
with_service-IsDecoded secrets id ids s (inl services) same allowed h =
    (ap₂ (λ a b. a ∷ b) same h.0, (allowed, h.1))
with_service-IsDecoded secrets id ids s (inr error) same allowed h = tt

decoded_service-IsDecoded :
    (secrets : Variables) (id : Bytes) (ids : List Bytes) (document : Option Service)
    (rest : List Service ⊎ Bytes)
    → IsDecoded secrets ids rest
    → IsDecoded secrets (id ∷ ids) (decoded_service secrets id document rest)
decoded_service-IsDecoded secrets id ids none rest h = tt
decoded_service-IsDecoded secrets id ids (some s) rest h = checked (service_error secrets id s) refl
  where
    checked :
        (e : Option Bytes)
        → service_error secrets id s ≡ e
        → IsDecoded secrets (id ∷ ids) (accepted s e rest)
    checked (some error) same = tt
    checked none same =
        let (ours, allowed) = service_error-IsAllowed secrets id s same in
        with_service-IsDecoded secrets id ids s rest ours allowed h

wrong :
    (x : Bytes) (services : List Service) (rest : List Service ⊎ Bytes) (b : Bool)
    → b ≡ true
    → (if b then inr x else rest) ≡ inl services
    → ⊥
wrong x services rest true h k = cc
wrong x services rest false h k = absurd (false≢true h)

module _ (unmarshal : Json → Option Service) (raw : List (Bytes × Json)) (secrets : Variables) where
  decode_ids-IsDecoded :
      (ids : List Bytes) → IsDecoded secrets ids (decode_ids unmarshal raw secrets ids)
  unfolding decode_ids
  decode_ids-IsDecoded [] = (refl, tt)
  decode_ids-IsDecoded (id ∷ ids) =
      decoded_service-IsDecoded secrets id ids (unmarshal_of unmarshal (document_of raw id)) _
        (decode_ids-IsDecoded ids)

  -- Where decodeDockerServices gives services, there are at most eight in the offer, the services
  -- are those of the offer's ids in the order of sort.Strings, and each may run: its id is not empty
  -- and safe in a name, it has an image, its lists are short, it is privileged only as Docker in
  -- Docker, each secret that it names is there, and its port and its timeout are within the bounds.
  pub decode_services-IsAllowed :
      (services : List Service)
      → decode_services unmarshal raw secrets ≡ inl services
      → (length raw ≤ 8)
        × (ids_of services ≡ sort_strings (keys raw))
        × All (IsAllowed secrets) services
  unfolding decode_services
  decode_services-IsAllowed services e = elim (Bool-cases (ltb 8 (length raw))) [
    | inl many ↦ absurd (wrong _ services _ _ many e)
    | inr few ↦
        let (named, allowed) =
          subst (IsDecoded secrets (sort_strings (keys raw))) (rw few at e)
            (decode_ids-IsDecoded (sort_strings (keys raw))) in
        (ground (arith, few), named, allowed)
  ]

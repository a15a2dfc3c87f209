-- ===== src/Docker/Services.antt =====
-- docker_executor.go: decodeDockerServices. encoding/json is the argument `unmarshal`.
use robine_ci.Prelude.{
  Bool, true, false, not, ◌||◌, ◌&&◌, Option, none, some, List, [], ◌∷◌, ltb, length, if◌then◌else◌,
  ◌⊎◌, inl, inr,
}
use robine_ci.Prelude.Bytes.{Bytes, codes, bytes_eq}
use robine_ci.Offer.{Json, is_empty}
use robine_ci.Redactor.{begins_with}
use robine_ci.Config.{below, above}
use robine_ci.Strings.{contains, sort_strings}
use robine_ci.Executor.Environment.{Variables}
use robine_ci.Docker.{Service, Readiness, safe_id}
use robine_ci.Docker.Arguments.{keys, mem}

-- `raw[id]`
unfoldable pub document_of : List (Bytes × Json) → Bytes → Option Json
document_of [] id = none
document_of ((key, document) ∷ raw) id =
    let rest = document_of raw id in if bytes_eq key id then some document else rest

-- Whether each secret that a service names is there.
unfoldable pub secrets_available : Variables → Variables → Bool
secrets_available [] secrets = true
secrets_available ((name, secret) ∷ m) secrets =
    mem secret (keys secrets) && secrets_available m secrets

unfoldable pub readiness_refused : Option Readiness → Bool
readiness_refused none = false
readiness_refused (some r) =
    below r.tcp 1 || above r.tcp 65535 || below r.timeout_ms 1_000 || above r.timeout_ms 120_000

-- The configuration of the service `id` is refused, with the text of the error.
unfoldable pub service_error : Variables → Bytes → Service → Option Bytes
unfolding secrets_available readiness_refused
service_error secrets id service =
    if not (bytes_eq service.id id)
      || is_empty service.id
      || not (bytes_eq (safe_id service.id) service.id)
      || is_empty service.image
      || ltb 64 (length service.env)
      || ltb 64 (length service.secret_env)
      || ltb 32 (length service.command)
    then some (codes "invalid service configuration")
    else if service.privileged
        && (not (bytes_eq service.id (codes "docker"))
            || not (begins_with service.image (codes "docker:"))
            || not (contains service.image (codes "dind")))
    then some (codes "invalid privileged service")
    else if not (secrets_available service.secret_env secrets)
    then some (codes "service secret is unavailable")
    else if readiness_refused service.readiness
    then some (codes "invalid service readiness")
    else none

-- The services, or the text of the error.
abbrev pub Decoded : Type 0
Decoded = List Service ⊎ Bytes

abbrev pub with_service : Service → Decoded → Decoded
with_service service (inl services) = inl (service ∷ services)
with_service service (inr error) = inr error

-- A service that is decoded, the error of its check, and what the rest of the loop gives.
abbrev pub accepted : Service → Option Bytes → Decoded → Decoded
accepted service (some error) rest = inr error
accepted service none rest = with_service service rest

abbrev pub decoded_service : Variables → Bytes → Option Service → Decoded → Decoded
decoded_service secrets id none rest = inr (codes "invalid service configuration")
decoded_service secrets id (some service) rest =
    accepted service (service_error secrets id service) rest

abbrev pub unmarshal_of : (Json → Option Service) → Option Json → Option Service
unmarshal_of unmarshal none = none
unmarshal_of unmarshal (some document) = unmarshal document

module _ (unmarshal : Json → Option Service) (raw : List (Bytes × Json)) (secrets : Variables) where
  -- The loop over the sorted ids.
  unfoldable pub decode_ids : List Bytes → Decoded
  decode_ids [] = inl []
  decode_ids (id ∷ ids) =
      decoded_service secrets id (unmarshal_of unmarshal (document_of raw id)) (decode_ids ids)

  unfoldable pub decode_services : Decoded
  unfolding decode_ids service_error document_of
  decode_services =
      if ltb 8 (length raw)
      then inr (codes "too many service containers")
      else decode_ids (sort_strings (keys raw))

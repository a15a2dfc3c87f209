-- ===== src/Transfer.antt =====
-- runner-go/internal/runner/http.go: downloads and uploads of archives and secrets, and the enrollment. `Http` has the
-- calls of net/http, crypto/sha256 with encoding/hex, and encoding/json.
pub mod Whole
pub mod Enrolled
use robine_ci.Prelude.{
  ℕ, suc, ◌+◌, Bool, true, false, not, ◌||◌, ◌&&◌, Option, none, some, List, [], ◌∷◌, ◌++◌, take,
  length, ltb, ◌==◌, if◌then◌else◌, ◌⊎◌, inl, inr,
}
use robine_ci.Prelude.Bytes.{Bytes, codes, bytes_eq}
use robine_ci.Prelude.Int.{ℤ}
use robine_ci.Offer.{is_empty}
use robine_ci.Run.{Run, pure, ◌>>=◌}
use robine_ci.Strings.{to_lower}
use robine_ci.Config.{Config}
use robine_ci.Config.Commands.{EnrollOptions}

pub data Method : Type 0 where
  post get put : Method

-- A request: its URL without the query, the query, the headers and the body.
pub record Request : Type 0 where
  pub method : Method
  pub endpoint : Bytes
  pub query : List (Bytes × Bytes)
  pub headers : List (Bytes × Bytes)
  pub body : Bytes

-- A response: its status, the header X-Content-Sha256, which is empty where there is none, and the body;
-- `complete` says whether the body can be read without an error, and `body` is what is read before one.
pub record Response : Type 0 where
  pub status : ℕ
  pub content_digest : Bytes
  pub body : Bytes
  pub complete : Bool

pub record Http : Type 1 where
  pub World : Type 0
  -- `client.Do`, or an error, also that of a malformed URL
  pub call : Request → World → Option Response × World
  -- the digest of a body in hexadecimal
  pub digest : Bytes → Bytes
  -- the field `digest` of a document; the runner's id and its credential in one
  pub decode_digest : Bytes → Option Bytes
  pub encode_enrollment : Bytes → Bytes → Bytes
  pub decode_enrollment : Bytes → Option (Bytes × Bytes)

-- What a request reports: an error by its text.
pub data Failure : Type 0 where
  request_failed read_failed too_large digest_mismatch missing_digest invalid_response : Failure
  http_status : ℕ → Failure

-- `transferClient` without its HTTP client.
pub record Client : Type 0 where
  pub runner_id : Bytes
  pub credential : Bytes
  pub max_archive_bytes : ℕ

-- strings.EqualFold of digests in hexadecimal, which are ASCII.
unfoldable pub equal_fold : Bytes → Bytes → Bool
unfolding to_lower
equal_fold a b = bytes_eq (to_lower a) (to_lower b)

authorized : Client → List (Bytes × Bytes)
authorized c =
    (codes "Authorization", codes "Bearer " ++ c.credential)
    ∷ (codes "X-Robine-Runner-Id", c.runner_id)
    ∷ []

unfoldable pub get_request : Client → Bytes → Bytes → Request
unfolding authorized
get_request c endpoint accept = record {
  method = get;
  endpoint = endpoint;
  query = [];
  headers = authorized c ++ (codes "Accept", accept) ∷ [];
  body = [];
}

-- io.ReadAll of an io.LimitReader.
abbrev read_limited : ℕ → Response → Option Bytes
read_limited limit response = if response.complete then some (take limit response.body) else none

pub record Download : Type 0 where
  pub body : Bytes
  pub content_digest : Bytes
  pub status : ℕ

module _ (http : Http) where
  checked_download : Client → Response → Option Bytes → Download ⊎ Failure
  unfolding equal_fold
  checked_download c response none = inr read_failed
  checked_download c response (some body) =
      if ltb c.max_archive_bytes (length body)
      then inr too_large
      else if response.status == 200
          && not (is_empty response.content_digest)
          && not (equal_fold response.content_digest (http.digest body))
      then inr digest_mismatch
      else inl (record {
        body = body;
        content_digest = response.content_digest;
        status = response.status;
      })

  downloaded : Client → Option Response → Download ⊎ Failure
  unfolding checked_download
  downloaded c none = inr request_failed
  downloaded c (some response) =
      checked_download c response (read_limited (c.max_archive_bytes + 1) response)

  unfoldable pub get_transfer : Client → Bytes → Bytes → Run http.World (Download ⊎ Failure)
  unfolding downloaded
  get_transfer c endpoint accept = do
    response ← http.call (get_request c endpoint accept)
    pure (downloaded c response)

  confirmed : Bytes → Option Bytes → Option Failure
  unfolding equal_fold
  confirmed body none = some missing_digest
  confirmed body (some digest) =
      if is_empty digest
      then some missing_digest
      else if not (equal_fold digest (http.digest body))
      then some digest_mismatch
      else none

  checked_upload : Bytes → ℕ → Option Bytes → Option Failure
  unfolding confirmed
  checked_upload body status none = some read_failed
  checked_upload body status (some answer) =
      if not (status == 200) && not (status == 201)
      then some (http_status status)
      else confirmed body (http.decode_digest answer)

  uploaded : Bytes → Option Response → Option Failure
  unfolding checked_upload
  uploaded body none = some request_failed
  uploaded body (some response) = checked_upload body response.status (read_limited 65_536 response)

  -- The error, or none.
  unfoldable pub put_transfer :
      Client → Bytes → List (Bytes × Bytes) → Bytes → Run http.World (Option Failure)
  unfolding uploaded authorized
  put_transfer c endpoint query body =
      if ltb c.max_archive_bytes (length body) then pure (some too_large) else (do
        response ← http.call (record {
          method = put;
          endpoint = endpoint;
          query = query;
          headers =
              authorized c
              ++ (codes "Content-Type", codes "application/gzip")
                ∷ (codes "Accept", codes "application/json")
                ∷ [];
          body = body;
        })
        pure (uploaded body response))

  -- strings.TrimRight of slashes.
  trim_slashes : Bytes → Bytes
  trim_slashes [] = []
  trim_slashes (c ∷ s) =
      let rest = trim_slashes s in if is_empty rest && c == 47 then [] else c ∷ rest

  enrolled_config : EnrollOptions → Bytes → Bytes → Config
  enrolled_config o runner_id credential = record {
    server_url = o.server_url;
    runner_id = runner_id;
    credential = credential;
    name = o.name;
    executor = o.executor;
    resource_namespace = o.resource_namespace;
    cpu_millis = o.cpu_millis;
    memory_bytes = o.memory_bytes;
    pids_limit = o.pids_limit;
  }

  enrolled_as : EnrollOptions → Option (Bytes × Bytes) → Config ⊎ Failure
  unfolding enrolled_config
  enrolled_as o none = inr invalid_response
  enrolled_as o (some (runner_id, credential)) =
      if is_empty runner_id || is_empty credential
      then inr invalid_response
      else inl (enrolled_config o runner_id credential)

  -- The decoder sees the body up to the limit; a value that is whole before an error of the body is
  -- decoded all the same.
  enrolled_from : EnrollOptions → Response → Config ⊎ Failure
  unfolding enrolled_as
  enrolled_from o response = enrolled_as o (http.decode_enrollment (take 65_536 response.body))

  enrolled : EnrollOptions → Option Response → Config ⊎ Failure
  unfolding enrolled_from
  enrolled o none = inr request_failed
  enrolled o (some response) =
      if not (response.status == 201)
      then inr (http_status response.status)
      else enrolled_from o response

  enroll_request : EnrollOptions → Request
  unfolding trim_slashes
  enroll_request o = record {
    method = post;
    endpoint = trim_slashes o.server_url ++ codes "/api/v1/runners/enroll";
    query = [];
    headers = (codes "Content-Type", codes "application/json") ∷ [];
    body = http.encode_enrollment o.enrollment_token o.name;
  }

  unfoldable pub enroll : EnrollOptions → Run http.World (Config ⊎ Failure)
  unfolding enrolled enroll_request
  enroll o = do response ← http.call (enroll_request o); pure (enrolled o response)

-- ===== src/Docker.antt =====
-- runner-go/internal/runner/docker_executor.go: the executor that runs a job in containers. The Docker
-- engine is reached through the program `docker` only, which is `Env.combined_output`. This file
-- has the data, and the functions that build names and arguments.
pub mod Accepted
pub mod Arguments
pub mod Services
pub mod Calls
pub mod Keeping
pub mod Cleanup
pub mod Reconcile
pub mod Prepare
pub mod Steps
pub mod Attempt
use robine_ci.Prelude.{
  ℕ, ◌+◌, ◌*◌, ◌≡◌, Bool, true, false, not, ◌||◌, ◌&&◌, Option, none, some, List, [], ◌∷◌, ◌++◌,
  ltb, leb, length, ◌==◌, if◌then◌else◌,
}
use robine_ci.Prelude.Bytes.{Bytes, codes, bytes_eq}
use robine_ci.Prelude.Int.{ℤ, pos, negsuc}
use robine_ci.Offer.{is_empty}

abbrev pub attempt_label : Bytes
attempt_label = codes "io.robine.attempt"

abbrev pub instance_label : Bytes
instance_label = codes "io.robine.instance"

abbrev pub service_label : Bytes
service_label = codes "io.robine.service"

abbrev pub diagnostic_limit : ℕ
diagnostic_limit = 64 * 1024

abbrev pub readiness_image : Bytes
readiness_image =
    codes "alpine@sha256:14358309a308569c32bdc37e2e0e9694be33a9d99e68afb0f5ff33cc1f695dce"

pub record Readiness : Type 0 where
  pub tcp : ℤ
  pub timeout_ms : ℤ

pub record Service : Type 0 where
  pub id : Bytes
  pub image : Bytes
  pub user : Bytes
  pub privileged : Bool
  pub env : List (Bytes × Bytes)
  pub secret_env : List (Bytes × Bytes)
  pub command : List Bytes
  pub readiness : Option Readiness

-- The name of a resource that there is none of is empty.
pub record Resources : Type 0 where
  pub container : Bytes
  pub volume : Bytes
  pub network : Bytes
  pub services : List Bytes

-- An error: a dockerCommandError with its exit code and output, or another one with its text.
pub data Failure : Type 0 where
  command_error : ℤ → Bytes → Failure
  message : Bytes → Failure

is_safe : ℕ → Bool
is_safe c =
    (leb 97 c && leb c 122)
    || (leb 65 c && leb c 90)
    || (leb 48 c && leb c 57)
    || c == 95
    || c == 46
    || c == 45

-- safeID of executor.go: each other character becomes `-`. A character beyond ASCII is a byte from
-- 192 on and then bytes from 128 to 191, in UTF-8, which text from a JSON document is.
unfoldable pub safe_id : Bytes → Bytes
unfolding is_safe
safe_id [] = []
safe_id (c ∷ s) =
    let rest = safe_id s in
    if is_safe c then c ∷ rest else if leb 128 c && ltb c 192 then rest else 45 ∷ rest

service_names : Bytes → List Service → List Bytes
service_names base [] = []
service_names base (service ∷ services) =
    (base ++ codes "-service-" ++ safe_id service.id) ∷ service_names base services

-- The argument is the configuration's namespace.
unfoldable pub resource_names : Bytes → Bytes → List Service → Resources
unfolding service_names
resource_names namespace attempt_id services =
    let base = codes "rbe-" ++ safe_id namespace ++ codes "-" ++ safe_id attempt_id in
    record {
      container = base;
      volume = base ++ codes "-workspace";
      network = if is_empty services then [] else base ++ codes "-network";
      services = service_names base services;
    }

unfoldable pub labels : Bytes → Bytes → List Bytes
labels namespace attempt_id =
    codes "--label"
    ∷ (attempt_label ++ codes "=" ++ attempt_id)
    ∷ codes "--label"
    ∷ (instance_label ++ codes "=" ++ namespace)
    ∷ []

unfoldable pub network_of : Bytes → Bytes
network_of network = if is_empty network then codes "bridge" else network

-- ===== src/Executor/Attempt.antt =====
-- runNative, failPreparation and downloadSecrets of executor.go: the life of one attempt. Unpacking
-- the source (extractArchive) is the argument `extract`.
pub mod Reports
pub mod Lifecycle
pub mod Timeout
use robine_ci.Prelude.{
  ℕ, suc, ◌+◌, ◌-◌, ◌*◌, ◌%◌, ◌^◌, Bool, true, false, not, ◌||◌, ◌&&◌, Option, none, some, List, [],
  ◌∷◌, ◌++◌, if◌then◌else◌, ◌==◌, leb, ltb, length,
}
use robine_ci.Prelude.Bytes.{Bytes, codes, bytes_eq}
use robine_ci.Prelude.Int.{ℤ, pos, negsuc}
use robine_ci.Offer.{Offer, JobStep, is_empty}
use robine_ci.Run.{Run, pure, ◌>>=◌, ◌>>◌}
use robine_ci.Executor.{
  Env, State, outer, delivery, outside, Outcome, send_attempt_event, terminal_delivery_allowed,
}
use robine_ci.Docker.{safe_id}
use robine_ci.Executor.Environment.{Variables}
use robine_ci.Executor.Steps.{run_steps}

abbrev pub nanoseconds_per_ms : ℕ
nanoseconds_per_ms = 1_000_000

-- `time.Duration(ms) * time.Millisecond` as the pattern of an int64.
abbrev pub duration_word : ℤ → ℕ
duration_word (pos n) = n * nanoseconds_per_ms % 2 ^ 64
duration_word (negsuc n) = (2 ^ 64 - suc n * nanoseconds_per_ms % 2 ^ 64) % 2 ^ 64

abbrev pub day : ℕ
day = 24 * 60 * 60 * 1000 * nanoseconds_per_ms

abbrev pub default_timeout : ℕ
default_timeout = 20 * 60 * 1000 * nanoseconds_per_ms

-- The timeout of the steps; the patterns from 2 ^ 63 on are the negative numbers.
unfoldable pub steps_timeout : ℤ → ℕ
steps_timeout ms =
    let word = duration_word ms in
    if word == 0 || leb (2 ^ 63) word || ltb day word then default_timeout else word

-- How `runNative` ends: whether it returns an error.
pub data Ending : Type 0 where
  returned failed : Ending

-- downloadSecrets: the secrets in a response.
abbrev pub secrets_of : (env : Env) → Option (Bytes × ℕ) → Option Variables
secrets_of env none = none
secrets_of env (some (body, status)) = if status == 200 then env.decode_secrets body else none

module _ {env : Env} where
  report_failure : Offer → Bool → Run (State env) (Unit {0})
  report_failure offer false = pure tt
  report_failure offer true = do
    send_attempt_event delivery offer 2 (codes "failed") (codes "system_failure")
    pure tt

  -- An error of the delivery is dropped.
  pub fail_preparation : Offer → Run (State env) (Unit {0})
  unfolding report_failure
  fail_preparation offer = do allowed ← terminal_delivery_allowed; report_failure offer allowed

  -- The preparation failed before the attempt ran: `return` behind the deferred removal of `root`.
  give_up : Offer → Bytes → Run (State env) Ending
  give_up offer root = do fail_preparation offer; outside (env.remove_all root); pure failed

  -- The attempt is over: the terminal event, unless the runner stops or has lost the lease.
  report_outcome : Offer → Outcome → Bool → Run (State env) Ending
  report_outcome offer outcome false = pure returned
  report_outcome offer outcome true = do
    error ← send_attempt_event delivery offer 3 outcome.status outcome.reason
    elim error [ some e ↦ pure failed | none ↦ pure returned ]

  -- The workspace is removed; where that fails the attempt has failed, and the deferred call tries
  -- again at the end.
  close : Offer → Bytes → Outcome → Bool → Run (State env) Ending
  close offer root outcome true = do
    allowed ← terminal_delivery_allowed
    report_outcome offer outcome allowed
  close offer root outcome false = do
    allowed ← terminal_delivery_allowed
    ending ←
        report_outcome offer (record { status = codes "failed"; reason = codes "system_failure" })
          allowed
    outside (env.remove_all root)
    pure ending

  module _ (builtin : JobStep → Run (State env) (Option Bytes)) (offer : Offer) (root : Bytes) where
    abbrev workspace : Bytes
    workspace = root ++ codes "/workspace"

    -- From the delivery of the running event on; the argument is its error.
    perform : Variables → Option Bytes → Run (State env) Ending
    perform secrets (some error) = do outside (env.remove_all root); pure failed
    perform secrets none = do
      outside (env.start_timeout (steps_timeout offer.execution.timeout_ms))
      outcome ← run_steps builtin offer workspace secrets
      removed ← outside (env.remove_all root)
      close offer root outcome removed

    begin : Option Variables → Run (State env) Ending
    begin none = give_up offer root
    begin (some secrets) = do
      error ← send_attempt_event outer offer 2 (codes "running") []
      perform secrets error

    fetch_secrets : Run (State env) Ending
    fetch_secrets = do
      response ← outside (env.get outer offer.secrets_url (codes "application/json"))
      begin (secrets_of env response)

    module _ (extract : Bytes → Bytes → Run (State env) Bool) where
      after_extract : Bool → Run (State env) Ending
      after_extract true = fetch_secrets
      after_extract false = give_up offer root

      unpack : Option (Bytes × ℕ) → Run (State env) Ending
      unpack none = give_up offer root
      unpack (some (body, status)) =
          if status == 200
          then (do unpacked ← extract body workspace; after_extract unpacked)
          else give_up offer root

      fetch_source : Option Bytes → Run (State env) Ending
      fetch_source none = fetch_secrets
      fetch_source (some url) = do
        response ← outside (env.get outer url (codes "application/gzip"))
        unpack response

      after_workspace : Option Bytes → Run (State env) Ending
      after_workspace (some error) = give_up offer root
      after_workspace none =
          if is_empty offer.execution.services
          then fetch_source offer.source_url
          else give_up offer root

      after_secure : Bool → Run (State env) Ending
      after_secure false = give_up offer root
      after_secure true = do error ← outside (env.make_dir workspace); after_workspace error

  in_root :
      (JobStep → Run (State env) (Option Bytes))
      → (Bytes → Bytes → Run (State env) Bool)
      → Offer
      → Option Bytes
      → Run (State env) Ending
  in_root builtin extract offer none = do fail_preparation offer; pure failed
  in_root builtin extract offer (some root) = do
    secured ← outside (env.secure root)
    after_secure builtin offer root extract secured

  pub run_native :
      (JobStep → Run (State env) (Option Bytes))
      → (Bytes → Bytes → Run (State env) Bool)
      → Offer
      → Run (State env) Ending
  unfolding in_root
  run_native builtin extract offer = do
    root ← outside (env.make_temp (codes "robine-native-" ++ safe_id offer.attempt_id ++ codes "-"))
    in_root builtin extract offer root

-- ===== src/Executor/Attempt/Lifecycle.antt =====
-- runNative of executor.go: what each of its parts tells the server of the attempt.
use robine_ci.Prelude.{ℕ, ◌≡◌, Bool, true, false, Option, none, some, List, [], ◌∷◌, ◌++◌, ◌==◌}
use robine_ci.Prelude.Bytes.{Bytes, codes}
use robine_ci.Offer.{Offer, JobStep, is_empty}
use robine_ci.Run.{Run, pure, ◌>>=◌, ◌>>◌, Preserves-pure, Preserves-bind}
use robine_ci.Executor.{
  Env, State, AttemptEvent, Outcome, outside, outer, delivery, terminal_delivery_allowed,
}
use robine_ci.Docker.{safe_id}
use robine_ci.Executor.Environment.{Variables}
use robine_ci.Executor.Keeping.{
  terminal_delivery_allowed-Preserves, outside-Reported, attempt_events, Reported-Admits,
  Preserves-option,
}
use robine_ci.Executor.Steps.{run_steps}
use robine_ci.Executor.Steps.Outcomes.{IsFinal, run_steps-IsFinal}
use robine_ci.Executor.Steps.Records.{run_steps-Preserves}
use robine_ci.Executor.Attempt.{
  failed, steps_timeout, report_failure, fail_preparation, give_up, report_outcome, close, perform,
  begin, fetch_secrets, after_extract, unpack, fetch_source, after_workspace, after_secure, in_root,
  run_native,
}
use robine_ci.Executor.Attempt.Reports.{
  IsOf, Report, silent, unprepared, running, done, Sends, failed-IsFinal, IsQuiet, Sends-quiet,
  Sends-if, Sends-knowing, Sends-after, Sends-then, Sends-event,
}

module _ {env : Env} where
  pub allowed-IsQuiet : IsQuiet (terminal_delivery_allowed {env = env})
  allowed-IsQuiet es = terminal_delivery_allowed-Preserves (Reported-Admits es)

  pub outside-IsQuiet :
      {A : Type 0} (call : env.World → A × env.World) → IsQuiet (outside {env = env} call)
  outside-IsQuiet call es = outside-Reported call

  Sends-outside :
      {A B : Type 0} {Q : List AttemptEvent → Type 0} (call : env.World → A × env.World)
      (f : A → Run (State env) B)
      → ((a : A) → Sends Q (f a))
      → Sends Q (outside call >>= f)
  Sends-outside call f later = Sends-after (outside call) f (outside-IsQuiet call) later

  Sends-removed :
      {A : Type 0} {Q : List AttemptEvent → Type 0} (root : Bytes) (a : A)
      → Q []
      → Sends Q (outside {env = env} (env.remove_all root) >> pure a)
  Sends-removed root a q =
      Sends-outside (env.remove_all root) (λ r. pure a)
        (λ r. Sends-quiet _ (λ es. Preserves-pure a) q)

  module _ (offer : Offer) where
    fail_preparation-Sends :
        {A : Type 0} (rest : Unit {0} → Run (State env) A)
        → ((Q : List AttemptEvent → Type 0) → Q [] → Sends Q (rest tt))
        → Sends (Report offer) (fail_preparation offer >>= rest)
    unfolding fail_preparation report_failure ◌>>=◌ pure
    fail_preparation-Sends rest quiet =
        Sends-after terminal_delivery_allowed (λ allowed. report_failure offer allowed >>= rest)
          allowed-IsQuiet
          (λ allowed.
            elim allowed as (λ b. Sends (Report offer) (report_failure offer b >>= rest)) [
              | false ↦ quiet (Report offer) silent
              | true ↦
                  Sends-event delivery offer 2 (codes "failed") (codes "system_failure")
                    (λ error. rest tt) (λ error. quiet (Report offer) silent)
                    (λ e ours status reason error. quiet _ (unprepared ours status reason))
            ])

    report_outcome-Sends :
        (e : AttemptEvent) (o : Outcome) (allowed : Bool)
        → IsOf offer 2 e
        → e.status ≡ codes "running"
        → IsFinal o
        → Sends (λ es. Report offer (e ∷ es)) (report_outcome {env = env} offer o allowed)
    unfolding report_outcome
    report_outcome-Sends e o false ours on final =
        Sends-quiet _ (λ es. Preserves-pure _) (running ours on)
    report_outcome-Sends e o true ours on final =
        Sends-event delivery offer 3 o.status o.reason _
          (λ error. Sends-quiet _ (λ es. Preserves-pure _) (running ours on))
          (λ f mine status reason error.
            Sends-quiet _
              (λ es. Preserves-option error _ _ (λ x. Preserves-pure _) (Preserves-pure _))
              (done o ours on mine final status reason))

    give_up-Sends : (root : Bytes) → Sends (Report offer) (give_up {env = env} offer root)
    unfolding give_up
    give_up-Sends root = fail_preparation-Sends _ (λ Q q. Sends-removed root failed q)

    close-Sends :
        (e : AttemptEvent) (root : Bytes) (o : Outcome) (removed : Bool)
        → IsOf offer 2 e
        → e.status ≡ codes "running"
        → IsFinal o
        → Sends (λ es. Report offer (e ∷ es)) (close {env = env} offer root o removed)
    unfolding close
    close-Sends e root o true ours on final =
        Sends-after terminal_delivery_allowed _ allowed-IsQuiet
          (λ allowed. report_outcome-Sends e o allowed ours on final)
    close-Sends e root o false ours on final =
        Sends-after terminal_delivery_allowed _ allowed-IsQuiet (λ allowed.
          Sends-then _ _ (report_outcome-Sends e _ allowed ours on failed-IsFinal)
            (λ ending es. Preserves-bind _ _ (outside-Reported _) (λ r. Preserves-pure _)))

  module _ (builtin : JobStep → Run (State env) (Option Bytes)) (offer : Offer) (root : Bytes)
      (builtin_quiet : (step : JobStep) → IsQuiet (builtin step)) where
    perform-Sends :
        (e : AttemptEvent) (secrets : Variables) (error : Option Bytes)
        → IsOf offer 2 e
        → e.status ≡ codes "running"
        → Sends (λ es. Report offer (e ∷ es)) (perform builtin offer root secrets error)
    unfolding perform
    perform-Sends e secrets (some x) ours on = Sends-removed root failed (running ours on)
    perform-Sends e secrets none ours on =
        Sends-outside (env.start_timeout (steps_timeout offer.execution.timeout_ms)) _ (λ u.
          Sends-knowing {Post = IsFinal}
            (run_steps builtin offer (root ++ codes "/workspace") secrets) _
            (λ es.
              run_steps-Preserves (Reported-Admits es) builtin offer _ secrets
                (λ step. builtin_quiet step es))
            (run_steps-IsFinal builtin offer _ secrets)
            (λ o final.
              Sends-outside (env.remove_all root) _
                (λ removed. close-Sends offer e root o removed ours on final)))

    begin-Sends :
        (secrets : Option Variables) → Sends (Report offer) (begin builtin offer root secrets)
    unfolding begin perform
    begin-Sends none = give_up-Sends offer root
    begin-Sends (some secrets) =
        Sends-event outer offer 2 (codes "running") [] (perform builtin offer root secrets)
          (λ error. Sends-removed root failed silent)
          (λ e ours status reason error. perform-Sends e secrets error ours status)

    fetch_secrets-Sends : Sends (Report offer) (fetch_secrets builtin offer root)
    unfolding fetch_secrets
    fetch_secrets-Sends =
        Sends-outside (env.get outer offer.secrets_url (codes "application/json")) _
          (λ response. begin-Sends _)

    module _ (extract : Bytes → Bytes → Run (State env) Bool)
        (extract_quiet : (body target : Bytes) → IsQuiet (extract body target)) where
      unpack-Sends :
          (response : Option (Bytes × ℕ))
          → Sends (Report offer) (unpack builtin offer root extract response)
      unfolding unpack after_extract
      unpack-Sends none = give_up-Sends offer root
      unpack-Sends (some (body, status)) =
          Sends-if (status == 200) _ _
            (Sends-after (extract body (root ++ codes "/workspace")) _ (extract_quiet body _)
              (λ unpacked.
                elim unpacked
                  as (λ b. Sends (Report offer) (after_extract builtin offer root extract b)) [
                    | true ↦ fetch_secrets-Sends
                    | false ↦ give_up-Sends offer root
                  ]))
            (give_up-Sends offer root)

      fetch_source-Sends :
          (url : Option Bytes) → Sends (Report offer) (fetch_source builtin offer root extract url)
      unfolding fetch_source
      fetch_source-Sends none = fetch_secrets-Sends
      fetch_source-Sends (some url) =
          Sends-outside (env.get outer url (codes "application/gzip")) _ unpack-Sends

      after_secure-Sends :
          (secured : Bool) → Sends (Report offer) (after_secure builtin offer root extract secured)
      unfolding after_secure after_workspace
      after_secure-Sends false = give_up-Sends offer root
      after_secure-Sends true =
          Sends-outside (env.make_dir (root ++ codes "/workspace")) _ (λ error.
            elim error
              as (λ b. Sends (Report offer) (after_workspace builtin offer root extract b)) [
                | some e ↦ give_up-Sends offer root
                | none ↦
                    Sends-if (is_empty offer.execution.services) _ _
                      (fetch_source-Sends offer.source_url) (give_up-Sends offer root)
              ])

module _ {env : Env} where
  run_native-Sends :
      (builtin : JobStep → Run (State env) (Option Bytes))
      (extract : Bytes → Bytes → Run (State env) Bool) (offer : Offer)
      → ((step : JobStep) → IsQuiet (builtin step))
      → ((body target : Bytes) → IsQuiet (extract body target))
      → Sends (Report offer) (run_native builtin extract offer)
  unfolding run_native in_root
  run_native-Sends builtin extract offer builtin_quiet extract_quiet =
      Sends-outside
        (env.make_temp (codes "robine-native-" ++ safe_id offer.attempt_id ++ codes "-")) _
        (λ made. elim made as (λ r. Sends (Report offer) (in_root builtin extract offer r)) [
          | none ↦ fail_preparation-Sends offer _ (λ Q q. Sends-quiet _ (λ es. Preserves-pure _) q)
          | some root ↦
              Sends-outside (env.secure root) _
                (after_secure-Sends builtin offer root builtin_quiet extract extract_quiet)
        ])

  -- If neither the builtin steps nor the unpacking of the source sends attempt events, an attempt is
  -- reported in one of four ways, whatever fails, is cancelled or is lost: no event; one event
  -- with the sequence 2, that it failed with "system_failure"; one event with the sequence 2, that it
  -- is running; or that, and then one with the sequence 3, with a status and a reason that go
  -- together. Each event names the attempt and the token of the offer.
  pub run_native-Report :
      (builtin : JobStep → Run (State env) (Option Bytes))
      (extract : Bytes → Bytes → Run (State env) Bool) (offer : Offer) (s : State env)
      → ((step : JobStep) → IsQuiet (builtin step))
      → ((body target : Bytes) → IsQuiet (extract body target))
      → (es : List AttemptEvent) × (attempt_events (run_native builtin extract offer s).1.sent
          ≡ attempt_events s.sent ++ es)
        × Report offer es
  run_native-Report builtin extract offer s builtin_quiet extract_quiet =
      (run_native-Sends builtin extract offer builtin_quiet extract_quiet).at s

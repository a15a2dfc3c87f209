-- ===== src/Tests/Containers.antt =====
-- Tests of the Docker executor.
use robine_ci.Prelude.{
  ℕ, ◌+◌, ◌≤◌, ◌≡◌, refl, arith, true, false, Option, none, some, List, [], ◌∷◌, ◌++◌, inl, All,
}
use mathlib.Core.List.{List}
use robine_ci.Prelude.Bytes.{Bytes, codes, bytes_eq}
use robine_ci.Prelude.Int.{pos}
use robine_ci.Run.{Run, pure, ◌>>=◌, Preserves-pure}
use robine_ci.Offer.{Json, JobStep}
use robine_ci.Redactor.{begins_with}
use robine_ci.Strings.{contains, sort_strings, bytes_le, insert_sorted}
use robine_ci.Config.{below, above}
use robine_ci.Executor.{Env, State, AttemptEvent, execution, outside}
use robine_ci.Executor.Keeping.{attempt_events}
use robine_ci.Docker.{Service, Resources, safe_id}
use robine_ci.Docker.Accepted.{IsAllowed, ids_of, decode_services-IsAllowed}
use robine_ci.Docker.Arguments.{keys, mem}
use robine_ci.Docker.Services.{
  decode_services, decode_ids, service_error, document_of, secrets_available, readiness_refused,
}
use robine_ci.Docker.Cleanup.{
  cleanup, removals, removal, remove_volume, remove_network, cleanup-commands,
}
use robine_ci.Docker.Reconcile.{reconcile}
use robine_ci.Docker.Reconcile.Safe.{Permitted, reconcile-Permitted}
use robine_ci.Docker.Prepare.{await_service, await_rounds, readiness_timeout}
use robine_ci.Docker.Prepare.Waiting.{Clock, await_service-rounds}
use robine_ci.Docker.Attempt.{run_docker}
use robine_ci.Docker.Attempt.Reports.{Report, run_docker-Report}
use robine_ci.Docker.Attempt.Removed.{IsTidy, run_docker-IsTidy}
use robine_ci.Tests.Data.{token_values, first_offer, calm, fresh}
use robine_ci.Tests.Settings.{settings}

abbrev database : Service
database = record {
  id = codes "db";
  image = codes "postgres";
  user = [];
  privileged = false;
  env = [];
  secret_env = (codes "PASSWORD", codes "TOKEN") ∷ [];
  command = [];
  readiness = some (record { tcp = pos 5432; timeout_ms = pos 2_000 });
}

abbrev read_database : Json → Option Service
read_database document = some database

abbrev no_archive : Bytes → Bytes → Run (State calm) (Option Bytes)
no_archive body target = pure none

abbrev no_builtin : Bytes → JobStep → Run (State calm) (Option Bytes)
no_builtin workspace step = pure none

run_docker-Report_example :
    (es : List AttemptEvent) × (attempt_events
        (run_docker first_offer settings read_database no_archive no_builtin
          (codes "/")
          fresh).1.sent
      ≡ attempt_events fresh.sent ++ es)
    × Report first_offer es
run_docker-Report_example =
    run_docker-Report first_offer settings read_database no_archive no_builtin (codes "/")
      (λ body target es. Preserves-pure none) (λ workspace step es. Preserves-pure none) fresh

run_docker-IsTidy_example :
    (cs : List (List Bytes)) × ((run_docker first_offer settings read_database no_archive no_builtin
        (codes "/")
        fresh).1.commands
      ≡ fresh.commands ++ cs)
    × IsTidy first_offer settings read_database cs
run_docker-IsTidy_example =
    run_docker-IsTidy first_offer settings read_database no_archive no_builtin (codes "/")
      (λ body target cs. Preserves-pure none) (λ workspace step cs. Preserves-pure none) fresh

reconcile-Permitted_example :
    (cs : List (List Bytes)) × ((reconcile execution
        (codes "a1" ∷ [])
        (codes "robine")
        fresh).1.commands
      ≡ fresh.commands ++ cs)
    × All (Permitted calm execution (codes "a1" ∷ []) (codes "robine")) cs
reconcile-Permitted_example = reconcile-Permitted execution (codes "a1" ∷ []) (codes "robine") fresh

abbrev database_resources : Resources
database_resources = record {
  container = codes "c";
  volume = codes "v";
  network = [];
  services = codes "s" ∷ [];
}

cleanup-commands_example :
    (cleanup execution database_resources fresh).1.commands
    ≡ fresh.commands
      ++ removals (codes "c" ∷ codes "s" ∷ [])
      ++ removal remove_volume (codes "v")
      ++ removal remove_network []
cleanup-commands_example = cleanup-commands execution database_resources fresh

database_decoded :
    decode_services read_database ((codes "db", Json.null) ∷ []) token_values ≡ inl (database ∷ [])
unfolding decode_services decode_ids service_error document_of secrets_available readiness_refused
    sort_strings insert_sorted bytes_le keys mem safe_id below above bytes_eq begins_with contains
database_decoded = refl

decode_services-IsAllowed_example :
    (1 ≤ 8)
    × (ids_of (database ∷ []) ≡ sort_strings (keys ((codes "db", Json.null) ∷ [])))
    × All (IsAllowed token_values) (database ∷ [])
decode_services-IsAllowed_example =
    decode_services-IsAllowed read_database ((codes "db", Json.null) ∷ []) token_values
      (database ∷ []) database_decoded

-- Time that goes on with each timer.
abbrev ticking : Env
ticking = record calm {
  World = ℕ;
  context_error = λ ctx w. (none, w);
  context_cause = λ w. (none, w);
  request = λ ctx r w. (none, w);
  message_id = λ w. (some (codes "m"), w);
  elapsed_ms = λ w. (5, w);
  start = λ command w. (true, w);
  output = λ w. ([], w);
  wait = λ w. (none, w);
  combined_output = λ ctx args w. ((none, codes "true"), w);
  combined_output_with = λ ctx source args w. ((none, (none, [])), w);
  now_ms = λ w. (w, w);
  wait_timer = λ ctx n w. (false, w + n);
  wait_or_done = λ w. (some none, w);
  kill = λ w. (tt, w);
  wait_killed = λ w. (some none, w);
  start_timeout = λ n w. (tt, w);
  make_temp = λ id w. (some (codes "/tmp/x"), w);
  secure = λ root w. (true, w);
  make_dir = λ path w. (none, w);
  make_dirs = λ path w. (none, w);
  remove_all = λ path w. (true, w);
  get = λ ctx url kind w. (some (codes "{}", 200), w);
}

ticking_clock : Clock ticking
ticking_clock = record {
  time = λ w. w;
  reads = λ w. refl;
  now_later = λ w. omega arith;
  context_later = λ ctx w. omega arith;
  command_later = λ ctx arguments w. omega arith;
  waits = λ ctx n w e. omega arith;
}

abbrev at_zero : State ticking
at_zero = record { world = 0; log_sequence = 0; sent = []; commands = [] }

await_service-rounds_example :
    await_service database (codes "s") (codes "n") at_zero
    ≡ (outside ticking.now_ms >>= λ now.
          await_rounds database
            (codes "s")
            (codes "n")
            (now + readiness_timeout database.readiness)
            (ℕ.suc 9_000))
        at_zero
await_service-rounds_example =
    await_service-rounds ticking_clock database (codes "s") (codes "n") 9_000 at_zero enough
  where
    enough : readiness_timeout database.readiness ≤ 9_000
    enough = unfold readiness_timeout in omega arith

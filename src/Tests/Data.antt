-- ===== src/Tests/Data.antt =====
-- An offer, and an environment in which every call succeeds and every process writes two pieces of
-- output.
use robine_ci.Prelude.{true, false, none, some, List, [], ◌∷◌}
use robine_ci.Prelude.Bytes.{Bytes, codes}
use robine_ci.Prelude.Int.{pos}
use robine_ci.Offer.{Offer, JobStep}
use robine_ci.Executor.{Env, State, StepLog}

abbrev pub token_values : List (Bytes × Bytes)
token_values = (codes "TOKEN", codes "ab") ∷ []

abbrev pub pieces : List Bytes
pieces = codes "xa" ∷ codes "by" ∷ []

abbrev pub build_step : JobStep
build_step = record {
  name = codes "build";
  kind = codes "run";
  value = codes "make";
  condition = [];
  options = [];
}

abbrev pub offer_named : Bytes → Offer
offer_named id = record {
  attempt_id = id;
  idempotency_token = codes "t";
  source_url = some (codes "/source");
  secrets_url = codes "/secrets";
  builtins_url = codes "/builtins";
  execution = record {
    attempt_id = id;
    idempotency_token = codes "t";
    image = codes "image";
    shell = codes "/bin/sh";
    timeout_ms = pos 60_000;
    env = (codes "A", codes "1") ∷ [];
    build_env = (codes "A", codes "2") ∷ [];
    secret_names = [];
    services = [];
    steps = build_step ∷ [];
  };
}

abbrev pub first_offer : Offer
first_offer = offer_named (codes "a1")

abbrev pub calm : Env
calm = record {
  World = Unit {0};
  context_error = λ ctx w. (none, w);
  context_cause = λ w. (none, w);
  request = λ ctx r w. (none, w);
  message_id = λ w. (some (codes "m"), w);
  elapsed_ms = λ w. (5, w);
  start = λ command w. (true, w);
  output = λ w. (pieces, w);
  wait = λ w. (none, w);
  combined_output = λ ctx args w. ((none, codes "true"), w);
  combined_output_with = λ ctx source args w. ((none, (none, [])), w);
  now_ms = λ w. (7, w);
  wait_timer = λ ctx n w. (false, w);
  wait_or_done = λ w. (some none, w);
  kill = λ w. (tt, w);
  wait_killed = λ w. (some none, w);
  environ = codes "PATH=/bin" ∷ [];
  start_timeout = λ n w. (tt, w);
  make_temp = λ id w. (some (codes "/tmp/x"), w);
  secure = λ root w. (true, w);
  make_dir = λ path w. (none, w);
  make_dirs = λ path w. (none, w);
  remove_all = λ path w. (true, w);
  get = λ ctx url kind w. (some (codes "{}", 200), w);
  decode_secrets = λ body. some token_values;
}

abbrev pub fresh : State calm
fresh = record { world = tt; log_sequence = 0; sent = []; commands = [] }

abbrev pub build_log : StepLog
build_log = record {
  attempt_id = codes "a1";
  position = 1;
  step_name = codes "build";
  condition = codes "success";
}

-- ===== src/Tests/Exchanges.antt =====
-- Tests of the transfers and of the enrollment.
use robine_ci.Prelude.{sym, Bool, ◌∷◌, ◌≡◌, refl, true, false, none, some, [], inl}
use robine_ci.Prelude.Bytes.{Bytes, codes, bytes_eq, bytes_eq_refl}
use robine_ci.Prelude.Int.{pos}
use robine_ci.Offer.{is_empty}
use robine_ci.Run.{pure, ◌>>=◌}
use robine_ci.Strings.{
  trim_space, trim_front, space_at_front, space_at_back, backwards, is_space, is_space_2,
  is_space_3,
}
use robine_ci.Config.{
  Config, validate, validate_server_url, validate_executor_options, transfer_max_archive_bytes,
  below, above, has_separator,
}
use robine_ci.Config.Commands.{EnrollOptions}
use robine_ci.Config.Commands.Accepted.{IsEnrollable}
use robine_ci.Transfer.{Http, Client, get_request, get_transfer, enroll}
use robine_ci.Transfer.Whole.{IsWhole, get_transfer-IsWhole}
use robine_ci.Transfer.Enrolled.{enroll-valid}
use robine_ci.Main.{run}
use robine_ci.Main.Settled.{IsDone, run-IsDone}
use robine_ci.Tests.Settings.{
  settings, parse_server, parse_name, memory, encode, decode, empty, Files, some_eq,
}

abbrev answering : Http
answering = record {
  World = Unit {0};
  call = λ request w.
      (some (record { status = 201; content_digest = []; body = codes "ab"; complete = true }), w);
  digest = λ body. codes "d";
  decode_digest = λ body. some (codes "d");
  encode_enrollment = λ token name. codes "{}";
  decode_enrollment = λ body. some (codes "r", codes "c");
}

abbrev runner : Client
runner = record { runner_id = codes "r"; credential = codes "c"; max_archive_bytes = 5 }

get_transfer-IsWhole_example :
    IsWhole answering runner
      (answering.call (get_request runner (codes "/x") (codes "application/gzip")) tt).0
      (get_transfer answering runner (codes "/x") (codes "application/gzip") tt).0
get_transfer-IsWhole_example =
    get_transfer-IsWhole answering runner (codes "/x") (codes "application/gzip") tt

abbrev options : EnrollOptions
options = record {
  server_url = codes "https://ci";
  name = codes "n";
  config_path = codes "/c";
  enrollment_token = codes "t";
  force = false;
  executor = codes "docker";
  resource_namespace = codes "robine";
  cpu_millis = pos 2_000;
  memory_bytes = pos 4_294_967_296;
  pids_limit = pos 512;
}

options-IsEnrollable : IsEnrollable parse_server (codes "t") options
unfolding validate_server_url validate_executor_options below above has_separator bytes_eq
options-IsEnrollable = record {
  server = refl;
  executor = refl;
  named = refl;
  uses = refl;
  given = refl;
}

abbrev enrolled_settings : Config
enrolled_settings = record settings {
  executor = codes "docker";
  resource_namespace = codes "robine";
  cpu_millis = pos 2_000;
  memory_bytes = pos 4_294_967_296;
  pids_limit = pos 512;
}

enrolled : (enroll answering options tt).0 ≡ inl enrolled_settings
unfolding enroll ◌>>=◌ pure
enrolled = refl

kept :
    (is_empty (trim_space (codes "n")) ≡ false)
    × (is_empty (trim_space (codes "r")) ≡ false)
    × (is_empty (trim_space (codes "c")) ≡ false)
    × ((transfer_max_archive_bytes []).1 ≡ none)
unfolding trim_space trim_front space_at_front space_at_back backwards is_space_2 is_space_3
    is_space transfer_max_archive_bytes
kept = (refl, refl, refl, refl)

enroll-valid_example : validate parse_server [] enrolled_settings ≡ none
enroll-valid_example =
    enroll-valid answering options parse_server (codes "t") [] tt enrolled_settings
      options-IsEnrollable kept.0 kept.3 enrolled kept.1 kept.2

abbrev named_temporary : Bytes → Bool
named_temporary path = bytes_eq path (codes "/c2")

temporary_named :
    (directory t : Bytes) (d : Files)
    → (memory.create_temp directory d).0 ≡ some t
    → named_temporary t ≡ true
temporary_named directory t d e = rw (sym (some_eq e)) (bytes_eq_refl (codes "/c2"))

run-IsDone_example :
    IsDone parse_server parse_name
      (some (codes "/w"))
      true
      []
      answering
      memory
      encode
      decode
      true
      named_temporary
      temporary_named
      (run parse_server parse_name
        (some (codes "/w"))
        true
        []
        answering
        memory
        encode
        decode
        true
        (codes "enroll" ∷ [])
        (codes "t", tt, empty)).0
      (run parse_server parse_name
        (some (codes "/w"))
        true
        []
        answering
        memory
        encode
        decode
        true
        (codes "enroll" ∷ [])
        (codes "t", tt, empty)).1.2
run-IsDone_example =
    run-IsDone parse_server parse_name (some (codes "/w")) true [] answering memory encode decode
      true named_temporary temporary_named (codes "enroll" ∷ []) (codes "t") tt empty

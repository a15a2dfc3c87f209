-- ===== src/Tests/Settings.antt =====
-- Tests of the configuration, with a disk that is a function from paths to files.
use robine_ci.Prelude.{
  ℕ, ◌≡◌, ◌≢◌, refl, sym, ap, ◌∙◌, Bool, true, false, Option, none, some, List, [], ◌∷◌, ◌++◌,
  if◌then◌else◌,
}
use robine_ci.Prelude.Bytes.{Bytes, codes, bytes_eq, bytes_eq_refl, bytes_eq_ne}
use robine_ci.Prelude.Int.{pos}
use robine_ci.Run.{pure, ◌>>=◌}
use robine_ci.Strings.{
  trim_space, trim_front, space_at_front, space_at_back, backwards, is_space, is_space_2,
  is_space_3,
}
use robine_ci.Config.{
  Config, Url, validate, validate_executor_options, validate_server_url, transfer_max_archive_bytes,
  executor_of, namespace_of, cpu_millis_of, memory_bytes_of, pids_limit_of, below, above, is_zero,
  has_separator,
}
use robine_ci.Config.Files.{
  File, Disk, Found, found, missing, write_config, load, directory_of, through_slash,
}
use robine_ci.Config.Files.Atomic.{Settled, write_config-Settled, IsReadBack, load-write_config}
use robine_ci.Config.Valid.{IsValid, validate-IsValid}
use robine_ci.Config.Commands.{FlagKind, Flags, parse_command}
use robine_ci.Config.Commands.Accepted.{IsChecked, parse_command-IsChecked}

abbrev pub Files : Type 0
Files = Bytes → Option File

abbrev pub set : Bytes → Option File → Files → Files
set p f w q = if bytes_eq q p then f else w q

pub set_here : (p : Bytes) (f : Option File) (w : Files) → set p f w p ≡ f
set_here p f w = rw (bytes_eq_refl p) refl

pub set_other : (p q : Bytes) (f : Option File) (w : Files) → q ≢ p → set p f w q ≡ w q
set_other p q f w other = rw (bytes_eq_ne q p other) refl

-- A change of a file that there is.
abbrev pub change : (File → File) → Bytes → Option File → Files → Bool × Files
change g p none w = (false, w)
change g p (some f) w = (true, set p (some (g f)) w)

pub change_keeps :
    (g : File → File) (p q : Bytes) (o : Option File) (w : Files)
    → q ≢ p
    → (change g p o w).1 q ≡ w q
change_keeps g p q none w other = refl
change_keeps g p q (some f) w other = set_other p q (some (g f)) w other

pub change_here :
    (g : File → File) (p : Bytes) (o : Option File) (f : File) (w : Files)
    → o ≡ some f
    → (change g p o w).1 p ≡ some (g f)
change_here g p o f w e = ap (λ x. (change g p x w).1 p) e ∙ set_here p (some (g f)) w

abbrev pub mode_of : Option File → Option ℕ
mode_of none = none
mode_of (some f) = some f.mode

abbrev pub body_of : Option File → Option Bytes
body_of none = none
body_of (some f) = some f.body

abbrev pub found_of : Option File → Found
found_of none = missing
found_of (some f) = found

pub some_eq : {A : Type 0} {a b : A} → some a ≡ some b → a ≡ b
some_eq e = cc

pub mode_known :
    (o : Option File) (m : ℕ) → mode_of o ≡ some m → (f : File) × (o ≡ some f) × (f.mode ≡ m)
mode_known none m e = cc
mode_known (some f) m e = (f, refl, some_eq e)

pub body_known :
    (o : Option File) (b : Bytes) → body_of o ≡ some b → (f : File) × (o ≡ some f) × (f.body ≡ b)
body_known none b e = cc
body_known (some f) b e = (f, refl, some_eq e)

abbrev pub temporary : Bytes
temporary = codes "/c2"

pub other_name : (q : Bytes) → some temporary ≢ some q → q ≢ temporary
other_name q h e = h (ap some (sym e))

pub true_ne_false : true ≡ false → ⊥
true_ne_false e = cc

abbrev pub memory : Disk
memory = record {
  World = Files;
  file = λ p w. w p;
  stat = λ p w. (mode_of (w p), w);
  stat_reads = λ p m w e. mode_known (w p) m e;
  stat_keeps = λ p q w. refl;
  read = λ p w. (body_of (w p), w);
  read_reads = λ p body w e. body_known (w p) body e;
  lstat = λ p w. (found_of (w p), w);
  lstat_keeps = λ p q w. refl;
  make_dirs = λ p w. (true, w);
  make_dirs_keeps = λ p q w. refl;
  create_temp = λ p w. (some temporary, set temporary (some (record { mode = 384; body = [] })) w);
  create_temp_makes = λ p t w e. (
    record { mode = 384; body = [] },
    ap (λ x. set temporary (some (record { mode = 384; body = [] })) w x) (sym (some_eq e))
        ∙ set_here temporary (some (record { mode = 384; body = [] })) w,
    refl,
  );
  create_temp_keeps = λ p q w h. set_other temporary q _ w (other_name q h);
  chmod = λ p m w. change (λ f. record f { mode = m }) p (w p) w;
  chmod_sets = λ p m f w ok e. change_here (λ f. record f { mode = m }) p (w p) f w e;
  chmod_keeps = λ p q m w other. change_keeps (λ f. record f { mode = m }) p q (w p) w other;
  write = λ p body w. change (λ f. record f { body = f.body ++ body }) p (w p) w;
  write_appends =
      λ p body f w ok e. change_here (λ f. record f { body = f.body ++ body }) p (w p) f w e;
  write_keeps =
      λ p q body w other. change_keeps (λ f. record f { body = f.body ++ body }) p q (w p) w other;
  sync = λ p w. (true, w);
  sync_keeps = λ p q w. refl;
  close = λ p w. (true, w);
  close_keeps = λ p q w. refl;
  rename = λ p q w. (true, set q (w p) (set p none w));
  rename_moves = λ p q w ok. set_here q (w p) (set p none w);
  rename_fails = λ p q w bad. absurd (true_ne_false bad);
  remove = λ p w. (true, set p none w);
  remove_keeps = λ p q w other. set_other p q none w other;
}

abbrev server : Url
server = record {
  scheme = codes "https";
  host = codes "ci";
  hostname = codes "ci";
  has_user = false;
  raw_query = [];
  fragment = [];
}

abbrev pub parse_server : Bytes → Option Url
parse_server raw = some server

abbrev pub settings : Config
settings = record {
  server_url = codes "https://ci";
  runner_id = codes "r";
  credential = codes "c";
  name = codes "n";
  executor = [];
  resource_namespace = [];
  cpu_millis = pos 0;
  memory_bytes = pos 0;
  pids_limit = pos 0;
}

pub settings_valid : validate parse_server [] settings ≡ none
unfolding validate validate_server_url validate_executor_options transfer_max_archive_bytes
    executor_of namespace_of cpu_millis_of memory_bytes_of pids_limit_of below above is_zero
    has_separator trim_space trim_front space_at_front space_at_back backwards is_space_2 is_space_3
    is_space bytes_eq
settings_valid = refl

validate-IsValid_example : IsValid parse_server settings
validate-IsValid_example = validate-IsValid parse_server [] settings settings_valid

abbrev pub encode : Config → Bytes
encode cfg = codes "{}"

abbrev pub decode : Bytes → Option Config
decode body = some settings

abbrev path : Bytes
path = codes "/c"

abbrev pub empty : Files
empty p = none

other_path : (w : Files) → (memory.create_temp (directory_of path) w).0 ≢ some path
other_path w e = cc

write_config-Settled_example :
    Settled
      (empty path)
      (record { mode = 384; body = codes "{}" })
      (write_config parse_server [] memory encode path settings false empty).0
      ((write_config parse_server [] memory encode path settings false empty).1 path)
write_config-Settled_example =
    write_config-Settled memory parse_server [] encode path settings false empty other_path

written : (write_config parse_server [] memory encode path settings false empty).0 ≡ none
unfolding write_config directory_of through_slash ◌>>=◌ pure validate validate_server_url
    validate_executor_options transfer_max_archive_bytes executor_of namespace_of cpu_millis_of
    memory_bytes_of pids_limit_of below above is_zero has_separator trim_space trim_front
    space_at_front space_at_back backwards is_space_2 is_space_3 is_space bytes_eq
written = refl

load-write_config_example :
    IsReadBack settings
      (load parse_server [] memory decode true path
        (write_config parse_server [] memory encode path settings false empty).1).0
load-write_config_example =
    load-write_config memory parse_server [] encode decode true path settings false empty refl
      other_path written

abbrev pub parse_name : List (Bytes × FlagKind) → List Bytes → Option Flags
parse_name declared args = some (record {
  texts = λ name. some (codes "docker");
  booleans = λ name. none;
  integers = λ name. none;
  rest = [];
})

parse_command-IsChecked_example :
    IsChecked parse_server
      (codes "token")
      (parse_command parse_server parse_name
        (some (codes "/w"))
        true
        (codes "enroll" ∷ [])
        (codes "token")).1
      (parse_command parse_server parse_name
        (some (codes "/w"))
        true
        (codes "enroll" ∷ [])
        (codes "token")).0
parse_command-IsChecked_example =
    parse_command-IsChecked parse_server parse_name (some (codes "/w")) true (codes "enroll" ∷ [])
      (codes "token")

-- A no-break space, a space and an ideographic space around a letter.
trims : trim_space (0xc2 ∷ 0xa0 ∷ 32 ∷ 97 ∷ 0xe3 ∷ 0x80 ∷ 0x80 ∷ []) ≡ 97 ∷ []
unfolding trim_space trim_front space_at_front space_at_back backwards is_space is_space_2
    is_space_3
trims = refl

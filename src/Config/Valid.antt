-- ===== src/Config/Valid.antt =====
-- What a valid configuration guarantees, and the limit on transfers.
use robine_ci.Prelude.{
  ℕ, ◌≤◌, ◌≡◌, ◌≢◌, refl, sym, ap, ◌∙◌, true, false, not, ◌||◌, ◌&&◌, Option, none, some, [], ◌∷◌,
  ◌⊎◌, inl, inr, arith, ltb, length, Bool-cases,
}
use mathlib.Core.Bool.{false≢true}
use robine_ci.Prelude.Bytes.{Bytes, codes, bytes_eq, bytes_eq_sound}
use robine_ci.Prelude.Int.{ℤ, pos, negsuc}
use robine_ci.Prelude.Checks.{or_false, neither, refused, passed}
use robine_ci.Offer.{is_empty}
use robine_ci.Strings.{parse_int, print_nat}
use robine_ci.Strings.Decimal.{parse_int-print_nat, print_nat-first}
use robine_ci.Config.{
  Config, Url, Error, below, above, validate, validate_server_url, validate_executor_options,
  check_url, is_loopback, transfer_max_archive_bytes, within_limit, executor_of, namespace_of,
  cpu_millis_of, memory_bytes_of, pids_limit_of, maximum_transfer_limit, has_separator, or_then,
}

abbrev pub Between : ℕ → ℕ → ℤ → Type 0
Between low high value = (n : ℕ) × (value ≡ pos n) × (low ≤ n) × (n ≤ high)

pub between :
    (low high : ℕ) (value : ℤ)
    → below value low || above value high ≡ false
    → Between low high value
unfolding below above
between low high (pos n) e = (n, refl, ground (arith, e), ground (arith, e))
between low high (negsuc n) e = absurd (false≢true (sym e))

within_limit-Between : (read : Option ℤ) → Between 1 maximum_transfer_limit (within_limit read).0
unfolding within_limit
within_limit-Between none = (268_435_456, refl, omega arith, omega arith)
within_limit-Between (some value) =
    elim (Bool-cases (below value 1 || above value maximum_transfer_limit)) [
      | inl e ↦ rw e (268_435_456, refl, omega arith, omega arith)
      | inr e ↦ rw e (between 1 maximum_transfer_limit value e)
    ]

-- Whatever the variable holds, the limit on transfers is between one byte and a billion bytes.
pub transfer_max_archive_bytes-Between :
    (raw : Bytes) → Between 1 maximum_transfer_limit (transfer_max_archive_bytes raw).0
unfolding transfer_max_archive_bytes
transfer_max_archive_bytes-Between [] = (268_435_456, refl, omega arith, omega arith)
transfer_max_archive_bytes-Between (c ∷ raw) = within_limit-Between (parse_int (c ∷ raw))

-- A limit from one byte to a billion bytes that stands in the variable in decimal is the limit.
pub transfer_max_archive_bytes-print_nat :
    (n : ℕ)
    → 1 ≤ n
    → n ≤ maximum_transfer_limit
    → transfer_max_archive_bytes (print_nat n) ≡ (pos n, none)
unfolding transfer_max_archive_bytes within_limit below above
transfer_max_archive_bytes-print_nat n low high =
    let (c, s, same, _, _) = print_nat-first n in
    let read : parse_int (c ∷ s) ≡ some (pos n) =
      ap parse_int (sym same) ∙ parse_int-print_nat n (omega arith) in
    ap transfer_max_archive_bytes same ∙ ground (arith, read)

abbrev pub IsSecure : Url → Type 0
IsSecure u =
    (u.scheme ≡ codes "https")
    ⊎ ((u.scheme ≡ codes "http")
        × ((u.hostname ≡ codes "localhost")
            ⊎ (u.hostname ≡ codes "127.0.0.1")
            ⊎ (u.hostname ≡ codes "::1")))

pub record IsValid (parse_url : Bytes → Option Url) (cfg : Config) : Type 0 where
  pub secure : (u : Url) × (parse_url cfg.server_url ≡ some u) × (u.has_user ≡ false) × IsSecure u
  pub executor : (executor_of cfg ≡ codes "native") ⊎ (executor_of cfg ≡ codes "docker")
  pub named : namespace_of cfg ≢ []
  pub short : length (namespace_of cfg) ≤ 80
  pub cpu : Between 100 256_000 (cpu_millis_of cfg)
  pub memory : Between 67_108_864 1_099_511_627_776 (memory_bytes_of cfg)
  pub pids : Between 16 1_000_000 (pids_limit_of cfg)

pub or_then-none :
    (parse_url : Bytes → Option Url) (a b : Option Error)
    → or_then parse_url a b ≡ none
    → (a ≡ none) × (b ≡ none)
or_then-none parse_url (some e) b h = absurd (refused h)
or_then-none parse_url none b h = (refl, h)

one_of : (s a b : Bytes) → not (bytes_eq s a) && not (bytes_eq s b) ≡ false → (s ≡ a) ⊎ (s ≡ b)
one_of s a b h = elim (Bool-cases (bytes_eq s a)) [
  | inl e ↦ inl (bytes_eq_sound s a e)
  | inr e ↦ elim (Bool-cases (bytes_eq s b)) [
    | inl e' ↦ inr (bytes_eq_sound s b e')
    | inr e' ↦ absurd (false≢true (sym (rw (e, e') at h)))
  ]
]

loopback_cases :
    (h : Bytes)
    → is_loopback h ≡ true
    → (h ≡ codes "localhost") ⊎ (h ≡ codes "127.0.0.1") ⊎ (h ≡ codes "::1")
unfolding is_loopback
loopback_cases h e = elim (Bool-cases (bytes_eq h (codes "localhost"))) [
  | inl a ↦ inl (bytes_eq_sound h _ a)
  | inr a ↦ elim (Bool-cases (bytes_eq h (codes "127.0.0.1"))) [
    | inl b ↦ inr (inl (bytes_eq_sound h _ b))
    | inr b ↦ inr (inr (bytes_eq_sound h _ (rw (a, b) at e)))
  ]
]

check_url-IsSecure : (u : Url) → check_url (some u) ≡ none → (u.has_user ≡ false) × IsSecure u
unfolding check_url
check_url-IsSecure u e =
    let (clean_, rest) =
      passed
        (is_empty u.hostname
          || u.has_user
          || not (is_empty u.raw_query)
          || not (is_empty u.fragment))
        _ _ e in
    let no_query = (or_false _ (not (is_empty u.fragment)) clean_).0 in
    let no_user =
      (or_false (is_empty u.hostname || u.has_user) (not (is_empty u.raw_query)) no_query).0 in
    (
      (or_false (is_empty u.hostname) u.has_user no_user).1,
      elim (Bool-cases (bytes_eq u.scheme (codes "https"))) [
        | inl s ↦ inl (bytes_eq_sound u.scheme _ s)
        | inr s ↦ elim (Bool-cases (bytes_eq u.scheme (codes "http"))) [
          | inl p ↦ elim (Bool-cases (is_loopback u.hostname)) [
            | inl l ↦ inr (bytes_eq_sound u.scheme _ p, loopback_cases u.hostname l)
            | inr l ↦ absurd (refused (rw (s, p, l) at rest))
          ]
          | inr p ↦ absurd (refused (rw (s, p) at rest))
        ]
      ],
    )

nonempty : (s : Bytes) → is_empty s ≡ false → s ≢ []
nonempty [] h = absurd (false≢true (sym h))
nonempty (c ∷ s) h = λ e. cc

url-IsSecure :
    (parsed : Option Url)
    → check_url parsed ≡ none
    → (u : Url) × (parsed ≡ some u) × (u.has_user ≡ false) × IsSecure u
unfolding check_url
url-IsSecure none e = absurd (refused e)
url-IsSecure (some u) e =
    let (no_user, secure) = check_url-IsSecure u e in (u, refl, no_user, secure)

module _ (parse_url : Bytes → Option Url) (variable : Bytes) (cfg : Config) where
  options-IsValid :
      (u : Url)
      → parse_url cfg.server_url ≡ some u
      → u.has_user ≡ false
      → IsSecure u
      → validate_executor_options
          (executor_of cfg)
          (namespace_of cfg)
          (cpu_millis_of cfg)
          (memory_bytes_of cfg)
          (pids_limit_of cfg)
        ≡ none
      → IsValid parse_url cfg
  unfolding validate_executor_options
  options-IsValid u parsed no_user secure e =
      let cpu = cpu_millis_of cfg in
      let memory = memory_bytes_of cfg in
      let pids = pids_limit_of cfg in
      let name = namespace_of cfg in
      let (native, e1) = passed _ _ _ e in
      let (named, e2) =
        passed (is_empty name || ltb 80 (length name) || has_separator name) _ _ e1 in
      let (limits, _) =
        passed
          (below cpu 100
            || above cpu 256_000
            || below memory 67_108_864
            || above memory 1_099_511_627_776
            || below pids 16
            || above pids 1_000_000)
          _ _ e2 in
      let (full, long) =
        or_false (is_empty name) (ltb 80 (length name)) (or_false _ (has_separator name) named).0 in
      let (l5, pids_high) = or_false _ (above pids 1_000_000) limits in
      let (l4, pids_low) = or_false _ (below pids 16) l5 in
      let (l3, memory_high) = or_false _ (above memory 1_099_511_627_776) l4 in
      let (l2, memory_low) = or_false _ (below memory 67_108_864) l3 in
      record {
        secure = (u, parsed, no_user, secure);
        executor = one_of (executor_of cfg) _ _ native;
        named = nonempty name full;
        short = ground (arith, long);
        cpu = between 100 256_000 cpu l2;
        memory = between 67_108_864 1_099_511_627_776 memory (neither _ _ memory_low memory_high);
        pids = between 16 1_000_000 pids (neither _ _ pids_low pids_high);
      }

  -- A configuration that passes Validate names a server that is reached over TLS or on the loopback
  -- interface and without a user, an executor of the two that there are, a namespace of 1 to 80 bytes,
  -- and limits of CPU, memory and processes within the bounds, defaults included.
  pub validate-IsValid : validate parse_url variable cfg ≡ none → IsValid parse_url cfg
  unfolding validate validate_server_url
  validate-IsValid e =
      let (_, e1) = passed _ _ _ e in
      let (server, e2) = or_then-none parse_url (check_url (parse_url cfg.server_url)) _ e1 in
      let (_, options) = or_then-none parse_url (transfer_max_archive_bytes variable).1 _ e2 in
      let (u, parsed, no_user, secure) = url-IsSecure (parse_url cfg.server_url) server in
      options-IsValid u parsed no_user secure options

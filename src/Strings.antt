-- ===== src/Strings.antt =====
-- What the runner uses of Go's strings, strconv and sort, on byte strings: strings.Contains,
-- ReplaceAll, TrimSpace, Fields, Split at line ends, ToLower, decimal numbers and sort.Strings. The letters
-- of ToLower and the white space of Fields are those of ASCII.
pub mod Decimal
pub mod Sorted
use robine_ci.Prelude.{
  ℕ, zero, suc, ◌+◌, ◌-◌, ◌*◌, ◌/◌, ◌%◌, ◌^◌, Bool, true, false, ◌||◌, ◌&&◌, Option, none, some,
  List, [], ◌∷◌, ◌++◌, ltb, leb, length, drop, ◌==◌, if◌then◌else◌,
}
use robine_ci.Prelude.Bytes.{Bytes, codes, bytes_eq}
use robine_ci.Prelude.Int.{ℤ, pos, negsuc}
use robine_ci.Offer.{is_empty}
use robine_ci.Redactor.{begins_with}

unfoldable pub contains : Bytes → Bytes → Bool
contains [] part = is_empty part
contains (c ∷ s) part = begins_with (c ∷ s) part || contains s part

-- strings.ReplaceAll of a text that is not empty. Each round drops at least one byte, so the length
-- is enough fuel.
unfoldable pub replace_rounds : ℕ → Bytes → Bytes → Bytes → Bytes
replace_rounds zero s old new = []
replace_rounds (suc fuel) [] old new = []
replace_rounds (suc fuel) (c ∷ s) old new =
    let hit = new ++ replace_rounds fuel (drop (length old) (c ∷ s)) old new in
    let miss = c ∷ replace_rounds fuel s old new in if begins_with (c ∷ s) old then hit else miss

unfoldable pub replace_all : Bytes → Bytes → Bytes → Bytes
unfolding replace_rounds
replace_all s old new = replace_rounds (length s) s old new

unfoldable pub is_space : ℕ → Bool
is_space c = c == 32 || (leb 9 c && leb c 13)

-- The white space of Unicode beyond ASCII, as UTF-8: U+0085 and U+00A0 in two bytes; U+1680, U+2000 to
-- U+200A, U+2028, U+2029, U+202F, U+205F and U+3000 in three.
unfoldable pub is_space_2 : ℕ → ℕ → Bool
is_space_2 a b = a == 0xc2 && (b == 0x85 || b == 0xa0)

unfoldable pub is_space_3 : ℕ → ℕ → ℕ → Bool
is_space_3 a b c =
    (a == 0xe1 && b == 0x9a && c == 0x80)
    || (a == 0xe2
        && b == 0x80
        && ((leb 0x80 c && leb c 0x8a) || c == 0xa8 || c == 0xa9 || c == 0xaf))
    || (a == 0xe2 && b == 0x81 && c == 0x9f)
    || (a == 0xe3 && b == 0x80 && c == 0x80)

-- The number of bytes of the white space that a text begins with; 0 for none.
unfoldable pub space_at_front : Bytes → ℕ
unfolding is_space is_space_2 is_space_3
space_at_front [] = 0
space_at_front (a ∷ []) = if is_space a then 1 else 0
space_at_front (a ∷ b ∷ []) = if is_space a then 1 else if is_space_2 a b then 2 else 0
space_at_front (a ∷ b ∷ c ∷ s) =
    if is_space a then 1 else if is_space_2 a b then 2 else if is_space_3 a b c then 3 else 0

-- The same of a text that is read from its end.
unfoldable pub space_at_back : Bytes → ℕ
unfolding is_space is_space_2 is_space_3
space_at_back [] = 0
space_at_back (a ∷ []) = if is_space a then 1 else 0
space_at_back (a ∷ b ∷ []) = if is_space a then 1 else if is_space_2 b a then 2 else 0
space_at_back (a ∷ b ∷ c ∷ s) =
    if is_space a then 1 else if is_space_2 b a then 2 else if is_space_3 c b a then 3 else 0

-- Drops white space as long as there is some; the number is what is still to be dropped of one.
unfoldable pub trim_front : (Bytes → ℕ) → ℕ → Bytes → Bytes
trim_front width skip [] = []
trim_front width (suc skip) (c ∷ s) = trim_front width skip s
trim_front width zero (c ∷ s) =
    let size = width (c ∷ s) in
    let rest = trim_front width (size - 1) s in if size == 0 then c ∷ s else rest

unfoldable pub backwards : Bytes → Bytes → Bytes
backwards done [] = done
backwards done (c ∷ s) = backwards (c ∷ done) s

unfoldable pub trim_space : Bytes → Bytes
unfolding space_at_front space_at_back trim_front backwards
trim_space s =
    let front = trim_front space_at_front 0 s in
    backwards [] (trim_front space_at_back 0 (backwards [] front))

-- strings.Split at a byte.
unfoldable pub push_first : ℕ → List Bytes → List Bytes
push_first c [] = (c ∷ []) ∷ []
push_first c (p ∷ ps) = (c ∷ p) ∷ ps

unfoldable pub split_at : ℕ → Bytes → List Bytes
unfolding push_first
split_at sep [] = [] ∷ []
split_at sep (c ∷ s) =
    let rest = split_at sep s in if c == sep then [] ∷ rest else push_first c rest

-- strings.Fields
unfoldable pub fields_from : Bytes → Bytes → List Bytes
fields_from word [] = if is_empty word then [] else word ∷ []
fields_from word (c ∷ s) =
    let ended = fields_from [] s in
    let going = fields_from (word ++ c ∷ []) s in
    if is_space c then (if is_empty word then ended else word ∷ ended) else going

unfoldable pub fields : Bytes → List Bytes
unfolding fields_from is_space
fields s = fields_from [] s

unfoldable pub lower : ℕ → ℕ
lower c = if leb 65 c && leb c 90 then c + 32 else c

unfoldable pub to_lower : Bytes → Bytes
unfolding lower
to_lower [] = []
to_lower (c ∷ s) = lower c ∷ to_lower s

-- strconv.Itoa and "%d". A number is longer than its digits, so it is enough fuel.
unfoldable pub digits : ℕ → ℕ → Bytes
digits zero n = []
digits (suc fuel) n =
    let front = digits fuel (n / 10) in
    if ltb n 10 then (48 + n) ∷ [] else front ++ (48 + n % 10) ∷ []

unfoldable pub print_nat : ℕ → Bytes
unfolding digits
print_nat n = digits (suc n) n

unfoldable pub print_int : ℤ → Bytes
unfolding print_nat
print_int (pos n) = print_nat n
print_int (negsuc n) = 45 ∷ print_nat (suc n)

-- strconv.ParseInt in base 10 with 64 bits.
unfoldable pub is_digit : ℕ → Bool
is_digit c = leb 48 c && leb c 57

unfoldable pub read_digits : ℕ → Bytes → Option ℕ
unfolding is_digit
read_digits n [] = some n
read_digits n (c ∷ s) =
    let rest = read_digits (n * 10 + (c - 48)) s in if is_digit c then rest else none

unfoldable pub read_nat : Bytes → Option ℕ
unfolding read_digits
read_nat [] = none
read_nat (c ∷ s) = read_digits 0 (c ∷ s)

below_limit : ℕ → Option ℕ → Option ℕ
below_limit limit none = none
below_limit limit (some n) = if ltb n limit then some n else none

negated : Option ℕ → Option ℤ
negated none = none
negated (some zero) = some (pos zero)
negated (some (suc n)) = some (negsuc n)

positive : Option ℕ → Option ℤ
positive none = none
positive (some n) = some (pos n)

unfoldable pub parse_int : Bytes → Option ℤ
unfolding below_limit negated positive read_nat
parse_int [] = none
parse_int (c ∷ s) =
    if c == 45
    then negated (below_limit (2 ^ 63 + 1) (read_nat s))
    else if c == 43
    then positive (below_limit (2 ^ 63) (read_nat s))
    else positive (below_limit (2 ^ 63) (read_nat (c ∷ s)))

-- The order of sort.Strings.
unfoldable pub bytes_le : Bytes → Bytes → Bool
bytes_le [] t = true
bytes_le (b ∷ s) [] = false
bytes_le (b ∷ s) (c ∷ t) = ltb b c || (b == c && bytes_le s t)

unfoldable pub insert_sorted : Bytes → List Bytes → List Bytes
insert_sorted v [] = v ∷ []
insert_sorted v (s ∷ ss) =
    let later = s ∷ insert_sorted v ss in if bytes_le v s then v ∷ s ∷ ss else later

unfoldable pub sort_strings : List Bytes → List Bytes
unfolding insert_sorted
sort_strings [] = []
sort_strings (s ∷ ss) = insert_sorted s (sort_strings ss)

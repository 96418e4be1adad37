-- ===== src/Text.antt =====
-- The parts of Go's text packages that the program uses: `strconv.Itoa`, `path.Base`,
-- `strings.SplitN`, `%x` and decimal parsing, on texts as lists of characters.
pub mod Digits
use Prim.Native.Char.{Char, code}
use cloud_android_orchestrat.Prelude.{
  ◌≡◌, refl, arith, ℕ, zero, suc, ◌+◌, ◌-◌, ◌*◌, ◌^◌, leb, Option, none, some, ◌/◌, ◌%◌, String,
  Bool, true, ◌&&◌, ltb, ◌==◌, ◌<>◌, str_eq, if◌then◌else◌,
}

-- `len`, in characters; the texts that are measured are ASCII
abbrev pub text_length : String → ℕ
text_length String.[] = 0
text_length (String.◌∷◌ c s) = suc (text_length s)

pub text_length_zero : (s : String) → text_length s ≡ 0 → s ≡ ""
text_length_zero String.[] e = refl
text_length_zero (String.◌∷◌ c s) e = absurd (omega arith)

-- The digit of a value below 16.
unfoldable pub hex_char : ℕ → Char
hex_char n =
    if n == 0
    then "0"
    else if n == 1
    then "1"
    else if n == 2
    then "2"
    else if n == 3
    then "3"
    else if n == 4
    then "4"
    else if n == 5
    then "5"
    else if n == 6
    then "6"
    else if n == 7
    then "7"
    else if n == 8
    then "8"
    else if n == 9
    then "9"
    else if n == 10
    then "a"
    else if n == 11
    then "b"
    else if n == 12
    then "c"
    else if n == 13
    then "d"
    else if n == 14
    then "e"
    else "f"

-- `%.wx` of a number below 16 ^ w, before the text `tail`.
unfoldable pub hex_onto : ℕ → ℕ → String → String
unfolding hex_char
hex_onto zero n tail = tail
hex_onto (suc w) n tail = hex_onto w (n / 16) (String.◌∷◌ (hex_char (n % 16)) tail)

-- Decimal digits before `tail`.
itoa_onto : ℕ → ℕ → String → String
unfolding hex_char
itoa_onto zero n tail = tail
itoa_onto (suc fuel) n tail =
    let more = itoa_onto fuel (n / 10) (String.◌∷◌ (hex_char (n % 10)) tail) in
    if ltb n 10 then String.◌∷◌ (hex_char n) tail else more

-- `strconv.Itoa`, and `%d`; a number has at most as many digits as its value, and one more.
unfoldable pub itoa : ℕ → String
unfolding itoa_onto
itoa n = itoa_onto (suc n) n ""

-- The text behind the last slash.
after_last_slash : String → String → String
after_last_slash acc String.[] = acc
after_last_slash acc (String.◌∷◌ c s) =
    after_last_slash (if code c == b'/' then "" else (acc <> String.◌∷◌ c "")) s

has_only_slashes : String → Bool
has_only_slashes String.[] = true
has_only_slashes (String.◌∷◌ c s) = code c == b'/' && has_only_slashes s

trim_right_slashes : String → String
trim_right_slashes String.[] = ""
trim_right_slashes (String.◌∷◌ c s) =
    let rest = String.◌∷◌ c (trim_right_slashes s) in
    if code c == b'/' && has_only_slashes s then "" else rest

-- `path.Base`
unfoldable pub path_base : String → String
unfolding after_last_slash has_only_slashes trim_right_slashes
path_base s =
    if str_eq s ""
    then "."
    else if has_only_slashes s
    then "/"
    else after_last_slash "" (trim_right_slashes s)

-- The digits of a decimal text, read after those that make `acc`.
unfoldable pub parse_digits : ℕ → String → Option ℕ
parse_digits acc String.[] = some acc
parse_digits acc (String.◌∷◌ c s) =
    let rest = parse_digits (acc * 10 + (code c - 48)) s in
    if leb 48 (code c) && leb (code c) 57 then rest else none

-- `strconv.ParseUint(value, 10, bits)`: `none` for a syntax or a range error
unfoldable pub parse_uint : ℕ → String → Option ℕ
unfolding parse_digits
parse_uint bits String.[] = none
parse_uint bits (String.◌∷◌ c s) = elim (parse_digits 0 (String.◌∷◌ c s)) [
  | none ↦ none
  | some n ↦ if ltb n (2 ^ bits) then some n else none
]

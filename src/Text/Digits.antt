-- ===== src/Text/Digits.antt =====
-- Fixed-width hexadecimal, and decimal printing and parsing.
use Prim.Native.Char.{Char, code}
use native.Mathlib.Nat.{pow-suc}
use cloud_android_orchestrat.Prelude.{
  every_below, every_below-true, some, ◌^◌, ◌*◌, ltb, Bool-cases, inr, inl, ap, subst, sym, ◌≢◌,
  ◌∙◌, ℕ, zero, suc, ◌+◌, ◌-◌, ◌/◌, ◌%◌, ◌<◌, String, ◌≡◌, refl, Bool, true, arith, leb, ◌==◌,
}
use cloud_android_orchestrat.Text.{
  parse_uint, parse_digits, itoa, itoa_onto, text_length, hex_char, hex_onto,
}

pub text_length-hex_onto :
    (w n : ℕ) (tail : String) → text_length (hex_onto w n tail) ≡ w + text_length tail
unfolding hex_onto
text_length-hex_onto zero n tail = omega arith
text_length-hex_onto (suc w) n tail =
    omega (arith, text_length-hex_onto w (n / 16) (String.◌∷◌ (hex_char (n % 16)) tail))

-- The value of a digit.
abbrev digit_value : ℕ → ℕ
digit_value c = if_letter (leb 97 c) c
  where
    if_letter : Bool → ℕ → ℕ
    if_letter true c = c - 87
    if_letter _ c = c - 48

hex_table : every_below (λ x. digit_value (code (hex_char x)) == x) 16 ≡ true
unfolding every_below hex_char
hex_table = refl

decimal_table : every_below (λ x. (code (hex_char x) == 48 + x)) 10 ≡ true
unfolding every_below hex_char
decimal_table = refl

digit_value-hex_char : (x : ℕ) → x < 16 → digit_value (code (hex_char x)) ≡ x
digit_value-hex_char x h =
    ground (arith, every_below-true (λ y. digit_value (code (hex_char y)) == y) 16 x h hex_table)

code-hex_char : (x : ℕ) → x < 10 → code (hex_char x) ≡ 48 + x
code-hex_char x h =
    ground (arith, every_below-true (λ y. code (hex_char y) == 48 + y) 10 x h decimal_table)

hex_char_injective : (x y : ℕ) → x < 16 → y < 16 → hex_char x ≡ hex_char y → x ≡ y
hex_char_injective x y h k e =
    sym (digit_value-hex_char x h) ∙ ap (λ c. digit_value (code c)) e ∙ digit_value-hex_char y k

abbrev head_or : Char → String → Char
head_or d String.[] = d
head_or d (String.◌∷◌ c s) = c

abbrev rest_of : String → String
rest_of String.[] = String.[]
rest_of (String.◌∷◌ c s) = s

-- Of a fixed width, the digits determine the number and what follows them.
pub hex_onto_injective :
    (w n m : ℕ) (s t : String)
    → n < 16 ^ w
    → m < 16 ^ w
    → hex_onto w n s ≡ hex_onto w m t
    → (n ≡ m) × (s ≡ t)
unfolding hex_onto
hex_onto_injective zero n m s t h k e = (omega arith, e)
hex_onto_injective (suc w) n m s t h k e =
    let h' : n < 16 ^ w * 16 = rw (← pow-suc 16 w) h in
    let k' : m < 16 ^ w * 16 = rw (← pow-suc 16 w) k in
    let (q, tails) =
      hex_onto_injective w (n / 16) (m / 16) (String.◌∷◌ (hex_char (n % 16)) s)
        (String.◌∷◌ (hex_char (m % 16)) t) (omega arith) (omega arith) e in
    let d =
      hex_char_injective (n % 16) (m % 16) (omega arith) (omega arith)
        (ap (head_or (hex_char 0)) tails) in
    (omega arith, ap rest_of tails)

-- Reading the digits of `n` and then `tail` is reading `tail` behind `n`.
parse_digits-itoa_onto :
    (fuel n : ℕ) (tail : String)
    → n < fuel
    → parse_digits 0 (itoa_onto fuel n tail) ≡ parse_digits n tail
unfolding parse_digits itoa_onto
parse_digits-itoa_onto zero n tail h = elim h [ ]
parse_digits-itoa_onto (suc fuel) n tail h = elim (Bool-cases (ltb n 10)) [
  | inl small ↦ rw small (ground (arith, code-hex_char n))
  | inr big ↦ rw big (
      parse_digits-itoa_onto fuel (n / 10) (String.◌∷◌ (hex_char (n % 10)) tail) (ground arith)
      ∙ ground (arith, code-hex_char (n % 10)))
]

IsCons : String → Type 0
IsCons String.[] = ⊥
IsCons (String.◌∷◌ c s) = Unit

itoa_onto-IsCons : (fuel n : ℕ) (tail : String) → 0 < fuel → IsCons (itoa_onto fuel n tail)
unfolding itoa_onto IsCons
itoa_onto-IsCons zero n tail h = elim h [ ]
itoa_onto-IsCons (suc zero) n tail h = elim (Bool-cases (ltb n 10)) [
  | inl small ↦ rw small tt
  | inr big ↦ rw big tt
]
itoa_onto-IsCons (suc (suc fuel)) n tail h = elim (Bool-cases (ltb n 10)) [
  | inl small ↦ rw small tt
  | inr big ↦ rw big (itoa_onto-IsCons (suc fuel) (n / 10) _ (omega arith))
]

parse_uint-eq-some :
    (bits n : ℕ) (s : String)
    → IsCons s
    → parse_digits 0 s ≡ some n
    → n < 2 ^ bits
    → parse_uint bits s ≡ some n
unfolding parse_uint IsCons
parse_uint-eq-some bits n String.[] c e h = absurd c
parse_uint-eq-some bits n (String.◌∷◌ d s) c e h = rw (e, parse_uint) (ground arith)

-- A number that fits into the bits is read back from its decimal text.
pub parse_uint-itoa : (bits n : ℕ) → n < 2 ^ bits → parse_uint bits (itoa n) ≡ some n
unfolding itoa parse_digits
parse_uint-itoa bits n h =
    parse_uint-eq-some bits n (itoa_onto (suc n) n "") (itoa_onto-IsCons (suc n) n "" (omega arith))
      (parse_digits-itoa_onto (suc n) n "" (omega arith)) h

-- A printed number is no empty text.
pub itoa-ne-empty : (n : ℕ) → itoa n ≢ ""
unfolding itoa IsCons
itoa-ne-empty n e = subst IsCons e (itoa_onto-IsCons (suc n) n "" (omega arith))

-- What is read fits into the bits.
pub parse_uint-lt : (bits n : ℕ) (s : String) → parse_uint bits s ≡ some n → n < 2 ^ bits
unfolding parse_uint
parse_uint-lt bits n String.[] e = cc
parse_uint-lt bits n (String.◌∷◌ c s) e = ground arith

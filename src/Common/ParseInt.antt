-- ===== src/Common/ParseInt.antt =====
-- `parseInt(text, 10)`, and that it reads what `toString` of a number writes.
use gdl_finance_v.Common.Text.{text_eq, show_nat, digits, Text}
use gdl_finance_v.Base.{
  ◌%◌, ◌/◌, inr, inl, ap, ltb, refl, ◌∙◌, false, Bool-cases, if◌then◌else◌, ◌-◌, ◌&&◌, ◌||◌, true,
  arith, ◌+◌, leb, ◌==◌, ◌≡◌, ◌<◌, Option, ◌*◌, Bool, List, ℕ, [], ◌∷◌, none, some, zero, suc,
}
use gdl_finance_v.Base.Int.{ℤ, pos, negsuc}
use mathlib.Core.Option

-- The ASCII characters that parseInt skips at the start.
abbrev pub is_space : ℕ → Bool
is_space c = c == 32 || (leb 9 c && leb c 13)

abbrev pub is_digit : ℕ → Bool
is_digit c = leb b'0' c && leb c b'9'

unfoldable pub skip_spaces : List ℕ → List ℕ
skip_spaces [] = []
skip_spaces (c ∷ cs) = let rest = skip_spaces cs in if is_space c then rest else c ∷ cs

-- The digits up to the first other character.
unfoldable pub digits_from : ℕ → List ℕ → ℕ
digits_from n [] = n
digits_from n (c ∷ cs) =
    let rest = digits_from (n * 10 + (c - b'0')) cs in if is_digit c then rest else n

-- `none` is NaN.
unfoldable pub unsigned : List ℕ → Option ℕ
unfolding digits_from
unsigned [] = none
unsigned (c ∷ cs) = if is_digit c then some (digits_from 0 (c ∷ cs)) else none

abbrev pub negate : ℕ → ℤ
negate zero = pos 0
negate (suc n) = negsuc n

unfoldable pub signed : List ℕ → Option ℤ
unfolding unsigned
signed [] = none
signed (c ∷ cs) =
    if c == b'-'
    then Option.map negate (unsigned cs)
    else (if c == b'+' then Option.map pos (unsigned cs) else Option.map pos (unsigned (c ∷ cs)))

unfoldable pub parse_text : Text → Option ℤ
unfolding signed skip_spaces
parse_text s = signed (skip_spaces s)

digits_from-digit :
    (m k : ℕ) (rest : Text)
    → k < 10
    → digits_from m ((b'0' + k) ∷ rest) ≡ digits_from (m * 10 + k) rest
unfolding digits_from
digits_from-digit m k rest h =
    let digit : is_digit (b'0' + k) ≡ true = ground arith in
    let value : m * 10 + (b'0' + k - b'0') ≡ m * 10 + k = omega arith in
    rw (digits_from, digit, value) refl

digits_from-digits :
    (fuel n : ℕ) (rest : Text) → n < fuel → digits_from 0 (digits fuel n rest) ≡ digits_from n rest
unfolding digits
digits_from-digits zero n rest h = absurd (omega arith)
digits_from-digits (suc fuel) n rest h = elim (Bool-cases (ltb n 10)) [
  | inl small ↦
      let value : 0 * 10 + n ≡ n = omega arith in
      rw small (digits_from-digit 0 n rest (ground arith) ∙ ap (λ k. digits_from k rest) value)
  | inr large ↦
      let value : n / 10 * 10 + n % 10 ≡ n = omega arith in
      let fewer : n / 10 < fuel = ground arith in
      rw large (
        digits_from-digits fuel (n / 10) ((b'0' + n % 10) ∷ rest) fewer
        ∙ digits_from-digit (n / 10) (n % 10) rest (omega arith)
        ∙ ap (λ k. digits_from k rest) value)
]

-- The text starts with a digit.
abbrev Starts : Text → Type 0
Starts [] = ⊥
Starts (c ∷ cs) = is_digit c ≡ true

digits-Starts : (fuel n : ℕ) (rest : Text) → n < fuel → Starts (digits fuel n rest)
unfolding digits
digits-Starts zero n rest h = absurd (omega arith)
digits-Starts (suc fuel) n rest h = elim (Bool-cases (ltb n 10)) [
  | inl small ↦ let digit : is_digit (b'0' + n) ≡ true = ground arith in rw small digit
  | inr large ↦
      let fewer : n / 10 < fuel = ground arith in
      rw large (digits-Starts fuel (n / 10) ((b'0' + n % 10) ∷ rest) fewer)
]

parse_text-Starts : (t : Text) → Starts t → parse_text t ≡ some (pos (digits_from 0 t))
unfolding parse_text signed unsigned skip_spaces
parse_text-Starts [] h = absurd h
parse_text-Starts (c ∷ cs) h =
    let solid : is_space c ≡ false = ground arith in
    let no_minus : (c == b'-') ≡ false = ground arith in
    let no_plus : (c == b'+') ≡ false = ground arith in
    rw (parse_text, skip_spaces, solid, signed, no_minus, no_plus, unsigned, h) refl

-- `parseInt` reads back every number that `toString` writes.
pub parse_text-show_nat : (n : ℕ) → parse_text (show_nat n) ≡ some (pos n)
unfolding digits_from
parse_text-show_nat n =
    parse_text-Starts (show_nat n) (digits-Starts (suc n) n [] (omega arith))
    ∙ ap (λ k. some (pos k)) (digits_from-digits (suc n) n [] (omega arith))

pub show_nat-given : (n : ℕ) → text_eq (show_nat n) [] ≡ false
unfolding text_eq
show_nat-given n = given (show_nat n) (digits-Starts (suc n) n [] (omega arith))
  where
    given : (t : Text) → Starts t → text_eq t [] ≡ false
    given [] h = absurd h
    given (c ∷ cs) h = refl

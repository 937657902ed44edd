-- ===== src/Common/Text.antt =====
-- Texts as lists of character codes, of ASCII: the order of keys, numbers in decimal, and the
-- functions on texts that the source uses.
use Prim.Native.Nat.{zero}
use gdl_finance_v.Base.{
  ◌-◌, leb, if◌then◌else◌, ◌%◌, refl, ◌+◌, ◌&&◌, ◌/◌, not, arith, ltb, ◌==◌, suc, ◌||◌, false, true,
  ℕ, ◌≡◌, Bool, List, [], ◌∷◌,
}
use Prim.Native.Char.{code}
use Prim.Native.String.{String}

abbrev pub Text : Type 0
Text = List ℕ

abbrev pub codes : String → Text
codes String.[] = []
codes (String.◌∷◌ c s) = code c ∷ codes s

unfoldable pub text_eq : Text → Text → Bool
text_eq [] [] = true
text_eq [] (d ∷ ds) = false
text_eq (c ∷ cs) [] = false
text_eq (c ∷ cs) (d ∷ ds) = c == d && text_eq cs ds

-- `a < b`, by the codes.
unfoldable pub lt_text : Text → Text → Bool
lt_text [] [] = false
lt_text [] (d ∷ ds) = true
lt_text (c ∷ cs) [] = false
lt_text (c ∷ cs) (d ∷ ds) = ltb c d || (c == d && lt_text cs ds)

pub eq_of_text_eq : (a b : Text) → text_eq a b ≡ true → a ≡ b
unfolding text_eq
eq_of_text_eq [] [] h = refl
eq_of_text_eq [] (d ∷ ds) h = cc
eq_of_text_eq (c ∷ cs) [] h = cc
eq_of_text_eq (c ∷ cs) (d ∷ ds) h =
    let here : c ≡ d = ground arith in let rest = eq_of_text_eq cs ds (ground arith) in cc

pub text_eq_refl : (a : Text) → text_eq a a ≡ true
unfolding text_eq
text_eq_refl [] = refl
text_eq_refl (c ∷ cs) = ground (arith, text_eq_refl cs)

-- Of two texts that differ exactly one is the smaller.
pub lt_text-differ : (a b : Text) → text_eq a b ≡ false → lt_text b a ≡ not (lt_text a b)
unfolding text_eq lt_text
lt_text-differ [] [] h = cc
lt_text-differ [] (d ∷ ds) h = refl
lt_text-differ (c ∷ cs) [] h = refl
lt_text-differ (c ∷ cs) (d ∷ ds) h = ground (arith, lt_text-differ cs ds)

pub lt_text_trans : (a b c : Text) → lt_text a b ≡ true → lt_text b c ≡ true → lt_text a c ≡ true
unfolding lt_text
lt_text_trans [] [] c h k = cc
lt_text_trans [] (y ∷ ys) [] h k = cc
lt_text_trans [] (y ∷ ys) (z ∷ zs) h k = refl
lt_text_trans (x ∷ xs) [] c h k = cc
lt_text_trans (x ∷ xs) (y ∷ ys) [] h k = cc
lt_text_trans (x ∷ xs) (y ∷ ys) (z ∷ zs) h k = ground (arith, lt_text_trans xs ys zs)

-- `toLowerCase` and `toUpperCase`.
abbrev pub to_lower : ℕ → ℕ
to_lower c = if leb b'A' c && leb c b'Z' then c + 32 else c

abbrev pub to_upper : ℕ → ℕ
to_upper c = if leb b'a' c && leb c b'z' then c - 32 else c

unfoldable pub starts_with : Text → Text → Bool
starts_with [] s = true
starts_with (c ∷ cs) [] = false
starts_with (c ∷ cs) (d ∷ ds) = c == d && starts_with cs ds

-- `s.includes(part)`
unfoldable pub includes : Text → Text → Bool
includes part [] = starts_with part []
includes part (c ∷ cs) = starts_with part (c ∷ cs) || includes part cs

-- `s.split(separator)[0]`, for one character.
unfoldable pub before : ℕ → Text → Text
before separator [] = []
before separator (c ∷ cs) =
    let rest = before separator cs in if c == separator then [] else c ∷ rest

-- `n.toString()`: the digits of `n` in front of a text. Each round drops a digit.
unfoldable pub digits : ℕ → ℕ → Text → Text
digits zero n rest = rest
digits (suc fuel) n rest =
    let more = digits fuel (n / 10) ((b'0' + n % 10) ∷ rest) in
    if ltb n 10 then (b'0' + n) ∷ rest else more

abbrev pub show_nat : ℕ → Text
show_nat n = digits (suc n) n []

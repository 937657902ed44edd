-- ===== src/Flexi/Tenure.antt =====
-- `parseInt(request.tenure, 10)` and the expiry date that FlexiService computes from it.
use gdl_finance_v.Base.{◌*◌, ◌+◌, refl, ◌≡◌, ◌+◌, suc, none, some, Option, ℕ}
use gdl_finance_v.Common.ParseInt.{parse_text}
use gdl_finance_v.Common.Text.{codes}
use gdl_finance_v.Base.{String}
use gdl_finance_v.Base.Int.{◌-ℤ◌, ℤ, pos, negsuc}

unfoldable pub parse_int : String → Option ℤ
parse_int s = parse_text (codes s)

abbrev day_ms : ℕ
day_ms = 86400000

-- `expiryDate.setDate(expiryDate.getDate() + days)`, in a time zone without clock changes.
unfoldable pub add_days : ℕ → ℤ → ℤ
add_days now (pos n) = pos (now + n * day_ms)
add_days now (negsuc n) = pos now -ℤ pos (suc n * day_ms)

-- The new `expiry_date`, or the old one where there is no tenure or it is no number.
unfoldable pub expiry_date_of : ℕ → Option String → Option ℤ → Option ℤ
unfolding parse_int add_days
expiry_date_of now none old = old
expiry_date_of now (some tenure) old = elim (parse_int tenure) [
  | none ↦ old
  | some days ↦ some (add_days now days)
]

thirty_days : expiry_date_of 1000 (some "30 Days") none ≡ some (pos 2592001000)
unfolding expiry_date_of parse_text
thirty_days = refl

no_number : expiry_date_of 1000 (some "soon") none ≡ none
unfolding expiry_date_of parse_text
no_number = refl

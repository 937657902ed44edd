-- ===== src/Common/Sanitizer.antt =====
-- `sanitizeForLogging` (src/common/utils/log-sanitizer.ts). The keys of an array are its indices, no
-- sensitive name among them.
use gdl_finance_v.Common.Text.{to_lower, includes, codes, Text}
use gdl_finance_v.Base.{
  ◌⊎◌, sym, false, ap, refl, ◌≡◌, inr, inl, if◌then◌else◌, Bool-cases, map, any, Bool, List, [],
  ◌∷◌,
}
use gdl_finance_v.Common.Json.{
  Fields, Items, Json, null, bool, num, text, arr, obj, nil, cons, end, field,
}

abbrev pub sensitive_fields : List Text
sensitive_fields =
    codes "password"
    ∷ codes "password_confirm"
    ∷ codes "old_password"
    ∷ codes "new_password"
    ∷ codes "txn_pin"
    ∷ codes "new_txn_pin"
    ∷ codes "transactionPin"
    ∷ codes "pin"
    ∷ codes "token"
    ∷ codes "accessToken"
    ∷ codes "refreshToken"
    ∷ codes "access_token"
    ∷ codes "refresh_token"
    ∷ codes "bearerauth"
    ∷ codes "authorization"
    ∷ codes "secret"
    ∷ codes "api_key"
    ∷ codes "apiKey"
    ∷ codes "bvn"
    ∷ codes "account_number"
    ∷ codes "card_number"
    ∷ codes "cvv"
    ∷ codes "otp"
    ∷ codes "request_otp"
    ∷ []

-- `key.toLowerCase().includes(field.toLowerCase())` for some field.
unfoldable pub is_sensitive : Text → Bool
is_sensitive key = any (λ (f : Text). includes (map to_lower f) (map to_lower key)) sensitive_fields

abbrev pub redacted : Json
redacted = text (codes "[REDACTED]")

unfoldable mutual
  pub sanitize : Json → Json
  sanitize null = null
  sanitize (bool b) = bool b
  sanitize (num n) = num n
  sanitize (text t) = text t
  sanitize (arr xs) = arr (sanitize_items xs)
  sanitize (obj fs) = obj (sanitize_fields fs)

  pub sanitize_items : Items → Items
  sanitize_items nil = nil
  sanitize_items (cons x xs) = cons (sanitize x) (sanitize_items xs)

  pub sanitize_fields : Fields → Fields
  sanitize_fields end = end
  sanitize_fields (field k v fs) =
      field k (if is_sensitive k then redacted else sanitize v) (sanitize_fields fs)

-- Every field with a sensitive key, at any depth, holds the mark.
abbrev mutual
  pub IsClean : Json → Type 0
  IsClean null = Unit
  IsClean (bool b) = Unit
  IsClean (num n) = Unit
  IsClean (text t) = Unit
  IsClean (arr xs) = IsCleanItems xs
  IsClean (obj fs) = IsCleanFields fs

  pub IsCleanItems : Items → Type 0
  IsCleanItems nil = Unit
  IsCleanItems (cons x xs) = IsClean x × IsCleanItems xs

  pub IsCleanFields : Fields → Type 0
  IsCleanFields end = Unit
  IsCleanFields (field k v fs) =
      ((is_sensitive k ≡ false) ⊎ (v ≡ redacted)) × IsClean v × IsCleanFields fs

mutual
  unfolding sanitize

  -- After the sanitising every field with a sensitive key, at any depth, holds the mark.
  pub sanitize-IsClean : (j : Json) → IsClean (sanitize j)
  sanitize-IsClean null = tt
  sanitize-IsClean (bool b) = tt
  sanitize-IsClean (num n) = tt
  sanitize-IsClean (text t) = tt
  sanitize-IsClean (arr xs) = sanitize_items-IsClean xs
  sanitize-IsClean (obj fs) = sanitize_fields-IsClean fs

  sanitize_items-IsClean : (xs : Items) → IsCleanItems (sanitize_items xs)
  sanitize_items-IsClean nil = tt
  sanitize_items-IsClean (cons x xs) = (sanitize-IsClean x, sanitize_items-IsClean xs)

  sanitize_fields-IsClean : (fs : Fields) → IsCleanFields (sanitize_fields fs)
  sanitize_fields-IsClean end = tt
  sanitize_fields-IsClean (field k v fs) =
      let ih = sanitize-IsClean v in
      let rest = sanitize_fields-IsClean fs in
      elim (Bool-cases (is_sensitive k)) [
        | inl secret ↦ rw secret (inr refl, tt, rest)
        | inr open_field ↦ rw open_field (inl refl, ih, rest)
      ]

mutual
  unfolding sanitize

  clean-sanitize : (j : Json) → IsClean j → sanitize j ≡ j
  clean-sanitize null h = refl
  clean-sanitize (bool b) h = refl
  clean-sanitize (num n) h = refl
  clean-sanitize (text t) h = refl
  clean-sanitize (arr xs) h = ap arr (clean-sanitize_items xs h)
  clean-sanitize (obj fs) h = ap obj (clean-sanitize_fields fs h)

  clean-sanitize_items : (xs : Items) → IsCleanItems xs → sanitize_items xs ≡ xs
  clean-sanitize_items nil h = refl
  clean-sanitize_items (cons x xs) (h, hs) = cc (clean-sanitize x h, clean-sanitize_items xs hs)

  clean-sanitize_fields : (fs : Fields) → IsCleanFields fs → sanitize_fields fs ≡ fs
  clean-sanitize_fields end h = refl
  clean-sanitize_fields (field k v fs) (marked, h, hs) =
      let ih = clean-sanitize v h in
      let rest = clean-sanitize_fields fs hs in
      elim (Bool-cases (is_sensitive k)) [
        | inr open_field ↦ rw (open_field, ih, rest) refl
        | inl secret ↦ elim marked [
          | inl public ↦ let e = secret in cc
          | inr hidden ↦ rw (secret, rest) (ap (λ w. field k w fs) (sym hidden))
        ]
      ]

-- A value that is sanitised holds the mark at every field with a sensitive key, at any depth, and
-- sanitising it once more changes nothing.
pub sanitize_lem : (j : Json) → IsClean (sanitize j) × (sanitize (sanitize j) ≡ sanitize j)
sanitize_lem j = (sanitize-IsClean j, clean-sanitize (sanitize j) (sanitize-IsClean j))

-- A value in which every field with a sensitive key holds the mark already is left as it is.
pub sanitize_clean : (j : Json) → IsClean j → sanitize j ≡ j
sanitize_clean = clean-sanitize

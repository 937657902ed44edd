-- ===== src/Common/Signature.antt =====
-- `signRequest` and `verifySignature` of InternalSecurityService
-- (src/common/utils/internal-security.service.ts). The HMAC, `new URL(…).pathname` (`none` where it
-- throws) and JSON.stringify are parameters.
use gdl_finance_v.Common.ParseInt.{digits_from, is_digit, parse_text}
use gdl_finance_v.Common.Text.{
  lt_text, to_upper, before, show_nat, starts_with, includes, text_eq, codes, Text,
}
use gdl_finance_v.Base.{
  any, ◌&&◌, ◌==◌, not, length, ◌++◌, map, if◌then◌else◌, suc, ◌+◌, ◌||◌, ◌-◌, ltb, Bool, ℕ, Option,
  [], ◌∷◌, true, false, none, some,
}
use gdl_finance_v.Base.Int.{ℤ, pos, negsuc}
use gdl_finance_v.Common.Json.{Fields, Json, null, bool, num, text, arr, obj, nil, cons, end, field}

-- A key that is an array index, which the fields of an object are listed by first, in the order of
-- the numbers.
unfoldable pub is_index : Text → Bool
is_index [] = false
is_index (c ∷ []) = is_digit c
is_index (c ∷ d ∷ ds) =
    not (c == b'0')
    && (not (any (λ x. not (is_digit x)) (c ∷ d ∷ ds))
        && ltb (digits_from 0 (c ∷ d ∷ ds)) 4294967295)

-- The order in which the fields of a sorted object are listed. Of two indices the shorter is the
-- smaller number.
unfoldable pub lt_key : Text → Text → Bool
unfolding is_index
lt_key k l =
    if is_index k
    then (if is_index l
        then ltb (length k) (length l) || (length k == length l && lt_text k l)
        else true)
    else (not (is_index l) && lt_text k l)

-- One field put among sorted ones.
unfoldable pub insert_field : Text → Json → Fields → Fields
insert_field k v end = field k v end
insert_field k v (field l w fs) =
    let rest = insert_field k v fs in
    if lt_key k l then field k v (field l w fs) else field l w rest

-- `sortObjectKeys`: it does not look into arrays.
unfoldable mutual
  pub sort_object_keys : Json → Json
  sort_object_keys null = null
  sort_object_keys (bool b) = bool b
  sort_object_keys (num n) = num n
  sort_object_keys (text t) = text t
  sort_object_keys (arr xs) = arr xs
  sort_object_keys (obj fs) = obj (sort_fields fs)

  pub sort_fields : Fields → Fields
  sort_fields end = end
  sort_fields (field k v fs) = insert_field k (sort_object_keys v) (sort_fields fs)

-- `body && Object.keys(body).length > 0`
abbrev pub has_keys : Json → Bool
has_keys null = false
has_keys (bool b) = false
has_keys (num n) = false
has_keys (text []) = false
has_keys (text (c ∷ cs)) = true
has_keys (arr nil) = false
has_keys (arr (cons x xs)) = true
has_keys (obj end) = false
has_keys (obj (field k v fs)) = true

-- The libraries and the key.
pub record Crypto : Type 0 where
  pub hmac : Text → Text → Text
  pub pathname : Text → Option Text
  pub stringify : Json → Text
  pub secret_key : Option Text

-- `Math.abs(now - requestTime) > 60000`
abbrev pub is_stale : ℕ → ℤ → Bool
is_stale now (pos t) = ltb 60000 (now - t) || ltb 60000 (t - now)
is_stale now (negsuc t) = ltb 60000 (now + suc t)

module _ (c : Crypto) where
  abbrev pub key_or_default : Text
  key_or_default = elim c.secret_key [
    | none ↦ codes "default_secret"
    | some k ↦ (if text_eq k [] then codes "default_secret" else k)
  ]

  -- The path of the request: without the domain and without the query.
  unfoldable pub pure_path : Text → Text
  pure_path url =
      if includes (codes "://") url
      then (elim (c.pathname url) [ none ↦ before b'?' url | some p ↦ p ])
      else before b'?' url

  abbrev pub rooted : Text → Text
  rooted path = if starts_with (codes "/") path then path else b'/' ∷ path

  abbrev pub body_text : Option Json → Text
  body_text none = []
  body_text (some j) = if has_keys j then c.stringify (sort_object_keys j) else []

  unfoldable pub create_canonical_string : Text → Text → Text → Option Json → Text
  unfolding pure_path
  create_canonical_string method url timestamp body =
      map to_upper method
      ++ (b'|' ∷ (rooted (pure_path url) ++ (b'|' ∷ (timestamp ++ (b'|' ∷ body_text body)))))

  unfoldable pub sign_request : ℕ → Text → Text → Option Json → Text × Text
  sign_request now method url body =
      let timestamp = show_nat now in
      (c.hmac key_or_default (create_canonical_string method url timestamp body), timestamp)

  -- The checks of `verifySignature` for a canonical string; `timingSafeEqual` on buffers of one
  -- length.
  unfoldable pub accepts : ℕ → Text → Text → Text → Bool
  accepts now signature timestamp canonical =
      if text_eq signature [] || text_eq timestamp [] then false else (elim (parse_text timestamp) [
        | none ↦ false
        | some t ↦
            if is_stale now t then false else text_eq signature (c.hmac key_or_default canonical)
      ])

  unfoldable pub verify_signature : ℕ → Text → Text → Text → Text → Option Json → Bool
  verify_signature now signature timestamp method url body =
      accepts now signature timestamp (create_canonical_string method url timestamp body)

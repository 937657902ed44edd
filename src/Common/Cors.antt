-- ===== src/Common/Cors.antt =====
-- CorsMiddleware (src/common/middlewares/cors.middleware.ts): which requests pass. `new URL(…).origin`
-- of the settings and `JSON.parse(…).scheme` of the header `cf-visitor` are given as read, `none`
-- where they fail. The lists of allowed methods and headers, which every answer repeats, are left out.
use Prim.Native.Nat.{zero}
use gdl_finance_v.Common.Text.{starts_with, to_lower, text_eq, includes, codes, Text}
use gdl_finance_v.Base.{
  ◌++◌, suc, if◌then◌else◌, leb, ◌&&◌, map, find_all, ◌==◌, ◌||◌, not, any, Bool, Option, ℕ, List,
  [], ◌∷◌, true, false, none, some,
}

pub data Origins : Type 0 where
  any_origin : Origins
  listed : List Text → Origins

abbrev pub contains : Text → List Text → Bool
contains t = any (λ (u : Text). text_eq u t)

-- The settings, as the constructor leaves them.
pub record CorsConfig : Type 0 where
  pub allowed_origins : Origins
  pub whitelist_ip : Text
  pub mobile_app_key : Text
  pub is_dev : Bool

-- `split(separator)` at one character.
unfoldable pub split : ℕ → Text → List Text
split separator [] = [] ∷ []
split separator (c ∷ cs) =
    let rest = split separator cs in if c == separator then [] ∷ rest else push c rest
  where
    push : ℕ → List Text → List Text
    push d [] = (d ∷ []) ∷ []
    push d (t ∷ ts) = (d ∷ t) ∷ ts

abbrev add_origin : Option Text → List Text → List Text
add_origin none os = os
add_origin (some o) os = if contains o os then os else os ++ o ∷ []

-- The constructor: `ALLOWED_ORIGINS`, and the origins of two other settings.
unfoldable pub allowed_origins_of : Option Text → Option Text → Option Text → Origins
allowed_origins_of none rmb user =
    listed (add_origin (some (codes "userservice")) (add_origin user (add_origin rmb [])))
allowed_origins_of (some origins) rmb user =
    if text_eq origins (codes "*")
    then any_origin
    else listed (
        add_origin (some (codes "userservice"))
          (add_origin user (add_origin rmb (split b',' origins))))

pub record Request : Type 0 where
  pub method : Text
  pub original_url : Text
  pub origin : Option Text
  pub client_ip : Option Text
  pub x_mobile_app : Option Text
  pub authorization : Option Text
  pub bearerauth : Option Text
  pub x_forwarded_proto : Option Text
  pub x_forwarded_scheme : Option Text
  pub x_scheme : Option Text
  pub cf_visitor_scheme : Option Text
  pub protocol : Text
  pub host : Text
  pub encrypted : Bool

-- A header that is there and not empty.
abbrev pub given : Option Text → Bool
given none = false
given (some t) = not (text_eq t [])

abbrev says_https : Option Text → Bool
says_https none = false
says_https (some t) = includes (codes "https") (map to_lower t)

unfoldable pub is_secure_request : Request → Bool
is_secure_request r =
    says_https r.x_forwarded_proto
    || says_https r.x_forwarded_scheme
    || says_https r.x_scheme
    || says_https r.cf_visitor_scheme
    || text_eq r.protocol (codes "https")
    || includes (codes ":443") r.host
    || r.encrypted

-- `ip.replace('::ffff:', '')`: the first occurrence.
unfoldable pub drop_mapped : Text → Text
drop_mapped [] = []
drop_mapped (c ∷ cs) =
    let rest = drop_mapped cs in
    if starts_with (codes "::ffff:") (c ∷ cs) then drop_codes 7 (c ∷ cs) else c ∷ rest
  where
    drop_codes : ℕ → Text → Text
    drop_codes zero t = t
    drop_codes (suc n) [] = []
    drop_codes (suc n) (d ∷ ds) = drop_codes n ds

-- `/^172\.(1[6-9]|2[0-9]|3[01])\./`
unfoldable pub is_172_private : Text → Bool
is_172_private (a ∷ b ∷ c ∷ dot ∷ x ∷ y ∷ dot' ∷ rest) =
    text_eq (a ∷ b ∷ c ∷ dot ∷ []) (codes "172.")
    && dot' == b'.'
    && ((x == b'1' && leb b'6' y && leb y b'9')
        || (x == b'2' && leb b'0' y && leb y b'9')
        || (x == b'3' && leb b'0' y && leb y b'1'))
is_172_private _ = false

abbrev is_space : ℕ → Bool
is_space c = c == 32 || (leb 9 c && leb c 13)

unfoldable pub trim_start : Text → Text
trim_start [] = []
trim_start (c ∷ cs) = let rest = trim_start cs in if is_space c then rest else c ∷ cs

-- Spaces at the end are dropped, `trim` has dropped those at the start.
unfoldable pub trim_end : Text → Text
trim_end [] = []
trim_end (c ∷ cs) = let rest = trim_end cs in if is_space c && text_eq rest [] then [] else c ∷ rest

unfoldable pub is_whitelisted_ip : CorsConfig → Option Text → Bool
unfolding drop_mapped is_172_private split trim_start trim_end
is_whitelisted_ip config none = false
is_whitelisted_ip config (some client_ip) =
    let ip = drop_mapped client_ip in
    let whitelist =
      find_all (λ (t : Text). not (text_eq t []))
        (map (λ t. trim_end (trim_start t)) (split b',' config.whitelist_ip)) in
    not (text_eq client_ip [])
    && (contains ip whitelist
        || text_eq ip (codes "127.0.0.1")
        || text_eq ip (codes "::1")
        || text_eq ip (codes "localhost")
        || starts_with (codes "10.") ip
        || starts_with (codes "192.168.") ip
        || is_172_private ip)

-- What the middleware does: it hands the request on, or answers it. The text is the header
-- Access-Control-Allow-Origin.
pub data Outcome : Type 0 where
  next_handler : Option Text → Outcome
  preflight : Option Text → Outcome
  probe_answered : Outcome
  blocked : Outcome

abbrev pub allows : Origins → Option Text → Bool
allows any_origin origin = true
allows (listed os) none = false
allows (listed os) (some o) = contains o os

abbrev pub is_trusted : CorsConfig → Request → Bool
is_trusted config r =
    is_whitelisted_ip config r.client_ip || given r.authorization || given r.bearerauth

-- The header for an origin that is allowed.
abbrev allow_header : Origins → Option Text → Option Text
allow_header any_origin origin = some (codes "*")
allow_header (listed os) origin = origin

unfoldable pub handle_preflight : CorsConfig → Request → Outcome
handle_preflight config r =
    if config.is_dev
    then preflight (some (codes "*"))
    else preflight (
        if allows config.allowed_origins r.origin
        then allow_header config.allowed_origins r.origin
        else none)

-- `req.headers['x-mobile-app'] === this.mobileAppKey`
abbrev pub is_mobile_app : CorsConfig → Request → Bool
is_mobile_app config r = elim r.x_mobile_app [
  | none ↦ false
  | some k ↦ text_eq k config.mobile_app_key
]

-- After the HTTPS check and the preflight requests.
unfoldable pub check_origin : CorsConfig → Request → Outcome
check_origin config r =
    if not (given r.origin)
    then (if config.is_dev || is_mobile_app config r || is_trusted config r
        then next_handler none
        else blocked)
    else (if config.is_dev
        then next_handler (some (codes "*"))
        else (if allows config.allowed_origins r.origin
            then next_handler (allow_header config.allowed_origins r.origin)
            else blocked))

unfoldable pub check_preflight : CorsConfig → Request → Outcome
unfolding check_origin handle_preflight
check_preflight config r =
    if text_eq r.method (codes "OPTIONS")
    then (if config.is_dev || allows config.allowed_origins r.origin
        then handle_preflight config r
        else blocked)
    else check_origin config r

unfoldable pub use_cors : CorsConfig → Request → Outcome
unfolding check_preflight is_secure_request is_whitelisted_ip
use_cors config r =
    if text_eq r.original_url (codes "/virtual-account/callback")
    then next_handler (some (codes "*"))
    else (if includes (codes "/SDK/webLanguage") r.original_url
        then probe_answered
        else (if not config.is_dev
              && not (is_secure_request r)
              && not (is_trusted config r || includes (codes "/auth/") r.original_url)
            then blocked
            else check_preflight config r))

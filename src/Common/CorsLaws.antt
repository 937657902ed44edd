-- ===== src/Common/CorsLaws.antt =====
-- Which requests CorsMiddleware (src/common/middlewares/cors.middleware.ts) hands on in production.
use gdl_finance_v.Common.Text.{includes, codes, text_eq, Text}
use gdl_finance_v.Common.Cors.{
  blocked, contains, use_cors, is_trusted, is_secure_request, listed, Request, check_origin,
  CorsConfig, check_preflight,
}
use gdl_finance_v.Base.{arith, refl, inr, inl, [], some, false, ◌≡◌, List, Bool-cases}

check_preflight-foreign :
    (config : CorsConfig) (r : Request) (os : List Text) (o : Text)
    → config.is_dev ≡ false
    → config.allowed_origins ≡ listed os
    → r.origin ≡ some o
    → text_eq o [] ≡ false
    → contains o os ≡ false
    → check_preflight config r ≡ blocked
unfolding check_preflight check_origin
check_preflight-foreign config r os o prod origins named full foreign =
    elim (Bool-cases (text_eq r.method (codes "OPTIONS"))) [
      | inl h ↦ rw (check_preflight, h, prod, origins, named, foreign) refl
      | inr h ↦ rw (check_preflight, h, check_origin, prod, origins, named, full, foreign) refl
    ]

-- In production, with a list of origins, a request that names an origin outside of the list is
-- refused, over HTTPS and with credentials as well, but at the path of the callback and on a probe.
pub use_cors-foreign :
    (config : CorsConfig) (r : Request) (os : List Text) (o : Text)
    → config.is_dev ≡ false
    → config.allowed_origins ≡ listed os
    → r.origin ≡ some o
    → text_eq o [] ≡ false
    → contains o os ≡ false
    → text_eq r.original_url (codes "/virtual-account/callback") ≡ false
    → includes (codes "/SDK/webLanguage") r.original_url ≡ false
    → use_cors config r ≡ blocked
unfolding use_cors
use_cors-foreign config r os o prod origins named full foreign other real =
    let refused = check_preflight-foreign config r os o prod origins named full foreign in
    ground (arith, refused, other, real)

-- In production, a request that shows no sign of HTTPS, no credentials and no trusted address is
-- refused, but at the path of the callback, on a probe and at a path with `/auth/` in it.
pub use_cors-insecure :
    (config : CorsConfig) (r : Request)
    → config.is_dev ≡ false
    → is_secure_request r ≡ false
    → is_trusted config r ≡ false
    → text_eq r.original_url (codes "/virtual-account/callback") ≡ false
    → includes (codes "/SDK/webLanguage") r.original_url ≡ false
    → includes (codes "/auth/") r.original_url ≡ false
    → use_cors config r ≡ blocked
unfolding use_cors
use_cors-insecure config r prod plain stranger other real outside =
    ground (arith, prod, plain, stranger, other, real, outside)

-- ===== src/Common/Tests.antt =====
-- Runs of the shared parts of the user service on small inputs.
use gdl_finance_v.Common.CorsLaws.{use_cors-foreign}
use gdl_finance_v.Common.Verified.{verify_signature-sign_request, verify_signature-SameBody}
use gdl_finance_v.Common.Cors.{blocked, Request, listed, use_cors, CorsConfig}
use gdl_finance_v.Common.Sanitizer.{
  sanitize_lem, IsClean, sanitize_clean, is_sensitive, redacted, sanitize,
}
use gdl_finance_v.Common.Text.{starts_with, Text, text_eq, includes, codes}
use gdl_finance_v.Common.Signature.{sign_request, verify_signature, Crypto}
use gdl_finance_v.Base.{arith, inr, inl, refl, false, none, true, ◌++◌, ◌≡◌, Option, some, ◌∷◌, []}
use gdl_finance_v.Common.Json.{Json, obj, field, end, text}
use gdl_finance_v.Common.KeyOrder.{in_object, swap}

-- A digest that is the key, a bar and the message.
abbrev plain_crypto : Crypto
plain_crypto = record {
  hmac = λ k m. b'#' ∷ (k ++ m);
  pathname = λ url. none;
  stringify = λ j. codes "{}";
  secret_key = some (codes "secret");
}

abbrev login_body : Json
login_body =
    obj (field (codes "user") (text (codes "ada")) (field (codes "pin") (text (codes "1234")) end))

abbrev login_body_swapped : Json
login_body_swapped =
    obj (field (codes "pin") (text (codes "1234")) (field (codes "user") (text (codes "ada")) end))

abbrev login_body_marked : Json
login_body_marked =
    obj (field (codes "user") (text (codes "ada")) (field (codes "pin") redacted end))

login_body_redacted : sanitize login_body ≡ login_body_marked
unfolding sanitize is_sensitive includes starts_with
login_body_redacted = refl

sanitize_lem_example :
    IsClean (sanitize login_body) × (sanitize (sanitize login_body) ≡ sanitize login_body)
sanitize_lem_example = sanitize_lem login_body

login_body_marked-clean : sanitize login_body_marked ≡ login_body_marked
unfolding sanitize is_sensitive includes starts_with
login_body_marked-clean = sanitize_clean login_body_marked (inl refl, tt, (inr refl, tt, tt))

verify_signature-sign_request_example :
    (let (signature, timestamp) =
        sign_request plain_crypto 500 (codes "post") (codes "/pools?x=1") (some login_body) in
      verify_signature plain_crypto 60000 signature timestamp
        (codes "post")
        (codes "/pools?x=1")
        (some login_body))
    ≡ true
unfolding verify_signature sign_request text_eq
verify_signature-sign_request_example =
    verify_signature-sign_request plain_crypto (λ k m. refl) 500 60000 (codes "post")
      (codes "/pools?x=1") (some login_body) (omega arith) (omega arith)

verify_signature-SameBody_example :
    verify_signature plain_crypto 7
      (codes "abc")
      (codes "7")
      (codes "post")
      (codes "/login")
      (some login_body)
    ≡ verify_signature plain_crypto 7
        (codes "abc")
        (codes "7")
        (codes "post")
        (codes "/login")
        (some login_body_swapped)
unfolding text_eq
verify_signature-SameBody_example =
    verify_signature-SameBody plain_crypto 7 (codes "abc") (codes "7") (codes "post")
      (codes "/login") login_body login_body_swapped
      (in_object
        (swap (codes "user") (codes "pin") (text (codes "ada")) (text (codes "1234")) end refl))

abbrev production : CorsConfig
production = record {
  allowed_origins = listed (codes "https://gdl.test" ∷ []);
  whitelist_ip = [];
  mobile_app_key = codes "k";
  is_dev = false;
}

abbrev request : Text → Option Text → Request
request url origin = record {
  method = codes "GET";
  original_url = url;
  origin = origin;
  client_ip = some (codes "8.8.8.8");
  x_mobile_app = none;
  authorization = none;
  bearerauth = none;
  x_forwarded_proto = none;
  x_forwarded_scheme = none;
  x_scheme = none;
  cf_visitor_scheme = none;
  protocol = codes "http";
  host = codes "api.gdl.test";
  encrypted = false;
}

use_cors-foreign_example :
    use_cors production (request (codes "/pools") (some (codes "https://evil.test"))) ≡ blocked
unfolding text_eq includes starts_with
use_cors-foreign_example =
    use_cors-foreign production (request (codes "/pools") (some (codes "https://evil.test")))
      (codes "https://gdl.test" ∷ []) (codes "https://evil.test") refl refl refl refl refl refl refl

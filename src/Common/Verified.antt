-- ===== src/Common/Verified.antt =====
-- What a signature of an internal request covers.
use gdl_finance_v.Common.ParseInt.{show_nat-given, parse_text-show_nat}
use gdl_finance_v.Common.Text.{
  text_eq_refl, to_upper, show_nat, before, codes, includes, text_eq, Text,
}
use gdl_finance_v.Common.Signature.{
  key_or_default, body_text, rooted, accepts, pure_path, create_canonical_string, sign_request,
  verify_signature, Crypto,
}
use gdl_finance_v.Base.{
  ◌++◌, ap, sym, refl, ◌∙◌, map, ◌||◌, ◌⊎◌, ◌<◌, arith, ◌+◌, ◌≤◌, ◌≡◌, Option, ℕ, [], ◌∷◌, true,
  false, some, inl, inr,
}
use gdl_finance_v.Base.{Bool-cases}
use gdl_finance_v.Common.Signature.{is_stale}
use gdl_finance_v.Common.Json.{Json}
use gdl_finance_v.Common.KeyOrder.{SameBody, has_keys-SameBody, sort_object_keys-SameBody}
use gdl_finance_v.Base.Int.{pos}

module _ (c : Crypto) where
  -- A request that was signed is accepted for the sixty seconds after, and by clocks that are up to
  -- sixty seconds behind, if the digests of the HMAC are not empty.
  pub verify_signature-sign_request :
      ((k m : Text) → text_eq (c.hmac k m) [] ≡ false)
      → (signed_at now : ℕ) (method url : Text) (body : Option Json) → now ≤ signed_at + 60000
      → signed_at ≤ now + 60000
      → (let (signature, timestamp) = sign_request c signed_at method url body in
          verify_signature c now signature timestamp method url body)
        ≡ true
  unfolding verify_signature sign_request accepts
  verify_signature-sign_request digest signed_at now method url body late early =
      let fresh : is_stale now (pos signed_at) ≡ false = ground arith in
      let read = parse_text-show_nat signed_at in
      let canonical = create_canonical_string c method url (show_nat signed_at) body in
      let signature = c.hmac (key_or_default c) canonical in
      let given : (text_eq signature [] || text_eq (show_nat signed_at) []) ≡ false =
        ground (arith, digest (key_or_default c) canonical, show_nat-given signed_at) in
      rw (sign_request, verify_signature, accepts, given, read, fresh) (text_eq_refl signature)

  -- A request is refused, whatever its signature, if its time is more than sixty seconds away.
  pub verify_signature-stale :
      (now t : ℕ) (signature method url : Text) (body : Option Json)
      → (t + 60000 < now) ⊎ (now + 60000 < t)
      → verify_signature c now signature (show_nat t) method url body ≡ false
  unfolding verify_signature accepts
  verify_signature-stale now t signature method url body far =
      let stale : is_stale now (pos t) ≡ true = ground arith in
      let read = parse_text-show_nat t in
      elim (Bool-cases (text_eq signature [] || text_eq (show_nat t) [])) [
        | inl missing ↦ rw (verify_signature, accepts, missing) refl
        | inr given ↦ rw (verify_signature, accepts, given, read, stale) refl
      ]

  -- The query is not signed: two paths without a domain that agree up to the first `?` have the
  -- same signatures.
  pub verify_signature-query :
      (now : ℕ) (signature timestamp method url url' : Text) (body : Option Json)
      → includes (codes "://") url ≡ false
      → includes (codes "://") url' ≡ false
      → before b'?' url ≡ before b'?' url'
      → verify_signature c now signature timestamp method url body
        ≡ verify_signature c now signature timestamp method url' body
  unfolding verify_signature create_canonical_string pure_path accepts
  verify_signature-query now signature timestamp method url url' body plain plain' same =
      let one : pure_path c url ≡ before b'?' url = rw (pure_path, plain) refl in
      let other : pure_path c url' ≡ before b'?' url' = rw (pure_path, plain') refl in
      let paths : pure_path c url ≡ pure_path c url' = one ∙ same ∙ sym other in
      ap
        (λ p. accepts c now signature timestamp (
          map to_upper method
          ++ (b'|' ∷ (rooted c p ++ (b'|' ∷ (timestamp ++ (b'|' ∷ body_text c body)))))))
        paths

  -- The order of the keys in a body, at any depth outside of arrays, does not matter.
  pub verify_signature-SameBody :
      (now : ℕ) (signature timestamp method url : Text) (j k : Json)
      → SameBody j k
      → verify_signature c now signature timestamp method url (some j)
        ≡ verify_signature c now signature timestamp method url (some k)
  unfolding verify_signature create_canonical_string accepts
  verify_signature-SameBody now signature timestamp method url j k h =
      let keys = has_keys-SameBody j k h in
      let sorted = sort_object_keys-SameBody j k h in
      let bodies : body_text c (some j) ≡ body_text c (some k) = cc (keys, sorted) in
      ap
        (λ b. accepts c now signature timestamp (
          map to_upper method
          ++ (b'|' ∷ (rooted c (pure_path c url) ++ (b'|' ∷ (timestamp ++ (b'|' ∷ b)))))))
        bodies

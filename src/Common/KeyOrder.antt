-- ===== src/Common/KeyOrder.antt =====
-- The order in which the keys of a body stand does not matter for its signature.
use gdl_finance_v.Common.Text.{lt_text_trans, lt_text-differ, text_eq, Text}
use gdl_finance_v.Common.Signature.{lt_key, has_keys, sort_fields, sort_object_keys, insert_field}
use gdl_finance_v.Base.{true, not, refl, ◌∙◌, arith, ap, ◌≡◌, false}
use gdl_finance_v.Common.Json.{Fields, Json, obj, end, field}

-- Bodies that differ in the order of the fields of objects, at any depth outside of arrays.
mutual
  pub data SameBody : Json → Json → Type 0 where
    same : {j k : Json} → j ≡ k → SameBody j k
    in_object : {fs gs : Fields} → SameFields fs gs → SameBody (obj fs) (obj gs)

  pub data SameFields : Fields → Fields → Type 0 where
    keep : {fs gs : Fields} → fs ≡ gs → SameFields fs gs
    swap :
        (k l : Text) (v w : Json) (fs : Fields)
        → text_eq k l ≡ false
        → SameFields (field k v (field l w fs)) (field l w (field k v fs))
    under :
        (k : Text) {v w : Json} {fs gs : Fields}
        → SameBody v w
        → SameFields fs gs
        → SameFields (field k v fs) (field k w gs)
    follow : {fs gs hs : Fields} → SameFields fs gs → SameFields gs hs → SameFields fs hs

-- Of two keys that differ exactly one is listed first.
lt_key-differ : (k l : Text) → text_eq k l ≡ false → lt_key l k ≡ not (lt_key k l)
unfolding lt_key
lt_key-differ k l apart = ground (arith, lt_text-differ k l apart)

lt_key_trans : (k l i : Text) → lt_key k l ≡ true → lt_key l i ≡ true → lt_key k i ≡ true
unfolding lt_key
lt_key_trans k l i h h' = ground (arith, lt_text_trans k l i)

-- Two different keys are put among sorted fields in either order.
insert_field_comm :
    (k l : Text) (v w : Json) (fs : Fields)
    → text_eq k l ≡ false
    → insert_field k v (insert_field l w fs) ≡ insert_field l w (insert_field k v fs)
unfolding insert_field
insert_field_comm k l v w end apart = ground (arith, lt_key-differ k l apart)
insert_field_comm k l v w (field i u fs) apart = ground (
  arith,
  lt_key-differ k l apart,
  lt_key_trans k l i,
  lt_key_trans l k i,
  insert_field_comm k l v w fs apart,
)

mutual
  unfolding sort_object_keys

  pub sort_object_keys-SameBody :
      (j k : Json) → SameBody j k → sort_object_keys j ≡ sort_object_keys k
  sort_object_keys-SameBody j k (same e) = ap sort_object_keys e
  sort_object_keys-SameBody _ _ (in_object {fs} {gs} h) = ap obj (sort_fields-SameFields fs gs h)

  sort_fields-SameFields : (fs gs : Fields) → SameFields fs gs → sort_fields fs ≡ sort_fields gs
  sort_fields-SameFields fs gs (keep e) = ap sort_fields e
  sort_fields-SameFields _ _ (swap k l v w fs apart) =
      insert_field_comm k l (sort_object_keys v) (sort_object_keys w) (sort_fields fs) apart
  sort_fields-SameFields _ _ (under k {v} {w} {fs} {gs} h hs) =
      cc (sort_object_keys-SameBody v w h, sort_fields-SameFields fs gs hs)
  sort_fields-SameFields _ _ (follow {fs} {gs} {hs} h h') =
      sort_fields-SameFields fs gs h ∙ sort_fields-SameFields gs hs h'

has_keys-SameFields : (fs gs : Fields) → SameFields fs gs → has_keys (obj fs) ≡ has_keys (obj gs)
has_keys-SameFields fs gs (keep e) = ap (λ hs. has_keys (obj hs)) e
has_keys-SameFields _ _ (swap k l v w fs apart) = refl
has_keys-SameFields _ _ (under k h hs) = refl
has_keys-SameFields _ _ (follow {fs} {gs} {hs} h h') =
    has_keys-SameFields fs gs h ∙ has_keys-SameFields gs hs h'

pub has_keys-SameBody : (j k : Json) → SameBody j k → has_keys j ≡ has_keys k
has_keys-SameBody j k (same e) = ap has_keys e
has_keys-SameBody _ _ (in_object {fs} {gs} h) = has_keys-SameFields fs gs h

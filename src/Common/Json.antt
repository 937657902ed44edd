-- ===== src/Common/Json.antt =====
-- Values as JSON has them. The fields of an object stand in the order in which they were set.
use gdl_finance_v.Base.{Bool}
use gdl_finance_v.Common.Text.{Text}
use gdl_finance_v.Base.Int.{ℤ}

mutual
  pub data Json : Type 0 where
    null : Json
    bool : Bool → Json
    num : ℤ → Json
    text : Text → Json
    arr : Items → Json
    obj : Fields → Json

  pub data Items : Type 0 where
    nil : Items
    cons : Json → Items → Items

  pub data Fields : Type 0 where
    end : Fields
    field : Text → Json → Fields → Fields

-- ===== src/Types/Json.antt =====
-- The values of JSON, for the records of lib/api and of the modules whose fields are `unknown`.
use koranco.Base.{String, Bool}

mutual
  pub data Json : Type 0 where
    null : Json
    flag : Bool → Json
    number : (numeral : String) → Json
    text : String → Json
    array : Items → Json
    object : Members → Json

  pub data Items : Type 0 where
    none_left : Items
    item : Json → Items → Items

  pub data Members : Type 0 where
    closed : Members
    member : (name : String) → Json → Members → Members

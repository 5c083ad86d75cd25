-- ===== src/Value.antt =====
-- The values that the vendored client's decoder hands to the integration: JSON's, with the time
-- stamps that it decodes. A float is the 64-bit pattern of an IEEE double. The dates without a
-- time, times, sets and addresses of that decoder are not modelled.
pub mod Access
pub mod Float
pub mod Key
pub mod Runtime
pub mod Size
pub mod Depth
pub mod Shallow
pub mod Shapes
pub mod Puts
use ha_truenas_ng.Base.{ℕ, Bool, String, Option, List}
use ha_truenas_ng.Base.Int.{ℤ}

-- A `datetime`: its wall clock in microseconds since year 1, and its offset from UTC in minutes
-- if it is aware.
pub record Datetime : Type 0 where
  pub wall : ℤ
  pub tzinfo : Option ℤ

mutual
  pub data Value : Type 0 where
    null : Value
    bool : Bool → Value
    int : ℤ → Value
    float : ℕ → Value
    str : String → Value
    datetime : Datetime → Value
    arr : Items → Value
    dict : Fields → Value

  -- The entries of a dict with text keys, in insertion order.
  pub data Fields : Type 0 where
    end : Fields
    field : String → Value → Fields → Fields

  pub data Items : Type 0 where
    nil : Items
    cons : Value → Items → Items

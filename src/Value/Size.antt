-- ===== src/Value/Size.antt =====
-- The nesting depth of a value, which bounds the recursion of the tree walks.
use Prim.Native.Nat.{max}
use ha_truenas_ng.Base.{ℕ, suc}
use ha_truenas_ng.Value.{Value, arr, dict, Items, nil, cons, Fields, end, field}

unfoldable mutual
  pub depth : Value → ℕ
  depth (arr vs) = suc (depth_items vs)
  depth (dict fs) = suc (depth_fields fs)
  depth _ = 0

  pub depth_items : Items → ℕ
  depth_items nil = 0
  depth_items (cons first others) = max (depth first) (depth_items others)

  pub depth_fields : Fields → ℕ
  depth_fields end = 0
  depth_fields (field name value others) = max (depth value) (depth_fields others)

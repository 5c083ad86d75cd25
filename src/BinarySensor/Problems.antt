-- ===== src/BinarySensor/Problems.antt =====
-- When a disk is shown as sound.
use ha_truenas_ng.Base.{◌≡◌, false}
use ha_truenas_ng.Result.{ok}
use ha_truenas_ng.Value.{Fields}
use ha_truenas_ng.Value.Access.{get}
use ha_truenas_ng.BinarySensor.{counts}

-- No counter of the three counts.
abbrev pub NoneCounts : Fields → Type 0
NoneCounts errors =
    (counts (get errors "read") ≡ ok false)
    × (counts (get errors "write") ≡ ok false)
    × (counts (get errors "checksum") ≡ ok false)

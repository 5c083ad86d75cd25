-- ===== src/ConfigFlow/Closing.antt =====
-- config_flow.py, `_validate`: the connections that a validation leaves.
use ha_truenas_ng.Base.{Bool}
use ha_truenas_ng.Result.{Result}
use ha_truenas_ng.Action.Post.{Post}
use ha_truenas_ng.Value.{Value}
use ha_truenas_ng.Value.Runtime.{Runtime}
use ha_truenas_ng.Client
use ha_truenas_ng.Client.{Config, State}
use ha_truenas_ng.Client.Upstream.{Library}
use ha_truenas_ng.Client.Rules.{IsDocumented}
use ha_truenas_ng.Client.Connections.{IsTracked, Ended, Held}

module _ (py : Runtime) (L : Library) (is_open : L.World → L.Session → Bool)
    (tracked : IsTracked L is_open) (D : IsDocumented L) (c : Config) where
  module _ (w : L.World) where
    abbrev Kept : {A : Type 0} → A → State L → Type 0
    Kept _ t = Held L is_open w t

    abbrev Over : {A : Type 0} → A → State L → Type 0
    Over _ t = Ended L is_open w t

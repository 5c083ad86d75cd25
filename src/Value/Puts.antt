-- ===== src/Value/Puts.antt =====
-- The laws of a dict with text keys.
use ha_truenas_ng.Base.{◌≡◌, refl, String, some, arith, ◌==◌, string_eq, if◌then◌else◌}
use ha_truenas_ng.Value.{Value, Fields, end, field}
use ha_truenas_ng.Value.Access.{find, put}

pub find-put :
    (j k : String) (v : Value) (fs : Fields)
    → find j (put k v fs) ≡ (if j == k then some v else find j fs)
unfolding find put
find-put j k v end = refl
find-put j k v (field i w fs) = ground (arith, find-put j k v fs)

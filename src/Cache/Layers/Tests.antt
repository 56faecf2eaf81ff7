-- ===== src/Cache/Layers/Tests.antt =====
-- The layers over the map cache, with numbers for values and 0 for nil.
use gotest.Common.{ℕ, ◌≡◌, refl, some, []}
use gotest.Common.Text.{Text, codes}
use gotest.Cache.Local.{BuildInMapCache}
use gotest.Cache.Local
use gotest.Cache.Layers.{no_value, Cache}
use gotest.Cache.Layers.OnMap.{map_cache}
use gotest.Common.Dict

runs : Unit {0}
unfolding Local.get Dict.get
runs = tt

abbrev State : Type 0
State = BuildInMapCache ℕ ℕ

abbrev fresh : State
fresh = record { entries = []; on_evicted = λ key val n. n; seen = 0 }

abbrev layer : Cache State ℕ
layer = map_cache 0 5

abbrev key : Text
key = codes "k"

missing : layer.get key fresh ≡ (0, some no_value, fresh)
unfolding runs
missing = refl

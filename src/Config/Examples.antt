-- ===== src/Config/Examples.antt =====
-- Maps of settings.
use lsmlite.Base.{◌≡◌, refl, none, some, [], ◌∷◌}
use lsmlite.Base.Key.{cmp}
use lsmlite.Config.{default_config, from_map, read_settings, read_setting, strip_dashes}

from_map_empty : from_map [] ≡ some default_config
unfolding from_map read_settings default_config
from_map_empty = refl

from_map_rate :
    from_map (
      (
        45 ∷ 45 ∷ 99 ∷ 111 ∷ 109 ∷ 112 ∷ 97 ∷ 99 ∷ 116 ∷ 105 ∷ 111 ∷ 110 ∷ 95 ∷ 114 ∷ 97 ∷ 116 ∷ 101
            ∷ [],
        3,
      )
      ∷ [])
    ≡ some (record default_config { compaction_rate = 3 })
unfolding from_map read_settings default_config read_setting strip_dashes cmp
from_map_rate = refl

from_map_unknown : from_map ((45 ∷ 45 ∷ 1 ∷ [], 3) ∷ []) ≡ none
unfolding from_map read_settings read_setting strip_dashes cmp
from_map_unknown = refl

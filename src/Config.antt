-- ===== src/Config.antt =====
-- config/mod.rs: the settings, their defaults, and a map of settings by name.
mod Examples
use lsmlite.Base.{ℕ, Option, none, some, List, [], ◌∷◌, ◌==◌, ◌&&◌, if◌then◌else◌, ◌>>=◌}
use lsmlite.Base.Bytes.{Blob}
use lsmlite.Base.Key.{key_eq}

pub record LsmliteConfig : Type 0 where
  pub max_memtable_nodes : ℕ
  pub max_memtable_size : ℕ
  pub compaction_rate : ℕ
  pub compaction_queue_size : ℕ
  pub memtable_flush_queue_size : ℕ

abbrev pub default_max_memtable_nodes : ℕ
default_max_memtable_nodes = 4096

abbrev pub default_max_memtable_size : ℕ
default_max_memtable_size = 4000000

abbrev pub default_compaction_rate : ℕ
default_compaction_rate = 10

abbrev pub default_compaction_queue_size : ℕ
default_compaction_queue_size = 100

abbrev pub default_memtable_flush_queue : ℕ
default_memtable_flush_queue = 100

unfoldable pub default_config : LsmliteConfig
default_config = record {
  max_memtable_nodes = default_max_memtable_nodes;
  max_memtable_size = default_max_memtable_size;
  compaction_rate = default_compaction_rate;
  compaction_queue_size = default_compaction_queue_size;
  memtable_flush_queue_size = default_memtable_flush_queue;
}

-- The names of the settings, as bytes.
abbrev pub name_of_max_memtable_nodes : Blob
name_of_max_memtable_nodes =
    109 ∷ 97 ∷ 120 ∷ 95 ∷ 109 ∷ 101 ∷ 109 ∷ 116 ∷ 97 ∷ 98 ∷ 108 ∷ 101 ∷ 95 ∷ 110 ∷ 111 ∷ 100 ∷ 101
    ∷ 115 ∷ []

abbrev pub name_of_max_memtable_size : Blob
name_of_max_memtable_size =
    109 ∷ 97 ∷ 120 ∷ 95 ∷ 109 ∷ 101 ∷ 109 ∷ 116 ∷ 97 ∷ 98 ∷ 108 ∷ 101 ∷ 95 ∷ 115 ∷ 105 ∷ 122 ∷ 101
    ∷ []

abbrev pub name_of_compaction_rate : Blob
name_of_compaction_rate =
    99 ∷ 111 ∷ 109 ∷ 112 ∷ 97 ∷ 99 ∷ 116 ∷ 105 ∷ 111 ∷ 110 ∷ 95 ∷ 114 ∷ 97 ∷ 116 ∷ 101 ∷ []

abbrev pub name_of_compaction_queue_size : Blob
name_of_compaction_queue_size =
    99 ∷ 111 ∷ 109 ∷ 112 ∷ 97 ∷ 99 ∷ 116 ∷ 105 ∷ 111 ∷ 110 ∷ 95 ∷ 113 ∷ 117 ∷ 101 ∷ 117 ∷ 101 ∷ 95
    ∷ 115 ∷ 105 ∷ 122 ∷ 101 ∷ []

abbrev pub name_of_memtable_flush_queue_size : Blob
name_of_memtable_flush_queue_size =
    109 ∷ 101 ∷ 109 ∷ 116 ∷ 97 ∷ 98 ∷ 108 ∷ 101 ∷ 95 ∷ 102 ∷ 108 ∷ 117 ∷ 115 ∷ 104 ∷ 95 ∷ 113 ∷ 117
    ∷ 101 ∷ 117 ∷ 101 ∷ 95 ∷ 115 ∷ 105 ∷ 122 ∷ 101 ∷ []

-- The settings that were read, each if it was there.
pub record Settings : Type 0 where
  pub max_memtable_nodes : Option ℕ
  pub max_memtable_size : Option ℕ
  pub compaction_rate : Option ℕ
  pub compaction_queue_size : Option ℕ
  pub memtable_flush_queue_size : Option ℕ

-- `strip_prefix("--")`
unfoldable pub strip_dashes : Blob → Option Blob
strip_dashes [] = none
strip_dashes (x ∷ []) = none
strip_dashes (x ∷ (y ∷ rest)) = if (x == 45) && (y == 45) then some rest else none

-- The arms of the `match` on the name; another name is `unreachable!`.
unfoldable pub read_setting : Settings → Blob → ℕ → Option Settings
read_setting s name val =
    if key_eq name name_of_max_memtable_nodes
    then some (record s { max_memtable_nodes = some val })
    else (if key_eq name name_of_max_memtable_size
        then some (record s { max_memtable_size = some val })
        else (if key_eq name name_of_compaction_rate
            then some (record s { compaction_rate = some val })
            else (if key_eq name name_of_compaction_queue_size
                then some (record s { compaction_queue_size = some val })
                else (if key_eq name name_of_memtable_flush_queue_size
                    then some (record s { memtable_flush_queue_size = some val })
                    else none))))

-- The loop over the map. A name without its two dashes panics.
unfoldable pub read_settings : List (Blob × ℕ) → Settings → Option Settings
read_settings [] s = some s
read_settings ((param, val) ∷ parsed) s = do
  stripped ← strip_dashes param
  s' ← read_setting s stripped val
  read_settings parsed s'

abbrev unwrap_or : ℕ → Option ℕ → ℕ
unwrap_or default none = default
unwrap_or default (some n) = n

unfoldable pub from_map : List (Blob × ℕ) → Option LsmliteConfig
from_map parsed = do
  s ← read_settings parsed (record {
    max_memtable_nodes = none;
    max_memtable_size = none;
    compaction_rate = none;
    compaction_queue_size = none;
    memtable_flush_queue_size = none;
  })
  some (record {
    max_memtable_nodes = unwrap_or default_max_memtable_nodes s.max_memtable_nodes;
    max_memtable_size = unwrap_or default_max_memtable_size s.max_memtable_size;
    compaction_rate = unwrap_or default_compaction_rate s.compaction_rate;
    compaction_queue_size = unwrap_or default_compaction_queue_size s.compaction_queue_size;
    memtable_flush_queue_size = unwrap_or default_memtable_flush_queue s.memtable_flush_queue_size;
  })

-- ===== src/Memtable/Query.antt =====
-- `get` and `get_search` of memtable/inner.rs.
use Prim.Native.Nat.Ordering.{lt, eq, gt}
use lsmlite.Base.{ℕ, zero, suc, Option, none, some, length, ◌>>=◌}
use lsmlite.Base.Bytes.{Blob}
use lsmlite.Base.Key.{cmp}
use lsmlite.Record.{get_key, copy_value, record_type, data_record, tombstone}
use lsmlite.Memtable.{Tree, MemtableNode, at, MemtableQuery, found, deleted, missing}

-- The outer `none` is a panic, or no rounds left.
unfoldable pub search_loop : ℕ → Tree → Blob → ℕ → Option (Option ℕ)
search_loop zero t key curr = none
search_loop (suc rounds) t key curr = at t curr >>= λ node. get_key node.payload >>= λ node_key.
    elim (cmp key node_key) [
      | eq ↦ some (some curr)
      | lt ↦ elim node.left [ none ↦ some none | some left ↦ search_loop rounds t key left ]
      | gt ↦ elim node.right [ none ↦ some none | some right ↦ search_loop rounds t key right ]
    ]

unfoldable pub get_search : Tree → Blob → Option (Option ℕ)
get_search t key = elim t.root_node [
  | none ↦ some none
  | some root ↦ search_loop (length t.arena) t key root
]

-- The two arms on the record's type; data that is not there makes `unwrap` panic.
unfoldable pub read_node : MemtableNode → Option MemtableQuery
read_node node = elim (record_type node.payload) [
  | data_record ↦
      copy_value node.payload >>= λ v. elim v [ none ↦ none | some blob ↦ some (found blob) ]
  | tombstone ↦ some deleted
]

unfoldable pub get : Tree → Blob → Option MemtableQuery
get t key = get_search t key >>= λ hit. elim hit [
  | none ↦ some missing
  | some node_idx ↦ at t node_idx >>= λ node. read_node node
]

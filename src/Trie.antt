-- ===== src/Trie.antt =====
-- ssindex/trie.rs: a trie in a flat arena. The outer `none` is a panic, an index out of bounds.
-- `offset | WORD_END_FLAG` sets bit 63, and `offset & OFFSET_MASK` is `offset % 2 ^ 63`.
pub mod Edges
pub mod Insert
pub mod Lookup
pub mod Mark
pub mod Index
pub mod Serial
pub mod Read
pub mod Sorted
pub mod Examples
use lsmlite.Base.{ℕ, zero, suc, ◌+◌, ◌*◌, ◌/◌, ◌%◌, ◌^◌, Option, none, some, List, [], ◌∷◌, ◌++◌}
use lsmlite.Base.{length, get_elem?, set, take, drop, map, ltb, ◌==◌, if◌then◌else◌, ◌>>=◌}
use lsmlite.Base.Bytes.{Blob, slice, to_be_bytes, from_be_bytes}
use lsmlite.Util.{make_blob_buffer, get_be_array8, get_be_array4}
use lsmlite.Disk.Encode.{put}

abbrev pub word_end_flag : ℕ
word_end_flag = 2 ^ 63

abbrev pub unmarked_flag : ℕ
unmarked_flag = 0

-- A byte, and the child's index in the arena.
abbrev pub TriePointer : Type 0
TriePointer = ℕ × ℕ

pub record TrieNode : Type 0 where
  pub offset : ℕ
  pub children : List TriePointer

pub record Trie : Type 0 where
  pub arena : List TrieNode

abbrev pub default_node : TrieNode
default_node = record { offset = unmarked_flag; children = [] }

unfoldable pub set_offset : ℕ → TrieNode → TrieNode
set_offset offset node = record node {
  offset = if offset / 2 ^ 63 % 2 == 0 then offset + word_end_flag else offset;
}

unfoldable pub get_offset : TrieNode → Option ℕ
get_offset node = if node.offset == unmarked_flag then none else some (node.offset % 2 ^ 63)

-- The `Result` of `get_child_idx`: the child's index in the arena, or the place to insert it.
pub data ChildSearch : Type 0 where
  found : ℕ → ChildSearch
  insert_at : ℕ → ChildSearch

-- `binary_search_by` on the sorted children: the child with the byte `c`, or the number of
-- children below it.
unfoldable pub child_search : List TriePointer → ℕ → ℕ → ChildSearch
child_search [] c pos = insert_at pos
child_search ((b, idx) ∷ children) c pos =
    if b == c
    then found idx
    else if ltb b c
    then child_search children c (pos + 1)
    else insert_at pos

unfoldable pub get_child_idx : TrieNode → ℕ → ChildSearch
get_child_idx node c = child_search node.children c 0

unfoldable pub insert_child : ℕ → ℕ → ℕ → TrieNode → TrieNode
insert_child pos c idx node = record node {
  children = take pos node.children ++ ((c, idx) ∷ drop pos node.children);
}

-- The two arms of `get_or_insert_node`: the new arena, and the index of the child.
unfoldable pub enter_child : List TrieNode → ℕ → ℕ → TrieNode → ChildSearch → List TrieNode × ℕ
enter_child arena arena_idx c node (found child_idx) = (arena, child_idx)
enter_child arena arena_idx c node (insert_at pos) =
    let child_idx = length arena in
    let pushed = arena ++ (default_node ∷ []) in
    (set pushed arena_idx (insert_child pos c (child_idx % 2 ^ 32) node), child_idx)

unfoldable pub get_or_insert_node : List TrieNode → ℕ → ℕ → Option (List TrieNode × ℕ)
get_or_insert_node arena arena_idx c = do
  node ← get_elem? arena arena_idx
  some (enter_child arena arena_idx c node (get_child_idx node c))

-- The loop of `insert` over the key.
unfoldable pub insert_path : Blob → List TrieNode → ℕ → Option (List TrieNode × ℕ)
insert_path [] arena arena_idx = some (arena, arena_idx)
insert_path (c ∷ key) arena arena_idx =
    get_or_insert_node arena arena_idx c >>= λ step. insert_path key step.0 step.1

unfoldable pub ensure_root : List TrieNode → List TrieNode
ensure_root [] = default_node ∷ []
ensure_root (node ∷ arena) = node ∷ arena

unfoldable pub insert : Blob → ℕ → Trie → Option Trie
insert key offset t = do
  (arena, arena_idx) ← insert_path key (ensure_root t.arena) 0
  node ← get_elem? arena arena_idx
  some (record { arena = set arena arena_idx (set_offset offset node) })

-- The loop of `get` over the key.
unfoldable pub get_path : Blob → List TrieNode → ℕ → Option (Option ℕ)
get_path [] arena arena_idx = get_elem? arena arena_idx >>= λ node. some (get_offset node)
get_path (c ∷ key) arena arena_idx = get_elem? arena arena_idx >>= λ node.
    elim (get_child_idx node c) [ found idx ↦ get_path key arena idx | insert_at pos ↦ some none ]

unfoldable pub get : Trie → Blob → Option (Option ℕ)
get t key = elim t.arena [ [] ↦ some none | node ∷ arena ↦ get_path key (node ∷ arena) 0 ]

-- Serialization. `serialized_size` counts 9 bytes for a node and 5 for a child.
unfoldable pub serialized_size : TrieNode → ℕ
serialized_size node = 9 + 5 * length node.children

unfoldable pub arena_size : List TrieNode → ℕ
unfolding serialized_size
arena_size [] = 0
arena_size (node ∷ arena) = serialized_size node + arena_size arena

unfoldable pub put_children : List TriePointer → Blob × ℕ → Option (Blob × ℕ)
put_children [] b = some b
put_children ((c, idx) ∷ children) b = do
  b₁ ← put b (c ∷ [])
  b₂ ← put b₁ (to_be_bytes 4 idx)
  put_children children b₂

unfoldable pub serialize_into_buffer : TrieNode → Blob × ℕ → Option (Blob × ℕ)
serialize_into_buffer node b = do
  b₁ ← put b (length node.children % 256 ∷ [])
  b₂ ← put b₁ (to_be_bytes 8 node.offset)
  put_children node.children b₂

unfoldable pub put_nodes : List TrieNode → Blob × ℕ → Option (Blob × ℕ)
put_nodes [] b = some b
put_nodes (node ∷ arena) b = serialize_into_buffer node b >>= λ b'. put_nodes arena b'

unfoldable pub serialize : Trie → Option Blob
serialize t = do
  b ← put (make_blob_buffer (4 + arena_size t.arena), 0) (to_be_bytes 4 (length t.arena % 2 ^ 32))
  b' ← put_nodes t.arena b
  some b'.0

unfoldable pub get_children : ℕ → Blob → ℕ → Option (List TriePointer × ℕ)
get_children zero buffer offset = some ([], offset)
get_children (suc n) buffer offset = do
  c ← get_elem? buffer offset
  bytes ← get_be_array4 buffer (offset + 1)
  (rest, finish) ← get_children n buffer (offset + 5)
  some ((c, from_be_bytes bytes) ∷ rest, finish)

unfoldable pub deserialize_node : Blob → ℕ → Option (TrieNode × ℕ)
deserialize_node buffer offset = do
  num_children ← get_elem? buffer offset
  bytes ← get_be_array8 buffer (offset + 1)
  (children, finish) ← get_children num_children buffer (offset + 9)
  some (record { offset = from_be_bytes bytes; children = children }, finish)

unfoldable pub get_nodes : ℕ → Blob → ℕ → Option (List TrieNode)
get_nodes zero buffer offset = some []
get_nodes (suc n) buffer offset = do
  (node, finish) ← deserialize_node buffer offset
  rest ← get_nodes n buffer finish
  some (node ∷ rest)

unfoldable pub deserialize_from_disk : Blob → Option Trie
deserialize_from_disk buffer = do
  bytes ← get_be_array4 buffer 0
  arena ← get_nodes (from_be_bytes bytes) buffer 4
  some (record { arena = arena })

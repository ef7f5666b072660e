-- ===== src/Trie/Examples.antt =====
-- The trie of ssindex/trie.rs on concrete keys.
use lsmlite.Base.{
  ℕ, ◌+◌, ◌^◌, ◌≤◌, ◌≡◌, refl, arith, some, [], ◌∷◌, length, replicate, if◌then◌else◌, ◌>>=◌,
}
use lsmlite.Base.Bytes.{Blob}
use lsmlite.Base.Key.{key_eq}
use lsmlite.Util.{make_blob_buffer}
use lsmlite.Trie.{Trie, TrieNode, get, insert, ensure_root, serialize, deserialize_from_disk}
use lsmlite.Trie.{deserialize_node, serialize_into_buffer, serialized_size}
use lsmlite.Trie.Index.{IsIndex, new-IsIndex, get-insert}
use lsmlite.Trie.Sorted.{IsSorted, Finds, get_child_idx-insert}
use lsmlite.Base.{All, get_elem?}
use lsmlite.Trie.{get_child_idx}
use lsmlite.Trie.Read.{NodeFits, deserialize_from_disk-serialize, full_node_loses_children}

abbrev empty : Trie
empty = record { arena = [] }

abbrev pub two_nodes : Trie
two_nodes = record {
  arena =
      record { offset = 0; children = (97, 1) ∷ [] }
      ∷ record { offset = 2 ^ 63 + 9; children = [] }
      ∷ [];
}

abbrev full_node : TrieNode
full_node = record { offset = 0; children = replicate 256 (0, 1) }

get-insert_example :
    (t' : Trie) × (insert (97 ∷ 98 ∷ []) 9 empty ≡ some t')
    × IsIndex t'
    × ((key' : Blob)
        → get t' key' ≡ (if key_eq (97 ∷ 98 ∷ []) key' then some (some 9) else get empty key'))
    × (length t'.arena ≤ length (ensure_root empty.arena) + 2)
unfolding ensure_root
get-insert_example = get-insert empty (97 ∷ 98 ∷ []) 9 new-IsIndex (omega arith) (omega arith)

pub two_nodes-NodeFits : NodeFits (record { offset = 0; children = (97, 1) ∷ [] })
two_nodes-NodeFits = record { few = omega arith; small = omega arith; pointers = (omega arith, tt) }

pub leaf-NodeFits : NodeFits (record { offset = 2 ^ 63 + 9; children = [] })
leaf-NodeFits = record { few = omega arith; small = omega arith; pointers = tt }

deserialize_from_disk-serialize_example :
    (serialize two_nodes >>= deserialize_from_disk) ≡ some two_nodes
deserialize_from_disk-serialize_example =
    deserialize_from_disk-serialize two_nodes (two_nodes-NodeFits, (leaf-NodeFits, tt))
      (omega arith)

full_node_loses_children_example :
    (b : Blob × ℕ) × (serialize_into_buffer full_node
        (make_blob_buffer (serialized_size full_node), 0)
      ≡ some b)
    × (b.1 ≡ serialized_size full_node)
    × (deserialize_node b.0 0 ≡ some (record full_node { children = [] }, 9))
full_node_loses_children_example = full_node_loses_children full_node refl (omega arith)

get_child_idx-insert_example :
    (t' : Trie) × (insert (97 ∷ 98 ∷ []) 9 empty ≡ some t')
    × All IsSorted t'.arena
    × ((i c : ℕ) (node : TrieNode)
        → get_elem? t'.arena i ≡ some node
        → Finds node.children c (get_child_idx node c))
unfolding ensure_root
get_child_idx-insert_example =
    get_child_idx-insert empty (97 ∷ 98 ∷ []) 9 new-IsIndex tt (omega arith) (omega arith)

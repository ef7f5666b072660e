-- ===== src/Trie/Read.antt =====
-- `deserialize_from_disk` of ssindex/trie.rs on what `serialize` wrote.
use lsmlite.Base.{ℕ, ◌+◌, ◌*◌, ◌%◌, ◌^◌, ◌<◌, ◌≡◌, refl, arith, All}
use lsmlite.Base.{some, List, [], ◌∷◌, ◌++◌, length, ◌>>=◌, append_assoc, append-nil, length-append}
use lsmlite.Base.{get_elem?-append_length}
use lsmlite.Base.Bytes.{Blob, to_be_bytes, length-to_be_bytes, slice}
use lsmlite.Util.{make_blob_buffer, get_be_array8, get_be_array4}
use lsmlite.Disk.Layout.{slice_word, Filled-start, Filled-end}
use lsmlite.Trie.{Trie, TrieNode, TriePointer, serialized_size, serialize, serialize_into_buffer}
use lsmlite.Trie.{get_children, deserialize_node, get_nodes, deserialize_from_disk}
use lsmlite.Trie.Serial.{
  children_bytes, node_bytes, nodes_bytes, trie_bytes, serialize_lem, length-node_bytes,
  serialize_into_buffer-Filled,
}
use native.Mathlib.Nat.{mod-eq_of_lt}

abbrev pub PointerFits : TriePointer → Type 0
PointerFits p = p.1 < 2 ^ 32

-- The widths of the fields on disk: a byte counts the children.
pub record NodeFits (node : TrieNode) : Type 0 where
  pub few : length node.children < 256
  pub small : node.offset < 2 ^ 64
  pub pointers : All PointerFits node.children

get_children-bytes :
    (ch : List TriePointer) (pre post : Blob) (offset : ℕ)
    → All PointerFits ch
    → offset ≡ length pre
    → get_children (length ch) (pre ++ (children_bytes ch ++ post)) offset
      ≡ some (ch, offset + 5 * length ch)
unfolding get_children children_bytes get_be_array4
get_children-bytes [] pre post offset h p = ground arith
get_children-bytes ((c, idx) ∷ ch) pre post offset h p =
    let tail = children_bytes ch ++ post in
    let here = get_elem?-append_length pre c (to_be_bytes 4 idx ++ tail) in
    let (bytes, e, v) =
      slice_word (pre ++ (c ∷ [])) tail 4 idx (offset + 1) h.0
        (omega (arith, length-append pre (c ∷ []))) in
    let e' : slice (pre ++ (c ∷ (to_be_bytes 4 idx ++ tail))) (offset + 1) 4 ≡ some bytes =
      rw (append_assoc pre (c ∷ []) (to_be_bytes 4 idx ++ tail)) at e in
    let l = length-to_be_bytes 4 idx in
    let ih =
      get_children-bytes ch (pre ++ (c ∷ to_be_bytes 4 idx)) post (offset + 5) h.1
        (omega (arith, length-append pre (c ∷ to_be_bytes 4 idx))) in
    let ih' : get_children (length ch) (pre ++ (c ∷ (to_be_bytes 4 idx ++ tail))) (offset + 5)
        ≡ some (ch, offset + 5 + 5 * length ch) =
      rw (append_assoc pre (c ∷ to_be_bytes 4 idx) tail) at ih in
    rw (append_assoc (to_be_bytes 4 idx) (children_bytes ch) post, p, here, ← p, e', v, ih')
      (ground arith)

deserialize_node-bytes :
    (node : TrieNode) (pre post : Blob) (offset : ℕ)
    → NodeFits node
    → offset ≡ length pre
    → deserialize_node (pre ++ (node_bytes node ++ post)) offset
      ≡ some (node, offset + serialized_size node)
unfolding deserialize_node node_bytes serialized_size get_be_array8
deserialize_node-bytes node pre post offset f p =
    let n = length node.children in
    let tail = children_bytes node.children ++ post in
    let ob = to_be_bytes 8 node.offset in
    let cnt : n % 256 ≡ n = mod-eq_of_lt f.few in
    let here = get_elem?-append_length pre n (ob ++ tail) in
    let (bytes, e, v) =
      slice_word (pre ++ (n ∷ [])) tail 8 node.offset (offset + 1) f.small
        (omega (arith, length-append pre (n ∷ []))) in
    let e' : slice (pre ++ (n ∷ (ob ++ tail))) (offset + 1) 8 ≡ some bytes =
      rw (append_assoc pre (n ∷ []) (ob ++ tail)) at e in
    let l = length-to_be_bytes 8 node.offset in
    let ch =
      get_children-bytes node.children (pre ++ (n ∷ ob)) post (offset + 9) f.pointers
        (omega (arith, length-append pre (n ∷ ob))) in
    let ch' : get_children n (pre ++ (n ∷ (ob ++ tail))) (offset + 9)
        ≡ some (node.children, offset + 9 + 5 * n) =
      rw (append_assoc pre (n ∷ ob) tail) at ch in
    rw (cnt, append_assoc ob (children_bytes node.children) post, p, here, ← p, e', v, ch')
      (ground arith)

get_nodes-bytes :
    (arena : List TrieNode) (pre post : Blob) (offset : ℕ)
    → All NodeFits arena
    → offset ≡ length pre
    → get_nodes (length arena) (pre ++ (nodes_bytes arena ++ post)) offset ≡ some arena
unfolding get_nodes nodes_bytes
get_nodes-bytes [] pre post offset f p = refl
get_nodes-bytes (node ∷ arena) pre post offset f p =
    let tail = nodes_bytes arena ++ post in
    let e = deserialize_node-bytes node pre tail offset f.0 p in
    let ih =
      get_nodes-bytes arena (pre ++ node_bytes node) post (offset + serialized_size node) f.1
        (omega (arith, length-append pre (node_bytes node), length-node_bytes node)) in
    let ih' = rw (append_assoc pre (node_bytes node) tail) at ih in
    rw (append_assoc (node_bytes node) (nodes_bytes arena) post, e, ih')

-- `deserialize_from_disk` reads back the trie that `serialize` wrote, if each node has fewer than
-- 256 children, offsets fit 64 bits, and pointers and the number of nodes fit 32 bits.
pub deserialize_from_disk-serialize :
    (t : Trie)
    → All NodeFits t.arena
    → length t.arena < 2 ^ 32
    → (serialize t >>= deserialize_from_disk) ≡ some t
unfolding deserialize_from_disk trie_bytes get_be_array4
deserialize_from_disk-serialize t fits small =
    let n = length t.arena in
    let e : n % 2 ^ 32 ≡ n = mod-eq_of_lt small in
    let (bytes, s, v) = slice_word [] (nodes_bytes t.arena) 4 n 0 small refl in
    let ns =
      get_nodes-bytes t.arena (to_be_bytes 4 n) [] 4 fits (omega (arith, length-to_be_bytes 4 n)) in
    let ns' = rw append-nil at ns in rw (serialize_lem t, e, s, v, ns')

deserialize_node-full :
    (node : TrieNode) (rest : Blob)
    → length node.children ≡ 256
    → node.offset < 2 ^ 64
    → deserialize_node (node_bytes node ++ rest) 0 ≡ some (record node { children = [] }, 9)
unfolding deserialize_node node_bytes get_be_array8 get_children
deserialize_node-full node rest full small =
    let tail = children_bytes node.children ++ rest in
    let ob = to_be_bytes 8 node.offset in
    let (bytes, e, v) = slice_word (0 ∷ []) tail 8 node.offset 1 small refl in
    rw (full, append_assoc ob (children_bytes node.children) rest, e, v)

-- A node with 256 children, whose offset fits 64 bits, is written by `serialize_into_buffer` to a
-- buffer of its size, all of which is used, and read back from it with the offset and no children.
pub full_node_loses_children :
    (node : TrieNode)
    → length node.children ≡ 256
    → node.offset < 2 ^ 64
    → (b : Blob × ℕ) × (serialize_into_buffer node (make_blob_buffer (serialized_size node), 0)
        ≡ some b)
      × (b.1 ≡ serialized_size node)
      × (deserialize_node b.0 0 ≡ some (record node { children = [] }, 9))
full_node_loses_children node full small =
    let size = serialized_size node in
    let (b, e, f) =
      serialize_into_buffer-Filled node _ [] size 0 (Filled-start size) (omega arith) in
    let done : b ≡ (node_bytes node, length (node_bytes node)) = Filled-end b (node_bytes node) f in
    let read = deserialize_node-full node [] full small in
    let read' = rw append-nil at read in (b, e, rw done (length-node_bytes node), rw done read')

-- ===== src/Trie/Serial.antt =====
-- `serialize` and `deserialize_from_disk` of ssindex/trie.rs.
use lsmlite.Base.{ℕ, ◌+◌, ◌*◌, ◌%◌, ◌^◌, ◌≡◌, refl, arith}
use lsmlite.Base.{some, List, [], ◌∷◌, ◌++◌, length, append_assoc, append-nil, length-append}
use lsmlite.Base.Bytes.{Blob, to_be_bytes, length-to_be_bytes}
use lsmlite.Disk.Layout.{Filled, put-Filled, Filled-start, Filled-end}
use lsmlite.Trie.{Trie, TrieNode, TriePointer, serialized_size, arena_size, put_children}
use lsmlite.Trie.{serialize_into_buffer, put_nodes, serialize}

unfoldable pub children_bytes : List TriePointer → Blob
children_bytes [] = []
children_bytes ((c, idx) ∷ ch) = (c ∷ to_be_bytes 4 idx) ++ children_bytes ch

unfoldable pub node_bytes : TrieNode → Blob
node_bytes node =
    (length node.children % 256 ∷ to_be_bytes 8 node.offset) ++ children_bytes node.children

unfoldable pub nodes_bytes : List TrieNode → Blob
nodes_bytes [] = []
nodes_bytes (node ∷ arena) = node_bytes node ++ nodes_bytes arena

unfoldable pub trie_bytes : Trie → Blob
trie_bytes t = to_be_bytes 4 (length t.arena % 2 ^ 32) ++ nodes_bytes t.arena

length-children_bytes : (ch : List TriePointer) → length (children_bytes ch) ≡ 5 * length ch
unfolding children_bytes
length-children_bytes [] = refl
length-children_bytes ((c, idx) ∷ ch) = omega (
  arith,
  length-append (c ∷ to_be_bytes 4 idx) (children_bytes ch),
  length-to_be_bytes 4 idx,
  length-children_bytes ch,
)

pub length-node_bytes : (node : TrieNode) → length (node_bytes node) ≡ serialized_size node
unfolding node_bytes serialized_size
length-node_bytes node = omega (
  arith,
  length-append (length node.children % 256 ∷ to_be_bytes 8 node.offset)
      (children_bytes node.children),
  length-to_be_bytes 8 node.offset,
  length-children_bytes node.children,
)

put_children-Filled :
    (ch : List TriePointer) (b : Blob × ℕ) (done : Blob) (room room' : ℕ)
    → Filled b done room
    → room ≡ 5 * length ch + room'
    → (b' : Blob × ℕ) × (put_children ch b ≡ some b') × Filled b' (done ++ children_bytes ch) room'
unfolding put_children children_bytes
put_children-Filled [] b done room room' f r =
    let e : room ≡ room' = omega arith in (b, refl, rw (append-nil, ← e) f)
put_children-Filled ((c, idx) ∷ ch) b done room room' f r =
    let (b₁, e₁, f₁) =
      put-Filled b done (c ∷ []) room (4 + 5 * length ch + room') f (omega arith) in
    let (b₂, e₂, f₂) =
      put-Filled b₁ _ (to_be_bytes 4 idx) _ (5 * length ch + room') f₁
        (omega (arith, length-to_be_bytes 4 idx)) in
    let (b₃, e₃, f₃) = put_children-Filled ch b₂ _ _ room' f₂ refl in
    let r₃ : ((done ++ (c ∷ [])) ++ to_be_bytes 4 idx) ++ children_bytes ch
        ≡ done ++ ((c ∷ to_be_bytes 4 idx) ++ children_bytes ch) =
      simp append_assoc in
    (b₃, rw (e₁, e₂, e₃), rw (← r₃) f₃)

pub serialize_into_buffer-Filled :
    (node : TrieNode) (b : Blob × ℕ) (done : Blob) (room room' : ℕ)
    → Filled b done room
    → room ≡ serialized_size node + room'
    → (b' : Blob × ℕ) × (serialize_into_buffer node b ≡ some b')
      × Filled b' (done ++ node_bytes node) room'
unfolding serialize_into_buffer node_bytes serialized_size
serialize_into_buffer-Filled node b done room room' f r =
    let n = length node.children in
    let (b₁, e₁, f₁) = put-Filled b done (n % 256 ∷ []) room (8 + 5 * n + room') f (omega arith) in
    let (b₂, e₂, f₂) =
      put-Filled b₁ _ (to_be_bytes 8 node.offset) _ (5 * n + room') f₁
        (omega (arith, length-to_be_bytes 8 node.offset)) in
    let (b₃, e₃, f₃) = put_children-Filled node.children b₂ _ _ room' f₂ refl in
    let r₃ : ((done ++ (n % 256 ∷ [])) ++ to_be_bytes 8 node.offset) ++ children_bytes node.children
        ≡ done ++ ((n % 256 ∷ to_be_bytes 8 node.offset) ++ children_bytes node.children) =
      simp append_assoc in
    (b₃, rw (e₁, e₂, e₃), rw (← r₃) f₃)

put_nodes-Filled :
    (arena : List TrieNode) (b : Blob × ℕ) (done : Blob) (room : ℕ)
    → Filled b done room
    → room ≡ arena_size arena
    → (b' : Blob × ℕ) × (put_nodes arena b ≡ some b') × Filled b' (done ++ nodes_bytes arena) 0
unfolding put_nodes nodes_bytes arena_size
put_nodes-Filled [] b done room f r = let e : room ≡ 0 = r in (b, refl, rw (append-nil, ← e) f)
put_nodes-Filled (node ∷ arena) b done room f r =
    let (b₁, e₁, f₁) = serialize_into_buffer-Filled node b done room (arena_size arena) f r in
    let (b₂, e₂, f₂) = put_nodes-Filled arena b₁ _ _ f₁ refl in
    (b₂, rw (e₁, e₂), rw (← append_assoc done (node_bytes node) (nodes_bytes arena)) f₂)

-- `serialize` never panics: the counted size is what is written.
pub serialize_lem : (t : Trie) → serialize t ≡ some (trie_bytes t)
unfolding serialize trie_bytes
serialize_lem t =
    let n = length t.arena % 2 ^ 32 in
    let size = 4 + arena_size t.arena in
    let (b₁, e₁, f₁) =
      put-Filled _ [] (to_be_bytes 4 n) size (arena_size t.arena) (Filled-start size)
        (omega (arith, length-to_be_bytes 4 n)) in
    let (b₂, e₂, f₂) = put_nodes-Filled t.arena b₁ _ _ f₁ refl in rw (e₁, e₂, Filled-end b₂ _ f₂)

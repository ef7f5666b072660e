-- ===== src/Trie/Index.antt =====
-- `insert` and `get` of ssindex/trie.rs on a whole trie.
use lsmlite.Base.{ℕ, zero, suc, ◌+◌, ◌^◌, ◌≤◌, ◌<◌, ◌≡◌, refl, ◌∙◌, arith}
use lsmlite.Base.{List, [], ◌∷◌, length, set, if◌then◌else◌}
use lsmlite.Base.{Bool, Option, none, some, length-set}
use lsmlite.Base.{true, false}
use lsmlite.Base.Bytes.{Blob}
use lsmlite.Base.Key.{key_eq}
use lsmlite.Trie.{Trie, TrieNode, default_node, set_offset, get_path, get}
use lsmlite.Trie.{ensure_root, insert}
use lsmlite.Trie.Edges.{edge, child, node_child, node_mark}
use lsmlite.Trie.Insert.{IsTree, walk, look, insert_path_lem, get_elem?-some}
use lsmlite.Trie.Lookup.{get_path_lem}
use lsmlite.Trie.Mark.{marked-look, marked-IsTree}

-- What holds of every trie that `insert` builds: with a root it is a tree.
abbrev pub IsIndex : Trie → Type 0
IsIndex t = IsTree (ensure_root t.arena)

ensure_root_lem : (arena : List TrieNode) → 0 < length arena → ensure_root arena ≡ arena
unfolding ensure_root
ensure_root_lem [] h = absurd (omega arith)
ensure_root_lem (node ∷ arena) h = refl

pub get_lem :
    (t : Trie) (key : Blob) → IsIndex t → get t key ≡ some (look (ensure_root t.arena) key 0)
unfolding get ensure_root
get_lem t key i = go t.arena key i
  where
    go :
        (arena : List TrieNode) (key : Blob)
        → IsTree (ensure_root arena)
        → (elim arena [ [] ↦ some none | node ∷ rest ↦ get_path key (node ∷ rest) 0 ])
          ≡ some (look (ensure_root arena) key 0)
    go [] [] i = unfold look walk node_mark in refl
    go [] (c ∷ key) i = unfold look walk node_child edge in refl
    go (node ∷ arena) key i = get_path_lem (node ∷ arena) key 0 i (omega arith)

no_child : (i c : ℕ) → child (default_node ∷ []) i c ≡ none
unfolding node_child edge
no_child zero c = refl
no_child (suc i) c = refl

pub new-IsIndex : IsIndex (record { arena = [] })
unfolding ensure_root
new-IsIndex = record {
  rooted = omega arith;
  down = λ i c j h. elim (absent i c j h) [ ];
  unique = λ i c i' c' j h h'. elim (absent i c j h) [ ];
}
  where
    absent : (i c j : ℕ) → child (default_node ∷ []) i c ≡ some j → ⊥
    absent i c j h = cc (no_child i c)

pub some_if :
    (b : Bool) (offset : ℕ) (o : Option ℕ)
    → some (if b then some offset else o) ≡ (if b then some (some offset) else some o)
some_if true offset o = refl
some_if false offset o = refl

-- On an index with room for the key's nodes below 2 ^ 32, and for an offset below 2 ^ 63, `insert`
-- does not panic, keeps it an index, changes what `get` reads at the inserted key only, and adds at
-- most a node for each byte of the key.
pub get-insert :
    (t : Trie) (key : Blob) (offset : ℕ)
    → IsIndex t
    → length (ensure_root t.arena) + length key ≤ 2 ^ 32
    → offset < 2 ^ 63
    → (t' : Trie) × (insert key offset t ≡ some t')
      × IsIndex t'
      × ((key' : Blob) → get t' key' ≡ (if key_eq key key' then some (some offset) else get t key'))
      × (length t'.arena ≤ length (ensure_root t.arena) + length key)
unfolding insert
get-insert t key offset i room small =
    let (arena, j, e, g, w, lt, len) =
      insert_path_lem key (ensure_root t.arena) 0 i (omega arith) room in
    let (node, here) = get_elem?-some arena j lt in
    let after : List TrieNode = set arena j (set_offset offset node) in
    let tree = marked-IsTree arena j offset node here g.tree in
    let rooted : ensure_root after ≡ after = ensure_root_lem after tree.rooted in
    let t' : Trie = record { arena = after } in
    let i' : IsIndex t' = rw rooted tree in
    (
      t',
      rw (e, here),
      i',
      λ key'.
          get_lem t' key' i'
          ∙ rw (rooted, get_lem t key' i)
              (rw
                (
                  marked-look arena j offset node here g.tree small key key' w,
                  g.same_look key' 0 i.rooted,
                )
                (some_if (key_eq key key') offset (look (ensure_root t.arena) key' 0))),
      omega (arith, length-set arena j (set_offset offset node)),
    )

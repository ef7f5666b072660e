-- ===== src/Trie/Sorted.antt =====
-- `get_child_idx` and `insert_child` of ssindex/trie.rs: the children of each node stay sorted by
-- their bytes, which the binary search needs.
use lsmlite.Base.{
  ℕ, zero, suc, ◌+◌, ◌^◌, ◌≤◌, ◌<◌, ◌≡◌, refl, arith, Bool-cases, inl, inr, Option-cases,
}
use lsmlite.Base.{some, List, [], ◌∷◌, ◌++◌, length, get_elem?, set, take, drop, All}
use lsmlite.Base.{ltb, ◌==◌}
use lsmlite.Base.{All-set, All-append, All-take, All-drop, All-imp, All-get_elem?}
use lsmlite.Base.Bytes.{Blob}
use lsmlite.Trie.{Trie, TrieNode, TriePointer, ChildSearch, found, insert_at, default_node}
use lsmlite.Trie.{child_search, get_child_idx, insert_child, enter_child, get_or_insert_node}
use lsmlite.Trie.{insert_path, ensure_root, insert, set_offset}
use lsmlite.Trie.Index.{IsIndex, get-insert}

abbrev pub Increasing : List TriePointer → Type 0
Increasing [] = Unit
Increasing (q ∷ ch) = All (λ p. q.0 < p.0) ch × Increasing ch

-- The children of a node are sorted by their bytes, and no byte has two.
abbrev pub IsSorted : TrieNode → Type 0
IsSorted node = Increasing node.children

-- What a search for a byte has to say of a list of children: where the child with the byte is, or
-- that the children in front of a place have lower bytes and the others greater ones.
abbrev pub Finds : List TriePointer → ℕ → ChildSearch → Type 0
Finds ch c (found idx) = (k : ℕ) × (get_elem? ch k ≡ some (c, idx))
Finds ch c (insert_at pos) =
    (pos ≤ length ch) × All (λ q. q.0 < c) (take pos ch) × All (λ q. c < q.0) (drop pos ch)

-- The same for a search that has passed over `p` children.
abbrev FindsFrom : ℕ → List TriePointer → ℕ → ChildSearch → Type 0
FindsFrom p ch c (found idx) = (k : ℕ) × (get_elem? ch k ≡ some (c, idx))
FindsFrom p ch c (insert_at pos) =
    (k : ℕ) × (pos ≡ p + k)
    × (k ≤ length ch)
    × All (λ q. q.0 < c) (take k ch)
    × All (λ q. c < q.0) (drop k ch)

FindsFrom-cons :
    (r : ChildSearch) (p b j : ℕ) (ch : List TriePointer) (c : ℕ)
    → b < c
    → FindsFrom (p + 1) ch c r
    → FindsFrom p ((b, j) ∷ ch) c r
FindsFrom-cons (found idx) p b j ch c h (k, e) = (suc k, e)
FindsFrom-cons (insert_at pos) p b j ch c h (k, e, le, low, high) =
    (suc k, omega arith, omega arith, (h, low), high)

child_search-FindsFrom :
    (ch : List TriePointer) (c p : ℕ) → Increasing ch → FindsFrom p ch c (child_search ch c p)
unfolding child_search
child_search-FindsFrom [] c p inc = (0, omega arith, omega arith, tt, tt)
child_search-FindsFrom ((b, j) ∷ ch) c p inc = elim (Bool-cases (b == c)) [
  | inl same ↦ let e : b ≡ c = ground arith in rw (child_search, same) (0, rw e refl)
  | inr other ↦ elim (Bool-cases (ltb b c)) [
    | inl below ↦
        rw (child_search, other, below)
          (FindsFrom-cons (child_search ch c (p + 1)) p b j ch c (ground arith)
            (child_search-FindsFrom ch c (p + 1) inc.1))
    | inr above ↦
        let less : c < b = ground arith in
        rw (child_search, other, above)
          (
            0,
            omega arith,
            omega arith,
            tt,
            (less, All-imp (λ q. b < q.0) (λ q. c < q.0) ch (λ q h. omega arith) inc.0),
          )
  ]
]

get_child_idx-Finds :
    (node : TrieNode) (c : ℕ) → IsSorted node → Finds node.children c (get_child_idx node c)
unfolding get_child_idx
get_child_idx-Finds node c s =
    go (child_search node.children c 0) (child_search-FindsFrom node.children c 0 s)
  where
    go : (r : ChildSearch) → FindsFrom 0 node.children c r → Finds node.children c r
    go (found idx) h = h
    go (insert_at pos) (k, e, le, low, high) =
        let e' : pos ≡ k = omega arith in rw e' (le, low, high)

Increasing-insert :
    (ch : List TriePointer) (k c idx : ℕ)
    → Increasing ch
    → All (λ q. q.0 < c) (take k ch)
    → All (λ q. c < q.0) (drop k ch)
    → Increasing (take k ch ++ ((c, idx) ∷ drop k ch))
Increasing-insert ch zero c idx inc low high = (high, inc)
Increasing-insert [] (suc k) c idx inc low high = (tt, tt)
Increasing-insert ((b, j) ∷ ch) (suc k) c idx inc low high = (
  All-append (λ q. b < q.0) (take k ch) ((c, idx) ∷ drop k ch) (All-take (λ q. b < q.0) k ch inc.0)
      (low.0, All-drop (λ q. b < q.0) k ch inc.0),
  Increasing-insert ch k c idx inc.1 low.1 high,
)

enter_child-IsSorted :
    (arena : List TrieNode) (i c : ℕ) (node : TrieNode) (r : ChildSearch)
    → All IsSorted arena
    → IsSorted node
    → Finds node.children c r
    → All IsSorted (enter_child arena i c node r).0
unfolding enter_child insert_child
enter_child-IsSorted arena i c node (found idx) h s f = h
enter_child-IsSorted arena i c node (insert_at pos) h s (le, low, high) =
    All-set IsSorted (arena ++ (default_node ∷ [])) i _
      (All-append IsSorted arena (default_node ∷ []) h (tt, tt))
      (Increasing-insert node.children pos c _ s low high)

insert_path-IsSorted :
    (key : Blob) (arena : List TrieNode) (i : ℕ) (arena' : List TrieNode) (j : ℕ)
    → All IsSorted arena
    → insert_path key arena i ≡ some (arena', j)
    → All IsSorted arena'
unfolding insert_path get_or_insert_node
insert_path-IsSorted [] arena i arena' j h e = let same : arena ≡ arena' = cc in rw same at h
insert_path-IsSorted (c ∷ key) arena i arena' j h e = elim (Option-cases (get_elem? arena i)) [
  | inl none_here ↦ cc (rw (insert_path, get_or_insert_node, none_here) at e)
  | inr (node, here) ↦
      let s = All-get_elem? IsSorted arena i node h here in
      let r = get_child_idx node c in
      let next = enter_child arena i c node r in
      insert_path-IsSorted key next.0 next.1 arena' j
        (enter_child-IsSorted arena i c node r h s (get_child_idx-Finds node c s))
        (rw (insert_path, get_or_insert_node, here) at e)
]

ensure_root-IsSorted :
    (arena : List TrieNode) → All IsSorted arena → All IsSorted (ensure_root arena)
unfolding ensure_root
ensure_root-IsSorted [] h = (tt, tt)
ensure_root-IsSorted (node ∷ arena) h = h

insert-IsSorted :
    (t t' : Trie) (key : Blob) (offset : ℕ)
    → All IsSorted t.arena
    → insert key offset t ≡ some t'
    → All IsSorted t'.arena
unfolding insert set_offset
insert-IsSorted t t' key offset h e =
    elim (Option-cases (insert_path key (ensure_root t.arena) 0)) [
      | inl stuck ↦ cc (rw (insert, stuck) at e)
      | inr ((arena, j), run) ↦ elim (Option-cases (get_elem? arena j)) [
        | inl gone ↦ cc (rw (insert, run, gone) at e)
        | inr (node, here) ↦
            let s =
              insert_path-IsSorted key (ensure_root t.arena) 0 arena j
                (ensure_root-IsSorted t.arena h) run in
            let marked = set_offset offset node in
            let after : Trie = record { arena = set arena j marked } in
            let e' : some after ≡ some t' = rw (insert, run, here) at e in
            let same : after ≡ t' = cc in
            rw (← same)
              (All-set IsSorted arena j marked s (All-get_elem? IsSorted arena j node s here))
      ]
    ]

-- On an index in which the children of each node are sorted by their bytes, with room for the key's
-- nodes below 2 ^ 32 and for an offset below 2 ^ 63, `insert` does not panic and keeps them sorted.
-- In each node that it leaves, `get_child_idx` gives for each byte what a binary search promises:
-- the pointer of the child with the byte, or the place that has lower bytes in front of it and
-- greater bytes from it on.
pub get_child_idx-insert :
    (t : Trie) (key : Blob) (offset : ℕ)
    → IsIndex t
    → All IsSorted t.arena
    → length (ensure_root t.arena) + length key ≤ 2 ^ 32
    → offset < 2 ^ 63
    → (t' : Trie) × (insert key offset t ≡ some t')
      × All IsSorted t'.arena
      × ((i c : ℕ) (node : TrieNode)
          → get_elem? t'.arena i ≡ some node
          → Finds node.children c (get_child_idx node c))
get_child_idx-insert t key offset index h room small =
    let (t', e, _, _, _) = get-insert t key offset index room small in
    let s = insert-IsSorted t t' key offset h e in
    (
      t',
      e,
      s,
      λ i c node here. get_child_idx-Finds node c (All-get_elem? IsSorted t'.arena i node s here),
    )

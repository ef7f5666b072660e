-- ===== src/Trie/Insert.antt =====
-- `insert` of ssindex/trie.rs grows a tree, and disturbs no path that is there.
use lsmlite.Base.{ℕ, zero, suc, ◌+◌, ◌%◌, ◌^◌, ◌≤◌, ◌<◌, ◌≡◌, refl, ◌∙◌, arith, Option, none, some}
use lsmlite.Base.{List, [], ◌∷◌, length, get_elem?, ◌==◌, if◌then◌else◌, ◌>>=◌}
use lsmlite.Base.{get_elem?-lt, Option-cases, inl, inr, ◌&&◌}
use lsmlite.Base.Bytes.{Blob}
use lsmlite.Trie.{TrieNode, get_or_insert_node, insert_path}
use lsmlite.Trie.Edges.{edge, child, mark, node_child, node_mark, grown, grown-child, grown-mark}
use lsmlite.Trie.Edges.{length-grown, get_or_insert-found, get_or_insert-new}

-- Each pointer leads to a later node of the arena, and no two pointers to the same node.
pub record IsTree (arena : List TrieNode) : Type 0 where
  pub rooted : 0 < length arena
  pub down : (i c j : ℕ) → child arena i c ≡ some j → (i < j) × (j < length arena)
  pub unique :
      (i c i' c' j : ℕ)
      → child arena i c ≡ some j
      → child arena i' c' ≡ some j
      → (i ≡ i') × (c ≡ c')

abbrev pub offset_of : ℕ → Option ℕ
offset_of m = if m == 0 then none else some (m % 2 ^ 63)

-- Where a key leads from a node.
unfoldable pub walk : List TrieNode → Blob → ℕ → Option ℕ
walk arena [] i = some i
walk arena (c ∷ key) i = child arena i c >>= λ j. walk arena key j

-- What a key reads from a node.
unfoldable pub look : List TrieNode → Blob → ℕ → Option ℕ
look arena key i = walk arena key i >>= λ j. offset_of (mark arena j)

child-lt : (arena : List TrieNode) (i c j : ℕ) → child arena i c ≡ some j → i < length arena
unfolding node_child
child-lt [] i c j h = cc
child-lt (node ∷ arena) zero c j h = omega arith
child-lt (node ∷ arena) (suc i) c j h = omega (arith, child-lt arena i c j h)

child-beyond : (arena : List TrieNode) (i c : ℕ) → length arena ≤ i → child arena i c ≡ none
unfolding node_child
child-beyond [] i c h = refl
child-beyond (node ∷ arena) zero c h = absurd (omega arith)
child-beyond (node ∷ arena) (suc i) c h = child-beyond arena i c (omega arith)

mark-beyond : (arena : List TrieNode) (i : ℕ) → length arena ≤ i → mark arena i ≡ 0
unfolding node_mark
mark-beyond [] i h = refl
mark-beyond (node ∷ arena) zero h = absurd (omega arith)
mark-beyond (node ∷ arena) (suc i) h = mark-beyond arena i (omega arith)

pub get_elem?-some :
    (arena : List TrieNode) (i : ℕ)
    → i < length arena
    → (node : TrieNode) × (get_elem? arena i ≡ some node)
get_elem?-some [] i h = absurd (omega arith)
get_elem?-some (node ∷ arena) zero h = (node, refl)
get_elem?-some (node ∷ arena) (suc i) h = get_elem?-some arena i (omega arith)

-- What one step, or a sequence of steps, of the insertion keeps.
pub record Grows (arena arena' : List TrieNode) : Type 0 where
  pub tree : IsTree arena'
  pub longer : length arena ≤ length arena'
  pub kept : (i c j : ℕ) → child arena i c ≡ some j → child arena' i c ≡ some j
  pub same_look : (key : Blob) (i : ℕ) → i < length arena → look arena' key i ≡ look arena key i

module _ (arena : List TrieNode) (t : IsTree arena) (i c : ℕ) (node : TrieNode)
    (here : get_elem? arena i ≡ some node) (new : edge node.children c ≡ none) where
  abbrev arena' : List TrieNode
  arena' = grown arena i c node here

  gc :
      (i' c' : ℕ)
      → child arena' i' c'
        ≡ (if (i' == i) && (c' == c) then some (length arena) else child arena i' c')
  gc i' c' = grown-child arena i c node here i' c' new

  none_here : child arena i c ≡ none
  none_here = rw here (unfold node_child in new)

  grown-IsTree : IsTree arena'
  grown-IsTree = record {
    rooted = omega (arith, length-grown arena i c node here);
    down = λ i' c' j h. ground (
      arith,
      gc i' c',
      t.down i' c' j,
      length-grown arena i c node here,
      get_elem?-lt arena i here,
    );
    unique = λ i' c' i'' c'' j h k.
        ground
          (arith, gc i' c', gc i'' c'', t.unique i' c' i'' c'' j, t.down i' c' j, t.down i'' c'' j);
  }

  fresh_look : (key : Blob) → look arena' key (length arena) ≡ none
  unfolding look walk
  fresh_look [] = rw (
    grown-mark arena i c node here (length arena),
    mark-beyond arena (length arena) (omega arith),
  )
  fresh_look (c' ∷ key) =
      let lt = get_elem?-lt arena i here in
      let e : child arena' (length arena) c' ≡ none =
        ground (arith, gc (length arena) c', child-beyond arena (length arena) c' (omega arith)) in
      rw e

  grown-same_look :
      (key : Blob) (i' : ℕ) → i' < length arena → look arena' key i' ≡ look arena key i'
  unfolding look walk
  grown-same_look [] i' h = rw (grown-mark arena i c node here i')
  grown-same_look (c' ∷ key) i' h = elim (Option-cases (child arena i' c')) [
    | inl missing ↦ elim (Option-cases (child arena' i' c')) [
      | inl still ↦ rw (missing, still)
      | inr (j, e) ↦
          let n : j ≡ length arena = ground (arith, gc i' c') in rw (missing, e, n) (fresh_look key)
    ]
    | inr (j, e) ↦
        let e' : child arena' i' c' ≡ some j = ground (arith, gc i' c', none_here) in
        rw (e, e') (grown-same_look key j (omega (arith, t.down i' c' j e)))
  ]

  grown-Grows : Grows arena arena'
  grown-Grows = record {
    tree = grown-IsTree;
    longer = omega (arith, length-grown arena i c node here);
    kept = λ i' c' j h. ground (arith, gc i' c', none_here);
    same_look = grown-same_look;
  }

Grows-refl : (arena : List TrieNode) → IsTree arena → Grows arena arena
Grows-refl arena t = record {
  tree = t;
  longer = omega arith;
  kept = λ i c j h. h;
  same_look = λ key i h. refl;
}

Grows-trans : (a b c : List TrieNode) → Grows a b → Grows b c → Grows a c
Grows-trans a b c f g = record {
  tree = g.tree;
  longer = omega arith;
  kept = λ i x j h. g.kept i x j (f.kept i x j h);
  same_look = λ key i h. g.same_look key i (omega arith) ∙ f.same_look key i h;
}

-- One step of the insertion: it does not panic, and the edge is there afterwards.
get_or_insert_node_lem :
    (arena : List TrieNode) (i c : ℕ)
    → IsTree arena
    → i < length arena
    → length arena < 2 ^ 32
    → (arena' : List TrieNode) × (j : ℕ) × (get_or_insert_node arena i c ≡ some (arena', j))
      × Grows arena arena'
      × (child arena' i c ≡ some j)
      × (length arena' ≤ length arena + 1)
get_or_insert_node_lem arena i c t h small =
    let (node, here) = get_elem?-some arena i h in
    elim (Option-cases (edge node.children c)) [
      | inl new ↦ (
        grown arena i c node here,
        length arena,
        get_or_insert-new arena i c node here small new,
        grown-Grows arena t i c node here new,
        ground (arith, grown-child arena i c node here i c new),
        omega (arith, length-grown arena i c node here),
      )
      | inr (j, e) ↦ (
        arena,
        j,
        get_or_insert-found arena i c node here j e,
        Grows-refl arena t,
        rw here (unfold node_child in e),
        omega arith,
      )
    ]

walk-kept :
    (a b : List TrieNode) (key : Blob) (i j : ℕ)
    → Grows a b
    → walk a key i ≡ some j
    → walk b key i ≡ some j
unfolding walk
walk-kept a b [] i j g h = h
walk-kept a b (c ∷ key) i j g h = elim (Option-cases (child a i c)) [
  | inl e ↦ cc (rw e at h)
  | inr (k, e) ↦ rw (g.kept i c k e) (walk-kept a b key k j g (rw e at h))
]

-- The whole path: afterwards the key leads to the node that is returned.
pub insert_path_lem :
    (key : Blob) (arena : List TrieNode) (i : ℕ)
    → IsTree arena
    → i < length arena
    → length arena + length key ≤ 2 ^ 32
    → (arena' : List TrieNode) × (j : ℕ) × (insert_path key arena i ≡ some (arena', j))
      × Grows arena arena'
      × (walk arena' key i ≡ some j)
      × (j < length arena')
      × (length arena' ≤ length arena + length key)
unfolding insert_path walk
insert_path_lem [] arena i t h small = (arena, i, refl, Grows-refl arena t, refl, h, omega arith)
insert_path_lem (c ∷ key) arena i t h small =
    let (a, j, e, g, edge_there, len) = get_or_insert_node_lem arena i c t h (omega arith) in
    let (b, k, e', g', w, lt, len') =
      insert_path_lem key a j g.tree (g.tree.down i c j edge_there).1 (omega arith) in
    (b, k, rw (e, e'), Grows-trans arena a b g g', rw (g'.kept i c j edge_there) w, lt, omega arith)

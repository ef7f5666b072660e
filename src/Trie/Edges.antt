-- ===== src/Trie/Edges.antt =====
-- The arena of ssindex/trie.rs as a function from a node and a byte to a node.
use lsmlite.Base.{ℕ, zero, suc, ◌+◌, ◌%◌, ◌^◌, ◌<◌, ◌≡◌, ◌≢◌, refl, ap, arith, Option, none, some}
use lsmlite.Base.{List, [], ◌∷◌, ◌++◌, length, get_elem?, set, take, drop, ltb, ◌==◌, if◌then◌else◌}
use lsmlite.Base.{get_elem?-set_self, get_elem?-set_ne, length-append, length-set}
use lsmlite.Base.{◌&&◌, Bool-cases, get_elem?-lt, inl, inr}
use lsmlite.Trie.{TrieNode, TriePointer, default_node, child_search, found, insert_at, insert_child}
use lsmlite.Trie.{enter_child, get_child_idx, get_or_insert_node}
use native.Mathlib.Nat.{mod-eq_of_lt, zero-add}

unfoldable pub edge : List TriePointer → ℕ → Option ℕ
edge [] c = none
edge ((b, j) ∷ ch) c = if b == c then some j else if ltb b c then edge ch c else none

-- The insertion of a child before the first greater one.
unfoldable pub ins : ℕ → ℕ → List TriePointer → List TriePointer
ins c j [] = (c, j) ∷ []
ins c j ((b, k) ∷ ch) = if ltb b c then (b, k) ∷ ins c j ch else (c, j) ∷ ((b, k) ∷ ch)

unfoldable pub node_child : Option TrieNode → ℕ → Option ℕ
node_child none c = none
node_child (some node) c = edge node.children c

abbrev pub child : List TrieNode → ℕ → ℕ → Option ℕ
child arena i c = node_child (get_elem? arena i) c

unfoldable pub node_mark : Option TrieNode → ℕ
node_mark none = 0
node_mark (some node) = node.offset

abbrev pub mark : List TrieNode → ℕ → ℕ
mark arena i = node_mark (get_elem? arena i)

edge-ins :
    (ch : List TriePointer) (c j c' : ℕ)
    → edge ch c ≡ none
    → edge (ins c j ch) c' ≡ (if c' == c then some j else edge ch c')
unfolding edge ins
edge-ins [] c j c' h = ground arith
edge-ins ((b, k) ∷ ch) c j c' h = ground (arith, edge-ins ch c j c')

pub search-found :
    (ch : List TriePointer) (c p j : ℕ) → edge ch c ≡ some j → child_search ch c p ≡ found j
unfolding edge child_search
search-found [] c p j h = cc
search-found ((b, k) ∷ ch) c p j h = ground (arith, search-found ch c (p + 1) j)

pub search-insert_at :
    (ch : List TriePointer) (c p j : ℕ)
    → edge ch c ≡ none
    → (n : ℕ) × (child_search ch c p ≡ insert_at (p + n))
      × (take n ch ++ ((c, j) ∷ drop n ch) ≡ ins c j ch)
unfolding edge child_search ins
search-insert_at [] c p j h = (0, ground arith, refl)
search-insert_at ((b, k) ∷ ch) c p j h = elim (Bool-cases (ltb b c)) [
  | inl below ↦
      let h' : edge ch c ≡ none = ground arith in
      let (n, q, r) = search-insert_at ch c (p + 1) j h' in
      (suc n, ground arith, rw below (ap (λ l. (b, k) ∷ l) r))
  | inr above ↦ (0, ground arith, rw above)
]

pushed-child :
    (arena : List TrieNode) (i c : ℕ) → child (arena ++ (default_node ∷ [])) i c ≡ child arena i c
unfolding node_child edge
pushed-child [] zero c = refl
pushed-child [] (suc i) c = refl
pushed-child (node ∷ arena) zero c = refl
pushed-child (node ∷ arena) (suc i) c = pushed-child arena i c

pushed-mark : (arena : List TrieNode) (i : ℕ) → mark (arena ++ (default_node ∷ [])) i ≡ mark arena i
unfolding node_mark
pushed-mark [] zero = refl
pushed-mark [] (suc i) = refl
pushed-mark (node ∷ arena) zero = refl
pushed-mark (node ∷ arena) (suc i) = pushed-mark arena i

module _ (arena : List TrieNode) (i c : ℕ) (node : TrieNode)
    (here : get_elem? arena i ≡ some node) where
  pub get_or_insert-found :
      (j : ℕ) → edge node.children c ≡ some j → get_or_insert_node arena i c ≡ some (arena, j)
  unfolding get_or_insert_node enter_child get_child_idx
  get_or_insert-found j h = rw (here, search-found node.children c 0 j h)

  abbrev pub grown : List TrieNode
  grown =
      set (arena ++ (default_node ∷ [])) i
        (record node { children = ins c (length arena) node.children })

  pub get_or_insert-new :
      length arena < 2 ^ 32
      → edge node.children c ≡ none
      → get_or_insert_node arena i c ≡ some (grown, length arena)
  unfolding get_or_insert_node enter_child get_child_idx insert_child
  get_or_insert-new small h =
      let (n, q, r) = search-insert_at node.children c 0 (length arena) h in
      let e : length arena % 2 ^ 32 ≡ length arena = mod-eq_of_lt small in
      rw (here, q, zero-add n, e, r)

  grown_here :
      get_elem? grown i ≡ some (record node { children = ins c (length arena) node.children })
  grown_here =
      get_elem?-set_self (arena ++ (default_node ∷ [])) i _
        (omega (arith, get_elem?-lt arena i here, length-append arena (default_node ∷ [])))

  grown_ne : (i' : ℕ) → i ≢ i' → get_elem? grown i' ≡ get_elem? (arena ++ (default_node ∷ [])) i'
  grown_ne i' h = get_elem?-set_ne (arena ++ (default_node ∷ [])) i i' _ h

  pub grown-child :
      (i' c' : ℕ)
      → edge node.children c ≡ none
      → child grown i' c'
        ≡ (if (i' == i) && (c' == c) then some (length arena) else child arena i' c')
  grown-child i' c' h = elim (Bool-cases (i' == i)) [
    | inl same ↦
        let e : i' ≡ i = ground arith in
        rw (e, here, grown_here)
          (unfold node_child in ground (arith, edge-ins node.children c (length arena) c' h))
    | inr other ↦
        let e : i ≢ i' = ground arith in rw (other, grown_ne i' e) (pushed-child arena i' c')
  ]

  pub grown-mark : (i' : ℕ) → mark grown i' ≡ mark arena i'
  grown-mark i' = elim (Bool-cases (i' == i)) [
    | inl same ↦
        let e : i' ≡ i = ground arith in rw (e, here, grown_here) (unfold node_mark in refl)
    | inr other ↦ let e : i ≢ i' = ground arith in rw (grown_ne i' e) (pushed-mark arena i')
  ]

  pub length-grown : length grown ≡ length arena + 1
  length-grown = omega (
    arith,
    length-append arena (default_node ∷ []),
    length-set (arena ++ (default_node ∷ [])) i
        (record node { children = ins c (length arena) node.children }),
  )

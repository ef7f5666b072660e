-- ===== src/Trie/Lookup.antt =====
-- `get` of ssindex/trie.rs after `insert`.
use lsmlite.Base.{ℕ, ◌<◌, ◌≡◌, refl, ap, ◌∙◌, sym, arith}
use lsmlite.Base.{List, [], ◌∷◌, ◌++◌, append-nil, length, ◌>>=◌}
use lsmlite.Base.{Option, none, some, Option-cases, inl, inr}
use lsmlite.Base.Bytes.{Blob}
use lsmlite.Trie.{TrieNode, get_offset, get_child_idx, get_path}
use lsmlite.Trie.Edges.{edge, child, node_child, node_mark, search-found, search-insert_at}
use lsmlite.Trie.Insert.{IsTree, walk, look, get_elem?-some}

rev_onto : Blob → Blob → Blob
rev_onto [] rk = rk
rev_onto (c ∷ key) rk = rev_onto key (c ∷ rk)

rev_onto_twice : (k a b : Blob) → rev_onto (rev_onto k a) b ≡ rev_onto a (k ++ b)
unfolding rev_onto
rev_onto_twice [] a b = refl
rev_onto_twice (c ∷ k) a b = rev_onto_twice k (c ∷ a) b

rev_onto_nil : (k : Blob) → rev_onto (rev_onto k []) [] ≡ k
unfolding rev_onto
rev_onto_nil k = rev_onto_twice k [] [] ∙ append-nil k

rev_onto_injective : (k k' : Blob) → rev_onto k [] ≡ rev_onto k' [] → k ≡ k'
rev_onto_injective k k' e = sym (rev_onto_nil k) ∙ ap (λ x. rev_onto x []) e ∙ rev_onto_nil k'

module _ (arena : List TrieNode) where
  -- The walk from the root along a key that is given backwards.
  rev_walk : Blob → Option ℕ
  rev_walk [] = some 0
  rev_walk (c ∷ rk) = rev_walk rk >>= λ i. child arena i c

  rev_walk-none : (key rk : Blob) → rev_walk rk ≡ none → rev_walk (rev_onto key rk) ≡ none
  unfolding rev_onto rev_walk
  rev_walk-none [] rk h = h
  rev_walk-none (c ∷ key) rk h = rev_walk-none key (c ∷ rk) (rw h)

  walk-rev_walk :
      (key rk : Blob) (i : ℕ) → rev_walk rk ≡ some i → walk arena key i ≡ rev_walk (rev_onto key rk)
  unfolding rev_onto rev_walk walk
  walk-rev_walk [] rk i h = sym h
  walk-rev_walk (c ∷ key) rk i h = elim (Option-cases (child arena i c)) [
    | inl e ↦ rw e (sym (rev_walk-none key (c ∷ rk) (rw (h, e))))
    | inr (j, e) ↦ rw e (walk-rev_walk key (c ∷ rk) j (rw (h, e)))
  ]

  rev_walk_unique :
      IsTree arena
      → (rk rk' : Blob) (j : ℕ) → rev_walk rk ≡ some j
      → rev_walk rk' ≡ some j
      → rk ≡ rk'
  unfolding rev_walk
  rev_walk_unique t [] [] j h h' = refl
  rev_walk_unique t [] (c ∷ rk') j h h' = elim (Option-cases (rev_walk rk')) [
    | inl e ↦ cc (rw e at h')
    | inr (i, e) ↦ absurd (ground (arith, e, t.down i c j))
  ]
  rev_walk_unique t (c ∷ rk) [] j h h' = elim (Option-cases (rev_walk rk)) [
    | inl e ↦ cc (rw e at h)
    | inr (i, e) ↦ absurd (ground (arith, e, t.down i c j))
  ]
  rev_walk_unique t (c ∷ rk) (c' ∷ rk') j h h' = elim (Option-cases (rev_walk rk)) [
    | inl e ↦ cc (rw e at h)
    | inr (i, e) ↦ elim (Option-cases (rev_walk rk')) [
      | inl e' ↦ cc (rw e' at h')
      | inr (i', e') ↦
          let (p, q) = t.unique i c i' c' j (rw e at h) (rw e' at h') in
          let r = rev_walk_unique t rk rk' i e (rw p e') in cc (q, r)
    ]
  ]

  -- Two keys that lead to the same node are equal.
  pub walk_unique :
      IsTree arena
      → (k k' : Blob) (j : ℕ) → walk arena k 0 ≡ some j
      → walk arena k' 0 ≡ some j
      → k ≡ k'
  walk_unique t k k' j h h' = rev_onto_injective k k' (
      rev_walk_unique t (rev_onto k []) (rev_onto k' []) j
        (sym (walk-rev_walk k [] 0 (unfold rev_walk in refl)) ∙ h)
        (sym (walk-rev_walk k' [] 0 (unfold rev_walk in refl)) ∙ h'))

  pub get_path_lem :
      (key : Blob) (i : ℕ)
      → IsTree arena
      → i < length arena
      → get_path key arena i ≡ some (look arena key i)
  unfolding get_path get_child_idx look walk
  get_path_lem [] i t h =
      let (node, e) = get_elem?-some arena i h in rw e (unfold get_offset node_mark in refl)
  get_path_lem (c ∷ key) i t h =
      let (node, e) = get_elem?-some arena i h in
      elim (Option-cases (edge node.children c)) [
        | inl m ↦
            let (n, q, r) = search-insert_at node.children c 0 0 m in
            ground
              (arith, e, q, (let x : child arena i c ≡ none = rw e (unfold node_child in m) in x))
        | inr (j, m) ↦
            let x : child arena i c ≡ some j = rw e (unfold node_child in m) in
            ground (
              arith,
              e,
              x,
              search-found node.children c 0 j m,
              get_path_lem key j t (t.down i c j x).1,
            )
      ]

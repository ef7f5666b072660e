-- ===== src/Trie/Mark.antt =====
-- The end of `insert` of ssindex/trie.rs: the offset is set at the node that the key leads to.
use lsmlite.Base.{ℕ, ◌^◌, ◌<◌, ◌≡◌, ◌≢◌, refl, ap, ◌∙◌, sym, arith}
use lsmlite.Base.{List, [], ◌∷◌, get_elem?, set, ◌==◌, if◌then◌else◌}
use lsmlite.Base.{some, Bool-cases, Option-cases, inl, inr, length-set, get_elem?-lt}
use lsmlite.Base.{get_elem?-set_self, get_elem?-set_ne, false}
use lsmlite.Base.Bytes.{Blob}
use lsmlite.Base.Key.{key_eq, key_eq_refl, eq_of_key_eq}
use lsmlite.Trie.{TrieNode, set_offset}
use lsmlite.Trie.Edges.{child, mark, node_child, node_mark}
use lsmlite.Trie.Insert.{IsTree, offset_of, walk, look}
use lsmlite.Trie.Lookup.{walk_unique}

module _ (arena : List TrieNode) (j offset : ℕ) (node : TrieNode)
    (here : get_elem? arena j ≡ some node) where
  abbrev pub marked : List TrieNode
  marked = set arena j (set_offset offset node)

  marked_here : get_elem? marked j ≡ some (set_offset offset node)
  marked_here = get_elem?-set_self arena j _ (get_elem?-lt arena j here)

  marked-child : (i c : ℕ) → child marked i c ≡ child arena i c
  marked-child i c = elim (Bool-cases (i == j)) [
    | inl same ↦
        let e : i ≡ j = ground arith in
        rw (e, marked_here, here) (unfold node_child set_offset in refl)
    | inr other ↦
        let e : j ≢ i = ground arith in rw (get_elem?-set_ne arena j i (set_offset offset node) e)
  ]

  marked-mark : (i : ℕ) → i ≢ j → mark marked i ≡ mark arena i
  marked-mark i h = rw (get_elem?-set_ne arena j i (set_offset offset node) (λ e. h (sym e)))

  marked-mark_here : offset < 2 ^ 63 → offset_of (mark marked j) ≡ some offset
  marked-mark_here h = rw marked_here (unfold node_mark set_offset in ground arith)

  marked-walk : (key : Blob) (i : ℕ) → walk marked key i ≡ walk arena key i
  unfolding walk
  marked-walk [] i = refl
  marked-walk (c ∷ key) i = elim (Option-cases (child arena i c)) [
    | inl e ↦ rw (marked-child i c, e)
    | inr (k, e) ↦ rw (marked-child i c, e) (marked-walk key k)
  ]

  pub marked-IsTree : IsTree arena → IsTree marked
  marked-IsTree t = record {
    rooted = omega (arith, length-set arena j (set_offset offset node), t.rooted);
    down = λ i c k h. (
      (t.down i c k (rw (marked-child i c) at h)).0,
      omega (
        arith,
        length-set arena j (set_offset offset node),
        t.down i c k (rw (marked-child i c) at h),
      ),
    );
    unique = λ i c i' c' k h h'.
        t.unique i c i' c' k (rw (marked-child i c) at h) (rw (marked-child i' c') at h');
  }

  -- After the mark, the key that leads to the node reads the offset, and any other reads as before.
  pub marked-look :
      IsTree arena
      → offset < 2 ^ 63
      → (key key' : Blob) → walk arena key 0 ≡ some j
      → look marked key' 0 ≡ (if key_eq key key' then some offset else look arena key' 0)
  unfolding look
  marked-look t small key key' w = elim (Bool-cases (key_eq key key')) [
    | inl same ↦
        let e : key ≡ key' = eq_of_key_eq key key' same in
        rw (same, marked-walk key' 0, ← e, w) (marked-mark_here small)
    | inr other ↦ elim (Option-cases (walk arena key' 0)) [
      | inl m ↦ rw (other, marked-walk key' 0, m)
      | inr (k, m) ↦
          let ne : k ≢ j =
            λ e. differ key key' other (walk_unique arena t key key' j w (m ∙ ap some e)) in
          rw (other, marked-walk key' 0, m) (rw (marked-mark k ne))
    ]
  ]
    where
      differ : (key key' : Blob) → key_eq key key' ≡ false → key ≡ key' → ⊥
      differ key key' other e = cc (rw (← e) at other, key_eq_refl key)

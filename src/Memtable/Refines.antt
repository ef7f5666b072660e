-- ===== src/Memtable/Refines.antt =====
-- `get` of memtable/inner.rs as a lookup in the list of the arena's records.
use lsmlite.Base.{ℕ, zero, suc, ◌≡◌, refl, sym, ap, ◌∙◌, arith, none, some}
use lsmlite.Base.{
  [], ◌∷◌, ◌⊎◌, map, List, length, get_elem?, get_elem?-lt, ◌>>=◌, Option-cases, inl, inr,
}
use lsmlite.Base.Bytes.{Blob}
use lsmlite.Base.Key.{key_eq_refl}
use lsmlite.Record.{Record, get_key}
use lsmlite.Record.Reads.{get_key-layout}
use lsmlite.Disk.Layout.{layout, data_entry}
use lsmlite.Memtable.{Tree, MemtableNode, at, missing, InsertionPosition, new_node, existing_node}
use lsmlite.Memtable.Query
use lsmlite.Memtable.Query.{get_search, search_loop, read_node}
use lsmlite.Memtable.Kept.{payloads}
use lsmlite.Memtable.Shape.{Shape, leaf, node, size, Repr}
use lsmlite.Memtable.Keys.{key_in}
use lsmlite.Memtable.Lookup.{lookup, read_record, read_node_lem, lookup-absent, lookup-present}
use lsmlite.Memtable.Descend.{search_loop-find_loop, node_at}
use lsmlite.Memtable.Position.{Spot}
use lsmlite.Memtable.Valid.{IsTree, find_root, absent_keys, distinct_keys, length-payloads}

-- The record at an index with a key.
pub record_at :
    (rs : List Record) (i : ℕ) (a : Blob)
    → key_in rs i ≡ some a
    → (r : Record) × (get_elem? rs i ≡ some r) × (get_key r ≡ some a)
record_at rs i a e = go (Option-cases (get_elem? rs i)) e
  where
    go :
        (get_elem? rs i ≡ none) ⊎ ((r : Record) × (get_elem? rs i ≡ some r))
        → key_in rs i ≡ some a
        → (r : Record) × (get_elem? rs i ≡ some r) × (get_key r ≡ some a)
    go (inl n) e = let clash : none ≡ some a = sym (ap (λ o. o >>= get_key) n) ∙ e in cc
    go (inr (r, n)) e = (r, n, sym (ap (λ o. o >>= get_key) n) ∙ e)

node_in :
    (xs : List MemtableNode) (i : ℕ) (r : Record)
    → get_elem? (map (λ node. node.payload) xs) i ≡ some r
    → (x : MemtableNode) × (get_elem? xs i ≡ some x) × (x.payload ≡ r)
node_in [] i r e = cc
node_in (y ∷ ys) zero r e = (y, refl, ground (arith, e))
node_in (y ∷ ys) (suc i) r e = node_in ys i r e

pub node_of :
    (t : Tree) (i : ℕ) (r : Record)
    → get_elem? (payloads t) i ≡ some r
    → (x : MemtableNode) × (at t i ≡ some x) × (x.payload ≡ r)
unfolding at
node_of t i r e = node_in t.arena i r e

module _ (t : Tree) (key : Blob) (v : IsTree t) (i : ℕ) (e : t.root_node ≡ some i) where
  found_at :
      (p : InsertionPosition)
      → get_search t key ≡ some (node_at p)
      → Spot t key v.shape p
      → Query.get t key ≡ lookup (payloads t) key
  unfolding Query.get
  found_at (new_node p side) run gap =
      rw run (sym (lookup-absent (payloads t) key (absent_keys t v key p side gap)))
  found_at (existing_node j) run held =
      let (r, at_r, key_r) = record_at (payloads t) j key held.its_key in
      let (x, at_x, its) = node_of t j r at_r in
      let bound = get_elem?-lt (payloads t) j at_r in
      rw (run, at_x)
        (read_node_lem x
          ∙ ap read_record its
          ∙ sym (
              lookup-present (payloads t) key j r key at_r key_r (key_eq_refl key)
                (λ k h. distinct_keys t v key j held k (omega arith) (λ q. absurd (omega arith)))))

  rooted : Query.get t key ≡ lookup (payloads t) key
  unfolding get_search
  rooted =
      let r = layout (data_entry key []) in
      let known : get_key r ≡ some key = get_key-layout (data_entry key []) in
      let (p, run, spot) = find_root t v r key i known e in
      let start : get_search t key ≡ search_loop (length t.arena) t key i =
        ap (λ q. elim q [ none ↦ some none | some root ↦ search_loop (length t.arena) t key root ])
          e in
      found_at p
        (start
          ∙ search_loop-find_loop (length t.arena) t r key i known
          ∙ ap (λ q. q >>= λ p. some (node_at p)) run)
        spot

-- In a valid tree, `get` gives what a search through the list of the records in the arena gives:
-- the reading of the record with the key, or that there is none.
pub get-lookup : (t : Tree) (key : Blob) → IsTree t → Query.get t key ≡ lookup (payloads t) key
unfolding Query.get get_search
get-lookup t key v = go v.shape v.repr v.count
  where
    empty : t.root_node ≡ none → Query.get t key ≡ some missing
    empty h = rw h refl

    go :
        (s : Shape)
        → Repr t none t.root_node s
        → size s ≡ length t.arena
        → Query.get t key ≡ lookup (payloads t) key
    go leaf h n =
        empty h
        ∙ (sym (lookup-absent (payloads t) key (λ j k. absurd (omega (arith, length-payloads t)))))
    go (node l i c r) (e, _, _, _, _, _) n = rooted t key v i e

-- ===== src/Memtable/Map.antt =====
-- `insert_node` of memtable/inner.rs with a key that the tree has not.
use lsmlite.Base.{ℕ, ◌<◌, ◌≡◌, ◌≢◌, inl, inr, sym, ap, ◌∙◌, arith, Option, none, some}
use lsmlite.Base.{[], ◌∷◌, ◌++◌, length, if◌then◌else◌, ◌>>=◌, Option-cases, get_elem?-lt}
use lsmlite.Base.{get_elem?}
use lsmlite.Base.Bytes.{Blob}
use lsmlite.Base.Key.{key_eq, key_eq_refl}
use lsmlite.Record
use lsmlite.Record.{Record, RecordType, get_key, copy_value, record_type, data_record, tombstone}
use lsmlite.Memtable.{Tree, found, deleted, missing, new_from_record}
use lsmlite.Memtable.{InsertionPosition, new_node, existing_node}
use lsmlite.Memtable.Insert.{
  insert_node, insert_new, set_root, find_insert_position, find_loop, update_existing,
}
use lsmlite.Memtable.Query
use lsmlite.Memtable.Query.{read_node}
use lsmlite.Memtable.Kept.{payloads}
use lsmlite.Memtable.Lookup.{lookup, read_record, lookup-append, lookup-present, Other}
use lsmlite.Memtable.Shape.{inorder}
use lsmlite.Memtable.Position.{Spot, Held}
use lsmlite.Memtable.Valid.{IsTree, find_root, absent_keys, distinct_keys, length-payloads}
use lsmlite.Memtable.Refines.{get-lookup, record_at}
use lsmlite.Memtable.Added.{insert_new_lem}
use lsmlite.Memtable.Start.{set_root_lem, no_nodes}

-- A record that is there is not read as missing.
read_record-found : (r : Record) → read_record r ≢ some missing
unfolding read_node new_from_record
read_record-found r = go (record_type r) (copy_value r)
  where
    go :
        (y : RecordType) (v : Option (Option Blob))
        → elim y [
          | data_record ↦ v >>= λ w. elim w [ none ↦ none | some blob ↦ some (found blob) ]
          | tombstone ↦ some deleted
        ]
          ≢ some missing
    go data_record none e = cc
    go data_record (some none) e = cc
    go data_record (some (some b)) e = cc
    go tombstone v e = cc

module _ (t : Tree) (v : IsTree t) (r : Record) (key : Blob) (known : get_key r ≡ some key) where
  -- What `get` answers for a key that a record has.
  pub answer_at :
      (i : ℕ)
      → Held (payloads t) key (inorder v.shape) i
      → (old : Record) × (get_elem? (payloads t) i ≡ some old)
        × (get_key old ≡ some key)
        × (Query.get t key ≡ read_record old)
  answer_at i held =
      let (old, at_i, key_i) = record_at (payloads t) i key held.its_key in
      let bound = get_elem?-lt (payloads t) i at_i in
      (
        old,
        at_i,
        key_i,
        get-lookup t key v
            ∙ lookup-present (payloads t) key i old key at_i key_i (key_eq_refl key)
                (λ k h. distinct_keys t v key i held k (omega arith) (λ q. absurd (omega arith))),
      )

  abbrev pub go_by : InsertionPosition → Option (Tree × ℕ)
  go_by p = elim p [
    | existing_node i ↦ update_existing t (new_from_record r) i
    | new_node parent child ↦ insert_new t (new_from_record r) parent child
  ]

  -- The position that `insert_node` goes by.
  pub insert_at :
      (root : ℕ)
      → t.root_node ≡ some root
      → (p : InsertionPosition) × Spot t key v.shape p
        × (insert_node t (new_from_record r) ≡ go_by p)
  unfolding insert_node find_insert_position new_from_record
  insert_at root e =
      let (p, run, spot) = find_root t v r key root known e in
      let start : find_insert_position t r ≡ some p =
        ap (λ q. q >>= λ i. find_loop (length t.arena) t r i) e ∙ run in
      let rooted : insert_node t (new_from_record r) ≡ (find_insert_position t r >>= go_by) =
        ap
          (λ q. elim q [
            | none ↦ some (set_root t (new_from_record r) (length t.arena), 0)
            | some root ↦ find_insert_position t r >>= go_by
          ])
          e in
      (p, spot, rooted ∙ ap (λ q. q >>= go_by) start)

-- What is added to `current_size`: nothing for the first node.
abbrev pub added_size : Tree → Record → ℕ
added_size t r = elim t.root_node [ none ↦ 0 | some root ↦ Record.size r ]

unrooted :
    (t : Tree) (r : Record)
    → t.root_node ≡ none
    → insert_node t (new_from_record r) ≡ some (set_root t (new_from_record r) (length t.arena), 0)
unfolding insert_node new_from_record
unrooted t r e =
    ap
      (λ q. elim q [
        | none ↦ some (set_root t (new_from_record r) (length t.arena), 0)
        | some root ↦ find_insert_position t r >>= λ p. elim p [
          | existing_node i ↦ update_existing t (new_from_record r) i
          | new_node parent child ↦ insert_new t (new_from_record r) parent child
        ]
      ])
      e

-- A record with another key at the end of the list changes the answer for that key only.
answers :
    (t t' : Tree) (r : Record) (key : Blob)
    → IsTree t
    → IsTree t'
    → get_key r ≡ some key
    → payloads t' ≡ payloads t ++ (r ∷ [])
    → ((j : ℕ) → j < length (payloads t) → Other (payloads t) key j)
    → (key' : Blob)
    → Query.get t' key' ≡ (if key_eq key' key then read_record r else Query.get t key')
answers t t' r key v v' known pay other key' =
    get-lookup t' key' v'
    ∙ ap (λ l. lookup l key') pay
    ∙ lookup-append (payloads t) r key key' known other
    ∙ ap (λ q. if key_eq key' key then read_record r else q) (sym (get-lookup t key' v))

-- In a valid tree, the insertion of a record whose key `get` does not find succeeds within its
-- rounds. The new tree is valid: a search tree, red-black, with a black root and the nodes of the
-- arena. The record stands behind the old ones, and `get` answers with it for its key, and as
-- before for every other.
pub insert_node-absent :
    (t : Tree) (r : Record) (key : Blob)
    → IsTree t
    → get_key r ≡ some key
    → Query.get t key ≡ some missing
    → (t' : Tree) × (insert_node t (new_from_record r) ≡ some (t', added_size t r))
      × IsTree t'
      × (payloads t' ≡ payloads t ++ (r ∷ []))
      × ((key' : Blob)
          → Query.get t' key' ≡ (if key_eq key' key then read_record r else Query.get t key'))
insert_node-absent t r key v known gone = elim (Option-cases t.root_node) [
  | inl e ↦
      let t' = set_root t (new_from_record r) (length t.arena) in
      let (v', pay) = set_root_lem t r key v known e in
      let none_left : length (payloads t) ≡ 0 = length-payloads t ∙ no_nodes t v e in
      (
        t',
        unrooted t r e
            ∙ ap (λ q. some (t', elim q [ none ↦ 0 | some root ↦ Record.size r ])) (sym e),
        v',
        pay,
        answers t t' r key v v' known pay (λ j h. absurd (omega arith)),
      )
  | inr (root, e) ↦
      let (p, spot, run) = insert_at t v r key known root e in by_position root e p spot run
]
  where
    by_position :
        (root : ℕ)
        → t.root_node ≡ some root
        → (p : InsertionPosition) → Spot t key v.shape p
        → insert_node t (new_from_record r) ≡ go_by t v r key known p
        → (t' : Tree) × (insert_node t (new_from_record r) ≡ some (t', added_size t r))
          × IsTree t'
          × (payloads t' ≡ payloads t ++ (r ∷ []))
          × ((key' : Blob)
              → Query.get t' key' ≡ (if key_eq key' key then read_record r else Query.get t key'))
    by_position root e (existing_node i) held run =
        let (old, _, _, answer) = answer_at t v r key known i held in
        absurd (read_record-found old (sym answer ∙ gone))
    by_position root e (new_node p side) gap run =
        let (t', m, v', pay) = insert_new_lem t v r key p side known gap in
        (
          t',
          run ∙ m ∙ ap (λ q. some (t', elim q [ none ↦ 0 | some root ↦ Record.size r ])) (sym e),
          v',
          pay,
          answers t t' r key v v' known pay (absent_keys t v key p side gap),
        )

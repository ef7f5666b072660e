-- ===== src/Memtable/Replayed.antt =====
-- `from_wal` of memtable/inner.rs: a table from the records of a log.
use lsmlite.Base.{ℕ, ◌+◌, ◌≤◌, ◌<◌, ◌≡◌, refl, sym, ap, ◌∙◌, arith, Option, none, some, false}
use lsmlite.Base.{
  if◌then◌else◌, ◌>>=◌, List, [], ◌∷◌, ◌++◌, append_assoc, append-nil, map, length, length-append,
  All,
}
use lsmlite.Base.{inl, inr, Bool-cases}
use lsmlite.Base.Bytes.{Blob}
use lsmlite.Base.Key.{key_eq}
use lsmlite.Record
use lsmlite.Record.{Record}
use lsmlite.Record.Reads.{get_key-layout}
use lsmlite.Disk.Layout.{Entry, layout, entry_key, Fits}
use lsmlite.Wal.Replay.{log_bytes, replay-log_bytes}
use lsmlite.Memtable.{MemtableQuery, missing, new_from_record}
use lsmlite.Memtable.Kept.{payloads}
use lsmlite.Memtable.Table
use lsmlite.Memtable.Table.{
  MemtableInner, new, full, add_node, insert_record_from_wal, insert_all, from_wal,
}
use lsmlite.Memtable.Lookup.{lookup, has_key_lem}
use lsmlite.Memtable.Valid.{IsTree, length-payloads}
use lsmlite.Memtable.Refines.{get-lookup}
use lsmlite.Memtable.Map.{added_size}
use lsmlite.Memtable.Start.{empty-IsTree}
use lsmlite.Memtable.Api.{entry_answer, read_record-layout, add_node-absent}

-- What a list of entries with distinct keys holds for a key.
abbrev pub answer : List Entry → Blob → MemtableQuery
answer [] key = missing
answer (e ∷ es) key =
    let rest = answer es key in if key_eq key (entry_key e) then entry_answer e else rest

pub lookup-layout :
    (es : List Entry) (key : Blob) → lookup (map layout es) key ≡ some (answer es key)
lookup-layout [] key = refl
lookup-layout (e ∷ es) key =
    let k = has_key_lem (layout e) (entry_key e) key (get_key-layout e) in
    let r = read_record-layout e in
    let ih = lookup-layout es key in
    elim (Bool-cases (key_eq key (entry_key e))) [
      | inl same ↦ rw (k, same) r
      | inr other ↦ rw (k, other) ih
    ]

-- No entry has the key of one before it.
abbrev pub NewKeys : List Entry → List Entry → Type 0
NewKeys before [] = Unit {0}
NewKeys before (e ∷ es) = (answer before (entry_key e) ≡ missing) × NewKeys (before ++ (e ∷ [])) es

-- The bytes of the records.
abbrev pub total_size : List Entry → ℕ
total_size [] = 0
total_size (e ∷ es) = Record.size (layout e) + total_size es

map-append : (xs ys : List Entry) → map layout (xs ++ ys) ≡ map layout xs ++ map layout ys
map-append [] ys = refl
map-append (x ∷ xs) ys = ap (λ l. layout x ∷ l) (map-append xs ys)

has_room :
    (t : MemtableInner) (n m : ℕ)
    → length t.tree.arena + 1 + n ≤ t.cap
    → t.current_size + m < t.max_size
    → full t ≡ false
unfolding full
has_room t n m p q = ground arith

added_le : (t : MemtableInner) (r : Record) → added_size t.tree r ≤ Record.size r
added_le t r = go t.tree.root_node
  where
    go : (o : Option ℕ) → elim o [ none ↦ 0 | some root ↦ Record.size r ] ≤ Record.size r
    go none = omega arith
    go (some x) = omega arith

step :
    (t : MemtableInner) (e : Entry) (t' : MemtableInner)
    → full t ≡ false
    → add_node t (new_from_record (layout e)) ≡ some t'
    → insert_record_from_wal t (layout e) ≡ some t'
unfolding insert_record_from_wal
step t e t' room run = rw room run

table_answer :
    (t : MemtableInner) (key : Blob)
    → IsTree t.tree
    → Table.get t key ≡ lookup (payloads t.tree) key
unfolding Table.get
table_answer t key v = get-lookup t.tree key v

insert_all_lem :
    (before es : List Entry) (t : MemtableInner)
    → IsTree t.tree
    → payloads t.tree ≡ map layout before
    → NewKeys before es
    → length t.tree.arena + length es ≤ t.cap
    → t.current_size + total_size es < t.max_size
    → (t' : MemtableInner) × (insert_all (map layout es) t ≡ some t')
      × IsTree t'.tree
      × (payloads t'.tree ≡ map layout (before ++ es))
unfolding insert_all
insert_all_lem before [] t v pay fresh room small =
    (t, refl, v, pay ∙ ap (map layout) (sym (append-nil before)))
insert_all_lem before (e ∷ es) t v pay (gone, fresh) room small =
    let get_gone : Table.get t (entry_key e) ≡ some missing =
      table_answer t (entry_key e) v
      ∙ ap (λ l. lookup l (entry_key e)) pay
      ∙ lookup-layout before (entry_key e)
      ∙ ap some gone in
    let open_table =
      has_room t (length es) (Record.size (layout e) + total_size es) (omega arith) (omega arith) in
    let (t₁, run, v₁, pay₁, size₁, same, _) = add_node-absent t e v get_gone in
    let (t', run', v', pay') =
      insert_all_lem (before ++ (e ∷ [])) es t₁ v₁
        (pay₁ ∙ ap (λ l. l ++ (layout e ∷ [])) pay ∙ sym (map-append before (e ∷ []))) fresh
        (omega (
          arith,
          length-payloads t.tree,
          length-payloads t₁.tree,
          ap length pay₁,
          length-append (payloads t.tree) (layout e ∷ []),
          ap (λ u. u.cap) same,
        ))
        (omega (arith, size₁, added_le t (layout e), ap (λ u. u.max_size) same)) in
    (
      t',
      ap (λ q. q >>= λ u. insert_all (map layout es) u) (step t e t₁ open_table run) ∙ run',
      v',
      pay' ∙ ap (map layout) (append_assoc before (e ∷ []) es),
    )

-- A log whose entries fit 64 bits, with no key twice, is read into a new table when there is room
-- for all of them: the tree is valid, and `get` answers as the entries do.
pub from_wal-log_bytes :
    (es : List Entry) (max_size max_nodes filename now : ℕ)
    → All Fits es
    → NewKeys [] es
    → length es ≤ max_nodes
    → total_size es < max_size
    → (t : MemtableInner) × (from_wal (log_bytes es) max_size max_nodes filename now ≡ some t)
      × IsTree t.tree
      × ((key : Blob) → Table.get t key ≡ some (answer es key))
unfolding from_wal new Table.get
from_wal-log_bytes es max_size max_nodes filename now fits fresh room small =
    let (t, run, v, pay) =
      insert_all_lem [] es (new max_size max_nodes filename now) empty-IsTree refl fresh
        (omega arith) (omega arith) in
    (
      t,
      rw (replay-log_bytes es fits) run,
      v,
      λ key. get-lookup t.tree key v ∙ ap (λ l. lookup l key) pay ∙ lookup-layout es key,
    )

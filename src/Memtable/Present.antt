-- ===== src/Memtable/Present.antt =====
-- `insert_node` of memtable/inner.rs with a key that the tree has.
use mathlib.Core.Path.{subst}
use lsmlite.Memtable.Shape.{inorder}
use lsmlite.Base.{ℕ, ◌≡◌, inl, inr, sym, ap, ◌∙◌, arith, some, set}
use lsmlite.Base.{true, false, ◌>>=◌, if◌then◌else◌, Option-cases, get_elem?, get_elem?-lt}
use lsmlite.Base.Bytes.{Blob}
use lsmlite.Base.Key.{key_eq, key_eq_refl}
use lsmlite.Record.{Record, get_key}
use lsmlite.Record.Update.{update_from_record}
use lsmlite.Memtable.{Tree, InsertionPosition, new_node, existing_node, new_from_record}
use lsmlite.Memtable.Insert.{insert_node, update_existing}
use lsmlite.Memtable.Query
use lsmlite.Memtable.Kept.{payloads}
use lsmlite.Memtable.Keys.{key_in}
use lsmlite.Memtable.Lookup.{lookup, read_record, Other}
use lsmlite.Memtable.Position.{Spot, Held}
use lsmlite.Memtable.Valid.{IsTree, absent_keys, length-payloads, distinct_keys}
use lsmlite.Memtable.Refines.{get-lookup}
use lsmlite.Memtable.Map.{insert_at, go_by}
use lsmlite.Memtable.Replace.{update_existing_lem, found_there, lookup-set, some_same}
use lsmlite.Memtable.Start.{no_nodes}

module _ (t : Tree) (i : ℕ) (old r : Record) (key : Blob) (v : IsTree t)
    (at_i : get_elem? (payloads t) i ≡ some old) (old_key : get_key old ≡ some key)
    (r_key : get_key r ≡ some key) where
  -- `insert_node` comes to the record with the key.
  reaches :
      Held (payloads t) key (inorder v.shape) i
      × (insert_node t (new_from_record r) ≡ update_existing t (new_from_record r) i)
  reaches = elim (Option-cases t.root_node) [
    | inl e ↦
        absurd (omega (arith, no_nodes t v e, length-payloads t, get_elem?-lt (payloads t) i at_i))
    | inr (root, e) ↦
        let (p, spot, run) = insert_at t v r key r_key root e in
        let (held, m) = by_position p spot in (held, run ∙ m)
  ]
    where
      its_key : key_in (payloads t) i ≡ some key
      its_key = ap (λ o. o >>= get_key) at_i ∙ old_key

      clash : Other (payloads t) key i → ⊥
      clash (a, e, d) =
          let same : key ≡ a = some_same key a (sym its_key ∙ e) in
          let q : key_eq key key ≡ false = ap (key_eq key) same ∙ d in
          let no : true ≡ false = sym (key_eq_refl key) ∙ q in cc

      by_position :
          (p : InsertionPosition)
          → Spot t key v.shape p
          → Held (payloads t) key (inorder v.shape) i
            × (go_by t v r key r_key p ≡ update_existing t (new_from_record r) i)
      by_position (existing_node j) held =
          let ji = found_there t v i old old key at_i old_key old_key j held in
          (
            subst (Held (payloads t) key (inorder v.shape)) ji held,
            ap (update_existing t (new_from_record r)) ji,
          )
      by_position (new_node p side) gap =
          absurd (clash (absent_keys t v key p side gap i (get_elem?-lt (payloads t) i at_i)))

-- In a valid tree with a record `old` of the key, the insertion of another record of that key
-- makes `old` what `update_from_record` makes of the two, when that does not panic and keeps the
-- key. The tree stays valid and its other records stay, `current_size` does not change, and `get`
-- answers with the updated record for its key, and as before for every other.
pub insert_node-present :
    (t : Tree) (i : ℕ) (old r u : Record) (key : Blob)
    → IsTree t
    → get_elem? (payloads t) i ≡ some old
    → get_key old ≡ some key
    → get_key r ≡ some key
    → update_from_record old r ≡ some u
    → get_key u ≡ some key
    → (t' : Tree) × (insert_node t (new_from_record r) ≡ some (t', 0))
      × IsTree t'
      × (payloads t' ≡ set (payloads t) i u)
      × ((key' : Blob)
          → Query.get t' key' ≡ (if key_eq key' key then read_record u else Query.get t key'))
insert_node-present t i old r u key v at_i old_key r_key up u_key =
    let (held, run) = reaches t i old r key v at_i old_key r_key in
    let bound = get_elem?-lt (payloads t) i at_i in
    let (t', m, v', pay) = update_existing_lem t v i old u key at_i old_key u_key r up in
    (
      t',
      run ∙ m,
      v',
      pay,
      λ key'.
          get-lookup t' key' v'
          ∙ ap (λ l. lookup l key') pay
          ∙ lookup-set (payloads t) i old u key key' at_i old_key u_key
              (λ j h. distinct_keys t v key i held j (omega arith) (λ q. absurd (omega arith)))
          ∙ ap (λ q. if key_eq key' key then read_record u else q) (sym (get-lookup t key' v)),
    )

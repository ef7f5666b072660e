-- ===== src/Memtable/Lookup.antt =====
-- The records of an arena as an association list, which the tree of memtable/inner.rs implements.
use lsmlite.Base.{ℕ, zero, suc, ◌<◌, ◌≡◌, refl, ◌∙◌, arith, Option, none, some, Bool}
use lsmlite.Base.{true, false, List, [], ◌∷◌, ◌++◌, length, get_elem?, if◌then◌else◌}
use lsmlite.Base.Bytes.{Blob}
use lsmlite.Base.Key.{key_eq, eq_of_key_eq}
use lsmlite.Base.{sym, inl, inr, Bool-cases}
use lsmlite.Record.{Record, get_key}
use lsmlite.Memtable.{MemtableNode, MemtableQuery, missing, new_from_record}
use lsmlite.Memtable.Query.{read_node}
use lsmlite.Memtable.Keys.{key_in}

-- `get`'s answer for one record.
abbrev pub read_record : Record → Option MemtableQuery
read_record r = read_node (new_from_record r)

pub read_node_lem : (node : MemtableNode) → read_node node ≡ read_record node.payload
unfolding read_node new_from_record
read_node_lem node = refl

abbrev pub has_key : Record → Blob → Bool
has_key r key = elim (get_key r) [ none ↦ false | some k ↦ key_eq key k ]

pub has_key_lem : (r : Record) (a key : Blob) → get_key r ≡ some a → has_key r key ≡ key_eq key a
has_key_lem r a key e = rw (has_key, e) refl

-- The answer of a plain list of records.
abbrev pub lookup : List Record → Blob → Option MemtableQuery
lookup [] key = some missing
lookup (r ∷ rs) key = let rest = lookup rs key in if has_key r key then read_record r else rest

-- The key at an index is another one.
abbrev pub Other : List Record → Blob → ℕ → Type 0
Other rs key j = (a : Blob) × (key_in rs j ≡ some a) × (key_eq key a ≡ false)

pub lookup-absent :
    (rs : List Record) (key : Blob)
    → ((j : ℕ) → j < length rs → Other rs key j)
    → (lookup rs key ≡ some missing)
lookup-absent [] key h = refl
lookup-absent (r ∷ rs) key h =
    let (a, e, f) = h 0 (omega arith) in
    ground (arith, e, f, lookup-absent rs key (λ j k. h (suc j) (omega arith)))

pub lookup-present :
    (rs : List Record) (key : Blob) (i : ℕ) (r : Record) (a : Blob)
    → get_elem? rs i ≡ some r
    → get_key r ≡ some a
    → key_eq key a ≡ true
    → ((j : ℕ) → j < i → Other rs key j)
    → lookup rs key ≡ read_record r
lookup-present [] key i r a e f g h = cc
lookup-present (q ∷ rs) key zero r a e f g h =
    let e' : q ≡ r = ground (arith, e) in
    let t : has_key q key ≡ true = rw e' (has_key_lem r a key f ∙ g) in rw (t, e') refl
lookup-present (q ∷ rs) key (suc i) r a e f g h =
    let (b, k, m) = h 0 (omega arith) in
    rw (has_key_lem q b key k, m)
      (lookup-present rs key i r a e f g (λ j n. h (suc j) (omega arith)))

-- Two keys that differ from each other do not both equal a third.
pub key_eq-unlike :
    (key key' b : Blob) → key_eq key b ≡ false → key_eq key' b ≡ true → key_eq key' key ≡ false
key_eq-unlike key key' b m same = elim (Bool-cases (key_eq key' key)) [
  | inl e ↦
      let p : key' ≡ key = eq_of_key_eq key' key e in
      let w : key_eq key b ≡ true = rw (← p) same in let clash : true ≡ false = sym w ∙ m in cc
  | inr d ↦ d
]

-- A record at the end, with a key that the list has not.
pub lookup-append :
    (rs : List Record) (r : Record) (key key' : Blob)
    → get_key r ≡ some key
    → ((j : ℕ) → j < length rs → Other rs key j)
    → lookup (rs ++ (r ∷ [])) key' ≡ (if key_eq key' key then read_record r else lookup rs key')
lookup-append [] r key key' e h = rw (has_key_lem r key key' e) refl
lookup-append (q ∷ rs) r key key' e h =
    let (b, k, m) = h 0 (omega arith) in
    let ih = lookup-append rs r key key' e (λ j n. h (suc j) (omega arith)) in
    let q_key = has_key_lem q b key' k in
    elim (Bool-cases (key_eq key' b)) [
      | inl same ↦ rw (q_key, same, key_eq-unlike key key' b m same) refl
      | inr other ↦ rw (q_key, other) ih
    ]

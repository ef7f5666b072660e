-- ===== src/Memtable/Replace.antt =====
-- `insert_node` of memtable/inner.rs with a key that the tree has: the record is updated in place.
use mathlib.Core.Path.{subst}
use lsmlite.Base.{ℕ, zero, suc, ◌<◌, ◌≡◌, inl, inr, refl, sym, ap, ◌∙◌, arith, Option, none, some}
use lsmlite.Base.{
  true, false, List, [], ◌∷◌, if◌then◌else◌, ◌>>=◌, ◌==◌, Bool-cases, get_elem?, get_elem?-lt,
}
use lsmlite.Base.{set, get_elem?-set_self, get_elem?-set_ne, map, ltb}
use lsmlite.Base.Bytes.{Blob}
use lsmlite.Base.Key.{key_eq, key_eq_refl}
use lsmlite.Record.{Record, get_key}
use lsmlite.Record.Update.{update_from_record}
use lsmlite.Memtable.{Tree, MemtableNode, Color, at, modify, with_payload, new_from_record}
use lsmlite.Memtable.Insert.{update_existing}
use lsmlite.Memtable.Kept.{payloads}
use lsmlite.Memtable.Shape.{Shape, leaf, node, inorder, Cell, Repr}
use lsmlite.Memtable.Steps.{modify_lem, Wrote}
use lsmlite.Memtable.Keys.{key_in, Sorted-same}
use lsmlite.Memtable.Lookup.{lookup, read_record, has_key_lem, key_eq-unlike, Other}
use lsmlite.Memtable.Position.{Held}
use lsmlite.Memtable.Valid.{IsTree, distinct_keys}
use lsmlite.Memtable.Refines.{node_of}

pub some_same : {A : Type 0} (a b : A) → some a ≡ some b → a ≡ b
some_same a b e = ap (λ o. elim o [ none ↦ a | some c ↦ c ]) e

-- A node with another record is the same node of the tree.
Cell-payload :
    (t t' : Tree) (i k : ℕ) (l r p : Option ℕ) (c : Color) (u : Record) (x : MemtableNode)
    → at t i ≡ some x
    → Wrote t t' i (with_payload u x)
    → Cell t k l r p c
    → Cell t' k l r p c
Cell-payload t t' i k l r p c u x e w y = elim (Bool-cases (k == i)) [
  | inl same ↦
      let ki : k ≡ i = ground arith in
      let yx : y.cell ≡ x = value (sym y.here ∙ ap (at t) ki ∙ e) in
      record {
        cell = with_payload u x;
        here = ap (at t') ki ∙ w.now;
        its_left = ap (λ n. n.left) (sym yx) ∙ y.its_left;
        its_right = ap (λ n. n.right) (sym yx) ∙ y.its_right;
        its_parent = ap (λ n. n.parent) (sym yx) ∙ y.its_parent;
        its_color = ap (λ n. n.color) (sym yx) ∙ y.its_color;
      }
  | inr other ↦ record {
    cell = y.cell;
    here = w.rest k (λ q. differ q other) ∙ y.here;
    its_left = y.its_left;
    its_right = y.its_right;
    its_parent = y.its_parent;
    its_color = y.its_color;
  }
]
  where
    differ : k ≡ i → (k == i) ≡ false → ⊥
    differ q o = absurd (ground (arith, q, o))

    value : some y.cell ≡ some x → y.cell ≡ x
    value q = some_same y.cell x q

Repr-payload :
    (t t' : Tree) (i : ℕ) (u : Record) (x : MemtableNode)
    → at t i ≡ some x
    → Wrote t t' i (with_payload u x)
    → (s : Shape) (p ptr : Option ℕ) → Repr t p ptr s
    → Repr t' p ptr s
Repr-payload t t' i u x e w leaf p ptr h = h
Repr-payload t t' i u x e w (node l j c r) p ptr (q, pl, pr, y, a, b) = (
  q,
  pl,
  pr,
  Cell-payload t t' i j pl pr p c u x e w y,
  Repr-payload t t' i u x e w l (some j) pl a,
  Repr-payload t t' i u x e w r (some j) pr b,
)

map-set :
    (xs : List MemtableNode) (i : ℕ) (y : MemtableNode)
    → map (λ n. n.payload) (set xs i y) ≡ set (map (λ n. n.payload) xs) i y.payload
map-set [] i y = refl
map-set (x ∷ xs) zero y = refl
map-set (x ∷ xs) (suc i) y = ap (λ l. x.payload ∷ l) (map-set xs i y)

payloads-write :
    (t : Tree) (i : ℕ) (u : Record) (x : MemtableNode) (t' : Tree)
    → at t i ≡ some x
    → modify t i (with_payload u) ≡ some t'
    → payloads t' ≡ set (payloads t) i u
unfolding modify at
payloads-write t i u x t' here e =
    let w : Tree = record t { arena = set t.arena i (with_payload u x) } in
    let run : modify t i (with_payload u) ≡ some w =
      ap (λ o. o >>= λ n. some (record t { arena = set t.arena i (with_payload u n) })) here in
    ap payloads (some_same t' w (sym e ∙ run)) ∙ map-set t.arena i (with_payload u x)

-- A record in the place of one with the same key.
pub lookup-set :
    (rs : List Record) (i : ℕ) (old u : Record) (key key' : Blob)
    → get_elem? rs i ≡ some old
    → get_key old ≡ some key
    → get_key u ≡ some key
    → ((j : ℕ) → j < i → Other rs key j)
    → lookup (set rs i u) key' ≡ (if key_eq key' key then read_record u else lookup rs key')
lookup-set [] i old u key key' e f g h = cc
lookup-set (q ∷ rs) zero old u key key' e f g h =
    let its : get_key q ≡ some key = ap get_key (some_same q old e) ∙ f in
    elim (Bool-cases (key_eq key' key)) [
      | inl same ↦ rw (has_key_lem u key key' g, same) refl
      | inr other ↦ rw (has_key_lem u key key' g, other, has_key_lem q key key' its, other) refl
    ]
lookup-set (q ∷ rs) (suc i) old u key key' e f g h =
    let (b, k, m) = h 0 (omega arith) in
    let ih = lookup-set rs i old u key key' e f g (λ j n. h (suc j) (omega arith)) in
    let q_key = has_key_lem q b key' k in
    elim (Bool-cases (key_eq key' b)) [
      | inl same ↦ rw (q_key, same, key_eq-unlike key key' b m same) refl
      | inr other ↦ rw (q_key, other) ih
    ]

module _ (t : Tree) (v : IsTree t) (i : ℕ) (old u : Record) (key : Blob)
    (at_i : get_elem? (payloads t) i ≡ some old) (old_key : get_key old ≡ some key)
    (new_key : get_key u ≡ some key) where
  its_key : key_in (payloads t) i ≡ some key
  its_key = ap (λ o. o >>= get_key) at_i ∙ old_key

  keys_stay :
      (j : ℕ) (a : Blob) → key_in (payloads t) j ≡ some a → key_in (set (payloads t) i u) j ≡ some a
  keys_stay j a e = elim (Bool-cases (i == j)) [
    | inl same ↦
        let ij : i ≡ j = ground arith in
        let a_key : some key ≡ some a = sym its_key ∙ ap (key_in (payloads t)) ij ∙ e in
        ap (key_in (set (payloads t) i u)) (sym ij)
        ∙ ap (λ o. o >>= get_key)
            (get_elem?-set_self (payloads t) i u (get_elem?-lt (payloads t) i at_i))
        ∙ new_key
        ∙ a_key
    | inr other ↦
        ap (λ o. o >>= get_key)
          (get_elem?-set_ne (payloads t) i j u (λ q. absurd (ground (arith, q, other))))
        ∙ e
  ]

  -- The update writes the record in its place.
  pub update_existing_lem :
      (r : Record)
      → update_from_record old r ≡ some u
      → (t' : Tree) × (update_existing t (new_from_record r) i ≡ some (t', 0))
        × IsTree t'
        × (payloads t' ≡ set (payloads t) i u)
  unfolding update_existing new_from_record
  update_existing_lem r up =
      let (x, here, its) = node_of t i old at_i in
      let (t', m, w) = modify_lem t i (with_payload u) x here in
      let pay = payloads-write t i u x t' here m in
      let up' : update_from_record x.payload r ≡ some u =
        ap (λ q. update_from_record q r) its ∙ up in
      (
        t',
        rw (here, up', m) refl,
        record {
          shape = v.shape;
          repr =
              subst (λ q. Repr t' none q v.shape) (sym w.root)
                (Repr-payload t t' i u x here w v.shape none t.root_node v.repr);
          cover = λ j. v.cover j ∙ ap (λ n. if ltb j n then 1 else 0) (sym w.size);
          count = v.count ∙ sym w.size;
          sorted =
              Sorted-same (payloads t) (payloads t') (inorder v.shape)
                (λ j a e. ap (λ l. key_in l j) pay ∙ keys_stay j a e) v.sorted;
          height = v.height;
          rules = v.rules;
          dark = v.dark;
        },
        pay,
      )

  -- The record's place is the only one with its key.
  pub found_there : (j : ℕ) → Held (payloads t) key (inorder v.shape) j → j ≡ i
  found_there j held = elim (Bool-cases (j == i)) [
    | inl same ↦ ground arith
    | inr other ↦
        let (a, e, d) =
          distinct_keys t v key j held i (get_elem?-lt (payloads t) i at_i)
            (λ q. absurd (ground (arith, q, other))) in
        absurd (clash a e d)
  ]
    where
      clash : (a : Blob) → key_in (payloads t) i ≡ some a → key_eq key a ≡ false → ⊥
      clash a e d =
          let same : key ≡ a = some_same key a (sym its_key ∙ e) in
          let q : key_eq key key ≡ false = ap (key_eq key) same ∙ d in
          let no : true ≡ false = sym (key_eq_refl key) ∙ q in cc

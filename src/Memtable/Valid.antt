-- ===== src/Memtable/Valid.antt =====
-- The invariant of the tree of memtable/inner.rs, and what `get` answers under it.
use mathlib.Core.Path.{subst}
use lsmlite.Base.{ℕ, zero, suc, ◌+◌, ◌≤◌, ◌<◌, ◌≡◌, ◌≢◌, ◌⊎◌, inl, inr, refl, sym, ap, ◌∙◌, arith}
use lsmlite.Base.{none, some, false, List, [], ◌∷◌, ◌++◌, All, length}
use lsmlite.Base.{ltb, if◌then◌else◌, map}
use lsmlite.Base.Bytes.{Blob}
use lsmlite.Base.Key.{key_eq, gt_of_lt}
use lsmlite.Record.{Record, get_key}
use lsmlite.Memtable.{Tree, MemtableNode, InsertionPosition}
use lsmlite.Memtable.Insert.{find_loop}
use lsmlite.Memtable.Kept.{payloads}
use lsmlite.Memtable.Shape.{Shape, leaf, top, hit_ne, occ, size, inorder, before, after}
use lsmlite.Memtable.Shape.{inorder-plug, Repr}
use lsmlite.Memtable.Balance.{is_red, RedBlack}
use lsmlite.Memtable.Keys.{Below, Above, Sorted, count, count-append, count-inorder, All-count}
use lsmlite.Memtable.Lookup.{Other}
use lsmlite.Memtable.Position.{Held, Gap, Spot, find_loop_lem}

-- A red-black search tree whose nodes are those of the arena, each once.
pub record IsTree (t : Tree) : Type 0 where
  pub shape : Shape
  pub repr : Repr t none t.root_node shape
  pub cover : (j : ℕ) → occ j shape ≡ (if ltb j (length t.arena) then 1 else 0)
  pub count : size shape ≡ length t.arena
  pub sorted : Sorted (payloads t) (inorder shape)
  pub height : ℕ
  pub rules : RedBlack height shape
  pub dark : is_red shape ≡ false

pub length-payloads : (t : Tree) → length (payloads t) ≡ length t.arena
length-payloads t = go t.arena
  where
    go : (xs : List MemtableNode) → length (map (λ node. node.payload) xs) ≡ length xs
    go [] = refl
    go (x ∷ xs) = ap suc (go xs)

-- An index on either side of a key has another key.
pub distinct_key :
    (rs : List Record) (key : Blob) (low high : List ℕ) (j : ℕ)
    → All (Below rs key) low
    → All (Above rs key) high
    → 1 ≤ count j (low ++ high)
    → Other rs key j
distinct_key rs key low high j lo hi h =
    elim (side (count j low) (count j high) (omega (arith, count-append j low high))) [
      | inl l ↦
          let (a, e, k) = All-count (Below rs key) low j lo l in
          let g = gt_of_lt a key k in (a, e, rw (key_eq, g) refl)
      | inr l ↦ let (a, e, k) = All-count (Above rs key) high j hi l in (a, e, rw (key_eq, k) refl)
    ]
  where
    side : (a b : ℕ) → 1 ≤ a + b → (1 ≤ a) ⊎ (1 ≤ b)
    side zero b h = inr (omega arith)
    side (suc a) b h = inl (omega arith)

pub inside : (t : Tree) (v : IsTree t) (j : ℕ) → j < length (payloads t) → occ j v.shape ≡ 1
inside t v j h =
    let c = v.cover j in
    let l = length-payloads t in let small : j < length t.arena = omega arith in ground arith

pub absent_keys :
    (t : Tree) (v : IsTree t) (key : Blob) (p : ℕ) (side : _)
    → Gap t key v.shape p side
    → (j : ℕ) → j < length (payloads t)
    → Other (payloads t) key j
absent_keys t v key p side g j h =
    let i = inside t v j h in
    let q = inorder-plug g.context leaf in
    let w : inorder v.shape ≡ before g.context ++ after g.context = ap inorder (sym g.filled) ∙ q in
    let c = count-inorder j v.shape in
    let n = ap (count j) w in
    distinct_key (payloads t) key (before g.context) (after g.context) j g.less g.greater
      (omega arith)

pub distinct_keys :
    (t : Tree) (v : IsTree t) (key : Blob) (i : ℕ)
    → Held (payloads t) key (inorder v.shape) i
    → (j : ℕ) → j < length (payloads t)
    → j ≢ i
    → Other (payloads t) key j
distinct_keys t v key i g j h ne =
    let k = inside t v j h in
    let c = count-inorder j v.shape in
    let n = ap (count j) g.split in
    let a = count-append j g.low (i ∷ g.high) in
    let b = count-append j g.low g.high in
    let z = hit_ne j i ne in
    distinct_key (payloads t) key g.low g.high j g.less g.greater (omega arith)

-- The descent from the root.
pub find_root :
    (t : Tree) (v : IsTree t) (r : Record) (key : Blob) (i : ℕ)
    → get_key r ≡ some key
    → t.root_node ≡ some i
    → (pos : InsertionPosition) × (find_loop (length t.arena) t r i ≡ some pos)
      × Spot t key v.shape pos
find_root t v r key i known e =
    find_loop_lem t r key known (length t.arena) top none i v.shape (omega (arith, v.count))
      (refl, e) (subst (λ q. Repr t none q v.shape) e v.repr) v.sorted tt tt

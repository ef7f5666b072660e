-- ===== src/Memtable/Descend.antt =====
-- The descent of `find_insert_position` of memtable/inner.rs, and that of `get_search`, which goes
-- the same way.
use Prim.Native.Nat.{Ordering}
use Prim.Native.Nat.Ordering.{lt, eq, gt}
use lsmlite.Base.{ℕ, zero, suc, ◌≡◌, refl, arith}
use lsmlite.Base.{Option, none, some, List, [], ◌∷◌, get_elem?, map}
use lsmlite.Base.{◌>>=◌}
use lsmlite.Base.Bytes.{Blob}
use lsmlite.Base.Key.{cmp}
use lsmlite.Record.{Record, get_key}
use lsmlite.Memtable.{Tree, MemtableNode, at, cmp_nodes}
use lsmlite.Memtable.{Child, left_child, right_child, InsertionPosition, new_node, existing_node}
use lsmlite.Memtable.Insert.{find_loop}
use lsmlite.Memtable.Query.{search_loop}
use lsmlite.Memtable.Kept.{payloads}

-- What the search finds is the position of the insertion.
abbrev pub node_at : InsertionPosition → Option ℕ
node_at (new_node p c) = none
node_at (existing_node i) = some i

module _ (t : Tree) (r : Record) (key : Blob) (i n : ℕ) where
  abbrev search_arm : Ordering → MemtableNode → Option (Option ℕ)
  search_arm o x = elim o [
    | eq ↦ some (some i)
    | lt ↦ elim x.left [ none ↦ some none | some j ↦ search_loop n t key j ]
    | gt ↦ elim x.right [ none ↦ some none | some j ↦ search_loop n t key j ]
  ]

  abbrev find_arm : Ordering → MemtableNode → Option InsertionPosition
  find_arm o x = elim o [
    | eq ↦ some (existing_node i)
    | lt ↦ elim x.left [ none ↦ some (new_node i left_child) | some j ↦ find_loop n t r j ]
    | gt ↦ elim x.right [ none ↦ some (new_node i right_child) | some j ↦ find_loop n t r j ]
  ]

  module _
      (ih : (j : ℕ) → search_loop n t key j ≡ (find_loop n t r j >>= λ p. some (node_at p))) where
    side :
        (p : Option ℕ) (c : Child)
        → elim p [ none ↦ some none | some j ↦ search_loop n t key j ] ≡ (
            elim p [ none ↦ some (new_node i c) | some j ↦ find_loop n t r j ] >>= λ p.
            some (node_at p))
    side none c = refl
    side (some j) c = ih j

    arm :
        (o : Ordering) (x : MemtableNode)
        → search_arm o x ≡ (find_arm o x >>= λ p. some (node_at p))
    arm eq x = refl
    arm lt x = side x.left left_child
    arm gt x = side x.right right_child

    keyed :
        (m : Option Blob) (x : MemtableNode)
        → (m >>= λ y. search_arm (cmp key y) x)
          ≡ ((m >>= λ y. some (cmp key y)) >>= (λ o. find_arm o x) >>= λ p. some (node_at p))
    keyed none x = refl
    keyed (some y) x = arm (cmp key y) x

    read :
        (m : Option MemtableNode)
        → (m >>= λ x. get_key x.payload >>= λ y. search_arm (cmp key y) x) ≡ (
            (m >>= λ x. (get_key x.payload >>= λ y. some (cmp key y)) >>= λ o. find_arm o x)
            >>= λ p. some (node_at p))
    read none = refl
    read (some x) = keyed (get_key x.payload) x

-- The loop of `get_search` for a key goes the way of the loop of `find_insert_position` for a record
-- with this key: it fails when that one fails, ends at the node that that one finds, and otherwise
-- finds nothing.
pub search_loop-find_loop :
    (rounds : ℕ) (t : Tree) (r : Record) (key : Blob) (i : ℕ)
    → get_key r ≡ some key
    → search_loop rounds t key i ≡ (find_loop rounds t r i >>= λ p. some (node_at p))
unfolding search_loop find_loop cmp_nodes
search_loop-find_loop zero t r key i e = refl
search_loop-find_loop (suc rounds) t r key i e =
    rw e (read t r key i rounds (λ j. search_loop-find_loop rounds t r key j e) (at t i))

pub at_payload :
    (t : Tree) (i : ℕ) (x : MemtableNode)
    → at t i ≡ some x
    → get_elem? (payloads t) i ≡ some x.payload
unfolding at
at_payload t i x e = go t.arena i e
  where
    go :
        (xs : List MemtableNode) (i : ℕ)
        → get_elem? xs i ≡ some x
        → get_elem? (map (λ node. node.payload) xs) i ≡ some x.payload
    go [] i e = cc
    go (y ∷ ys) zero e = ground (arith, e)
    go (y ∷ ys) (suc i) e = go ys i e

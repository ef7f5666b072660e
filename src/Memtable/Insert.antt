-- ===== src/Memtable/Insert.antt =====
-- `insert_node` of memtable/inner.rs: the descent, the new node, and the repair of the colours.
-- Both loops take rounds; the arena's length bounds the depth of the tree.
use Prim.Native.Nat.Ordering.{lt, eq, gt}
use lsmlite.Base.{ℕ, zero, suc, ◌+◌, ◌*◌, Option, none, some, Bool, true, false, [], ◌∷◌, ◌++◌}
use lsmlite.Base.{length, if◌then◌else◌, ◌>>=◌, not}
use lsmlite.Record
use lsmlite.Record.{Record}
use lsmlite.Record.Update.{update_from_record}
use lsmlite.Memtable.{Tree, MemtableNode, red, black, at, modify, is_black, uncle, cmp_nodes}
use lsmlite.Memtable.{InsertionPosition, new_node, existing_node, Child, left_child, right_child}
use lsmlite.Memtable.{ChildType, inner, outer, RotationDirection, rotate_left, rotate_right}
use lsmlite.Memtable.{derive_rotation_direction, with_color, with_parent, with_left, with_right}
use lsmlite.Memtable.{with_payload}
use lsmlite.Memtable.Rotate.{left_rotate, right_rotate, insert_recolor}

-- The loop of `find_insert_position`. No rounds left is `none`.
unfoldable pub find_loop : ℕ → Tree → Record → ℕ → Option InsertionPosition
find_loop zero t r curr = none
find_loop (suc rounds) t r curr = at t curr >>= λ node. cmp_nodes r node.payload >>= λ order.
    elim order [
      | eq ↦ some (existing_node curr)
      | lt ↦ elim node.left [
        | none ↦ some (new_node curr left_child)
        | some child_idx ↦ find_loop rounds t r child_idx
      ]
      | gt ↦ elim node.right [
        | none ↦ some (new_node curr right_child)
        | some child_idx ↦ find_loop rounds t r child_idx
      ]
    ]

unfoldable pub find_insert_position : Tree → Record → Option InsertionPosition
find_insert_position t r = t.root_node >>= λ root. find_loop (length t.arena) t r root

-- What one round of the loop of `insert_fix_tree` ends with: `break`, or the next node.
pub data Repair : Type 0 where
  done : Tree → Repair
  again : Tree → ℕ → Repair

-- The case of a red uncle.
unfoldable pub recolor_up : Tree → ℕ → ℕ → ℕ → Option Repair
recolor_up t u parent_idx grandparent_idx = do
  t₁ ← modify t u (with_color black)
  t₂ ← modify t₁ parent_idx (with_color black)
  t₃ ← modify t₂ grandparent_idx (with_color red)
  some (again t₃ grandparent_idx)

-- The case of a black uncle, by the kind of child and the direction.
unfoldable pub rotate_case : ChildType × RotationDirection → Tree → ℕ → ℕ → Option Repair
rotate_case (inner, rotate_right) t parent_idx grandparent_idx =
    right_rotate t parent_idx >>= λ t'. some (again t' parent_idx)
rotate_case (inner, rotate_left) t parent_idx grandparent_idx =
    left_rotate t parent_idx >>= λ t'. some (again t' parent_idx)
rotate_case (outer, rotate_right) t parent_idx grandparent_idx = do
  t₁ ← insert_recolor t parent_idx grandparent_idx
  t₂ ← right_rotate t₁ grandparent_idx
  some (done t₂)
rotate_case (outer, rotate_left) t parent_idx grandparent_idx = do
  t₁ ← insert_recolor t parent_idx grandparent_idx
  t₂ ← left_rotate t₁ grandparent_idx
  some (done t₂)

unfoldable pub is_red_at : Tree → Option ℕ → Option Bool
is_red_at t none = some false
is_red_at t (some u) = at t u >>= λ node. some (not (is_black node.color))

unfoldable pub black_uncle : Tree → ℕ → ℕ → ℕ → Option Repair
black_uncle t node_idx parent_idx grandparent_idx = do
  grandparent ← at t grandparent_idx
  parent ← at t parent_idx
  let turn = derive_rotation_direction grandparent.left parent_idx parent.left node_idx
  rotate_case turn t parent_idx grandparent_idx

unfoldable pub by_uncle : Tree → ℕ → ℕ → ℕ → Option ℕ → Bool → Option Repair
by_uncle t node_idx parent_idx grandparent_idx (some u) true =
    recolor_up t u parent_idx grandparent_idx
by_uncle t node_idx parent_idx grandparent_idx u is_red =
    black_uncle t node_idx parent_idx grandparent_idx

-- One round, for a parent that is there.
unfoldable pub below_parent : Tree → ℕ → ℕ → MemtableNode → MemtableNode → Option Repair
below_parent t node_idx parent_idx node parent =
    if is_black parent.color
    then some (done t)
    else (parent.parent >>= λ grandparent_idx. uncle t node >>= λ u.
        is_red_at t u >>= λ is_red. by_uncle t node_idx parent_idx grandparent_idx u is_red)

unfoldable pub fix_round : Tree → ℕ → Option Repair
fix_round t node_idx = at t node_idx >>= λ node. elim node.parent [
  | none ↦ some (done t)
  | some parent_idx ↦ at t parent_idx >>= λ parent. below_parent t node_idx parent_idx node parent
]

unfoldable pub fix_loop : ℕ → Tree → ℕ → Option Tree
fix_loop zero t node_idx = none
fix_loop (suc rounds) t node_idx = fix_round t node_idx >>= λ repair. elim repair [
  | done t' ↦ some t'
  | again t' node_idx' ↦ fix_loop rounds t' node_idx'
]

unfoldable pub blacken_root : Tree → Option Tree
blacken_root t = t.root_node >>= λ root. modify t root (with_color black)

-- A round moves the node up, or is an inner rotation, which an outer one follows.
unfoldable pub insert_fix_tree : Tree → ℕ → Option Tree
insert_fix_tree t node_idx = fix_loop (2 * length t.arena + 1) t node_idx >>= λ t'. blacken_root t'

unfoldable pub set_root : Tree → MemtableNode → ℕ → Tree
set_root t node node_idx = record {
  arena = t.arena ++ (with_color black node ∷ []);
  root_node = some node_idx;
}

unfoldable pub attach : Tree → ℕ → Child → ℕ → Option Tree
attach t parent_ptr left_child node_idx = modify t parent_ptr (with_left (some node_idx))
attach t parent_ptr right_child node_idx = modify t parent_ptr (with_right (some node_idx))

-- The tree, and what is added to `current_size`.
unfoldable pub insert_new : Tree → MemtableNode → ℕ → Child → Option (Tree × ℕ)
insert_new t node parent_ptr child = do
  let node_idx = length t.arena
  t₁ ← attach t parent_ptr child node_idx
  let node' = with_parent (some parent_ptr) node
  let t₂ = record t₁ { arena = t₁.arena ++ (node' ∷ []) }
  t₃ ← insert_fix_tree t₂ node_idx
  some (t₃, Record.size node.payload)

unfoldable pub update_existing : Tree → MemtableNode → ℕ → Option (Tree × ℕ)
update_existing t node curr_idx = do
  old ← at t curr_idx
  r ← update_from_record old.payload node.payload
  t' ← modify t curr_idx (with_payload r)
  some (t', 0)

unfoldable pub insert_node : Tree → MemtableNode → Option (Tree × ℕ)
insert_node t node = elim t.root_node [
  | none ↦ some (set_root t node (length t.arena), 0)
  | some root ↦ find_insert_position t node.payload >>= λ position. elim position [
    | existing_node curr_idx ↦ update_existing t node curr_idx
    | new_node parent_ptr child ↦ insert_new t node parent_ptr child
  ]
]

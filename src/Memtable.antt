-- ===== src/Memtable.antt =====
-- memtable/inner.rs: the red-black tree of records in an arena, and the write-ahead log beside it.
-- A pointer is an index into the arena. An index out of bounds, an `unwrap` of nothing and an
-- `expect` that fails are `none`.
pub mod Rotate
pub mod Insert
pub mod Query
pub mod Table
pub mod Kept
pub mod Repairs
pub mod First
pub mod Shape
pub mod Steps
pub mod Turn
pub mod TurnRight
pub mod Balance
pub mod Paint
pub mod Round
pub mod Recolor
pub mod Outer
pub mod Settle
pub mod RiseLeft
pub mod RiseRight
pub mod Fix
pub mod Keys
pub mod Lookup
pub mod Descend
pub mod Position
pub mod Unplug
pub mod Grow
pub mod Valid
pub mod Refines
pub mod FixTree
pub mod Added
pub mod Start
pub mod Map
pub mod Replace
pub mod Present
pub mod Api
pub mod Replayed
pub mod Handle
pub mod TreeExamples
use Prim.Native.Nat.{Ordering}
use lsmlite.Base.{ℕ, zero, suc, Option, none, some, Bool, true, false, List, get_elem?, set, length}
use lsmlite.Base.{◌==◌, if◌then◌else◌, ◌>>=◌}
use lsmlite.Base.Bytes.{Blob}
use lsmlite.Base.Key.{cmp}
use lsmlite.Record.{Record, get_key}

-- `Tombstone` and `None` of `MemtableQuery` are `deleted` and `missing`.
pub data MemtableQuery : Type 0 where
  found : Blob → MemtableQuery
  deleted : MemtableQuery
  missing : MemtableQuery

pub data ChildType : Type 0 where
  inner outer : ChildType

pub data RotationDirection : Type 0 where
  rotate_left rotate_right : RotationDirection

pub data Child : Type 0 where
  left_child right_child : Child

pub data InsertionPosition : Type 0 where
  new_node : ℕ → Child → InsertionPosition
  existing_node : ℕ → InsertionPosition

pub data Color : Type 0 where
  red black : Color

pub record MemtableNode : Type 0 where
  pub payload : Record
  pub left : Option ℕ
  pub right : Option ℕ
  pub parent : Option ℕ
  pub color : Color

-- `new_from_record`; `new_data_record` and `new_tombstone_record` encode first.
unfoldable pub new_from_record : Record → MemtableNode
new_from_record r = record { payload = r; left = none; right = none; parent = none; color = red }

-- The fields `arena` and `root_node` of `MemtableInner`.
pub record Tree : Type 0 where
  pub arena : List MemtableNode
  pub root_node : Option ℕ

abbrev pub is_black : Color → Bool
is_black red = false
is_black black = true

-- `a == Some(i)`
abbrev pub points_to : Option ℕ → ℕ → Bool
points_to none i = false
points_to (some j) i = j == i

abbrev pub Bool_eq : Bool → Bool → Bool
Bool_eq true b = b
Bool_eq false true = false
Bool_eq false false = true

-- `derive_rotation_direction` and the functions that it calls.
unfoldable pub child_type : Option ℕ → ℕ → Option ℕ → ℕ → ChildType
child_type grandparent_left parent parent_left node =
    if Bool_eq (points_to grandparent_left parent) (points_to parent_left node)
    then outer
    else inner

unfoldable pub derive_inner_rotation : Option ℕ → ℕ → RotationDirection
derive_inner_rotation grandparent_left parent =
    if points_to grandparent_left parent then rotate_left else rotate_right

unfoldable pub derive_outer_rotation : Option ℕ → ℕ → RotationDirection
derive_outer_rotation grandparent_left parent =
    if points_to grandparent_left parent then rotate_right else rotate_left

unfoldable pub derive_rotation_direction :
    Option ℕ → ℕ → Option ℕ → ℕ → ChildType × RotationDirection
derive_rotation_direction grandparent_left parent parent_left node =
    elim (child_type grandparent_left parent parent_left node) [
      | outer ↦ (outer, derive_outer_rotation grandparent_left parent)
      | inner ↦ (inner, derive_inner_rotation grandparent_left parent)
    ]

-- `self.arena[i]`, and an assignment to a part of it.
unfoldable pub at : Tree → ℕ → Option MemtableNode
at t i = get_elem? t.arena i

unfoldable pub modify : Tree → ℕ → (MemtableNode → MemtableNode) → Option Tree
modify t i f = get_elem? t.arena i >>= λ node. some (record t { arena = set t.arena i (f node) })

abbrev pub with_left : Option ℕ → MemtableNode → MemtableNode
with_left p node = record node { left = p }

abbrev pub with_right : Option ℕ → MemtableNode → MemtableNode
with_right p node = record node { right = p }

abbrev pub with_parent : Option ℕ → MemtableNode → MemtableNode
with_parent p node = record node { parent = p }

abbrev pub with_color : Color → MemtableNode → MemtableNode
with_color c node = record node { color = c }

abbrev pub with_payload : Record → MemtableNode → MemtableNode
with_payload r node = record node { payload = r }

-- `uncle`: the `?` of the source returns `None` where a parent is missing.
unfoldable pub uncle : Tree → MemtableNode → Option (Option ℕ)
uncle t node = elim node.parent [
  | none ↦ some none
  | some p ↦ at t p >>= λ parent. elim parent.parent [
    | none ↦ some none
    | some g ↦ at t g >>= λ grandparent.
        some (if points_to grandparent.left p then grandparent.right else grandparent.left)
  ]
]

-- `Ord for MemtableNode`
unfoldable pub cmp_nodes : Record → Record → Option Ordering
cmp_nodes a b = do x ← get_key a; y ← get_key b; some (cmp x y)

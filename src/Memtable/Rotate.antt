-- ===== src/Memtable/Rotate.antt =====
-- The rotations of memtable/inner.rs, one assignment after the other.
use lsmlite.Base.{ℕ, Option, none, some, if◌then◌else◌, ◌>>=◌}
use lsmlite.Memtable.{Tree, red, black, at, modify, points_to}
use lsmlite.Memtable.{with_left, with_right, with_parent, with_color}

-- `if let Some(child) = child { self.arena[child].parent = Some(n) }`
unfoldable pub set_parent : Option ℕ → ℕ → Tree → Option Tree
set_parent none n t = some t
set_parent (some child) n t = modify t child (with_parent (some n))

-- The `match` on `self.arena[n].parent` that puts `r` in the place of `n`.
unfoldable pub swap_in : Option ℕ → ℕ → ℕ → Tree → Option Tree
swap_in none n r t = some (record t { root_node = some r })
swap_in (some p) n r t = do
  parent ← at t p
  if points_to parent.left n
      then modify t p (with_left (some r))
      else modify t p (with_right (some r))

unfoldable pub left_rotate : Tree → ℕ → Option Tree
left_rotate t n = do
  node ← at t n
  r ← node.right
  right ← at t r
  t₁ ← modify t n (with_right right.left)
  t₂ ← set_parent right.left n t₁
  node' ← at t₂ n
  t₃ ← modify t₂ r (with_parent node'.parent)
  t₄ ← swap_in node'.parent n r t₃
  t₅ ← modify t₄ r (with_left (some n))
  modify t₅ n (with_parent (some r))

unfoldable pub right_rotate : Tree → ℕ → Option Tree
right_rotate t n = do
  node ← at t n
  l ← node.left
  left ← at t l
  t₁ ← modify t n (with_left left.right)
  t₂ ← set_parent left.right n t₁
  node' ← at t₂ n
  t₃ ← modify t₂ l (with_parent node'.parent)
  t₄ ← swap_in node'.parent n l t₃
  t₅ ← modify t₄ l (with_right (some n))
  modify t₅ n (with_parent (some l))

unfoldable pub insert_recolor : Tree → ℕ → ℕ → Option Tree
insert_recolor t parent grandparent = do
  t₁ ← modify t parent (with_color black)
  modify t₁ grandparent (with_color red)

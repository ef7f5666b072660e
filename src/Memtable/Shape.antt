-- ===== src/Memtable/Shape.antt =====
-- The tree that the pointers of memtable/inner.rs span, with the index and the colour of each
-- node, and the contexts in which a subtree stands.
use mathlib.Core.Path.{subst}
use lsmlite.Base.{ℕ, suc, ◌+◌, ◌≤◌, ◌≡◌, ◌≢◌, refl, arith, Option, none, some, ◌==◌}
use lsmlite.Base.{if◌then◌else◌, List, [], ◌∷◌, ◌++◌, append_assoc, append-nil, sym, ◌∙◌}
use lsmlite.Memtable.{Color, Tree, at, MemtableNode}

pub data Shape : Type 0 where
  leaf : Shape
  node : Shape → ℕ → Color → Shape → Shape

-- The hole is the root, or the left or the right child of a node.
pub data Context : Type 0 where
  top : Context
  in_left : Context → ℕ → Color → Shape → Context
  in_right : Context → Shape → ℕ → Color → Context

abbrev pub plug : Context → Shape → Shape
plug top s = s
plug (in_left C i c r) s = plug C (node s i c r)
plug (in_right C l i c) s = plug C (node l i c s)

-- How often an index occurs.
unfoldable pub hit : ℕ → ℕ → ℕ
hit i j = if i == j then 1 else 0

pub hit_self : (i : ℕ) → hit i i ≡ 1
unfolding hit
hit_self i = ground arith

pub hit_ne : (i j : ℕ) → i ≢ j → hit i j ≡ 0
unfolding hit
hit_ne i j h = ground arith

abbrev pub occ : ℕ → Shape → ℕ
occ i leaf = 0
occ i (node l j c r) = occ i l + hit i j + occ i r

abbrev pub occ_in : ℕ → Context → ℕ
occ_in i top = 0
occ_in i (in_left C j c r) = occ_in i C + hit i j + occ i r
occ_in i (in_right C l j c) = occ_in i C + occ i l + hit i j

pub occ-plug : (i : ℕ) (C : Context) (s : Shape) → occ i (plug C s) ≡ occ_in i C + occ i s
occ-plug i top s = omega arith
occ-plug i (in_left C j c r) s = omega (arith, occ-plug i C (node s j c r))
occ-plug i (in_right C l j c) s = omega (arith, occ-plug i C (node l j c s))

abbrev pub size : Shape → ℕ
size leaf = 0
size (node l i c r) = size l + 1 + size r

abbrev pub size_in : Context → ℕ
size_in top = 0
size_in (in_left C i c r) = size_in C + 1 + size r
size_in (in_right C l i c) = size_in C + size l + 1

pub size-plug : (C : Context) (s : Shape) → size (plug C s) ≡ size_in C + size s
size-plug top s = omega arith
size-plug (in_left C i c r) s = omega (arith, size-plug C (node s i c r))
size-plug (in_right C l i c) s = omega (arith, size-plug C (node l i c s))

abbrev pub depth : Context → ℕ
depth top = 0
depth (in_left C i c r) = suc (depth C)
depth (in_right C l i c) = suc (depth C)

pub depth-le-size_in : (C : Context) → depth C ≤ size_in C
depth-le-size_in top = omega arith
depth-le-size_in (in_left C i c r) = omega (arith, depth-le-size_in C)
depth-le-size_in (in_right C l i c) = omega (arith, depth-le-size_in C)

-- The indices from left to right.
abbrev pub inorder : Shape → List ℕ
inorder leaf = []
inorder (node l i c r) = inorder l ++ (i ∷ inorder r)

abbrev pub before : Context → List ℕ
before top = []
before (in_left C i c r) = before C
before (in_right C l i c) = before C ++ (inorder l ++ (i ∷ []))

abbrev pub after : Context → List ℕ
after top = []
after (in_left C i c r) = (i ∷ inorder r) ++ after C
after (in_right C l i c) = after C

-- Each child is where its parent points, and each parent where its children point.
pub record Cell (t : Tree) (i : ℕ) (l r p : Option ℕ) (c : Color) : Type 0 where
  pub cell : MemtableNode
  pub here : at t i ≡ some cell
  pub its_left : cell.left ≡ l
  pub its_right : cell.right ≡ r
  pub its_parent : cell.parent ≡ p
  pub its_color : cell.color ≡ c

-- `ptr` points to the shape, in a node whose index is `p`.
abbrev pub Repr : Tree → Option ℕ → Option ℕ → Shape → Type 0
Repr t p ptr leaf = ptr ≡ none
Repr t p ptr (node l i c r) =
    (ptr ≡ some i)
    × (pl : Option ℕ) × (pr : Option ℕ) × Cell t i pl pr p c
    × Repr t (some i) pl l
    × Repr t (some i) pr r

-- The nodes of the context, with `ptr` in the place of the hole.
abbrev pub ReprIn : Tree → Context → Option ℕ → Option ℕ → Type 0
ReprIn t top p ptr = (p ≡ none) × (t.root_node ≡ ptr)
ReprIn t (in_left C i c r) p ptr =
    (p ≡ some i)
    × (pr : Option ℕ) × (gp : Option ℕ) × Cell t i ptr pr gp c
    × Repr t (some i) pr r
    × ReprIn t C gp (some i)
ReprIn t (in_right C l i c) p ptr =
    (p ≡ some i)
    × (pl : Option ℕ) × (gp : Option ℕ) × Cell t i pl ptr gp c
    × Repr t (some i) pl l
    × ReprIn t C gp (some i)

-- A whole tree is a subtree in its context.
pub Repr-plug :
    (t : Tree) (C : Context) (s : Shape) (p ptr : Option ℕ)
    → ReprIn t C p ptr
    → Repr t p ptr s
    → Repr t none t.root_node (plug C s)
Repr-plug t top s p ptr c h =
    subst (λ q. Repr t none q s) (sym c.1) (subst (λ q. Repr t q ptr s) c.0 h)
Repr-plug t (in_left C i c r) s p ptr (e, pr, gp, x, y, z) h =
    Repr-plug t C (node s i c r) gp (some i) z (refl, ptr, pr, x, rw (← e) h, y)
Repr-plug t (in_right C l i c) s p ptr (e, pl, gp, x, y, z) h =
    Repr-plug t C (node l i c s) gp (some i) z (refl, pl, ptr, x, y, rw (← e) h)

pub Cell-same :
    (t t' : Tree) (i : ℕ) (l r p : Option ℕ) (c : Color)
    → at t' i ≡ at t i
    → Cell t i l r p c
    → Cell t' i l r p c
Cell-same t t' i l r p c e x = record {
  cell = x.cell;
  here = rw e x.here;
  its_left = x.its_left;
  its_right = x.its_right;
  its_parent = x.its_parent;
  its_color = x.its_color;
}

-- What a subtree stands for depends on its own nodes only.
pub Repr-same :
    (t t' : Tree) (s : Shape) (p ptr : Option ℕ)
    → ((j : ℕ) → 1 ≤ occ j s → at t' j ≡ at t j)
    → Repr t p ptr s
    → Repr t' p ptr s
Repr-same t t' leaf p ptr same h = h
Repr-same t t' (node l i c r) p ptr same (e, pl, pr, x, y, z) = (
  e,
  pl,
  pr,
  Cell-same t t' i pl pr p c (same i (omega (arith, hit_self i))) x,
  Repr-same t t' l (some i) pl (λ j h. same j (omega arith)) y,
  Repr-same t t' r (some i) pr (λ j h. same j (omega arith)) z,
)

pub ReprIn-same :
    (t t' : Tree) (C : Context) (p ptr : Option ℕ)
    → t'.root_node ≡ t.root_node
    → ((j : ℕ) → 1 ≤ occ_in j C → at t' j ≡ at t j)
    → ReprIn t C p ptr
    → ReprIn t' C p ptr
ReprIn-same t t' top p ptr root same h = (h.0, root ∙ h.1)
ReprIn-same t t' (in_left C i c r) p ptr root same (e, pr, gp, x, y, z) = (
  e,
  pr,
  gp,
  Cell-same t t' i ptr pr gp c (same i (omega (arith, hit_self i))) x,
  Repr-same t t' r (some i) pr (λ j h. same j (omega arith)) y,
  ReprIn-same t t' C gp (some i) root (λ j h. same j (omega arith)) z,
)
ReprIn-same t t' (in_right C l i c) p ptr root same (e, pl, gp, x, y, z) = (
  e,
  pl,
  gp,
  Cell-same t t' i pl ptr gp c (same i (omega (arith, hit_self i))) x,
  Repr-same t t' l (some i) pl (λ j h. same j (omega arith)) y,
  ReprIn-same t t' C gp (some i) root (λ j h. same j (omega arith)) z,
)

pub inorder-plug :
    (C : Context) (s : Shape) → inorder (plug C s) ≡ before C ++ (inorder s ++ after C)
inorder-plug top s = rw append-nil
inorder-plug (in_left C i c r) s = rw (inorder-plug C (node s i c r)) (simp append_assoc)
inorder-plug (in_right C l i c) s = rw (inorder-plug C (node l i c s)) (simp append_assoc)

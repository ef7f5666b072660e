-- ===== src/Memtable/Round.antt =====
-- What one round of `insert_fix_tree` of memtable/inner.rs reads before it acts: the parent, the
-- grandparent, the uncle and its colour, and on which sides the nodes stand.
use lsmlite.Base.{ℕ, ◌≡◌, refl, ◌∙◌, arith, Option, none, some, Bool, true, false}
use lsmlite.Base.{if◌then◌else◌, ap}
use lsmlite.Memtable.{Tree, MemtableNode, red, black, at, uncle, points_to}
use lsmlite.Memtable.{ChildType, inner, outer, RotationDirection, rotate_left, rotate_right}
use lsmlite.Memtable.{derive_rotation_direction, derive_inner_rotation, derive_outer_rotation}
use lsmlite.Memtable.{child_type}
use lsmlite.Memtable.Insert.{fix_round, below_parent, by_uncle, black_uncle, rotate_case}
use lsmlite.Memtable.Insert.{is_red_at}
use lsmlite.Memtable.Shape.{Shape, leaf, node, occ, Repr}
use lsmlite.Memtable.Steps.{root_of, eq_self}
use lsmlite.Memtable.Balance.{is_red}

-- A node below a red parent. `up` tells whether the parent is a left child, `down` whether the
-- node is.
pub record Near (t : Tree) (x p g : ℕ) (u : Option ℕ) (u_red up down : Bool) : Type 0 where
  pub cell : MemtableNode
  pub parent : MemtableNode
  pub grandparent : MemtableNode
  pub at_x : at t x ≡ some cell
  pub at_p : at t p ≡ some parent
  pub at_g : at t g ≡ some grandparent
  pub x_parent : cell.parent ≡ some p
  pub p_parent : parent.parent ≡ some g
  pub p_color : parent.color ≡ red
  pub g_left : points_to grandparent.left p ≡ up
  pub p_left : points_to parent.left x ≡ down
  pub other : (if up then grandparent.right else grandparent.left) ≡ u
  pub u_color : is_red_at t u ≡ some u_red

uncle_lem :
    (t : Tree) (x p g : ℕ) (u : Option ℕ) (u_red up down : Bool) (n : Near t x p g u u_red up down)
    → uncle t n.cell ≡ some u
unfolding uncle
uncle_lem t x p g u u_red up down n =
    rw (n.x_parent, n.at_p, n.p_parent, n.at_g, n.g_left) (ap some n.other)

pub fix_round_lem :
    (t : Tree) (x p g : ℕ) (u : Option ℕ) (u_red up down : Bool)
    → Near t x p g u u_red up down
    → fix_round t x ≡ by_uncle t x p g u u_red
unfolding fix_round below_parent
fix_round_lem t x p g u u_red up down n =
    rw
      (
        n.at_x,
        n.x_parent,
        n.at_p,
        n.p_color,
        n.p_parent,
        uncle_lem t x p g u u_red up down n,
        n.u_color,
      )
      refl

abbrev pub turn : Bool → Bool → ChildType × RotationDirection
turn true true = (outer, rotate_right)
turn true false = (inner, rotate_left)
turn false true = (inner, rotate_right)
turn false false = (outer, rotate_left)

turn_lem :
    (g : Option ℕ) (i : ℕ) (p : Option ℕ) (j : ℕ) (up down : Bool)
    → points_to g i ≡ up
    → points_to p j ≡ down
    → derive_rotation_direction g i p j ≡ turn up down
unfolding derive_rotation_direction child_type derive_inner_rotation derive_outer_rotation
turn_lem g i p j true true e f = ground (arith, e, f)
turn_lem g i p j true false e f = ground (arith, e, f)
turn_lem g i p j false true e f = ground (arith, e, f)
turn_lem g i p j false false e f = ground (arith, e, f)

by_uncle-black :
    (t : Tree) (x p g : ℕ) (u : Option ℕ) → by_uncle t x p g u false ≡ black_uncle t x p g
unfolding by_uncle
by_uncle-black t x p g none = refl
by_uncle-black t x p g (some u) = refl

-- With a black uncle, the round is a rotation.
pub fix_round-black :
    (t : Tree) (x p g : ℕ) (u : Option ℕ) (up down : Bool)
    → Near t x p g u false up down
    → fix_round t x ≡ rotate_case (turn up down) t p g
unfolding black_uncle
fix_round-black t x p g u up down n =
    fix_round_lem t x p g u false up down n
    ∙ by_uncle-black t x p g u
    ∙ rw (n.at_g, n.at_p, turn_lem _ p _ x up down n.g_left n.p_left) refl

pub is_red_at_lem :
    (t : Tree) (p ptr : Option ℕ) (s : Shape) → Repr t p ptr s → is_red_at t ptr ≡ some (is_red s)
unfolding is_red_at
is_red_at_lem t p ptr leaf h = rw h refl
is_red_at_lem t p ptr (node l i red r) (e, pl, pr, x, y, z) = rw (e, x.here, x.its_color) refl
is_red_at_lem t p ptr (node l i black r) (e, pl, pr, x, y, z) = rw (e, x.here, x.its_color) refl

module _ (t : Tree) (gp : Option ℕ) (a b s u : Shape) (x p g : ℕ) where
  -- The four places of a node `x` below its parent `p` and its grandparent `g`.
  pub place_left_left :
      Repr t gp (some g) (node (node (node a x red b) p red s) g black u)
      → (pu : Option ℕ) × Near t x p g pu (is_red u) true true × Repr t (some g) pu u
  place_left_left (e, pl, pr, cg, (e', pl', pr', cp, (e'', _, _, cx, _, _), _), hu) = (
    pr,
    record {
      cell = cx.cell;
      parent = cp.cell;
      grandparent = cg.cell;
      at_x = cx.here;
      at_p = cp.here;
      at_g = cg.here;
      x_parent = cx.its_parent;
      p_parent = cp.its_parent;
      p_color = cp.its_color;
      g_left = rw (cg.its_left, e', eq_self p) refl;
      p_left = rw (cp.its_left, e'', eq_self x) refl;
      other = cg.its_right;
      u_color = is_red_at_lem t (some g) pr u hu;
    },
    hu,
  )

  pub place_left_right :
      Repr t gp (some g) (node (node s p red (node a x red b)) g black u)
      → occ x s ≡ 0
      → (pu : Option ℕ) × Near t x p g pu (is_red u) true false × Repr t (some g) pu u
  place_left_right (e, pl, pr, cg, (e', pl', pr', cp, hs, (e'', _, _, cx, _, _)), hu) o = (
    pr,
    record {
      cell = cx.cell;
      parent = cp.cell;
      grandparent = cg.cell;
      at_x = cx.here;
      at_p = cp.here;
      at_g = cg.here;
      x_parent = cx.its_parent;
      p_parent = cp.its_parent;
      p_color = cp.its_color;
      g_left = rw (cg.its_left, e', eq_self p) refl;
      p_left = rw cp.its_left (root_of t s (some p) pl' x hs o);
      other = cg.its_right;
      u_color = is_red_at_lem t (some g) pr u hu;
    },
    hu,
  )

  pub place_right_left :
      Repr t gp (some g) (node u g black (node (node a x red b) p red s))
      → occ p u ≡ 0
      → (pu : Option ℕ) × Near t x p g pu (is_red u) false true × Repr t (some g) pu u
  place_right_left (e, pl, pr, cg, hu, (e', pl', pr', cp, (e'', _, _, cx, _, _), _)) o = (
    pl,
    record {
      cell = cx.cell;
      parent = cp.cell;
      grandparent = cg.cell;
      at_x = cx.here;
      at_p = cp.here;
      at_g = cg.here;
      x_parent = cx.its_parent;
      p_parent = cp.its_parent;
      p_color = cp.its_color;
      g_left = rw cg.its_left (root_of t u (some g) pl p hu o);
      p_left = rw (cp.its_left, e'', eq_self x) refl;
      other = cg.its_left;
      u_color = is_red_at_lem t (some g) pl u hu;
    },
    hu,
  )

  pub place_right_right :
      Repr t gp (some g) (node u g black (node s p red (node a x red b)))
      → occ p u ≡ 0
      → occ x s ≡ 0
      → (pu : Option ℕ) × Near t x p g pu (is_red u) false false × Repr t (some g) pu u
  place_right_right (e, pl, pr, cg, hu, (e', pl', pr', cp, hs, (e'', _, _, cx, _, _))) o o' = (
    pl,
    record {
      cell = cx.cell;
      parent = cp.cell;
      grandparent = cg.cell;
      at_x = cx.here;
      at_p = cp.here;
      at_g = cg.here;
      x_parent = cx.its_parent;
      p_parent = cp.its_parent;
      p_color = cp.its_color;
      g_left = rw cg.its_left (root_of t u (some g) pl p hu o);
      p_left = rw cp.its_left (root_of t s (some p) pl' x hs o');
      other = cg.its_left;
      u_color = is_red_at_lem t (some g) pl u hu;
    },
    hu,
  )

-- ===== src/Memtable/Paint.antt =====
-- Assignments of colours in memtable/inner.rs.
use mathlib.Core.Path.{subst}
use lsmlite.Base.{ℕ, ◌≤◌, ◌≡◌, ◌≢◌, refl, sym, arith, Option, some, length}
use lsmlite.Memtable.{Tree, Color, at, modify, with_color}
use lsmlite.Memtable.Shape.{Shape, node, hit, hit_self, occ, Cell-same, Repr, Repr-same}
use lsmlite.Memtable.Steps.{modify_lem, ne_of_occ}
use lsmlite.Memtable.Turn.{apart}

-- Only the node at `i` changes.
pub record Elsewhere (t t' : Tree) (i : ℕ) : Type 0 where
  pub rest : (j : ℕ) → j ≢ i → at t' j ≡ at t j
  pub root : t'.root_node ≡ t.root_node
  pub size : length t'.arena ≡ length t.arena

pub paint_root :
    (t : Tree) (p : Option ℕ) (l r : Shape) (i : ℕ) (c d : Color)
    → Repr t p (some i) (node l i c r)
    → ((j : ℕ) → occ j (node l i c r) ≤ 1)
    → (t' : Tree) × (modify t i (with_color d) ≡ some t')
      × Repr t' p (some i) (node l i d r)
      × Elsewhere t t' i
paint_root t p l r i c d (e, pl, pr, x, y, z) once =
    let (t', m, w) = modify_lem t i (with_color d) x.cell x.here in
    let o = once i in
    let u = hit_self i in
    (
      t',
      m,
      (
        e,
        pl,
        pr,
        record {
          cell = with_color d x.cell;
          here = w.now;
          its_left = x.its_left;
          its_right = x.its_right;
          its_parent = x.its_parent;
          its_color = refl;
        },
        Repr-same t t' l (some i) pl (λ j h. w.rest j (ne_of_occ i j l (omega arith) h)) y,
        Repr-same t t' r (some i) pr (λ j h. w.rest j (ne_of_occ i j r (omega arith) h)) z,
      ),
      record { rest = w.rest; root = w.root; size = w.size },
    )

-- The root of the left child is painted.
pub paint_left :
    (t : Tree) (p : Option ℕ) (a b r : Shape) (i k : ℕ) (c d e : Color)
    → Repr t p (some i) (node (node a k c b) i d r)
    → ((j : ℕ) → occ j (node (node a k c b) i d r) ≤ 1)
    → (t' : Tree) × (modify t k (with_color e) ≡ some t')
      × Repr t' p (some i) (node (node a k e b) i d r)
      × Elsewhere t t' k
paint_left t p a b r i k c d e (q, pl, pr, x, y, z) once =
    let y' : Repr t (some i) (some k) (node a k c b) =
      subst (λ ptr. Repr t (some i) ptr (node a k c b)) y.0 y in
    let (t', m, h, w) = paint_root t (some i) a b k c e y' (λ j. omega (arith, once j)) in
    let o = once k in
    let u = hit_self k in
    let ik : i ≢ k = apart' i k (omega arith) in
    (
      t',
      m,
      (
        q,
        pl,
        pr,
        Cell-same t t' i pl pr p d (w.rest i ik) x,
        subst (λ ptr. Repr t' (some i) ptr (node a k e b)) (sym y.0) h,
        Repr-same t t' r (some i) pr (λ j h. w.rest j (ne_of_occ k j r (omega arith) h)) z,
      ),
      w,
    )
  where
    apart' : (i k : ℕ) → hit k i ≡ 0 → i ≢ k
    apart' i k h e = apart k i h (sym e)

-- The root of the right child is painted.
pub paint_right :
    (t : Tree) (p : Option ℕ) (l a b : Shape) (i k : ℕ) (c d e : Color)
    → Repr t p (some i) (node l i d (node a k c b))
    → ((j : ℕ) → occ j (node l i d (node a k c b)) ≤ 1)
    → (t' : Tree) × (modify t k (with_color e) ≡ some t')
      × Repr t' p (some i) (node l i d (node a k e b))
      × Elsewhere t t' k
paint_right t p l a b i k c d e (q, pl, pr, x, y, z) once =
    let z' : Repr t (some i) (some k) (node a k c b) =
      subst (λ ptr. Repr t (some i) ptr (node a k c b)) z.0 z in
    let (t', m, h, w) = paint_root t (some i) a b k c e z' (λ j. omega (arith, once j)) in
    let o = once k in
    let u = hit_self k in
    let ik : i ≢ k = apart' i k (omega arith) in
    (
      t',
      m,
      (
        q,
        pl,
        pr,
        Cell-same t t' i pl pr p d (w.rest i ik) x,
        Repr-same t t' l (some i) pl (λ j h. w.rest j (ne_of_occ k j l (omega arith) h)) y,
        subst (λ ptr. Repr t' (some i) ptr (node a k e b)) (sym z.0) h,
      ),
      w,
    )
  where
    apart' : (i k : ℕ) → hit k i ≡ 0 → i ≢ k
    apart' i k h e = apart k i h (sym e)

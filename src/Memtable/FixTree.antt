-- ===== src/Memtable/FixTree.antt =====
-- `insert_fix_tree` of memtable/inner.rs: the loop, and the root painted black.
use mathlib.Core.Path.{subst}
use lsmlite.Base.{ℕ, suc, ◌+◌, ◌*◌, ◌≤◌, ◌≡◌, refl, sym, ap, ◌∙◌, arith, Option, none, some, length}
use lsmlite.Base.{◌>>=◌, false}
use lsmlite.Memtable.{Tree, red, black, modify, with_color}
use lsmlite.Memtable.Insert.{blacken_root, insert_fix_tree}
use lsmlite.Memtable.Kept.{payloads, Keeps}
use lsmlite.Memtable.Repairs.{insert_fix_tree-Keeps}
use lsmlite.Memtable.Shape.{Shape, leaf, node, Context, plug, occ, occ-plug, size, depth, Repr}
use lsmlite.Memtable.Shape.{size-plug}
use lsmlite.Memtable.Turn.{Once}
use lsmlite.Memtable.Balance.{is_red, RedBlack, RedBlackIn, Nearly}
use lsmlite.Memtable.Paint.{paint_root}
use lsmlite.Memtable.Outer.{Stands}
use lsmlite.Memtable.Settle.{Alike}
use lsmlite.Memtable.Fix.{fix_loop_lem}

-- A red-black tree with the nodes of `s` in their order.
pub record Balanced (t t' : Tree) (s : Shape) : Type 0 where
  pub shape : Shape
  pub repr : Repr t' none t'.root_node shape
  pub alike : Alike shape s
  pub height : ℕ
  pub rules : RedBlack height shape
  pub dark : is_red shape ≡ false
  pub len : length t'.arena ≡ length t.arena

blacken :
    (t t' : Tree) (s shape : Shape)
    → Repr t' none t'.root_node shape
    → Alike shape s
    → Nearly shape
    → length t'.arena ≡ length t.arena
    → 1 ≤ size s
    → ((j : ℕ) → occ j s ≤ 1)
    → (t'' : Tree) × (blacken_root t' ≡ some t'') × Balanced t t'' s
unfolding blacken_root
blacken t t' s leaf h x rules len some_node once = absurd (omega (arith, x.count))
blacken t t' s (node l i c r) h x (m, hl, hr) len some_node once =
    let h' = subst (λ q. Repr t' none q (node l i c r)) h.0 h in
    let (t'', e, k, w) =
      paint_root t' none l r i c black h' (λ j. omega (arith, once j, x.once j)) in
    (
      t'',
      ap (λ q. q >>= λ root. modify t' root (with_color black)) h.0 ∙ e,
      record {
        shape = node l i black r;
        repr = subst (λ q. Repr t'' none q (node l i black r)) (sym (w.root ∙ h.0)) k;
        alike = record { order = x.order; once = x.once; count = x.count };
        height = suc m;
        rules = (m, refl, hl, hr);
        dark = refl;
        len = w.size ∙ len;
      },
    )

pub insert_fix_tree_lem :
    (t : Tree) (C : Context) (p : Option ℕ) (a b : Shape) (x n : ℕ)
    → depth C + 1 ≤ length t.arena
    → Stands t C p x (node a x red b)
    → Once C (node a x red b)
    → RedBlackIn n C
    → RedBlack n (node a x red b)
    → (t' : Tree) × (insert_fix_tree t x ≡ some t')
      × Balanced t t' (plug C (node a x red b))
      × (payloads t' ≡ payloads t)
unfolding insert_fix_tree
insert_fix_tree_lem t C p a b x n room st once out inside =
    let (t₁, run, f) =
      fix_loop_lem (2 * length t.arena + 1) t C p a b x n (omega arith) st once out inside in
    let s = plug C (node a x red b) in
    let (t₂, last, g) =
      blacken t t₁ s f.shape f.repr f.alike f.rules f.len
        (omega (arith, size-plug C (node a x red b)))
        (λ j. omega (arith, once j, occ-plug j C (node a x red b))) in
    let e : insert_fix_tree t x ≡ some t₂ = rw (insert_fix_tree, run) last in
    (t₂, e, g, subst (λ o. Keeps t o) e (insert_fix_tree-Keeps t x))

-- ===== src/Memtable/TurnRight.antt =====
-- The right rotation of memtable/inner.rs, the mirror image of the left one.
use mathlib.Core.Path.{subst}
use lsmlite.Base.{ℕ, ◌≡◌, ◌≢◌, refl, sym, ◌∙◌, arith, Option, some, length}
use lsmlite.Memtable.{MemtableNode, Tree, Color, at, modify, with_left, with_right, with_parent}
use lsmlite.Memtable.Rotate.{right_rotate, set_parent, swap_in}
use lsmlite.Memtable.Shape.{Shape, node, Context, hit_self, occ, occ_in}
use lsmlite.Memtable.Shape.{Repr, ReprIn, Repr-same, ReprIn-same}
use lsmlite.Memtable.Steps.{modify_lem, set_parent_lem, swap_in_lem, ne_of_occ, ne_of_occ_in}
use lsmlite.Memtable.Turn.{Once, apart}

right_rotate_run :
    (t t₁ t₂ t₃ t₄ t₅ t₆ : Tree) (n r : ℕ) (x y x₂ : MemtableNode)
    → at t n ≡ some x
    → x.left ≡ some r
    → at t r ≡ some y
    → modify t n (with_left y.right) ≡ some t₁
    → set_parent y.right n t₁ ≡ some t₂
    → at t₂ n ≡ some x₂
    → modify t₂ r (with_parent x₂.parent) ≡ some t₃
    → swap_in x₂.parent n r t₃ ≡ some t₄
    → modify t₄ r (with_right (some n)) ≡ some t₅
    → modify t₅ n (with_parent (some r)) ≡ some t₆
    → right_rotate t n ≡ some t₆
unfolding right_rotate
right_rotate_run t t₁ t₂ t₃ t₄ t₅ t₆ n r x y x₂ e₁ e₂ e₃ e₄ e₅ e₆ e₇ e₈ e₉ e =
    rw (e₁, e₂, e₃, e₄, e₅, e₆, e₇, e₈, e₉, e)

pub right_rotate_lem :
    (t : Tree) (C : Context) (A B D : Shape) (n r : ℕ) (c d : Color) (p : Option ℕ)
    → ReprIn t C p (some n)
    → Repr t p (some n) (node (node D r d B) n c A)
    → Once C (node (node D r d B) n c A)
    → (t' : Tree) × (right_rotate t n ≡ some t')
      × ReprIn t' C p (some r)
      × Repr t' p (some r) (node D r d (node B n c A))
      × (length t'.arena ≡ length t.arena)
right_rotate_lem t C A B D n r c d p hC (e, pl, pr, x, (q, pd, pb, y, hD, hB), hA) once =
    let un = once n in
    let ur = once r in
    let hn = hit_self n in
    let hr = hit_self r in
    let rn : r ≢ n = apart r n (omega arith) in
    let nr : n ≢ r = apart n r (omega arith) in
    let left : x.cell.left ≡ some r = x.its_left ∙ q in
    let (t₁, m₁, w₁) = modify_lem t n (with_left y.cell.right) x.cell x.here in
    let B₀ : Repr t (some r) y.cell.right B =
      subst (λ q. Repr t (some r) q B) (sym y.its_right) hB in
    let B₁ =
      Repr-same t t₁ B (some r) y.cell.right (λ j h. w₁.rest j (ne_of_occ n j B (omega arith) h))
        B₀ in
    let (t₂, e₂, B₂, s₂, root₂, size₂) =
      set_parent_lem t₁ B (some r) y.cell.right n B₁ (λ j. omega (arith, once j)) in
    let n₂ : at t₂ n ≡ some (with_left y.cell.right x.cell) = s₂ n (omega arith) ∙ w₁.now in
    let r₂ : at t₂ r ≡ some y.cell = s₂ r (omega arith) ∙ w₁.rest r rn ∙ y.here in
    let (t₃, m₃, w₃) = modify_lem t₂ r (with_parent x.cell.parent) y.cell r₂ in
    let up : (j : ℕ) → j ≢ n → j ≢ r → occ j B ≡ 0 → at t₃ j ≡ at t j =
      λ j a b o. w₃.rest j b ∙ s₂ j o ∙ w₁.rest j a in
    let C₀ : ReprIn t C x.cell.parent (some n) =
      subst (λ q. ReprIn t C q (some n)) (sym x.its_parent) hC in
    let C₃ =
      ReprIn-same t t₃ C x.cell.parent (some n) (w₃.root ∙ root₂ ∙ w₁.root)
        (λ j h.
          up j (ne_of_occ_in n j C (omega arith) h) (ne_of_occ_in r j C (omega arith) h)
            (omega (arith, once j)))
        C₀ in
    let (t₄, e₄, C₄, s₄, size₄) =
      swap_in_lem t₃ C x.cell.parent n r C₃ (λ j. omega (arith, once j)) (omega arith) in
    let r₄ : at t₄ r ≡ some (with_parent x.cell.parent y.cell) = s₄ r (omega arith) ∙ w₃.now in
    let (t₅, m₅, w₅) = modify_lem t₄ r (with_right (some n)) _ r₄ in
    let n₅ : at t₅ n ≡ some (with_left y.cell.right x.cell) =
      w₅.rest n nr ∙ s₄ n (omega arith) ∙ w₃.rest n nr ∙ n₂ in
    let (t₆, m₆, w₆) = modify_lem t₅ n (with_parent (some r)) _ n₅ in
    let down : (j : ℕ) → j ≢ n → j ≢ r → at t₆ j ≡ at t₄ j = λ j a b. w₆.rest j a ∙ w₅.rest j b in
    let all : (j : ℕ) → j ≢ n → j ≢ r → occ j B ≡ 0 → occ_in j C ≡ 0 → at t₆ j ≡ at t j =
      λ j a b o k. down j a b ∙ s₄ j k ∙ up j a b o in
    let C₆ =
      ReprIn-same t₄ t₆ C x.cell.parent (some r) (w₆.root ∙ w₅.root)
        (λ j h. down j (ne_of_occ_in n j C (omega arith) h) (ne_of_occ_in r j C (omega arith) h))
        C₄ in
    let A₆ =
      Repr-same t t₆ A (some n) pr
        (λ j h.
          all j (ne_of_occ n j A (omega arith) h) (ne_of_occ r j A (omega arith) h)
            (omega (arith, once j)) (omega (arith, once j)))
        hA in
    let D₆ =
      Repr-same t t₆ D (some r) pd
        (λ j h.
          all j (ne_of_occ n j D (omega arith) h) (ne_of_occ r j D (omega arith) h)
            (omega (arith, once j)) (omega (arith, once j)))
        hD in
    let B₆ =
      Repr-same t₂ t₆ B (some n) y.cell.right
        (λ j h.
          down j (ne_of_occ n j B (omega arith) h) (ne_of_occ r j B (omega arith) h)
          ∙ s₄ j (omega (arith, once j))
          ∙ w₃.rest j (ne_of_occ r j B (omega arith) h))
        B₂ in
    (
      t₆,
      right_rotate_run t t₁ t₂ t₃ t₄ t₅ t₆ n r _ _ _ x.here left y.here m₁ e₂ n₂ m₃ e₄ m₅ m₆,
      subst (λ q. ReprIn t₆ C q (some r)) x.its_parent C₆,
      (
        refl,
        pd,
        some n,
        record {
          cell = with_right (some n) (with_parent x.cell.parent y.cell);
          here = w₆.rest r rn ∙ w₅.now;
          its_left = y.its_left;
          its_right = refl;
          its_parent = x.its_parent;
          its_color = y.its_color;
        },
        D₆,
        (
          refl,
          y.cell.right,
          pr,
          record {
            cell = with_parent (some r) (with_left y.cell.right x.cell);
            here = w₆.now;
            its_left = refl;
            its_right = x.its_right;
            its_parent = refl;
            its_color = x.its_color;
          },
          B₆,
          A₆,
        ),
      ),
      w₆.size ∙ w₅.size ∙ size₄ ∙ w₃.size ∙ size₂ ∙ w₁.size,
    )

-- ===== src/Memtable/Recolor.antt =====
-- The case of a red uncle in memtable/inner.rs: three nodes are painted, on either side.
use lsmlite.Base.{ℕ, ◌≡◌, refl, ◌∙◌, arith, Option, some, length}
use lsmlite.Memtable.{Tree, red, black}
use lsmlite.Memtable.Insert.{again, recolor_up}
use lsmlite.Memtable.Rotate.{insert_recolor}
use lsmlite.Memtable.Shape.{Shape, node, Context, hit_self, occ_in, Repr, ReprIn, ReprIn-same}
use lsmlite.Memtable.Steps.{ne_of_occ_in}
use lsmlite.Memtable.Turn.{Once}
use lsmlite.Memtable.Paint.{Elsewhere, paint_root, paint_left, paint_right}

-- A context has none of the nodes of the subtree in its hole.
pub context_stays :
    (t t' : Tree) (C : Context) (p ptr : Option ℕ) (i : ℕ)
    → Elsewhere t t' i
    → occ_in i C ≡ 0
    → ReprIn t C p ptr
    → ReprIn t' C p ptr
context_stays t t' C p ptr i w o h =
    ReprIn-same t t' C p ptr w.root (λ j k. w.rest j (ne_of_occ_in i j C o k)) h

module _ (t : Tree) (C : Context) (gp : Option ℕ) (a b c d : Shape) (p g u : ℕ) where
  pub recolor_left :
      ReprIn t C gp (some g)
      → Repr t gp (some g) (node (node a p red b) g black (node c u red d))
      → Once C (node (node a p red b) g black (node c u red d))
      → (t' : Tree) × (recolor_up t u p g ≡ some (again t' g))
        × ReprIn t' C gp (some g)
        × Repr t' gp (some g) (node (node a p black b) g red (node c u black d))
        × (length t'.arena ≡ length t.arena)
  unfolding recolor_up
  recolor_left hC h once =
      let op = once p in
      let og = once g in
      let ou = once u in
      let hp = hit_self p in
      let hg = hit_self g in
      let hu = hit_self u in
      let (t₁, m₁, h₁, w₁) =
        paint_right t gp (node a p red b) c d g u red black black h (λ j. omega (arith, once j)) in
      let (t₂, m₂, h₂, w₂) =
        paint_left t₁ gp a b (node c u black d) g p red black black h₁
          (λ j. omega (arith, once j)) in
      let (t₃, m₃, h₃, w₃) =
        paint_root t₂ gp (node a p black b) (node c u black d) g black red h₂
          (λ j. omega (arith, once j)) in
      let C₁ = context_stays t t₁ C gp (some g) u w₁ (omega arith) hC in
      let C₂ = context_stays t₁ t₂ C gp (some g) p w₂ (omega arith) C₁ in
      let C₃ = context_stays t₂ t₃ C gp (some g) g w₃ (omega arith) C₂ in
      (t₃, rw (m₁, m₂, m₃) refl, C₃, h₃, w₃.size ∙ w₂.size ∙ w₁.size)

  pub recolor_right :
      ReprIn t C gp (some g)
      → Repr t gp (some g) (node (node c u red d) g black (node a p red b))
      → Once C (node (node c u red d) g black (node a p red b))
      → (t' : Tree) × (recolor_up t u p g ≡ some (again t' g))
        × ReprIn t' C gp (some g)
        × Repr t' gp (some g) (node (node c u black d) g red (node a p black b))
        × (length t'.arena ≡ length t.arena)
  unfolding recolor_up
  recolor_right hC h once =
      let op = once p in
      let og = once g in
      let ou = once u in
      let hp = hit_self p in
      let hg = hit_self g in
      let hu = hit_self u in
      let (t₁, m₁, h₁, w₁) =
        paint_left t gp c d (node a p red b) g u red black black h (λ j. omega (arith, once j)) in
      let (t₂, m₂, h₂, w₂) =
        paint_right t₁ gp (node c u black d) a b g p red black black h₁
          (λ j. omega (arith, once j)) in
      let (t₃, m₃, h₃, w₃) =
        paint_root t₂ gp (node c u black d) (node a p black b) g black red h₂
          (λ j. omega (arith, once j)) in
      let C₁ = context_stays t t₁ C gp (some g) u w₁ (omega arith) hC in
      let C₂ = context_stays t₁ t₂ C gp (some g) p w₂ (omega arith) C₁ in
      let C₃ = context_stays t₂ t₃ C gp (some g) g w₃ (omega arith) C₂ in
      (t₃, rw (m₁, m₂, m₃) refl, C₃, h₃, w₃.size ∙ w₂.size ∙ w₁.size)

module _ (t : Tree) (C : Context) (gp : Option ℕ) (a b u : Shape) (p g : ℕ) where
  -- `insert_recolor`, before the rotation of the grandparent.
  pub insert_recolor-left :
      ReprIn t C gp (some g)
      → Repr t gp (some g) (node (node a p red b) g black u)
      → Once C (node (node a p red b) g black u)
      → (t' : Tree) × (insert_recolor t p g ≡ some t')
        × ReprIn t' C gp (some g)
        × Repr t' gp (some g) (node (node a p black b) g red u)
        × (length t'.arena ≡ length t.arena)
  unfolding insert_recolor
  insert_recolor-left hC h once =
      let op = once p in
      let og = once g in
      let hp = hit_self p in
      let hg = hit_self g in
      let (t₂, m₂, h₂, w₂) =
        paint_left t gp a b u g p red black black h (λ j. omega (arith, once j)) in
      let (t₃, m₃, h₃, w₃) =
        paint_root t₂ gp (node a p black b) u g black red h₂ (λ j. omega (arith, once j)) in
      let C₂ = context_stays t t₂ C gp (some g) p w₂ (omega arith) hC in
      let C₃ = context_stays t₂ t₃ C gp (some g) g w₃ (omega arith) C₂ in
      (t₃, rw m₂ m₃, C₃, h₃, w₃.size ∙ w₂.size)

  pub insert_recolor-right :
      ReprIn t C gp (some g)
      → Repr t gp (some g) (node u g black (node a p red b))
      → Once C (node u g black (node a p red b))
      → (t' : Tree) × (insert_recolor t p g ≡ some t')
        × ReprIn t' C gp (some g)
        × Repr t' gp (some g) (node u g red (node a p black b))
        × (length t'.arena ≡ length t.arena)
  unfolding insert_recolor
  insert_recolor-right hC h once =
      let op = once p in
      let og = once g in
      let hp = hit_self p in
      let hg = hit_self g in
      let (t₂, m₂, h₂, w₂) =
        paint_right t gp u a b g p red black black h (λ j. omega (arith, once j)) in
      let (t₃, m₃, h₃, w₃) =
        paint_root t₂ gp u (node a p black b) g black red h₂ (λ j. omega (arith, once j)) in
      let C₂ = context_stays t t₂ C gp (some g) p w₂ (omega arith) hC in
      let C₃ = context_stays t₂ t₃ C gp (some g) g w₃ (omega arith) C₂ in
      (t₃, rw m₂ m₃, C₃, h₃, w₃.size ∙ w₂.size)

-- ===== src/Memtable/Outer.antt =====
-- The rounds of `insert_fix_tree` of memtable/inner.rs with a black uncle, by the places of the
-- nodes.
use mathlib.Core.Path.{subst}
use lsmlite.Base.{ℕ, ◌≡◌, refl, ◌∙◌, arith, Option, some, true, false, length}
use lsmlite.Memtable.{Tree, Color, red, black}
use lsmlite.Memtable.Insert.{done, again, fix_round, rotate_case}
use lsmlite.Memtable.Shape.{Shape, node, Context, in_left, in_right, hit_self}
use lsmlite.Memtable.Shape.{Cell, Repr, ReprIn}
use lsmlite.Memtable.Turn.{Once, left_rotate_lem}
use lsmlite.Memtable.TurnRight.{right_rotate_lem}
use lsmlite.Memtable.Balance.{is_red}
use lsmlite.Memtable.Recolor.{insert_recolor-left, insert_recolor-right}
use lsmlite.Memtable.Round.{fix_round-black, Near}
use lsmlite.Memtable.Round.{place_left_left, place_left_right, place_right_left, place_right_right}

-- The node at `i` is the root of a subtree, and stands in its context.
abbrev pub Stands : Tree → Context → Option ℕ → ℕ → Shape → Type 0
Stands t C p i s = ReprIn t C p (some i) × Repr t p (some i) s

-- A subtree and the node above it.
pub lift_left :
    (t : Tree) (C : Context) (p : Option ℕ) (i j : ℕ) (c : Color) (r s : Shape)
    → Stands t (in_left C i c r) p j s
    → (gp : Option ℕ) × Stands t C gp i (node s i c r)
lift_left t C p i j c r s ((e, pr, gp, x, y, z), h) =
    (gp, (z, (refl, some j, pr, x, rw (← e) h, y)))

pub lift_right :
    (t : Tree) (C : Context) (p : Option ℕ) (i j : ℕ) (c : Color) (l s : Shape)
    → Stands t (in_right C l i c) p j s
    → (gp : Option ℕ) × Stands t C gp i (node l i c s)
lift_right t C p i j c l s ((e, pl, gp, x, y, z), h) =
    (gp, (z, (refl, pl, some j, x, y, rw (← e) h)))

lower_left :
    (t : Tree) (C : Context) (gp : Option ℕ) (i j : ℕ) (c d : Color) (a b r : Shape)
    → Stands t C gp i (node (node a j d b) i c r)
    → Stands t (in_left C i c r) (some i) j (node a j d b)
lower_left t C gp i j c d a b r (z, (e, pl, pr, x, h, y)) = (
  (refl, pr, gp, subst (λ q. Cell t i q pr gp c) h.0 x, y, z),
  subst (λ q. Repr t (some i) q (node a j d b)) h.0 h,
)

lower_right :
    (t : Tree) (C : Context) (gp : Option ℕ) (i j : ℕ) (c d : Color) (a b l : Shape)
    → Stands t C gp i (node l i c (node a j d b))
    → Stands t (in_right C l i c) (some i) j (node a j d b)
lower_right t C gp i j c d a b l (z, (e, pl, pr, x, y, h)) = (
  (refl, pl, gp, subst (λ q. Cell t i pl q gp c) h.0 x, y, z),
  subst (λ q. Repr t (some i) q (node a j d b)) h.0 h,
)

module _ (t : Tree) (C : Context) (gp : Option ℕ) (a b s u : Shape) (x p g : ℕ) where
  pub outer_left :
      Stands t C gp g (node (node (node a x red b) p red s) g black u)
      → Once C (node (node (node a x red b) p red s) g black u)
      → is_red u ≡ false
      → (t' : Tree) × (fix_round t x ≡ some (done t'))
        × Stands t' C gp p (node (node a x red b) p black (node s g red u))
        × (length t'.arena ≡ length t.arena)
  unfolding rotate_case
  outer_left (hC, h) once dark =
      let (pu, n, hu) = place_left_left t gp a b s u x p g h in
      let run =
        fix_round-black t x p g pu true true (subst (λ r. Near t x p g pu r true true) dark n) in
      let (t₁, m₁, C₁, h₁, len₁) = insert_recolor-left t C gp (node a x red b) s u p g hC h once in
      let (t₂, m₂, C₂, h₂, len₂) =
        right_rotate_lem t₁ C u s (node a x red b) g p red black gp C₁ h₁
          (λ j. omega (arith, once j)) in
      (t₂, run ∙ rw (m₁, m₂) refl, (C₂, h₂), len₂ ∙ len₁)

  pub outer_right :
      Stands t C gp g (node u g black (node s p red (node a x red b)))
      → Once C (node u g black (node s p red (node a x red b)))
      → is_red u ≡ false
      → (t' : Tree) × (fix_round t x ≡ some (done t'))
        × Stands t' C gp p (node (node u g red s) p black (node a x red b))
        × (length t'.arena ≡ length t.arena)
  unfolding rotate_case
  outer_right (hC, h) once dark =
      let op = once p in
      let ox = once x in
      let hp = hit_self p in
      let hx = hit_self x in
      let (pu, n, hu) = place_right_right t gp a b s u x p g h (omega arith) (omega arith) in
      let run =
        fix_round-black t x p g pu false false
          (subst (λ r. Near t x p g pu r false false) dark n) in
      let (t₁, m₁, C₁, h₁, len₁) = insert_recolor-right t C gp s (node a x red b) u p g hC h once in
      let (t₂, m₂, C₂, h₂, len₂) =
        left_rotate_lem t₁ C u s (node a x red b) g p red black gp C₁ h₁
          (λ j. omega (arith, once j)) in
      (t₂, run ∙ rw (m₁, m₂) refl, (C₂, h₂), len₂ ∙ len₁)

  pub inner_left :
      Stands t C gp g (node (node s p red (node a x red b)) g black u)
      → Once C (node (node s p red (node a x red b)) g black u)
      → is_red u ≡ false
      → (t' : Tree) × (fix_round t x ≡ some (again t' p))
        × ((gp' : Option ℕ) × Stands t' C gp' g (node (node (node s p red a) x red b) g black u))
        × (length t'.arena ≡ length t.arena)
  unfolding rotate_case
  inner_left st once dark =
      let ox = once x in
      let hx = hit_self x in
      let (pu, n, hu) = place_left_right t gp a b s u x p g st.1 (omega arith) in
      let run =
        fix_round-black t x p g pu true false (subst (λ r. Near t x p g pu r true false) dark n) in
      let (hC, h) = lower_left t C gp g p black red s (node a x red b) u st in
      let (t₁, m₁, C₁, h₁, len₁) =
        left_rotate_lem t (in_left C g black u) s a b p x red red (some g) hC h
          (λ j. omega (arith, once j)) in
      (
        t₁,
        run ∙ rw m₁ refl,
        lift_left t₁ C (some g) g x black u (node (node s p red a) x red b) (C₁, h₁),
        len₁,
      )

  pub inner_right :
      Stands t C gp g (node u g black (node (node a x red b) p red s))
      → Once C (node u g black (node (node a x red b) p red s))
      → is_red u ≡ false
      → (t' : Tree) × (fix_round t x ≡ some (again t' p))
        × ((gp' : Option ℕ) × Stands t' C gp' g (node u g black (node a x red (node b p red s))))
        × (length t'.arena ≡ length t.arena)
  unfolding rotate_case
  inner_right st once dark =
      let op = once p in
      let hp = hit_self p in
      let (pu, n, hu) = place_right_left t gp a b s u x p g st.1 (omega arith) in
      let run =
        fix_round-black t x p g pu false true (subst (λ r. Near t x p g pu r false true) dark n) in
      let (hC, h) = lower_right t C gp g p black red (node a x red b) s u st in
      let (t₁, m₁, C₁, h₁, len₁) =
        right_rotate_lem t (in_right C u g black) s b a p x red red (some g) hC h
          (λ j. omega (arith, once j)) in
      (
        t₁,
        run ∙ rw m₁ refl,
        lift_right t₁ C (some g) g x black u (node a x red (node b p red s)) (C₁, h₁),
        len₁,
      )

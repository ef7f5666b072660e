-- ===== src/Memtable/Fix.antt =====
-- `insert_fix_tree` of memtable/inner.rs ends within its rounds, with a red-black tree of the same
-- nodes in the same order.
use lsmlite.Base.{ℕ, zero, suc, ◌+◌, ◌≤◌, ◌≡◌, ◌⊎◌, inl, inr, refl, ◌∙◌, arith}
use lsmlite.Base.{Option, none, some}
use lsmlite.Memtable.{Tree, Color, red, black}
use lsmlite.Memtable.Insert.{done, fix_round, below_parent, fix_loop}
use lsmlite.Memtable.Shape.{Shape, node, Context, top, in_left, in_right, plug, depth}
use lsmlite.Memtable.Shape.{Cell, Repr, Repr-plug}
use lsmlite.Memtable.Turn.{Once}
use lsmlite.Memtable.Balance.{RedBlack, RedBlackIn, Allowed, plug-Nearly}
use lsmlite.Memtable.Outer.{Stands, lift_left, lift_right}
use lsmlite.Memtable.Settle.{Settled, Risen, Fixed, Fixed-after, loop_done, loop_again}
use lsmlite.Memtable.Settle.{plug-Alike}
use lsmlite.Memtable.RiseLeft.{left_left, left_right}
use lsmlite.Memtable.RiseRight.{right_left, right_right}

round_root :
    (t : Tree) (x : ℕ) (l r : Option ℕ) (c : Color)
    → Cell t x l r none c
    → fix_round t x ≡ some (done t)
unfolding fix_round
round_root t x l r c k = rw (k.here, k.its_parent) refl

round_black :
    (t : Tree) (x i : ℕ) (l r l' r' p : Option ℕ) (c : Color)
    → Cell t x l r (some i) c
    → Cell t i l' r' p black
    → fix_round t x ≡ some (done t)
unfolding fix_round below_parent
round_black t x i l r l' r' p c k m = rw (k.here, k.its_parent, m.here, m.its_color) refl

-- Nothing is left to repair.
rest :
    (t : Tree) (C : Context) (p : Option ℕ) (x n k : ℕ) (s : Shape)
    → Stands t C p x s
    → RedBlackIn n C
    → RedBlack n s
    → Allowed C s
    → fix_round t x ≡ some (done t)
    → (t' : Tree) × (fix_loop (suc k) t x ≡ some t') × Fixed t t' (plug C s)
rest t C p x n k s st out hF ok run = (
  t,
  loop_done t t x k run,
  record {
    shape = plug C s;
    repr = Repr-plug t C s p (some x) st.0 st.1;
    alike = record { order = refl; once = λ j. refl; count = refl };
    rules = plug-Nearly C n s out hF ok;
    len = refl;
  },
)

-- From a settled loop, or from the loop two levels higher.
conclude :
    (t : Tree) (C : Context) (x k : ℕ) (s : Shape)
    → 1 ≤ k
    → Once C s
    → Settled t x (plug C s) ⊎ Risen t x C s
    → ((r : Risen t x C s)
        → Once C (node r.low r.focus red r.high)
        → (t' : Tree) × (fix_loop k r.next r.focus ≡ some t')
          × Fixed r.next t' (plug C (node r.low r.focus red r.high)))
    → (t' : Tree) × (fix_loop (suc k) t x ≡ some t') × Fixed t t' (plug C s)
conclude t C x zero s h once step ih = absurd (omega arith)
conclude t C x (suc k) s h once (inl (t', run, f)) ih = (t', run k, f)
conclude t C x (suc k) s h once (inr r) ih =
    let (t', run, f) = ih r (λ j. omega (arith, once j, r.alike.once j)) in
    (
      t',
      loop_again t r.next x r.focus (suc k) r.round ∙ run,
      Fixed-after t r.next t' _ _ r.len (plug-Alike C _ s r.alike) f,
    )

pub fix_loop_lem :
    (rounds : ℕ) (t : Tree) (C : Context) (p : Option ℕ) (a b : Shape) (x n : ℕ)
    → depth C + 2 ≤ rounds
    → Stands t C p x (node a x red b)
    → Once C (node a x red b)
    → RedBlackIn n C
    → RedBlack n (node a x red b)
    → (t' : Tree) × (fix_loop rounds t x ≡ some t') × Fixed t t' (plug C (node a x red b))
fix_loop_lem zero t C p a b x n h st once out hF = absurd (omega arith)
fix_loop_lem (suc k) t top p a b x n h ((e, f), st) once out hF =
    rest t top p x n k (node a x red b) ((e, f), st) out hF tt (root e st)
  where
    root : (p ≡ none) → Repr t p (some x) (node a x red b) → fix_round t x ≡ some (done t)
    root e (_, l, r, y, _, _) = round_root t x l r red (rw (← e) y)
fix_loop_lem (suc k) t (in_left C i black s) p a b x n h st once out hF =
    rest t (in_left C i black s) p x n k _ st out hF tt (parent st)
  where
    parent : Stands t (in_left C i black s) p x (node a x red b) → fix_round t x ≡ some (done t)
    parent ((e, pr, gp, y, _, _), (_, l, r, z, _, _)) =
        round_black t x i l r _ pr gp red (rw (← e) z) y
fix_loop_lem (suc k) t (in_right C s i black) p a b x n h st once out hF =
    rest t (in_right C s i black) p x n k _ st out hF tt (parent st)
  where
    parent : Stands t (in_right C s i black) p x (node a x red b) → fix_round t x ≡ some (done t)
    parent ((e, pl, gp, y, _, _), (_, l, r, z, _, _)) =
        round_black t x i l r pl _ gp red (rw (← e) z) y
fix_loop_lem (suc k) t (in_left top i red s) p a b x n h st once (_, _, u, _) hF = absurd u
fix_loop_lem (suc k) t (in_right top s i red) p a b x n h st once (_, _, u, _) hF = absurd u
fix_loop_lem (suc k) t (in_left (in_left C g red u) i red s) p a b x n h st once (_, _, v, _) hF =
    absurd v
fix_loop_lem (suc k) t (in_left (in_right C u g red) i red s) p a b x n h st once (_, _, v, _) hF =
    absurd v
fix_loop_lem (suc k) t (in_right (in_left C g red u) s i red) p a b x n h st once (_, _, v, _) hF =
    absurd v
fix_loop_lem (suc k) t (in_right (in_right C u g red) s i red) p a b x n h st once (_, _, v, _) hF =
    absurd v
fix_loop_lem (suc k) t (in_left (in_left C g black u) i red s) p a b x n h st once
      (rs, hs, _, (hu, out)) hF =
    let (gp, st₁) = lift_left t (in_left C g black u) p i x red s (node a x red b) st in
    let (ggp, st₂) = lift_left t C gp g i black u (node (node a x red b) i red s) st₁ in
    let once' : Once C (node (node (node a x red b) i red s) g black u) =
      λ j. omega (arith, once j) in
    conclude t C x k _ (omega arith) once'
      (left_left t C ggp a b s x i g n u st₂ once' out hF rs hs hu)
      (λ r o.
        fix_loop_lem k r.next C r.above r.low r.high r.focus r.height (omega arith) r.stands o
          r.outside r.inside)
fix_loop_lem (suc k) t (in_right (in_left C g black u) s i red) p a b x n h st once
      (rs, hs, _, (hu, out)) hF =
    let (gp, st₁) = lift_right t (in_left C g black u) p i x red s (node a x red b) st in
    let (ggp, st₂) = lift_left t C gp g i black u (node s i red (node a x red b)) st₁ in
    let once' : Once C (node (node s i red (node a x red b)) g black u) =
      λ j. omega (arith, once j) in
    conclude t C x k _ (omega arith) once'
      (left_right t C ggp a b s x i g n u st₂ once' out hF rs hs hu)
      (λ r o.
        fix_loop_lem k r.next C r.above r.low r.high r.focus r.height (omega arith) r.stands o
          r.outside r.inside)
fix_loop_lem (suc k) t (in_left (in_right C u g black) i red s) p a b x n h st once
      (rs, hs, _, (hu, out)) hF =
    let (gp, st₁) = lift_left t (in_right C u g black) p i x red s (node a x red b) st in
    let (ggp, st₂) = lift_right t C gp g i black u (node (node a x red b) i red s) st₁ in
    let once' : Once C (node u g black (node (node a x red b) i red s)) =
      λ j. omega (arith, once j) in
    conclude t C x k _ (omega arith) once'
      (right_left t C ggp a b s x i g n u st₂ once' out hF rs hs hu)
      (λ r o.
        fix_loop_lem k r.next C r.above r.low r.high r.focus r.height (omega arith) r.stands o
          r.outside r.inside)
fix_loop_lem (suc k) t (in_right (in_right C u g black) s i red) p a b x n h st once
      (rs, hs, _, (hu, out)) hF =
    let (gp, st₁) = lift_right t (in_right C u g black) p i x red s (node a x red b) st in
    let (ggp, st₂) = lift_right t C gp g i black u (node s i red (node a x red b)) st₁ in
    let once' : Once C (node u g black (node s i red (node a x red b))) =
      λ j. omega (arith, once j) in
    conclude t C x k _ (omega arith) once'
      (right_right t C ggp a b s x i g n u st₂ once' out hF rs hs hu)
      (λ r o.
        fix_loop_lem k r.next C r.above r.low r.high r.focus r.height (omega arith) r.stands o
          r.outside r.inside)

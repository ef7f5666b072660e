-- ===== src/Memtable/RiseLeft.antt =====
-- Below a left child, the places of a red node below a red parent in memtable/inner.rs: the loop ends there, or
-- goes on at the grandparent.
use mathlib.Core.Path.{subst}
use lsmlite.Base.{ℕ, suc, ◌≡◌, ◌⊎◌, inl, inr, refl, ◌∙◌, arith, Option, some, false}
use lsmlite.Base.{true}
use lsmlite.Memtable.{Tree, red, black}
use lsmlite.Memtable.Insert.{fix_round, by_uncle}
use lsmlite.Memtable.Shape.{Shape, leaf, node, Context, plug, hit_self}
use lsmlite.Memtable.Turn.{Once}
use lsmlite.Memtable.Balance.{is_red, RedBlack, RedBlackIn}
use lsmlite.Memtable.Recolor.{recolor_left}
use lsmlite.Memtable.Round.{fix_round_lem}
use lsmlite.Memtable.Round.{place_left_left, place_left_right}
use lsmlite.Memtable.Outer.{Stands, outer_left, inner_left}
use lsmlite.Memtable.Settle.{Alike, Settled, Risen, settle, loop_done, loop_again}
use lsmlite.Memtable.Settle.{Alike-trans, turned, turned_back}
use lsmlite.Base.{ap, ◌++◌, ◌∷◌}
use lsmlite.Memtable.{Color}
use lsmlite.Memtable.Shape.{inorder}

-- What is alike stays so below a node.
under_left :
    {c : Color} {g : ℕ} {u : Shape} {s s' : Shape}
    → Alike s s'
    → Alike (node s g c u) (node s' g c u)
under_left {g = g} {u = u} x = record {
  order = ap (λ l. l ++ (g ∷ inorder u)) x.order;
  once = λ j. omega (arith, x.once j);
  count = omega (arith, x.count);
}

module _ (t : Tree) (C : Context) (gp : Option ℕ) (a b s : Shape) (x p g n : ℕ) where
  left_left_dark :
      (u : Shape)
      → Stands t C gp g (node (node (node a x red b) p red s) g black u)
      → Once C (node (node (node a x red b) p red s) g black u)
      → RedBlackIn (suc n) C
      → RedBlack n (node a x red b)
      → is_red s ≡ false
      → RedBlack n s
      → RedBlack n u
      → is_red u ≡ false
      → Settled t x (plug C (node (node (node a x red b) p red s) g black u))
  left_left_dark u st once out hF rs hs hu dark =
      let (t', run, st', len) = outer_left t C gp a b s u x p g st once dark in
      (
        t',
        λ k. loop_done t t' x (suc k) run,
        settle t t' C gp p n (node a x red b) (node s g red u) _ st'
            (turned_back _ s u p g red black black red) out hF (rs, dark, hs, hu) len,
      )

  left_left_rise :
      (c d : Shape) (i : ℕ)
      → Stands t C gp g (node (node (node a x red b) p red s) g black (node c i red d))
      → Once C (node (node (node a x red b) p red s) g black (node c i red d))
      → RedBlackIn (suc n) C
      → RedBlack n (node a x red b)
      → is_red s ≡ false
      → RedBlack n s
      → RedBlack n c
      → RedBlack n d
      → Risen t x C (node (node (node a x red b) p red s) g black (node c i red d))
  left_left_rise c d i (hC, h) once out hF rs hs hc hd =
      let (pu, near, hu) = place_left_left t gp a b s (node c i red d) x p g h in
      let run : fix_round t x ≡ by_uncle t x p g (some i) true =
        subst (λ q. fix_round t x ≡ by_uncle t x p g q true) hu.0
          (fix_round_lem t x p g pu true true true near) in
      let (t', m, C', h', len) = recolor_left t C gp (node a x red b) s c d p g i hC h once in
      record {
        next = t';
        focus = g;
        above = gp;
        low = node (node a x red b) p black s;
        high = node c i black d;
        height = suc n;
        round = run ∙ (unfold by_uncle in m);
        stands = (C', h');
        alike = record { order = refl; once = λ j. refl; count = refl };
        inside = (refl, refl, (n, refl, hF, hs), (n, refl, hc, hd));
        outside = out;
        len = len;
      }

  pub left_left :
      (u : Shape)
      → Stands t C gp g (node (node (node a x red b) p red s) g black u)
      → Once C (node (node (node a x red b) p red s) g black u)
      → RedBlackIn (suc n) C
      → RedBlack n (node a x red b)
      → is_red s ≡ false
      → RedBlack n s
      → RedBlack n u
      → Settled t x (plug C (node (node (node a x red b) p red s) g black u))
        ⊎ Risen t x C (node (node (node a x red b) p red s) g black u)
  left_left leaf st once out hF rs hs hu = inl (left_left_dark leaf st once out hF rs hs hu refl)
  left_left (node c i black d) st once out hF rs hs hu =
      inl (left_left_dark (node c i black d) st once out hF rs hs hu refl)
  left_left (node c i red d) st once out hF rs hs (rc, rd, hc, hd) =
      inr (left_left_rise c d i st once out hF rs hs hc hd)

  left_right_dark :
      (u : Shape)
      → Stands t C gp g (node (node s p red (node a x red b)) g black u)
      → Once C (node (node s p red (node a x red b)) g black u)
      → RedBlackIn (suc n) C
      → RedBlack n (node a x red b)
      → is_red s ≡ false
      → RedBlack n s
      → RedBlack n u
      → is_red u ≡ false
      → Settled t x (plug C (node (node s p red (node a x red b)) g black u))
  left_right_dark u st once out (ra, rb, ha, hb) rs hs hu dark =
      let (t₁, run₁, (gp', st₁), len₁) = inner_left t C gp a b s u x p g st once dark in
      let (t', run, st', len) =
        outer_left t₁ C gp' s a b u p x g st₁ (λ j. omega (arith, once j)) dark in
      (
        t',
        λ k. loop_again t t₁ x p (suc k) run₁ ∙ loop_done t₁ t' p k run,
        settle t t' C gp' x n (node s p red a) (node b g red u) _ st'
            (Alike-trans _ _ _ (turned_back _ b u x g red black black red)
              (under_left (turned s a b p x red red red red)))
            out (rs, ra, hs, ha) (rb, dark, hb, hu) (len ∙ len₁),
      )

  left_right_rise :
      (c d : Shape) (i : ℕ)
      → Stands t C gp g (node (node s p red (node a x red b)) g black (node c i red d))
      → Once C (node (node s p red (node a x red b)) g black (node c i red d))
      → RedBlackIn (suc n) C
      → RedBlack n (node a x red b)
      → is_red s ≡ false
      → RedBlack n s
      → RedBlack n c
      → RedBlack n d
      → Risen t x C (node (node s p red (node a x red b)) g black (node c i red d))
  left_right_rise c d i (hC, h) once out hF rs hs hc hd =
      let ox = once x in
      let hx = hit_self x in
      let (pu, near, hu) = place_left_right t gp a b s (node c i red d) x p g h (omega arith) in
      let run : fix_round t x ≡ by_uncle t x p g (some i) true =
        subst (λ q. fix_round t x ≡ by_uncle t x p g q true) hu.0
          (fix_round_lem t x p g pu true true false near) in
      let (t', m, C', h', len) = recolor_left t C gp s (node a x red b) c d p g i hC h once in
      record {
        next = t';
        focus = g;
        above = gp;
        low = node s p black (node a x red b);
        high = node c i black d;
        height = suc n;
        round = run ∙ (unfold by_uncle in m);
        stands = (C', h');
        alike = record { order = refl; once = λ j. refl; count = refl };
        inside = (refl, refl, (n, refl, hs, hF), (n, refl, hc, hd));
        outside = out;
        len = len;
      }

  pub left_right :
      (u : Shape)
      → Stands t C gp g (node (node s p red (node a x red b)) g black u)
      → Once C (node (node s p red (node a x red b)) g black u)
      → RedBlackIn (suc n) C
      → RedBlack n (node a x red b)
      → is_red s ≡ false
      → RedBlack n s
      → RedBlack n u
      → Settled t x (plug C (node (node s p red (node a x red b)) g black u))
        ⊎ Risen t x C (node (node s p red (node a x red b)) g black u)
  left_right leaf st once out hF rs hs hu = inl (left_right_dark leaf st once out hF rs hs hu refl)
  left_right (node c i black d) st once out hF rs hs hu =
      inl (left_right_dark (node c i black d) st once out hF rs hs hu refl)
  left_right (node c i red d) st once out hF rs hs (rc, rd, hc, hd) =
      inr (left_right_rise c d i st once out hF rs hs hc hd)

-- ===== src/Memtable/RiseRight.antt =====
-- Below a right child, the places of a red node below a red parent in memtable/inner.rs: the loop ends there, or
-- goes on at the grandparent.
use mathlib.Core.Path.{subst}
use lsmlite.Base.{ℕ, suc, ◌≡◌, ◌⊎◌, inl, inr, refl, ◌∙◌, arith, Option, some, false}
use lsmlite.Base.{true}
use lsmlite.Memtable.{Tree, red, black}
use lsmlite.Memtable.Insert.{fix_round, by_uncle}
use lsmlite.Memtable.Shape.{Shape, leaf, node, Context, plug, hit_self}
use lsmlite.Memtable.Turn.{Once}
use lsmlite.Memtable.Balance.{is_red, RedBlack, RedBlackIn}
use lsmlite.Memtable.Recolor.{recolor_right}
use lsmlite.Memtable.Round.{fix_round_lem}
use lsmlite.Memtable.Round.{place_right_left, place_right_right}
use lsmlite.Memtable.Outer.{Stands, outer_right, inner_right}
use lsmlite.Memtable.Settle.{Alike, Settled, Risen, settle, loop_done, loop_again}
use lsmlite.Memtable.Settle.{Alike-trans, turned, turned_back}
use lsmlite.Base.{ap, ◌++◌, ◌∷◌}
use lsmlite.Memtable.{Color}
use lsmlite.Memtable.Shape.{inorder}

-- What is alike stays so below a node.
under_right :
    {c : Color} {g : ℕ} {u : Shape} {s s' : Shape}
    → Alike s s'
    → Alike (node u g c s) (node u g c s')
under_right {g = g} {u = u} x = record {
  order = ap (λ l. inorder u ++ (g ∷ l)) x.order;
  once = λ j. omega (arith, x.once j);
  count = omega (arith, x.count);
}

module _ (t : Tree) (C : Context) (gp : Option ℕ) (a b s : Shape) (x p g n : ℕ) where
  right_left_dark :
      (u : Shape)
      → Stands t C gp g (node u g black (node (node a x red b) p red s))
      → Once C (node u g black (node (node a x red b) p red s))
      → RedBlackIn (suc n) C
      → RedBlack n (node a x red b)
      → is_red s ≡ false
      → RedBlack n s
      → RedBlack n u
      → is_red u ≡ false
      → Settled t x (plug C (node u g black (node (node a x red b) p red s)))
  right_left_dark u st once out (ra, rb, ha, hb) rs hs hu dark =
      let (t₁, run₁, (gp', st₁), len₁) = inner_right t C gp a b s u x p g st once dark in
      let (t', run, st', len) =
        outer_right t₁ C gp' b s a u p x g st₁ (λ j. omega (arith, once j)) dark in
      (
        t',
        λ k. loop_again t t₁ x p (suc k) run₁ ∙ loop_done t₁ t' p k run,
        settle t t' C gp' x n (node u g red a) (node b p red s) _ st'
            (Alike-trans _ _ _ (turned u a _ g x red black black red)
              (under_right (turned_back a b s x p red red red red)))
            out (dark, ra, hu, ha) (rb, rs, hb, hs) (len ∙ len₁),
      )

  right_left_rise :
      (c d : Shape) (i : ℕ)
      → Stands t C gp g (node (node c i red d) g black (node (node a x red b) p red s))
      → Once C (node (node c i red d) g black (node (node a x red b) p red s))
      → RedBlackIn (suc n) C
      → RedBlack n (node a x red b)
      → is_red s ≡ false
      → RedBlack n s
      → RedBlack n c
      → RedBlack n d
      → Risen t x C (node (node c i red d) g black (node (node a x red b) p red s))
  right_left_rise c d i (hC, h) once out hF rs hs hc hd =
      let op = once p in
      let hp = hit_self p in
      let (pu, near, hu) = place_right_left t gp a b s (node c i red d) x p g h (omega arith) in
      let run : fix_round t x ≡ by_uncle t x p g (some i) true =
        subst (λ q. fix_round t x ≡ by_uncle t x p g q true) hu.0
          (fix_round_lem t x p g pu true false true near) in
      let (t', m, C', h', len) = recolor_right t C gp (node a x red b) s c d p g i hC h once in
      record {
        next = t';
        focus = g;
        above = gp;
        low = node c i black d;
        high = node (node a x red b) p black s;
        height = suc n;
        round = run ∙ (unfold by_uncle in m);
        stands = (C', h');
        alike = record { order = refl; once = λ j. refl; count = refl };
        inside = (refl, refl, (n, refl, hc, hd), (n, refl, hF, hs));
        outside = out;
        len = len;
      }

  pub right_left :
      (u : Shape)
      → Stands t C gp g (node u g black (node (node a x red b) p red s))
      → Once C (node u g black (node (node a x red b) p red s))
      → RedBlackIn (suc n) C
      → RedBlack n (node a x red b)
      → is_red s ≡ false
      → RedBlack n s
      → RedBlack n u
      → Settled t x (plug C (node u g black (node (node a x red b) p red s)))
        ⊎ Risen t x C (node u g black (node (node a x red b) p red s))
  right_left leaf st once out hF rs hs hu = inl (right_left_dark leaf st once out hF rs hs hu refl)
  right_left (node c i black d) st once out hF rs hs hu =
      inl (right_left_dark (node c i black d) st once out hF rs hs hu refl)
  right_left (node c i red d) st once out hF rs hs (rc, rd, hc, hd) =
      inr (right_left_rise c d i st once out hF rs hs hc hd)

  right_right_dark :
      (u : Shape)
      → Stands t C gp g (node u g black (node s p red (node a x red b)))
      → Once C (node u g black (node s p red (node a x red b)))
      → RedBlackIn (suc n) C
      → RedBlack n (node a x red b)
      → is_red s ≡ false
      → RedBlack n s
      → RedBlack n u
      → is_red u ≡ false
      → Settled t x (plug C (node u g black (node s p red (node a x red b))))
  right_right_dark u st once out hF rs hs hu dark =
      let (t', run, st', len) = outer_right t C gp a b s u x p g st once dark in
      (
        t',
        λ k. loop_done t t' x (suc k) run,
        settle t t' C gp p n (node u g red s) (node a x red b) _ st'
            (turned u s _ g p red black black red) out (dark, rs, hu, hs) hF len,
      )

  right_right_rise :
      (c d : Shape) (i : ℕ)
      → Stands t C gp g (node (node c i red d) g black (node s p red (node a x red b)))
      → Once C (node (node c i red d) g black (node s p red (node a x red b)))
      → RedBlackIn (suc n) C
      → RedBlack n (node a x red b)
      → is_red s ≡ false
      → RedBlack n s
      → RedBlack n c
      → RedBlack n d
      → Risen t x C (node (node c i red d) g black (node s p red (node a x red b)))
  right_right_rise c d i (hC, h) once out hF rs hs hc hd =
      let ox = once x in
      let hx = hit_self x in
      let op = once p in
      let hp = hit_self p in
      let (pu, near, hu) =
        place_right_right t gp a b s (node c i red d) x p g h (omega arith) (omega arith) in
      let run : fix_round t x ≡ by_uncle t x p g (some i) true =
        subst (λ q. fix_round t x ≡ by_uncle t x p g q true) hu.0
          (fix_round_lem t x p g pu true false false near) in
      let (t', m, C', h', len) = recolor_right t C gp s (node a x red b) c d p g i hC h once in
      record {
        next = t';
        focus = g;
        above = gp;
        low = node c i black d;
        high = node s p black (node a x red b);
        height = suc n;
        round = run ∙ (unfold by_uncle in m);
        stands = (C', h');
        alike = record { order = refl; once = λ j. refl; count = refl };
        inside = (refl, refl, (n, refl, hc, hd), (n, refl, hs, hF));
        outside = out;
        len = len;
      }

  pub right_right :
      (u : Shape)
      → Stands t C gp g (node u g black (node s p red (node a x red b)))
      → Once C (node u g black (node s p red (node a x red b)))
      → RedBlackIn (suc n) C
      → RedBlack n (node a x red b)
      → is_red s ≡ false
      → RedBlack n s
      → RedBlack n u
      → Settled t x (plug C (node u g black (node s p red (node a x red b))))
        ⊎ Risen t x C (node u g black (node s p red (node a x red b)))
  right_right leaf st once out hF rs hs hu =
      inl (right_right_dark leaf st once out hF rs hs hu refl)
  right_right (node c i black d) st once out hF rs hs hu =
      inl (right_right_dark (node c i black d) st once out hF rs hs hu refl)
  right_right (node c i red d) st once out hF rs hs (rc, rd, hc, hd) =
      inr (right_right_rise c d i st once out hF rs hs hc hd)

-- ===== src/Memtable/Settle.antt =====
-- How the loop of `insert_fix_tree` of memtable/inner.rs ends, and what each round leaves alone.
use lsmlite.Base.{ℕ, suc, ◌≡◌, refl, sym, ◌∙◌, ap, arith, Option, none, some, length}
use lsmlite.Base.{append_assoc, ◌++◌}
use lsmlite.Memtable.{Tree, Color, red, black}
use lsmlite.Memtable.Insert.{done, again, fix_round, fix_loop}
use lsmlite.Memtable.Shape.{Shape, node, Context, plug, occ, occ-plug}
use lsmlite.Memtable.Shape.{size, size-plug, inorder, before, after, inorder-plug}
use lsmlite.Memtable.Shape.{Repr, Repr-plug}
use lsmlite.Memtable.Balance.{RedBlack, RedBlackIn, Nearly, plug-Nearly, black-Allowed}
use lsmlite.Memtable.Outer.{Stands}

-- The same nodes in the same order.
pub record Alike (s s' : Shape) : Type 0 where
  pub order : inorder s ≡ inorder s'
  pub once : (j : ℕ) → occ j s ≡ occ j s'
  pub count : size s ≡ size s'

pub Alike-trans : (a b c : Shape) → Alike a b → Alike b c → Alike a c
Alike-trans a b c x y = record {
  order = x.order ∙ y.order;
  once = λ j. x.once j ∙ y.once j;
  count = x.count ∙ y.count;
}

pub plug-Alike : (C : Context) (s s' : Shape) → Alike s s' → Alike (plug C s) (plug C s')
plug-Alike C s s' x = record {
  order = inorder-plug C s ∙ ap (λ l. before C ++ (l ++ after C)) x.order ∙ sym (inorder-plug C s');
  once = λ j. omega (arith, occ-plug j C s, occ-plug j C s', x.once j);
  count = omega (arith, size-plug C s, size-plug C s', x.count);
}

pub turned :
    (a b d : Shape) (n r : ℕ) (c₁ c₂ c₃ c₄ : Color)
    → Alike (node (node a n c₁ b) r c₂ d) (node a n c₃ (node b r c₄ d))
turned a b d n r c₁ c₂ c₃ c₄ = record {
  order = simp append_assoc;
  once = λ j. omega arith;
  count = omega arith;
}

pub turned_back :
    (a b d : Shape) (n r : ℕ) (c₁ c₂ c₃ c₄ : Color)
    → Alike (node a n c₃ (node b r c₄ d)) (node (node a n c₁ b) r c₂ d)
turned_back a b d n r c₁ c₂ c₃ c₄ = record {
  order = simp append_assoc;
  once = λ j. omega arith;
  count = omega arith;
}

-- The tree `t'` has the nodes of `s` in their order, and keeps the rules but for the root.
pub record Fixed (t t' : Tree) (s : Shape) : Type 0 where
  pub shape : Shape
  pub repr : Repr t' none t'.root_node shape
  pub alike : Alike shape s
  pub rules : Nearly shape
  pub len : length t'.arena ≡ length t.arena

pub Fixed-after :
    (t t₁ t' : Tree) (s s' : Shape)
    → length t₁.arena ≡ length t.arena
    → Alike s s'
    → Fixed t₁ t' s
    → Fixed t t' s'
Fixed-after t t₁ t' s s' e x f = record {
  shape = f.shape;
  repr = f.repr;
  alike = Alike-trans f.shape s s' f.alike x;
  rules = f.rules;
  len = f.len ∙ e;
}

-- The loop ends within two rounds.
abbrev pub Settled : Tree → ℕ → Shape → Type 0
Settled t x s = (t' : Tree) × ((k : ℕ) → fix_loop (suc (suc k)) t x ≡ some t') × Fixed t t' s

-- Or it goes on two levels higher, with a red node in the place of the subtree `s`.
pub record Risen (t : Tree) (x : ℕ) (C : Context) (s : Shape) : Type 0 where
  pub next : Tree
  pub focus : ℕ
  pub above : Option ℕ
  pub low : Shape
  pub high : Shape
  pub height : ℕ
  pub round : fix_round t x ≡ some (again next focus)
  pub stands : Stands next C above focus (node low focus red high)
  pub alike : Alike (node low focus red high) s
  pub inside : RedBlack height (node low focus red high)
  pub outside : RedBlackIn height C
  pub len : length next.arena ≡ length t.arena

pub loop_done :
    (t t' : Tree) (x k : ℕ) → fix_round t x ≡ some (done t') → fix_loop (suc k) t x ≡ some t'
unfolding fix_loop
loop_done t t' x k e = rw e refl

pub loop_again :
    (t t' : Tree) (x x' k : ℕ)
    → fix_round t x ≡ some (again t' x')
    → fix_loop (suc k) t x ≡ fix_loop k t' x'
unfolding fix_loop
loop_again t t' x x' k e = rw e refl

module _ (t t' : Tree) (C : Context) (gp : Option ℕ) (i n : ℕ) (l r : Shape) where
  -- A subtree with a black root in its context.
  pub settle :
      (s : Shape)
      → Stands t' C gp i (node l i black r)
      → Alike (node l i black r) s
      → RedBlackIn (suc n) C
      → RedBlack n l
      → RedBlack n r
      → length t'.arena ≡ length t.arena
      → Fixed t t' (plug C s)
  settle s (hC, h) x out hl hr e = record {
    shape = plug C (node l i black r);
    repr = Repr-plug t' C (node l i black r) gp (some i) hC h;
    alike = plug-Alike C (node l i black r) s x;
    rules = plug-Nearly C (suc n) (node l i black r) out (n, refl, hl, hr) (black-Allowed C _ refl);
    len = e;
  }

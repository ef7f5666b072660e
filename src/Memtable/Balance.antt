-- ===== src/Memtable/Balance.antt =====
-- The rules of a red-black tree, as the comment at the head of memtable/inner.rs lists them.
use lsmlite.Base.{ℕ, suc, ◌≡◌, refl, Bool, true, false}
use lsmlite.Memtable.{red, black}
use lsmlite.Memtable.Shape.{Shape, leaf, node, Context, top, in_left, in_right, plug}

abbrev pub is_red : Shape → Bool
is_red leaf = false
is_red (node l i red r) = true
is_red (node l i black r) = false

-- No red node has a red child, and each path down passes `n` black nodes.
abbrev pub RedBlack : ℕ → Shape → Type 0
RedBlack n leaf = n ≡ 0
RedBlack n (node l i red r) = (is_red l ≡ false) × (is_red r ≡ false) × RedBlack n l × RedBlack n r
RedBlack n (node l i black r) = (m : ℕ) × (n ≡ suc m) × RedBlack m l × RedBlack m r

abbrev pub UnderBlack : Context → Type 0
UnderBlack top = ⊥
UnderBlack (in_left C i red r) = ⊥
UnderBlack (in_left C i black r) = Unit {0}
UnderBlack (in_right C l i red) = ⊥
UnderBlack (in_right C l i black) = Unit {0}

-- The same of a context whose hole takes a black shape of black height `n`; its root is black.
abbrev pub RedBlackIn : ℕ → Context → Type 0
RedBlackIn n top = Unit {0}
RedBlackIn n (in_left C i red r) = (is_red r ≡ false) × RedBlack n r × UnderBlack C × RedBlackIn n C
RedBlackIn n (in_left C i black r) = RedBlack n r × RedBlackIn (suc n) C
RedBlackIn n (in_right C l i red) =
    (is_red l ≡ false) × RedBlack n l × UnderBlack C × RedBlackIn n C
RedBlackIn n (in_right C l i black) = RedBlack n l × RedBlackIn (suc n) C

-- What a shape must be to stand in the hole.
abbrev pub Allowed : Context → Shape → Type 0
Allowed top s = Unit {0}
Allowed (in_left C i red r) s = is_red s ≡ false
Allowed (in_left C i black r) s = Unit {0}
Allowed (in_right C l i red) s = is_red s ≡ false
Allowed (in_right C l i black) s = Unit {0}

pub UnderBlack-Allowed : (C : Context) (s : Shape) → UnderBlack C → Allowed C s
UnderBlack-Allowed top s u = tt
UnderBlack-Allowed (in_left C i red r) s u = absurd u
UnderBlack-Allowed (in_left C i black r) s u = tt
UnderBlack-Allowed (in_right C l i red) s u = absurd u
UnderBlack-Allowed (in_right C l i black) s u = tt

pub black-Allowed : (C : Context) (s : Shape) → is_red s ≡ false → Allowed C s
black-Allowed top s u = tt
black-Allowed (in_left C i red r) s u = u
black-Allowed (in_left C i black r) s u = tt
black-Allowed (in_right C l i red) s u = u
black-Allowed (in_right C l i black) s u = tt

-- The rules hold once the root is black.
abbrev pub Nearly : Shape → Type 0
Nearly leaf = Unit {0}
Nearly (node l i c r) = (m : ℕ) × RedBlack m l × RedBlack m r

pub RedBlack-Nearly : (n : ℕ) (s : Shape) → RedBlack n s → Nearly s
RedBlack-Nearly n leaf h = tt
RedBlack-Nearly n (node l i red r) h = (n, h.2, h.3)
RedBlack-Nearly n (node l i black r) h = (h.0, h.2, h.3)

pub plug-Nearly :
    (C : Context) (n : ℕ) (s : Shape)
    → RedBlackIn n C
    → RedBlack n s
    → Allowed C s
    → Nearly (plug C s)
plug-Nearly top n s c h a = RedBlack-Nearly n s h
plug-Nearly (in_left C i red r) n s (b, k, u, c) h a =
    plug-Nearly C n (node s i red r) c (a, b, h, k) (UnderBlack-Allowed C _ u)
plug-Nearly (in_left C i black r) n s (k, c) h a =
    plug-Nearly C (suc n) (node s i black r) c (n, refl, h, k) (black-Allowed C _ refl)
plug-Nearly (in_right C l i red) n s (b, k, u, c) h a =
    plug-Nearly C n (node l i red s) c (b, a, k, h) (UnderBlack-Allowed C _ u)
plug-Nearly (in_right C l i black) n s (k, c) h a =
    plug-Nearly C (suc n) (node l i black s) c (n, refl, k, h) (black-Allowed C _ refl)

-- ===== src/Memtable/Unplug.antt =====
-- A red-black tree, taken apart at a hole: the rules of memtable/inner.rs in the context.
use lsmlite.Base.{ℕ, ◌≡◌, false}
use lsmlite.Memtable.{red, black}
use lsmlite.Memtable.Shape.{Shape, node, Context, top, in_left, in_right, plug}
use lsmlite.Memtable.Balance.{is_red, RedBlack, RedBlackIn, UnderBlack}

-- A red shape does not stand under a red node, nor at the root.
abbrev Under : Context → Shape → Type 0
Under top s = is_red s ≡ false
Under (in_left C i red r) s = is_red s ≡ false
Under (in_left C i black r) s = Unit {0}
Under (in_right C l i red) s = is_red s ≡ false
Under (in_right C l i black) s = Unit {0}

red-UnderBlack :
    (C : Context) (l : Shape) (i : ℕ) (r : Shape) → Under C (node l i red r) → UnderBlack C
red-UnderBlack top l i r h = cc
red-UnderBlack (in_left C j red s) l i r h = cc
red-UnderBlack (in_left C j black s) l i r h = tt
red-UnderBlack (in_right C s j red) l i r h = cc
red-UnderBlack (in_right C s j black) l i r h = tt

pub unplug :
    (C : Context) (s : Shape) (m : ℕ)
    → RedBlack m (plug C s)
    → is_red (plug C s) ≡ false
    → (n : ℕ) × RedBlackIn n C × RedBlack n s × Under C s
unplug top s m h dark = (m, tt, h, dark)
unplug (in_left C i red r) s m h dark =
    let (n, k, (rs, rr, hs, hr), u) = unplug C (node s i red r) m h dark in
    (n, (rr, hr, red-UnderBlack C s i r u, k), hs, rs)
unplug (in_left C i black r) s m h dark =
    let (n, k, (n', e, hs, hr), u) = unplug C (node s i black r) m h dark in
    (n', (hr, rw (← e) k), hs, tt)
unplug (in_right C l i red) s m h dark =
    let (n, k, (rl, rs, hl, hs), u) = unplug C (node l i red s) m h dark in
    (n, (rl, hl, red-UnderBlack C l i s u, k), hs, rs)
unplug (in_right C l i black) s m h dark =
    let (n, k, (n', e, hl, hs), u) = unplug C (node l i black s) m h dark in
    (n', (hl, rw (← e) k), hs, tt)

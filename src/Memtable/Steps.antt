-- ===== src/Memtable/Steps.antt =====
-- What one assignment of memtable/inner.rs to a node changes, and the two in which a rotation
-- reaches for the node's surroundings.
use lsmlite.Base.{ℕ, ◌≤◌, ◌≡◌, ◌≢◌, refl, sym, ap, arith, Option, some}
use lsmlite.Base.{length, length-set, get_elem?-set_self, get_elem?-set_ne, get_elem?-lt}
use lsmlite.Base.{true, false, inl, inr, Bool-cases, ◌==◌}
use lsmlite.Memtable.{MemtableNode, Tree, at, modify, points_to}
use lsmlite.Memtable.{with_left, with_right, with_parent}
use lsmlite.Memtable.Rotate.{set_parent, swap_in}
use lsmlite.Memtable.Shape.{Shape, leaf, node, Context, top, in_left, in_right, hit, hit_self}
use lsmlite.Memtable.Shape.{occ, occ_in, Repr, ReprIn, Repr-same, ReprIn-same}

-- `t'` is `t` with `x` at the index `i`.
pub record Wrote (t t' : Tree) (i : ℕ) (x : MemtableNode) : Type 0 where
  pub now : at t' i ≡ some x
  pub rest : (j : ℕ) → j ≢ i → at t' j ≡ at t j
  pub root : t'.root_node ≡ t.root_node
  pub size : length t'.arena ≡ length t.arena

pub modify_lem :
    (t : Tree) (i : ℕ) (f : MemtableNode → MemtableNode) (x : MemtableNode)
    → at t i ≡ some x
    → (t' : Tree) × (modify t i f ≡ some t') × Wrote t t' i (f x)
unfolding modify at
modify_lem t i f x e = (
  _,
  rw e,
  record {
    now = get_elem?-set_self t.arena i (f x) (get_elem?-lt t.arena i e);
    rest = λ j h. get_elem?-set_ne t.arena i j (f x) (λ q. h (sym q));
    root = refl;
    size = length-set t.arena i (f x);
  },
)

pub ne_of_occ : (i j : ℕ) (s : Shape) → occ i s ≡ 0 → 1 ≤ occ j s → j ≢ i
ne_of_occ i j s h k e = absurd (omega (arith, ap (λ x. occ x s) e))

pub ne_of_occ_in : (i j : ℕ) (C : Context) → occ_in i C ≡ 0 → 1 ≤ occ_in j C → j ≢ i
ne_of_occ_in i j C h k e = absurd (omega (arith, ap (λ x. occ_in x C) e))

-- `set_parent` gives a subtree another parent, and leaves all nodes outside of it.
pub set_parent_lem :
    (t : Tree) (s : Shape) (p ptr : Option ℕ) (n : ℕ)
    → Repr t p ptr s
    → ((j : ℕ) → occ j s ≤ 1)
    → (t' : Tree) × (set_parent ptr n t ≡ some t')
      × Repr t' (some n) ptr s
      × ((j : ℕ) → occ j s ≡ 0 → at t' j ≡ at t j)
      × (t'.root_node ≡ t.root_node)
      × (length t'.arena ≡ length t.arena)
unfolding set_parent
set_parent_lem t leaf p ptr n h once = (t, rw h, h, λ j q. refl, refl, refl)
set_parent_lem t (node l i c r) p ptr n (e, pl, pr, x, y, z) once =
    let (t', m, w) = modify_lem t i (with_parent (some n)) x.cell x.here in
    let o = once i in
    let u = hit_self i in
    (
      t',
      rw (e, m),
      (
        e,
        pl,
        pr,
        record {
          cell = with_parent (some n) x.cell;
          here = w.now;
          its_left = x.its_left;
          its_right = x.its_right;
          its_parent = refl;
          its_color = x.its_color;
        },
        Repr-same t t' l (some i) pl (λ j h. w.rest j (ne_of_occ i j l (omega arith) h)) y,
        Repr-same t t' r (some i) pr (λ j h. w.rest j (ne_of_occ i j r (omega arith) h)) z,
      ),
      λ j q. w.rest j (ne_of_hit j i (omega arith)),
      w.root,
      w.size,
    )
  where
    ne_of_hit : (j i : ℕ) → hit j i ≡ 0 → j ≢ i
    ne_of_hit j i h e = absurd (omega (arith, ap (λ x. hit x i) e, hit_self i))

pub root_of :
    (t : Tree) (s : Shape) (p ptr : Option ℕ) (n : ℕ)
    → Repr t p ptr s
    → occ n s ≡ 0
    → points_to ptr n ≡ false
root_of t leaf p ptr n h o = rw h
root_of t (node l i c r) p ptr n (e, pl, pr, x, y, z) o = rw e (differ i n (omega arith))
  where
    differ : (i n : ℕ) → hit n i ≡ 0 → (i == n) ≡ false
    differ i n h = elim (Bool-cases (i == n)) [
      | inl same ↦
          let e : i ≡ n = ground arith in absurd (omega (arith, ap (λ x. hit n x) e, hit_self n))
      | inr other ↦ other
    ]

pub eq_self : (n : ℕ) → (n == n) ≡ true
eq_self n = ground arith

-- `swap_in` puts `r` in the place of `n` in its context, and leaves all nodes outside of it.
pub swap_in_lem :
    (t : Tree) (C : Context) (p : Option ℕ) (n r : ℕ)
    → ReprIn t C p (some n)
    → ((j : ℕ) → occ_in j C ≤ 1)
    → occ_in n C ≡ 0
    → (t' : Tree) × (swap_in p n r t ≡ some t')
      × ReprIn t' C p (some r)
      × ((j : ℕ) → occ_in j C ≡ 0 → at t' j ≡ at t j)
      × (length t'.arena ≡ length t.arena)
unfolding swap_in
swap_in_lem t top p n r (e, q) once out =
    (record t { root_node = some r }, rw e, (e, refl), λ j h. unfold at in refl, refl)
swap_in_lem t (in_left C i c s) p n r (e, pr, gp, x, y, z) once out =
    let (t', m, w) = modify_lem t i (with_left (some r)) x.cell x.here in
    let o = once i in
    let u = hit_self i in
    (
      t',
      rw (e, x.here, x.its_left, eq_self n) m,
      (
        e,
        pr,
        gp,
        record {
          cell = with_left (some r) x.cell;
          here = w.now;
          its_left = refl;
          its_right = x.its_right;
          its_parent = x.its_parent;
          its_color = x.its_color;
        },
        Repr-same t t' s (some i) pr (λ j h. w.rest j (ne_of_occ i j s (omega arith) h)) y,
        ReprIn-same t t' C gp (some i) w.root (λ j h. w.rest j (ne_of_occ_in i j C (omega arith) h))
            z,
      ),
      λ j q. w.rest j (λ e. absurd (omega (arith, ap (λ x. hit x i) e))),
      w.size,
    )
swap_in_lem t (in_right C s i c) p n r (e, pl, gp, x, y, z) once out =
    let (t', m, w) = modify_lem t i (with_right (some r)) x.cell x.here in
    let o = once i in
    let u = hit_self i in
    let other : points_to x.cell.left n ≡ false =
      rw x.its_left (root_of t s (some i) pl n y (omega arith)) in
    (
      t',
      rw (e, x.here, other) m,
      (
        e,
        pl,
        gp,
        record {
          cell = with_right (some r) x.cell;
          here = w.now;
          its_left = x.its_left;
          its_right = refl;
          its_parent = x.its_parent;
          its_color = x.its_color;
        },
        Repr-same t t' s (some i) pl (λ j h. w.rest j (ne_of_occ i j s (omega arith) h)) y,
        ReprIn-same t t' C gp (some i) w.root (λ j h. w.rest j (ne_of_occ_in i j C (omega arith) h))
            z,
      ),
      λ j q. w.rest j (λ e. absurd (omega (arith, ap (λ x. hit x i) e))),
      w.size,
    )

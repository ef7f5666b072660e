-- ===== src/Memtable/Grow.antt =====
-- A new node of memtable/inner.rs, below its parent and at the end of the arena.
use mathlib.Core.Path.{subst}
use lsmlite.Base.{ℕ, ◌≤◌, ◌<◌, ◌≡◌, refl, ap, arith, none, some}
use lsmlite.Base.{[], ◌∷◌, ◌++◌, length, get_elem?-append_left, get_elem?-append_length}
use lsmlite.Base.{map}
use lsmlite.Record.{Record}
use lsmlite.Memtable.{Tree, MemtableNode, red, at, with_left, with_right, with_parent}
use lsmlite.Memtable.{Child, left_child, right_child, new_from_record}
use lsmlite.Memtable.Insert.{attach}
use lsmlite.Memtable.Kept.{Keeps, payloads, modify-Keeps}
use lsmlite.Memtable.Shape.{leaf, node, Context, top, in_left, in_right, hit_self, occ_in}
use lsmlite.Memtable.Shape.{ReprIn, Repr-same, ReprIn-same}
use lsmlite.Memtable.Steps.{modify_lem, ne_of_occ, ne_of_occ_in}
use lsmlite.Memtable.Position.{OpenAt}
use lsmlite.Memtable.Outer.{Stands}

-- The parent's pointer is set.
pub attach_lem :
    (t : Tree) (C : Context) (p : ℕ) (side : Child) (i : ℕ)
    → ReprIn t C (some p) none
    → OpenAt C p side
    → ((j : ℕ) → occ_in j C ≤ 1)
    → (t' : Tree) × (attach t p side i ≡ some t')
      × ReprIn t' C (some p) (some i)
      × (length t'.arena ≡ length t.arena)
      × (payloads t' ≡ payloads t)
unfolding attach
attach_lem t top p side i h o once = absurd o
attach_lem t (in_left C q c s) p right_child i h o once = absurd o
attach_lem t (in_right C s q c) p left_child i h o once = absurd o
attach_lem t (in_left C q c s) p left_child i (e, pr, gp, x, y, z) o once =
    let (t', m, w) = modify_lem t q (with_left (some i)) x.cell x.here in
    let u = once q in
    let v = hit_self q in
    (
      t',
      rw (← o) m,
      (
        e,
        pr,
        gp,
        record {
          cell = with_left (some i) x.cell;
          here = w.now;
          its_left = refl;
          its_right = x.its_right;
          its_parent = x.its_parent;
          its_color = x.its_color;
        },
        Repr-same t t' s (some q) pr (λ j h. w.rest j (ne_of_occ q j s (omega arith) h)) y,
        ReprIn-same t t' C gp (some q) w.root (λ j h. w.rest j (ne_of_occ_in q j C (omega arith) h))
            z,
      ),
      w.size,
      subst (λ r. Keeps t r) m (modify-Keeps t q (with_left (some i)) (λ n. refl)),
    )
attach_lem t (in_right C s q c) p right_child i (e, pl, gp, x, y, z) o once =
    let (t', m, w) = modify_lem t q (with_right (some i)) x.cell x.here in
    let u = once q in
    let v = hit_self q in
    (
      t',
      rw (← o) m,
      (
        e,
        pl,
        gp,
        record {
          cell = with_right (some i) x.cell;
          here = w.now;
          its_left = x.its_left;
          its_right = refl;
          its_parent = x.its_parent;
          its_color = x.its_color;
        },
        Repr-same t t' s (some q) pl (λ j h. w.rest j (ne_of_occ q j s (omega arith) h)) y,
        ReprIn-same t t' C gp (some q) w.root (λ j h. w.rest j (ne_of_occ_in q j C (omega arith) h))
            z,
      ),
      w.size,
      subst (λ r. Keeps t r) m (modify-Keeps t q (with_right (some i)) (λ n. refl)),
    )

abbrev pub with_node : Tree → MemtableNode → Tree
with_node t x = record t { arena = t.arena ++ (x ∷ []) }

-- The node is pushed into the arena, where no other node of the tree is.
pub push_lem :
    (t : Tree) (C : Context) (p i : ℕ) (r : Record)
    → length t.arena ≡ i
    → ReprIn t C (some p) (some i)
    → ((j : ℕ) → 1 ≤ occ_in j C → j < i)
    → Stands
        (with_node t (with_parent (some p) (new_from_record r)))
        C
        (some p)
        i
        (node leaf i red leaf)
unfolding new_from_record at
push_lem t C p i r e h small =
    let x = with_parent (some p) (new_from_record r) in
    let t' = with_node t x in
    (
      ReprIn-same t t' C (some p) (some i) refl
          (λ j k. get_elem?-append_left t.arena (x ∷ []) j (omega (arith, small j k))) h,
      (
        refl,
        none,
        none,
        record {
          cell = x;
          here = rw (← e) (get_elem?-append_length t.arena x []);
          its_left = refl;
          its_right = refl;
          its_parent = refl;
          its_color = refl;
        },
        refl,
        refl,
      ),
    )

pub payloads-push :
    (t : Tree) (x : MemtableNode) → payloads (with_node t x) ≡ payloads t ++ (x.payload ∷ [])
payloads-push t x = go t.arena
  where
    go :
        (xs : _)
        → map (λ node. node.payload) (xs ++ (x ∷ []))
          ≡ map (λ node. node.payload) xs ++ (x.payload ∷ [])
    go [] = refl
    go (y ∷ ys) = ap (λ l. y.payload ∷ l) (go ys)

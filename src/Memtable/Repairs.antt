-- ===== src/Memtable/Repairs.antt =====
-- The rotations and the repair of memtable/inner.rs keep every record in its place.
use lsmlite.Base.{ℕ, zero, suc, ◌+◌, ◌*◌, ◌≡◌, refl, ◌∙◌, Option, none, some, Bool, true, false}
use lsmlite.Base.{length, ◌>>=◌, if◌then◌else◌}
use lsmlite.Memtable.{Tree, MemtableNode, at, modify, red, black, uncle, is_black}
use lsmlite.Memtable.{ChildType, inner, outer, RotationDirection, rotate_left, rotate_right}
use lsmlite.Memtable.{with_left, with_right, with_parent, with_color}
use lsmlite.Memtable.Rotate.{set_parent, swap_in, left_rotate, right_rotate, insert_recolor}
use lsmlite.Memtable.Insert.{Repair, done, again, recolor_up, rotate_case, is_red_at, black_uncle}
use lsmlite.Memtable.Insert.{by_uncle, below_parent, fix_round, fix_loop, blacken_root}
use lsmlite.Memtable.Insert.{insert_fix_tree}
use lsmlite.Memtable.Kept.{
  payloads, Keeps, Keeps-bind, Keeps-read, modify-Keeps, set_parent-Keeps, swap_in-Keeps,
}

pub left_rotate-Keeps : (t : Tree) (n : ℕ) → Keeps t (left_rotate t n)
unfolding left_rotate
left_rotate-Keeps t n = Keeps-read t (at t n) _ λ node. Keeps-read t node.right _ λ r.
    Keeps-read t (at t r) _ λ right.
      Keeps-bind t (modify t n (with_right right.left)) _ (modify-Keeps t n _ (λ node. refl)) λ t₁.
        Keeps-bind t₁ (set_parent right.left n t₁) _ (set_parent-Keeps right.left n t₁) λ t₂.
          Keeps-read t₂ (at t₂ n) _ λ node'.
            Keeps-bind t₂ (modify t₂ r (with_parent node'.parent)) _
              (modify-Keeps t₂ r _ (λ node. refl))
              λ t₃.
                Keeps-bind t₃ (swap_in node'.parent n r t₃) _ (swap_in-Keeps node'.parent n r t₃)
                  λ t₄.
                    Keeps-bind t₄ (modify t₄ r (with_left (some n))) _
                      (modify-Keeps t₄ r _ (λ node. refl)) λ t₅. modify-Keeps t₅ n _ (λ node. refl)

pub right_rotate-Keeps : (t : Tree) (n : ℕ) → Keeps t (right_rotate t n)
unfolding right_rotate
right_rotate-Keeps t n = Keeps-read t (at t n) _ λ node. Keeps-read t node.left _ λ l.
    Keeps-read t (at t l) _ λ left.
      Keeps-bind t (modify t n (with_left left.right)) _ (modify-Keeps t n _ (λ node. refl)) λ t₁.
        Keeps-bind t₁ (set_parent left.right n t₁) _ (set_parent-Keeps left.right n t₁) λ t₂.
          Keeps-read t₂ (at t₂ n) _ λ node'.
            Keeps-bind t₂ (modify t₂ l (with_parent node'.parent)) _
              (modify-Keeps t₂ l _ (λ node. refl))
              λ t₃.
                Keeps-bind t₃ (swap_in node'.parent n l t₃) _ (swap_in-Keeps node'.parent n l t₃)
                  λ t₄.
                    Keeps-bind t₄ (modify t₄ l (with_right (some n))) _
                      (modify-Keeps t₄ l _ (λ node. refl)) λ t₅. modify-Keeps t₅ n _ (λ node. refl)

insert_recolor-Keeps : (t : Tree) (p g : ℕ) → Keeps t (insert_recolor t p g)
unfolding insert_recolor
insert_recolor-Keeps t p g =
    Keeps-bind t (modify t p (with_color black)) _ (modify-Keeps t p _ (λ node. refl))
      λ t₁. modify-Keeps t₁ g _ (λ node. refl)

abbrev repaired : Repair → Tree
repaired (done t) = t
repaired (again t i) = t

abbrev KeepsRepair : Tree → Option Repair → Type 0
KeepsRepair t none = Unit {0}
KeepsRepair t (some r) = payloads (repaired r) ≡ payloads t

-- A step that is followed by its verdict.
verdict :
    (t : Tree) (m : Option Tree) (f : Tree → Repair)
    → ((t' : Tree) → repaired (f t') ≡ t')
    → Keeps t m
    → KeepsRepair t (m >>= λ t'. some (f t'))
verdict t none f h k = tt
verdict t (some t') f h k = rw (h t') k

read_repair :
    {A : Type 0} (t : Tree) (m : Option A) (f : A → Option Repair)
    → ((a : A) → KeepsRepair t (f a))
    → KeepsRepair t (m >>= f)
read_repair t none f h = tt
read_repair t (some a) f h = h a

then_repair :
    (t : Tree) (m : Option Tree) (f : Tree → Option Repair)
    → Keeps t m
    → ((t' : Tree) → KeepsRepair t' (f t'))
    → KeepsRepair t (m >>= f)
then_repair t none f k h = tt
then_repair t (some t') f k h = go (f t') (h t')
  where
    go : (r : Option Repair) → KeepsRepair t' r → KeepsRepair t r
    go none q = tt
    go (some r) q = q ∙ k

recolor_up-Keeps : (t : Tree) (u p g : ℕ) → KeepsRepair t (recolor_up t u p g)
unfolding recolor_up
recolor_up-Keeps t u p g =
    then_repair t (modify t u (with_color black)) _ (modify-Keeps t u _ (λ node. refl)) λ t₁.
      then_repair t₁ (modify t₁ p (with_color black)) _ (modify-Keeps t₁ p _ (λ node. refl)) λ t₂.
        verdict t₂ (modify t₂ g (with_color red)) (λ t₃. again t₃ g) (λ t'. refl)
          (modify-Keeps t₂ g _ (λ node. refl))

rotate_case-Keeps :
    (turn : ChildType × RotationDirection) (t : Tree) (p g : ℕ)
    → KeepsRepair t (rotate_case turn t p g)
unfolding rotate_case
rotate_case-Keeps (inner, rotate_right) t p g =
    verdict t (right_rotate t p) (λ t'. again t' p) (λ t'. refl) (right_rotate-Keeps t p)
rotate_case-Keeps (inner, rotate_left) t p g =
    verdict t (left_rotate t p) (λ t'. again t' p) (λ t'. refl) (left_rotate-Keeps t p)
rotate_case-Keeps (outer, rotate_right) t p g =
    then_repair t (insert_recolor t p g) _ (insert_recolor-Keeps t p g)
      λ t₁. verdict t₁ (right_rotate t₁ g) done (λ t'. refl) (right_rotate-Keeps t₁ g)
rotate_case-Keeps (outer, rotate_left) t p g =
    then_repair t (insert_recolor t p g) _ (insert_recolor-Keeps t p g)
      λ t₁. verdict t₁ (left_rotate t₁ g) done (λ t'. refl) (left_rotate-Keeps t₁ g)

black_uncle-Keeps : (t : Tree) (i p g : ℕ) → KeepsRepair t (black_uncle t i p g)
unfolding black_uncle
black_uncle-Keeps t i p g =
    read_repair t (at t g) _ λ gn. read_repair t (at t p) _ λ pn. rotate_case-Keeps _ t p g

by_uncle-Keeps :
    (t : Tree) (i p g : ℕ) (u : Option ℕ) (is_red : Bool)
    → KeepsRepair t (by_uncle t i p g u is_red)
unfolding by_uncle
by_uncle-Keeps t i p g (some u) true = recolor_up-Keeps t u p g
by_uncle-Keeps t i p g (some u) false = black_uncle-Keeps t i p g
by_uncle-Keeps t i p g none true = black_uncle-Keeps t i p g
by_uncle-Keeps t i p g none false = black_uncle-Keeps t i p g

below_parent-Keeps :
    (t : Tree) (i p : ℕ) (node parent : MemtableNode)
    → KeepsRepair t (below_parent t i p node parent)
unfolding below_parent
below_parent-Keeps t i p node parent = go (is_black parent.color)
  where
    go :
        (b : Bool)
        → KeepsRepair t (
            if b
            then some (done t)
            else (parent.parent >>= λ g.
                uncle t node >>= λ u. is_red_at t u >>= λ is_red. by_uncle t i p g u is_red))
    go true = refl
    go false = read_repair t parent.parent _ λ g.
        read_repair t (uncle t node) _
          λ u. read_repair t (is_red_at t u) _ λ is_red. by_uncle-Keeps t i p g u is_red

fix_round-Keeps : (t : Tree) (i : ℕ) → KeepsRepair t (fix_round t i)
unfolding fix_round
fix_round-Keeps t i = read_repair t (at t i) _ λ node. go node node.parent
  where
    go :
        (node : MemtableNode) (p : Option ℕ)
        → KeepsRepair t (elim p [
          | none ↦ some (done t)
          | some p ↦ at t p >>= λ parent. below_parent t i p node parent
        ])
    go node none = refl
    go node (some p) = read_repair t (at t p) _ λ parent. below_parent-Keeps t i p node parent

fix_loop-Keeps : (rounds : ℕ) (t : Tree) (i : ℕ) → Keeps t (fix_loop rounds t i)
unfolding fix_loop
fix_loop-Keeps zero t i = tt
fix_loop-Keeps (suc rounds) t i =
    go (fix_round t i) (fix_round-Keeps t i) (λ t' i'. fix_loop-Keeps rounds t' i')
  where
    go :
        (m : Option Repair)
        → KeepsRepair t m
        → ((t' : Tree) (i' : ℕ) → Keeps t' (fix_loop rounds t' i'))
        → Keeps t (
            m >>= λ repair. elim repair [ done t' ↦ some t' | again t' i' ↦ fix_loop rounds t' i' ])
    go none k ih = tt
    go (some (done t')) k ih = k
    go (some (again t' i')) k ih = later t' (fix_loop rounds t' i') k (ih t' i')
      where
        later : (t' : Tree) (r : Option Tree) → payloads t' ≡ payloads t → Keeps t' r → Keeps t r
        later t' none k q = tt
        later t' (some u) k q = q ∙ k

-- The repair after an insertion keeps every record at its index, whatever the shape of the tree.
pub insert_fix_tree-Keeps : (t : Tree) (i : ℕ) → Keeps t (insert_fix_tree t i)
unfolding insert_fix_tree
insert_fix_tree-Keeps t i =
    Keeps-bind t (fix_loop (2 * length t.arena + 1) t i) _ (fix_loop-Keeps _ t i) λ t'.
      unfold blacken_root in
      (Keeps-read t' t'.root_node _ λ root. modify-Keeps t' root _ (λ node. refl))

-- ===== src/Memtable/Kept.antt =====
-- The repair of the colours moves no record: the rotations and the recolouring of
-- memtable/inner.rs change pointers and colours only.
use lsmlite.Base.{ℕ, zero, suc, ◌≡◌, refl, ap, ◌∙◌, arith, Option, none, some, Bool, true, false}
use lsmlite.Base.{List, [], ◌∷◌, get_elem?, set, map, ◌>>=◌, if◌then◌else◌, Option-cases, inl, inr}
use lsmlite.Record.{Record}
use lsmlite.Memtable.{Tree, MemtableNode, at, modify, points_to}
use lsmlite.Memtable.{with_left, with_right}
use lsmlite.Memtable.Rotate.{set_parent, swap_in}

abbrev pub payloads : Tree → List Record
payloads t = map (λ node. node.payload) t.arena

-- A step that may panic keeps the records, in their places.
abbrev pub Keeps : Tree → Option Tree → Type 0
Keeps t none = Unit {0}
Keeps t (some t') = payloads t' ≡ payloads t

pub payloads-set :
    (arena : List MemtableNode) (i : ℕ) (node node' : MemtableNode)
    → get_elem? arena i ≡ some node
    → node'.payload ≡ node.payload
    → map (λ n. n.payload) (set arena i node') ≡ map (λ n. n.payload) arena
payloads-set [] i node node' e p = refl
payloads-set (x ∷ xs) zero node node' e p = ground (arith, e, p)
payloads-set (x ∷ xs) (suc i) node node' e p =
    ap (λ l. x.payload ∷ l) (payloads-set xs i node node' e p)

-- The composition of steps.
pub Keeps-bind :
    (t : Tree) (m : Option Tree) (f : Tree → Option Tree)
    → Keeps t m
    → ((t' : Tree) → Keeps t' (f t'))
    → Keeps t (m >>= f)
Keeps-bind t none f k h = tt
Keeps-bind t (some t') f k h = go (f t') (h t')
  where
    go : (r : Option Tree) → Keeps t' r → Keeps t r
    go none q = tt
    go (some u) q = q ∙ k

pub Keeps-read :
    {A : Type 0} (t : Tree) (m : Option A) (f : A → Option Tree)
    → ((a : A) → Keeps t (f a))
    → Keeps t (m >>= f)
Keeps-read t none f h = tt
Keeps-read t (some a) f h = h a

pub modify-Keeps :
    (t : Tree) (i : ℕ) (f : MemtableNode → MemtableNode)
    → ((node : MemtableNode) → (f node).payload ≡ node.payload)
    → Keeps t (modify t i f)
unfolding modify
modify-Keeps t i f h = elim (Option-cases (get_elem? t.arena i)) [
  | inl e ↦ rw e tt
  | inr (node, e) ↦ rw e (payloads-set t.arena i node (f node) e (h node))
]

pub set_parent-Keeps : (p : Option ℕ) (n : ℕ) (t : Tree) → Keeps t (set_parent p n t)
unfolding set_parent
set_parent-Keeps none n t = refl
set_parent-Keeps (some c) n t = modify-Keeps t c _ (λ node. refl)

pub swap_in-Keeps : (p : Option ℕ) (n r : ℕ) (t : Tree) → Keeps t (swap_in p n r t)
unfolding swap_in
swap_in-Keeps none n r t = refl
swap_in-Keeps (some p) n r t = Keeps-read t (at t p) _ λ parent. go parent (points_to parent.left n)
  where
    go :
        (parent : MemtableNode) (b : Bool)
        → Keeps t (if b then modify t p (with_left (some r)) else modify t p (with_right (some r)))
    go parent true = modify-Keeps t p _ (λ node. refl)
    go parent false = modify-Keeps t p _ (λ node. refl)

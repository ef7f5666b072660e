-- ===== src/Memtable/Position.antt =====
-- `find_insert_position` of memtable/inner.rs ends at the node with the key, or at the gap between
-- the keys on either side.
use Prim.Native.Nat.Ordering.{lt, eq, gt}
use lsmlite.Base.{ℕ, zero, suc, ◌≤◌, ◌≡◌, inl, inr, refl, sym, ap, ◌∙◌, arith}
use lsmlite.Base.{Option, none, some, List, [], ◌∷◌, ◌++◌, All, All-append, append_assoc, ◌>>=◌}
use mathlib.Core.Path.{subst}
use lsmlite.Base.Bytes.{Blob}
use lsmlite.Base.Key.{cmp, lt_of_gt, eq_of_cmp}
use lsmlite.Record.{Record, get_key}
use lsmlite.Memtable.{Tree, MemtableNode, Color, at, cmp_nodes}
use lsmlite.Memtable.{Child, left_child, right_child, InsertionPosition, new_node, existing_node}
use lsmlite.Memtable.Insert.{find_loop}
use lsmlite.Memtable.Kept.{payloads}
use lsmlite.Memtable.First.{Ordering-cases}
use lsmlite.Memtable.Shape.{Shape, leaf, node, Context, top, in_left, in_right, plug, size}
use lsmlite.Memtable.Shape.{inorder, before, after, inorder-plug, Cell, Repr, ReprIn}
use lsmlite.Memtable.Keys.{key_in, Below, Above, Sorted, Sorted-split, All-map, All-parts}
use lsmlite.Memtable.Keys.{Above-trans, Below-trans}
use lsmlite.Memtable.Descend.{at_payload}

-- The index has the key; the others are on their sides.
pub record Held (rs : List Record) (key : Blob) (is : List ℕ) (i : ℕ) : Type 0 where
  pub low : List ℕ
  pub high : List ℕ
  pub split : is ≡ low ++ (i ∷ high)
  pub its_key : key_in rs i ≡ some key
  pub less : All (Below rs key) low
  pub greater : All (Above rs key) high

-- The hole is the given child of the parent.
abbrev pub OpenAt : Context → ℕ → Child → Type 0
OpenAt top p side = ⊥
OpenAt (in_left C i c r) p left_child = i ≡ p
OpenAt (in_left C i c r) p right_child = ⊥
OpenAt (in_right C l i c) p left_child = ⊥
OpenAt (in_right C l i c) p right_child = i ≡ p

pub record Gap (t : Tree) (key : Blob) (s : Shape) (parent : ℕ) (side : Child) : Type 0 where
  pub context : Context
  pub filled : plug context leaf ≡ s
  pub stands : ReprIn t context (some parent) none
  pub open_at : OpenAt context parent side
  pub less : All (Below (payloads t) key) (before context)
  pub greater : All (Above (payloads t) key) (after context)

abbrev pub Spot : Tree → Blob → Shape → InsertionPosition → Type 0
Spot t key s (existing_node i) = Held (payloads t) key (inorder s) i
Spot t key s (new_node parent side) = Gap t key s parent side

module _ (t : Tree) (r : Record) (key : Blob) (known : get_key r ≡ some key) where
  module _ (k i : ℕ) (x : MemtableNode) (a : Blob) (here : at t i ≡ some x)
      (its : get_key x.payload ≡ some a) where
    at_equal : cmp key a ≡ eq → find_loop (suc k) t r i ≡ some (existing_node i)
    unfolding find_loop cmp_nodes
    at_equal o = rw (here, known, its, o) refl

    at_less :
        (p : Option ℕ)
        → cmp key a ≡ lt
        → x.left ≡ p
        → find_loop (suc k) t r i
          ≡ elim p [ none ↦ some (new_node i left_child) | some j ↦ find_loop k t r j ]
    unfolding find_loop cmp_nodes
    at_less none o e = rw (here, known, its, o, e) refl
    at_less (some j) o e = rw (here, known, its, o, e) refl

    at_greater :
        (p : Option ℕ)
        → cmp key a ≡ gt
        → x.right ≡ p
        → find_loop (suc k) t r i
          ≡ elim p [ none ↦ some (new_node i right_child) | some j ↦ find_loop k t r j ]
    unfolding find_loop cmp_nodes
    at_greater none o e = rw (here, known, its, o, e) refl
    at_greater (some j) o e = rw (here, known, its, o, e) refl

  whole :
      (C : Context) (l : Shape) (i : ℕ) (c : Color) (s : Shape)
      → inorder (plug C (node l i c s)) ≡ (before C ++ inorder l) ++ (i ∷ (inorder s ++ after C))
  whole C l i c s = inorder-plug C (node l i c s) ∙ simp append_assoc

  -- What the keys at a node tell of its context.
  parts :
      (C : Context) (l : Shape) (i : ℕ) (c : Color) (s : Shape)
      → Sorted (payloads t) (inorder (plug C (node l i c s)))
      → (a : Blob) × (key_in (payloads t) i ≡ some a)
        × All (Below (payloads t) a) (before C ++ inorder l)
        × All (Above (payloads t) a) (inorder s ++ after C)
  parts C l i c s h =
      Sorted-split (payloads t) (before C ++ inorder l) i (inorder s ++ after C)
        (subst (Sorted (payloads t)) (whole C l i c s) h)

  -- One step down, or the end at a missing child.
  child :
      (k : ℕ) (l : Shape) (p : Option ℕ) (s : Shape) (i : ℕ) (side : Child)
      → Repr t (some i) p l
      → find_loop (suc k) t r i
        ≡ elim p [ none ↦ some (new_node i side) | some j ↦ find_loop k t r j ]
      → (p ≡ none → l ≡ leaf → Gap t key s i side)
      → ((j : ℕ)
          → p ≡ some j
          → (pos : InsertionPosition) × (find_loop k t r j ≡ some pos) × Spot t key s pos)
      → (pos : InsertionPosition) × (find_loop (suc k) t r i ≡ some pos) × Spot t key s pos
  child k leaf p s i side h run gap ih = (new_node i side, run ∙ rw h refl, gap h refl)
  child k (node l j c r') p s i side (e, _, _, _, _, _) run gap ih =
      let (pos, run', spot) = ih j e in (pos, run ∙ rw e run', spot)

  -- The bounds on the side that a step down leaves behind.
  smaller :
      (C : Context) (l : Shape) (j : ℕ) (a : Blob)
      → key_in (payloads t) j ≡ some a
      → cmp a key ≡ lt
      → All (Below (payloads t) a) (before C ++ inorder l)
      → All (Below (payloads t) key) (before C)
      → All (Below (payloads t) key) (before C ++ (inorder l ++ (j ∷ [])))
  smaller C l j a ka o below lo =
      let both = All-parts (Below (payloads t) a) (before C) (inorder l) below in
      let mine = All-map (inorder l) (λ q. Below-trans (payloads t) a key q o) both.1 in
      All-append _ (before C) (inorder l ++ (j ∷ [])) lo
        (All-append _ (inorder l) (j ∷ []) mine ((a, ka, o), tt))

  pub find_loop_lem :
      (k : ℕ) (C : Context) (p : Option ℕ) (i : ℕ) (s : Shape)
      → size s ≤ k
      → ReprIn t C p (some i)
      → Repr t p (some i) s
      → Sorted (payloads t) (inorder (plug C s))
      → All (Below (payloads t) key) (before C)
      → All (Above (payloads t) key) (after C)
      → (pos : InsertionPosition) × (find_loop k t r i ≡ some pos) × Spot t key (plug C s) pos
  find_loop_lem k C p i leaf h hC e sorted lo hi = cc
  find_loop_lem zero C p i (node l j c s) h hC hs sorted lo hi = absurd (omega arith)
  find_loop_lem (suc k) C p i (node l j c s) h hC (e, pl, pr, x, hl, hr) sorted lo hi =
      let (a, ka, below, above) = parts C l j c s sorted in
      let ij : i ≡ j = ground (arith, e) in
      let its : get_key x.cell.payload ≡ some a =
        ap (λ o. o >>= get_key) (sym (at_payload t j x.cell x.here)) ∙ ka in
      let hC' : ReprIn t C p (some j) = subst (λ q. ReprIn t C p (some q)) ij hC in
      let at_left : (q : Option ℕ) → pl ≡ q → ReprIn t (in_left C j c s) (some j) q =
        λ q f. (refl, pr, p, subst (λ q. Cell t j q pr p c) f x, hr, hC') in
      let at_right : (q : Option ℕ) → pr ≡ q → ReprIn t (in_right C l j c) (some j) q =
        λ q f. (refl, pl, p, subst (λ q. Cell t j pl q p c) f x, hl, hC') in
      rw ij (elim (Ordering-cases (cmp key a)) [
        | inl o ↦
            let hi' : All (Above (payloads t) key) ((j ∷ inorder s) ++ after C) = (
              (a, ka, o),
              All-map (inorder s ++ after C) (λ q. Above-trans (payloads t) key a q o) above,
            ) in
            child k l pl (plug C (node l j c s)) j left_child hl
              (at_less k j x.cell a x.here its pl o x.its_left)
              (λ n f. record {
                context = in_left C j c s;
                filled = rw f refl;
                stands = at_left none n;
                open_at = refl;
                less = lo;
                greater = hi';
              })
              (λ q f.
                find_loop_lem k (in_left C j c s) (some j) q l (omega arith) (at_left (some q) f)
                  (subst (λ q. Repr t (some j) q l) f hl) sorted lo hi')
        | inr (inl o) ↦
            let same : key ≡ a = eq_of_cmp key a o in
            (
              existing_node j,
              at_equal k j x.cell a x.here its o,
              record {
                low = before C ++ inorder l;
                high = inorder s ++ after C;
                split = whole C l j c s;
                its_key = ka ∙ ap some (sym same);
                less = rw same below;
                greater = rw same above;
              },
            )
        | inr (inr o) ↦
            let lo' = smaller C l j a ka (lt_of_gt key a o) below lo in
            child k s pr (plug C (node l j c s)) j right_child hr
              (at_greater k j x.cell a x.here its pr o x.its_right)
              (λ n f. record {
                context = in_right C l j c;
                filled = rw f refl;
                stands = at_right none n;
                open_at = refl;
                less = lo';
                greater = hi;
              })
              (λ q f.
                find_loop_lem k (in_right C l j c) (some j) q s (omega arith) (at_right (some q) f)
                  (subst (λ q. Repr t (some j) q s) f hr) sorted lo' hi)
      ])

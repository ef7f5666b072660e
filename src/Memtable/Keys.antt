-- ===== src/Memtable/Keys.antt =====
-- The keys of the records in an arena of memtable/inner.rs, and a list of indices in the order of
-- their keys.
use Prim.Native.Nat.Ordering.{lt}
use lsmlite.Base.{ℕ, zero, suc, ◌+◌, ◌≤◌, ◌≡◌, ◌⊎◌, inl, inr, refl, sym, ◌∙◌, arith}
use lsmlite.Base.{Option, some, List, [], ◌∷◌, ◌++◌, All, get_elem?}
use lsmlite.Base.{◌>>=◌, All-append}
use lsmlite.Base.Bytes.{Blob}
use lsmlite.Base.Key.{cmp, lt_trans}
use lsmlite.Record.{Record, get_key}
use lsmlite.Memtable.Shape.{Shape, leaf, node, hit, occ, inorder}

abbrev pub key_in : List Record → ℕ → Option Blob
key_in rs i = get_elem? rs i >>= get_key

abbrev pub Below : List Record → Blob → ℕ → Type 0
Below rs key j = (a : Blob) × (key_in rs j ≡ some a) × (cmp a key ≡ lt)

abbrev pub Above : List Record → Blob → ℕ → Type 0
Above rs key j = (a : Blob) × (key_in rs j ≡ some a) × (cmp key a ≡ lt)

-- The keys ascend, with none twice.
abbrev pub Sorted : List Record → List ℕ → Type 0
Sorted rs [] = Unit {0}
Sorted rs (i ∷ is) = (a : Blob) × (key_in rs i ≡ some a) × All (Above rs a) is × Sorted rs is

pub All-map : {P Q : ℕ → Type 0} (xs : List ℕ) → ((j : ℕ) → P j → Q j) → All P xs → All Q xs
All-map [] f h = tt
All-map (x ∷ xs) f h = (f x h.0, All-map xs f h.1)

pub All-parts : (P : ℕ → Type 0) (xs ys : List ℕ) → All P (xs ++ ys) → All P xs × All P ys
All-parts P [] ys h = (tt, h)
All-parts P (x ∷ xs) ys h = let r = All-parts P xs ys h.1 in ((h.0, r.0), r.1)

pub Above-trans :
    (rs : List Record) (a b : Blob) (j : ℕ) → cmp a b ≡ lt → Above rs b j → Above rs a j
Above-trans rs a b j h (c, e, k) = (c, e, lt_trans a b c h k)

pub Below-trans :
    (rs : List Record) (a b : Blob) (j : ℕ) → cmp a b ≡ lt → Below rs a j → Below rs b j
Below-trans rs a b j h (c, e, k) = (c, e, lt_trans c a b k h)

-- Every index before one in the list has a smaller key, every later one a greater key.
pub Sorted-split :
    (rs : List Record) (xs : List ℕ) (i : ℕ) (ys : List ℕ)
    → Sorted rs (xs ++ (i ∷ ys))
    → (a : Blob) × (key_in rs i ≡ some a) × All (Below rs a) xs × All (Above rs a) ys
Sorted-split rs [] i ys (a, e, h, k) = (a, e, tt, h)
Sorted-split rs (x ∷ xs) i ys (b, e, h, k) =
    let (a, f, lo, hi) = Sorted-split rs xs i ys k in
    let (c, q, w) = (All-parts _ xs (i ∷ ys) h).1.0 in
    let same : some a ≡ some c = sym f ∙ q in (a, f, ((b, e, ground (arith, same, w)), lo), hi)

pub Sorted-insert :
    (rs : List Record) (xs : List ℕ) (i : ℕ) (ys : List ℕ) (a : Blob)
    → key_in rs i ≡ some a
    → All (Below rs a) xs
    → All (Above rs a) ys
    → Sorted rs (xs ++ ys)
    → Sorted rs (xs ++ (i ∷ ys))
Sorted-insert rs [] i ys a e lo hi h = (a, e, hi, h)
Sorted-insert rs (x ∷ xs) i ys a e ((c, f, k), lo) hi (b, g, all, h) =
    let p = All-parts _ xs ys all in
    let same : some b ≡ some c = sym g ∙ f in
    (
      b,
      g,
      All-append _ xs (i ∷ ys) p.0 ((a, e, ground (arith, same, k)), p.1),
      Sorted-insert rs xs i ys a e lo hi h,
    )

-- Another list of records with the same keys where there were any.
pub Sorted-same :
    (rs rs' : List Record) (is : List ℕ)
    → ((j : ℕ) (a : Blob) → key_in rs j ≡ some a → key_in rs' j ≡ some a)
    → Sorted rs is
    → Sorted rs' is
Sorted-same rs rs' [] same h = tt
Sorted-same rs rs' (i ∷ is) same (a, e, all, h) = (
  a,
  same i a e,
  All-map is (λ j (c, f, k). (c, same j c f, k)) all,
  Sorted-same rs rs' is same h,
)

-- How often an index occurs.
abbrev pub count : ℕ → List ℕ → ℕ
count j [] = 0
count j (x ∷ xs) = hit j x + count j xs

pub count-append : (j : ℕ) (xs ys : List ℕ) → count j (xs ++ ys) ≡ count j xs + count j ys
count-append j [] ys = omega arith
count-append j (x ∷ xs) ys = omega (arith, count-append j xs ys)

pub count-inorder : (j : ℕ) (s : Shape) → count j (inorder s) ≡ occ j s
count-inorder j leaf = refl
count-inorder j (node l i c r) =
    omega (arith, count-append j (inorder l) (i ∷ inorder r), count-inorder j l, count-inorder j r)

same_of_hit : (j x : ℕ) → 1 ≤ hit j x → j ≡ x
unfolding hit
same_of_hit j x h = ground arith

pub All-count : (P : ℕ → Type 0) (xs : List ℕ) (j : ℕ) → All P xs → 1 ≤ count j xs → P j
All-count P [] j h k = absurd (omega arith)
All-count P (x ∷ xs) j h k = elim (positive (hit j x) (count j xs) k) [
  | inl here ↦ rw (same_of_hit j x here) h.0
  | inr later ↦ All-count P xs j h.1 later
]
  where
    positive : (a b : ℕ) → 1 ≤ a + b → (1 ≤ a) ⊎ (1 ≤ b)
    positive zero b h = inr (omega arith)
    positive (suc a) b h = inl (omega arith)

-- ===== src/Memtable/First.antt =====
-- The outcomes of a comparison of keys, and the room of a fresh table of memtable/inner.rs.
use Prim.Native.Nat.{Ordering}
use Prim.Native.Nat.Ordering.{lt, eq, gt}
use lsmlite.Base.{ℕ, ◌<◌, ◌≡◌, ◌⊎◌, inl, inr, refl, arith, false}
use lsmlite.Memtable.Table.{new, full}

pub Ordering-cases : (o : Ordering) → (o ≡ lt) ⊎ ((o ≡ eq) ⊎ (o ≡ gt))
Ordering-cases lt = inl refl
Ordering-cases eq = inr (inl refl)
Ordering-cases gt = inr (inr refl)

pub fresh_room :
    (max_size max_nodes filename now : ℕ)
    → 0 < max_size
    → 0 < max_nodes
    → full (new max_size max_nodes filename now) ≡ false
unfolding full new
fresh_room max_size max_nodes filename now p q = ground arith

-- ===== src/Bloom/Bits.antt =====
-- Setting and testing one bit of a word.
use lsmlite.Base.{ℕ, zero, suc, ◌+◌, ◌*◌, ◌/◌, ◌%◌, ◌^◌, ◌<◌, ◌≡◌, ◌≢◌, refl, ap, arith, true}
use lsmlite.Bloom.{set_bit, test_bit}
use native.Mathlib.Nat.{pow-suc}

pub test_bit-set_bit_self : (k w : ℕ) → test_bit k (set_bit k w) ≡ true
unfolding test_bit set_bit
test_bit-set_bit_self zero w = ground arith
test_bit-set_bit_self (suc k) w =
    let e : (set_bit k (w / 2) * 2 + w % 2) / 2 ≡ set_bit k (w / 2) = omega arith in
    rw e (test_bit-set_bit_self k (w / 2))

pub test_bit-set_bit_ne : (j k w : ℕ) → j ≢ k → test_bit j (set_bit k w) ≡ test_bit j w
unfolding test_bit set_bit
test_bit-set_bit_ne zero zero w h = absurd (h refl)
test_bit-set_bit_ne zero (suc k) w h = ground arith
test_bit-set_bit_ne (suc j) zero w h = let e : (w / 2 * 2 + 1) / 2 ≡ w / 2 = omega arith in rw e
test_bit-set_bit_ne (suc j) (suc k) w h =
    let e : (set_bit k (w / 2) * 2 + w % 2) / 2 ≡ set_bit k (w / 2) = omega arith in
    rw e (test_bit-set_bit_ne j k (w / 2) (λ q. h (ap suc q)))

-- A bit that is set stays set.
pub test_bit-set_bit_mono : (j k w : ℕ) → test_bit j w ≡ true → test_bit j (set_bit k w) ≡ true
test_bit-set_bit_mono j k w h = ground (arith, test_bit-set_bit_self k w, test_bit-set_bit_ne j k w)

-- A word stays within its width.
pub set_bit-lt : (k width w : ℕ) → k < width → w < 2 ^ width → set_bit k w < 2 ^ width
unfolding set_bit
set_bit-lt k zero w h lt = absurd (omega arith)
set_bit-lt zero (suc width) w h lt = omega (arith, pow-suc 2 width)
set_bit-lt (suc k) (suc width) w h lt = omega (
  arith,
  pow-suc 2 width,
  set_bit-lt k width (w / 2) (omega arith) (omega (arith, pow-suc 2 width)),
)

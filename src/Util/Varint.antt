-- ===== src/Util/Varint.antt =====
-- The laws of `encode_varint`, `decode_varint` and `varint_size_from_len` (util/mod.rs).
use lsmlite.Base.{ℕ, zero, suc, ◌+◌, ◌*◌, ◌/◌, ◌%◌, ◌^◌, ◌≤◌, ◌<◌, ◌≡◌, ap, arith, some}
use lsmlite.Base.{◌∷◌, ◌++◌, length, take, All, take-length_append, replicate}
use lsmlite.Base.{◌-◌, length-append, length-replicate}
use lsmlite.Base.{drop-length_append}
use lsmlite.Base.Bytes.{Blob, IsByte}
use lsmlite.Util.{IsUsize, varint_size_from_len, encode_loop, encode_varint}
use lsmlite.Util.{decode_loop, decode_varint}
use native.Mathlib.Nat.{div-add-mod, mul-suc, pow-suc}
use native.Mathlib.Numerals.{add-one, towards_suc}

-- The bytes in use: `&buffer[..len]`, as each caller takes them.
unfoldable pub varint : ℕ → Blob
varint v = take (encode_varint v).1 (encode_varint v).0

pub varint-encode_loop : (v : ℕ) → varint v ≡ encode_loop 10 v
unfolding varint encode_varint
varint-encode_loop v = take-length_append (encode_loop 10 v) _

length-encode_loop :
    (k v : ℕ) → (1 ≤ length (encode_loop (suc k) v)) × (length (encode_loop (suc k) v) ≤ suc k)
unfolding encode_loop
length-encode_loop zero v = ground arith
length-encode_loop (suc k) v = ground (arith, length-encode_loop k (v / 128))

pub length-varint : (v : ℕ) → length (varint v) ≡ (encode_varint v).1
unfolding encode_varint
length-varint v = ap length (varint-encode_loop v)

pub varint_bounds : (v : ℕ) → (1 ≤ length (varint v)) × (length (varint v) ≤ 10)
varint_bounds v = simp varint-encode_loop (length-encode_loop 9 v)

encode_loop-IsByte : (k v : ℕ) → All IsByte (encode_loop k v)
unfolding encode_loop
encode_loop-IsByte zero v = tt
encode_loop-IsByte (suc k) v = ground (arith, encode_loop-IsByte k (v / 128))

length-encode_varint : (v : ℕ) → length (encode_varint v).0 ≡ 10
unfolding encode_varint
length-encode_varint v = omega (
  arith,
  length-append (encode_loop 10 v) (replicate (10 - length (encode_loop 10 v)) 0),
  length-replicate (10 - length (encode_loop 10 v)) zero,
  length-encode_loop 9 v,
)

-- An encoding has one to ten bytes, the length that is reported, and each element is a byte.
pub encode_varint_shape :
    (v : ℕ)
    → All IsByte (varint v)
      × (1 ≤ (encode_varint v).1)
      × ((encode_varint v).1 ≤ 10)
      × (length (encode_varint v).0 ≡ 10)
encode_varint_shape v =
    let (lo, hi) = varint_bounds v in
    (
      rw (varint-encode_loop v) (encode_loop-IsByte 10 v),
      rw length-varint at lo,
      rw length-varint at hi,
      length-encode_varint v,
    )

shift_seven : (n : ℕ) → 2 ^ (7 * (n + 1)) ≡ 128 * 2 ^ (7 * n)
shift_seven n = rw (add-one n, mul-suc 7 n) (simp towards_suc (omega arith))

-- One round of the loop on a last byte, and on a byte with the continuation bit over the group `g`.
last_byte :
    (g acc walked : ℕ) (rest : Blob)
    → g < 128
    → walked ≤ 9
    → acc + g * 2 ^ (7 * walked) < 2 ^ 64
    → decode_loop (g ∷ rest) acc walked ≡ some (acc + g * 2 ^ (7 * walked), walked + 1)
unfolding decode_loop
last_byte g acc walked rest hg hw fits = ground arith

inner_byte :
    (g acc walked : ℕ) (rest : Blob)
    → g < 128
    → walked ≤ 9
    → acc + g * 2 ^ (7 * walked) < 2 ^ 64
    → decode_loop ((g + 128) ∷ rest) acc walked
      ≡ decode_loop rest (acc + g * 2 ^ (7 * walked)) (walked + 1)
unfolding decode_loop
inner_byte g acc walked rest hg hw fits = ground arith

-- The lowest group of `v` and the rest, both shifted.
split_group : (v n : ℕ) → v * 2 ^ (7 * n) ≡ v % 128 * 2 ^ (7 * n) + v / 128 * 2 ^ (7 * (n + 1))
split_group v n = omega (
  arith,
  ap (λ (t : ℕ). t * 2 ^ (7 * n)) (div-add-mod v 128),
  ap (λ (t : ℕ). v / 128 * t) (shift_seven n),
)

less_groups : (v k : ℕ) → v < 128 ^ suc (suc k) → v / 128 < 128 ^ suc k
less_groups v k h = omega (arith, pow-suc 128 (suc k))

decode_loop-encode_loop :
    (k v acc walked : ℕ) (rest : Blob)
    → v < 128 ^ suc k
    → walked + k ≤ 9
    → acc + v * 2 ^ (7 * walked) < 2 ^ 64
    → decode_loop (encode_loop (suc k) v ++ rest) acc walked
      ≡ some (acc + v * 2 ^ (7 * walked), walked + length (encode_loop (suc k) v))
unfolding encode_loop
decode_loop-encode_loop zero v acc walked rest hv hw fits =
    ground (arith, last_byte v acc walked rest)
decode_loop-encode_loop (suc k) v acc walked rest hv hw fits = ground (
  arith,
  last_byte v acc walked rest,
  split_group v walked,
  inner_byte (v % 128) acc walked (encode_loop (suc k) (v / 128) ++ rest),
  less_groups v k,
  decode_loop-encode_loop k (v / 128) (acc + v % 128 * 2 ^ (7 * walked)) (walked + 1) rest,
)

-- `decode_varint` reads back what `encode_varint` wrote for a 64-bit number, wherever it stands in
-- a buffer, and walks over its bytes and no more.
pub decode_varint-encode_varint :
    (before rest : Blob) (v offset : ℕ)
    → IsUsize v
    → offset ≡ length before
    → decode_varint (before ++ (varint v ++ rest)) offset ≡ some (v, (encode_varint v).1)
unfolding decode_varint encode_varint
decode_varint-encode_varint before rest v offset h p =
    rw (p, drop-length_append before (varint v ++ rest), varint-encode_loop v)
      (ground (arith, decode_loop-encode_loop 9 v 0 0 rest))

-- Below 2 ^ 63 `varint_size_from_len` is the length of the encoding.
pub varint_size_from_len-encode_varint :
    (v : ℕ) → v < 2 ^ 63 → varint_size_from_len v ≡ (encode_varint v).1
unfolding varint_size_from_len encode_varint encode_loop
varint_size_from_len-encode_varint v h = ground arith

-- ===== src/Base/Bytes.antt =====
-- Byte buffers: `Blob`, slices, `copy_from_slice`, `Vec::resize` and big-endian words.
use Prim.Native.Nat.{ℕ, zero, suc, ◌+◌, ◌*◌, ◌/◌, ◌%◌, ◌^◌, ◌≤◌, ◌<◌, ◌-◌}
use mathlib.Core.Path.{◌≡◌, refl, ap}
use mathlib.Core.List.{List, [], ◌∷◌, ◌++◌, append_assoc}
use mathlib.Core.Option.{Option, none, some}
use mathlib.Core.Bool.{true}
use native.Mathlib.Omega.{arith}
use native.Mathlib.Nat.{pow-suc}
use package.lsmlite.Base.Tests.{leb, if◌then◌else◌, le→leb}
use package.lsmlite.Base.Lists.{length, take, drop, replicate, length-append, length-take}
use package.lsmlite.Base.Lists.{length-drop, take-length_append, drop-length_append}

abbrev pub Blob : Type 0
Blob = List ℕ

abbrev pub IsByte : ℕ → Type 0
IsByte b = b < 256

-- `&buffer[offset..offset + len]`
unfoldable pub slice : Blob → ℕ → ℕ → Option Blob
slice buffer offset len =
    if leb (offset + len) (length buffer) then some (take len (drop offset buffer)) else none

-- `buffer[offset..offset + piece.len()].copy_from_slice(&piece)`
unfoldable pub write : Blob → ℕ → Blob → Option Blob
write buffer offset piece =
    if leb (offset + length piece) (length buffer)
    then some (take offset buffer ++ (piece ++ drop (offset + length piece) buffer))
    else none

-- `buffer.resize(size, 0_u8)`
unfoldable pub resize : Blob → ℕ → Blob
resize buffer size = take size buffer ++ replicate (size - length buffer) 0

drop-add_append : (xs ys : Blob) (n : ℕ) → drop (length xs + n) (xs ++ ys) ≡ drop n ys
drop-add_append [] ys n = ap (λ k. drop k ys) (omega arith)
drop-add_append (x ∷ xs) ys n =
    let e : suc (length xs) + n ≡ suc (length xs + n) = omega arith in
    rw e (drop-add_append xs ys n)

pub slice-append :
    (pre mid post : Blob) (offset len : ℕ)
    → offset ≡ length pre
    → len ≡ length mid
    → slice (pre ++ (mid ++ post)) offset len ≡ some mid
unfolding slice
slice-append pre mid post offset len p q =
    let fits : leb (length pre + length mid) (length (pre ++ (mid ++ post))) ≡ true =
      le→leb _ _ (omega (arith, length-append pre (mid ++ post), length-append mid post)) in
    rw (p, q, fits, drop-length_append pre (mid ++ post), take-length_append mid post)

pub write-append :
    (pre old post piece : Blob) (offset : ℕ)
    → offset ≡ length pre
    → length old ≡ length piece
    → write (pre ++ (old ++ post)) offset piece ≡ some (pre ++ (piece ++ post))
unfolding write
write-append pre old post piece offset p q =
    let fits : leb (length pre + length piece) (length (pre ++ (old ++ post))) ≡ true =
      le→leb _ _ (omega (arith, length-append pre (old ++ post), length-append old post)) in
    rw (
      p,
      fits,
      take-length_append pre (old ++ post),
      drop-add_append pre (old ++ post) (length piece),
      ← q,
      drop-length_append old post,
    )

-- A write at the end of what is done, over the garbage behind it.
pub write_next :
    (done garbage piece : Blob) (offset : ℕ)
    → offset ≡ length done
    → length piece ≤ length garbage
    → (rest : Blob) × (write (done ++ garbage) offset piece ≡ some ((done ++ piece) ++ rest))
      × (length rest + length piece ≡ length garbage)
unfolding write
write_next done garbage piece offset p q =
    let fits : leb (length done + length piece) (length (done ++ garbage)) ≡ true =
      le→leb _ _ (omega (arith, length-append done garbage)) in
    (
      drop (length piece) garbage,
      rw (
        p,
        fits,
        take-length_append done garbage,
        drop-add_append done garbage (length piece),
        append_assoc done piece,
      ),
      omega (arith, length-drop (length piece) garbage),
    )

pub length-slice :
    (buffer : Blob) (offset len : ℕ) {out : Blob}
    → slice buffer offset len ≡ some out
    → (length out ≡ len) × (offset + len ≤ length buffer)
unfolding slice
length-slice buffer offset len e =
    ground (arith, length-take len (drop offset buffer), length-drop offset buffer)

-- `v.to_be_bytes()` at a width of `w` bytes.
unfoldable pub to_be_bytes : ℕ → ℕ → Blob
to_be_bytes zero v = []
to_be_bytes (suc w) v = to_be_bytes w (v / 256) ++ (v % 256 ∷ [])

from_be_loop : ℕ → Blob → ℕ
from_be_loop acc [] = acc
from_be_loop acc (b ∷ bs) = from_be_loop (acc * 256 + b) bs

unfoldable pub from_be_bytes : Blob → ℕ
unfolding from_be_loop
from_be_bytes bs = from_be_loop 0 bs

pub length-to_be_bytes : (w v : ℕ) → length (to_be_bytes w v) ≡ w
unfolding to_be_bytes
length-to_be_bytes zero v = refl
length-to_be_bytes (suc w) v =
    omega (
      arith,
      length-append (to_be_bytes w (v / 256)) (v % 256 ∷ []),
      length-to_be_bytes w (v / 256),
    )

from_be_loop-append :
    (acc : ℕ) (xs ys : Blob) → from_be_loop acc (xs ++ ys) ≡ from_be_loop (from_be_loop acc xs) ys
unfolding from_be_loop
from_be_loop-append acc [] ys = refl
from_be_loop-append acc (x ∷ xs) ys = from_be_loop-append (acc * 256 + x) xs ys

split : (w v : ℕ) → v < 256 ^ suc w → v / 256 < 256 ^ w
split w v h = omega (arith, pow-suc 256 w)

-- `from_be_bytes` reads back what `to_be_bytes` wrote, if the value fits the width.
pub from_be_bytes-to_be_bytes : (w v : ℕ) → v < 256 ^ w → from_be_bytes (to_be_bytes w v) ≡ v
unfolding from_be_bytes from_be_loop to_be_bytes
from_be_bytes-to_be_bytes zero v h = omega arith
from_be_bytes-to_be_bytes (suc w) v h =
    rw (from_be_loop-append 0 (to_be_bytes w (v / 256)) (v % 256 ∷ []))
      (omega (arith, from_be_bytes-to_be_bytes w (v / 256) (split w v h)))

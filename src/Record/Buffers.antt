-- ===== src/Record/Buffers.antt =====
-- Buffers that are resized and written piece by piece, as memtable/record.rs does.
use lsmlite.Base.{ℕ, suc, ◌+◌, ◌-◌, ◌≤◌, ◌≡◌, refl, ap, ◌∙◌, arith, Option}
use lsmlite.Base.{
  [], ◌∷◌, ◌++◌, append_assoc, append-nil, zero, length, length-append, length-replicate, ◌>>=◌,
}
use lsmlite.Base.{take, replicate}
use lsmlite.Base.Bytes.{Blob, write, resize, write-append, write_next}

pub length-zero : (xs : Blob) → length xs ≡ 0 → xs ≡ []
length-zero [] h = refl
length-zero (x ∷ xs) h = absurd (omega arith)

length-take_pad : (n : ℕ) (xs : Blob) → length (take n xs) + (n - length xs) ≡ n
length-take_pad zero xs = omega arith
length-take_pad (suc n) [] = omega arith
length-take_pad (suc n) (x ∷ xs) = omega (arith, length-take_pad n xs)

pub resize-cons : (x : ℕ) (xs : Blob) (n : ℕ) → resize (x ∷ xs) (suc n) ≡ x ∷ resize xs n
unfolding resize
resize-cons x xs n = let e : suc n - suc (length xs) ≡ n - length xs = omega arith in rw e

-- A resize that keeps a prefix.
pub resize_keeps :
    (pre post : Blob) (size : ℕ)
    → length pre ≤ size
    → (post' : Blob) × (resize (pre ++ post) size ≡ pre ++ post')
      × (length pre + length post' ≡ size)
resize_keeps [] post size h = (
  resize post size,
  refl,
  unfold resize in
      omega (
        arith,
        length-take_pad size post,
        length-append (take size post) (replicate (size - length post) 0),
        length-replicate (size - length post) zero,
      ),
)
resize_keeps (x ∷ pre) post zero h = absurd (omega arith)
resize_keeps (x ∷ pre) post (suc size) h =
    let (rest, e, l) = resize_keeps pre post size (omega arith) in
    (rest, resize-cons x (pre ++ post) size ∙ ap (λ t. x ∷ t) e, omega arith)

-- Three writes one behind the other, from offset 1.
pub refill :
    {C : Type 0} (cont : Blob → Option C) (hd : ℕ) (garbage lv kv key : Blob) (a b : ℕ)
    → length lv + length kv + length key ≤ length garbage
    → a ≡ 1 + length lv
    → b ≡ a + length kv
    → (rest : Blob) × ((do
      b₁ ← write (hd ∷ garbage) 1 lv
      b₂ ← write b₁ a kv
      b₃ ← write b₂ b key
      cont b₃)
        ≡ cont ((hd ∷ lv) ++ (kv ++ (key ++ rest))))
      × (length rest + length lv + length kv + length key ≡ length garbage)
refill cont hd garbage lv kv key a b room pa pb =
    let (r₁, e₁, l₁) = write_next (hd ∷ []) garbage lv 1 refl (omega arith) in
    let (r₂, e₂, l₂) =
      write_next ((hd ∷ []) ++ lv) r₁ kv a (omega (arith, length-append (hd ∷ []) lv))
        (omega arith) in
    let (r₃, e₃, l₃) =
      write_next (((hd ∷ []) ++ lv) ++ kv) r₂ key b
        (omega (arith, length-append ((hd ∷ []) ++ lv) kv)) (omega arith) in
    (r₃, rw (e₁, e₂, e₃) (simp append_assoc), omega arith)

pub regroup :
    (hd : ℕ) (lv kv key t : Blob)
    → (hd ∷ lv) ++ (kv ++ (key ++ t)) ≡ ((hd ∷ lv) ++ (kv ++ key)) ++ t
regroup hd lv kv key t = simp append_assoc

-- The bytes behind the key, and the header, written last.
pub finish_writes :
    {C : Type 0} (cont : Blob → Option C) (hd : ℕ) (lv kv key vv new rest : Blob) (a b : ℕ)
    → length rest ≡ length vv + length new
    → a ≡ 1 + length lv + length kv + length key
    → b ≡ a + length vv
    → (do
      b₂ ← write ((hd ∷ lv) ++ (kv ++ (key ++ rest))) a vv
      b₃ ← write b₂ b new
      b₄ ← write b₃ 0 (0 ∷ [])
      cont b₄)
      ≡ cont ((0 ∷ lv) ++ (kv ++ (key ++ (vv ++ new))))
finish_writes cont hd lv kv key vv new rest a b room pa pb =
    let done = (hd ∷ lv) ++ (kv ++ key) in
    let l : length done ≡ 1 + length lv + length kv + length key =
      simp length-append (omega arith) in
    let (r₁, e₁, l₁) = write_next done rest vv a (omega arith) (omega arith) in
    let (r₂, e₂, l₂) =
      write_next (done ++ vv) r₁ new b (omega (arith, length-append done vv)) (omega arith) in
    let nil : r₂ ≡ [] = length-zero r₂ (omega arith) in
    let regrouped : (done ++ vv) ++ new ≡ hd ∷ (lv ++ (kv ++ (key ++ (vv ++ new)))) =
      simp append_assoc in
    let e₃ = write-append [] (hd ∷ []) (lv ++ (kv ++ (key ++ (vv ++ new)))) (0 ∷ []) 0 refl refl in
    rw (regroup hd lv kv key rest, e₁, e₂, nil, append-nil, regrouped, e₃)

-- ===== src/Bloom/Serial.antt =====
-- `serialize` and `from_bytes` of sstable/bloom_filter.rs.
use lsmlite.Base.{ℕ, ◌+◌, ◌*◌, ◌≡◌, refl, sym, ap, arith, All}
use lsmlite.Base.{some, List, [], ◌∷◌, ◌++◌, length, ◌>>=◌, append_assoc, append-nil, length-append}
use lsmlite.Base.Bytes.{Blob, to_be_bytes, length-to_be_bytes}
use lsmlite.Util.{IsUsize, encode_varint, get_be_array8}
use lsmlite.Util.Varint.{varint, length-varint, decode_varint-encode_varint}
use lsmlite.Disk.Layout.{Filled, put-Filled, Filled-zeros, Filled-end, slice_word}
use lsmlite.Bloom.{BloomFilter, put_words, serialize, get_words, from_bytes}
use lsmlite.Bloom.Members.{IsFilter}

unfoldable pub words_bytes : List ℕ → Blob
words_bytes [] = []
words_bytes (w ∷ ws) = to_be_bytes 8 w ++ words_bytes ws

unfoldable pub bloom_bytes : BloomFilter → Blob
bloom_bytes f = varint (length f.bits) ++ (words_bytes f.bits ++ to_be_bytes 8 f.num_hashes)

put_words-Filled :
    (ws : List ℕ) (b : Blob × ℕ) (done : Blob) (room room' : ℕ)
    → Filled b done room
    → room ≡ 8 * length ws + room'
    → (b' : Blob × ℕ) × (put_words ws b ≡ some b') × Filled b' (done ++ words_bytes ws) room'
unfolding put_words words_bytes
put_words-Filled [] b done room room' f r =
    let e : room ≡ room' = omega arith in (b, refl, rw (append-nil, ← e) f)
put_words-Filled (w ∷ ws) b done room room' f r =
    let (b₁, e₁, f₁) =
      put-Filled b done (to_be_bytes 8 w) room (8 * length ws + room') f
        (omega (arith, length-to_be_bytes 8 w)) in
    let (b₂, e₂, f₂) = put_words-Filled ws b₁ _ _ room' f₁ refl in
    (b₂, rw (e₁, e₂), rw (← append_assoc done (to_be_bytes 8 w) (words_bytes ws)) f₂)

pub serialize_lem : (f : BloomFilter) → serialize f ≡ some (bloom_bytes f)
unfolding serialize bloom_bytes varint
serialize_lem f =
    let n = length f.bits in
    let size = (encode_varint n).1 + 8 * (n + 1) in
    let (b₁, e₁, f₁) =
      put-Filled _ [] (varint n) size (8 * n + 8) (Filled-zeros size)
        (omega (arith, length-varint n)) in
    let (b₂, e₂, f₂) = put_words-Filled f.bits b₁ _ _ 8 f₁ refl in
    let (b₃, e₃, f₃) =
      put-Filled b₂ _ (to_be_bytes 8 f.num_hashes) 8 0 f₂
        (omega (arith, length-to_be_bytes 8 f.num_hashes)) in
    rw (e₁, e₂, e₃, Filled-end b₃ _ f₃, append_assoc)

length-words_bytes : (ws : List ℕ) → length (words_bytes ws) ≡ 8 * length ws
unfolding words_bytes
length-words_bytes [] = refl
length-words_bytes (w ∷ ws) = omega (
  arith,
  length-append (to_be_bytes 8 w) (words_bytes ws),
  length-to_be_bytes 8 w,
  length-words_bytes ws,
)

get_words-words_bytes :
    (ws : List ℕ) (pre post : Blob) (offset : ℕ)
    → All IsUsize ws
    → offset ≡ length pre
    → get_words (length ws) (pre ++ (words_bytes ws ++ post)) offset
      ≡ some (ws, offset + 8 * length ws)
unfolding get_words words_bytes get_be_array8
get_words-words_bytes [] pre post offset h p = ground arith
get_words-words_bytes (w ∷ ws) pre post offset h p =
    let (bytes, e, v) = slice_word pre (words_bytes ws ++ post) 8 w offset h.0 p in
    let l = length-to_be_bytes 8 w in
    let ih =
      get_words-words_bytes ws (pre ++ to_be_bytes 8 w) post (offset + 8) h.1
        (omega (arith, length-append pre (to_be_bytes 8 w))) in
    rw (append_assoc (to_be_bytes 8 w) (words_bytes ws) post, e, v)
      (rw (← append_assoc pre (to_be_bytes 8 w) (words_bytes ws ++ post), ih) (ground arith))

-- `from_bytes` reads back the filter that `serialize` wrote, if the filter is well formed and its
-- words, their number and the number of hashes fit 64 bits.
pub from_bytes-serialize :
    (f : BloomFilter)
    → IsFilter f
    → All IsUsize f.bits
    → IsUsize (length f.bits)
    → IsUsize f.num_hashes
    → (serialize f >>= from_bytes) ≡ some f
unfolding from_bytes bloom_bytes get_be_array8
from_bytes-serialize f w words many hashes =
    let n = length f.bits in
    let last = to_be_bytes 8 f.num_hashes in
    let e₁ = decode_varint-encode_varint [] (words_bytes f.bits ++ last) n 0 many refl in
    let e₂ =
      get_words-words_bytes f.bits (varint n) last (encode_varint n).1 words
        (omega (arith, length-varint n)) in
    let (bytes, e₃, v) =
      slice_word (varint n ++ words_bytes f.bits) [] 8 f.num_hashes ((encode_varint n).1 + 8 * n)
        hashes
        (omega (
          arith,
          length-append (varint n) (words_bytes f.bits),
          length-varint n,
          length-words_bytes f.bits,
        )) in
    let e₄ = rw (append-nil, append_assoc) at e₃ in
    rw (serialize_lem f, e₁, e₂, e₄, v) (ap (λ x. some (record f { num_bits = x })) (sym w.sized))

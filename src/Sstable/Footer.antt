-- ===== src/Sstable/Footer.antt =====
-- sstable/footer.rs, and `encode_footer` of sstable/encode.rs.
use lsmlite.Base.{ℕ, ◌≡◌, refl, arith, Option, some, [], ◌++◌, length, ◌>>=◌}
use lsmlite.Base.{append_assoc, append-nil, length-append, replicate}
use lsmlite.Base.Bytes.{Blob, slice, to_be_bytes, from_be_bytes, length-to_be_bytes, slice-append}
use lsmlite.Util.{IsUsize, get_be_array8}
use lsmlite.Disk.Encode.{put}
use lsmlite.Disk.Layout.{put-Filled, Filled-zeros, Filled-end, slice_word}

-- constants/mod.rs
abbrev pub footer_size : ℕ
footer_size = 24

pub record SstableFooter : Type 0 where
  pub index_block_start : ℕ
  pub index_block_len : ℕ
  pub bloom_filter_start : ℕ

unfoldable pub encode_footer : ℕ → ℕ → ℕ → Option Blob
encode_footer index_block_start index_block_count bloom_filter_start = do
  b₁ ← put (replicate footer_size 0, 0) (to_be_bytes 8 index_block_start)
  b₂ ← put b₁ (to_be_bytes 8 index_block_count)
  b₃ ← put b₂ (to_be_bytes 8 bloom_filter_start)
  some b₃.0

-- `SSTableFooter::from_disk_sstable`.
unfoldable pub footer_from_disk : Blob → ℕ → Option SstableFooter
footer_from_disk fd footer_offset = do
  footer_buffer ← slice fd footer_offset footer_size
  index_block_start_array ← get_be_array8 footer_buffer 0
  index_block_len_array ← get_be_array8 footer_buffer 8
  bloom_filter_start_array ← get_be_array8 footer_buffer 16
  some (record {
    index_block_start = from_be_bytes index_block_start_array;
    index_block_len = from_be_bytes index_block_len_array;
    bloom_filter_start = from_be_bytes bloom_filter_start_array;
  })

abbrev pub footer_bytes : ℕ → ℕ → ℕ → Blob
footer_bytes start len filter = to_be_bytes 8 start ++ (to_be_bytes 8 len ++ to_be_bytes 8 filter)

pub encode_footer_lem :
    (start len filter : ℕ) → encode_footer start len filter ≡ some (footer_bytes start len filter)
unfolding encode_footer
encode_footer_lem start len filter =
    let (b₁, e₁, f₁) =
      put-Filled _ [] (to_be_bytes 8 start) 24 16 (Filled-zeros 24)
        (omega (arith, length-to_be_bytes 8 start)) in
    let (b₂, e₂, f₂) =
      put-Filled b₁ _ (to_be_bytes 8 len) 16 8 f₁ (omega (arith, length-to_be_bytes 8 len)) in
    let (b₃, e₃, f₃) =
      put-Filled b₂ _ (to_be_bytes 8 filter) 8 0 f₂ (omega (arith, length-to_be_bytes 8 filter)) in
    rw (e₁, e₂, e₃, Filled-end b₃ _ f₃, append_assoc)

-- The footer that `encode_footer` puts at the end of a file is read back from there, if its three
-- fields fit 64 bits.
pub footer_from_disk-encode_footer :
    (before : Blob) (start len filter : ℕ)
    → IsUsize start
    → IsUsize len
    → IsUsize filter
    → (encode_footer start len filter >>= λ footer.
        footer_from_disk (before ++ footer) (length before))
      ≡ some
          (record { index_block_start = start; index_block_len = len; bloom_filter_start = filter })
unfolding footer_from_disk get_be_array8
footer_from_disk-encode_footer before start len filter h₁ h₂ h₃ =
    let s = to_be_bytes 8 start in
    let l = to_be_bytes 8 len in
    let f = to_be_bytes 8 filter in
    let ls = length-to_be_bytes 8 start in
    let ll = length-to_be_bytes 8 len in
    let lf = length-to_be_bytes 8 filter in
    let whole =
      slice-append before (footer_bytes start len filter) [] (length before) 24 refl
        (omega (arith, length-append s (l ++ f), length-append l f)) in
    let whole' = rw append-nil at whole in
    let (b₁, e₁, v₁) = slice_word [] (l ++ f) 8 start 0 h₁ refl in
    let (b₂, e₂, v₂) = slice_word s f 8 len 8 h₂ (omega arith) in
    let (b₃, e₃, v₃) = slice_word (s ++ l) [] 8 filter 16 h₃ (omega (arith, length-append s l)) in
    let e₃' = rw (append-nil, append_assoc) at e₃ in
    rw (encode_footer_lem start len filter, whole', e₁, e₂, e₃', v₁, v₂, v₃)

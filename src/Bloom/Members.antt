-- ===== src/Bloom/Members.antt =====
-- `contains` of sstable/bloom_filter.rs after `insert`: there are no false negatives.
use lsmlite.Base.{ℕ, zero, suc, ◌+◌, ◌*◌, ◌/◌, ◌%◌, ◌<◌, ◌≡◌, ◌≢◌, refl, ap, ◌∙◌, arith, true, ◌==◌}
use lsmlite.Base.{some, Bool, false, List, [], ◌∷◌, length, get_elem?, set, length-set}
use lsmlite.Base.{Bool-cases, inl, inr, get_elem?-set_self, get_elem?-set_ne}
use lsmlite.Base.{get_elem?-lt, length-replicate}
use lsmlite.Base.Bytes.{Blob}
use lsmlite.Bloom.{Hashing, BloomFilter, set_bit, test_bit, insert_bit, contains_bit, insert_loop}
use lsmlite.Bloom.{contains_loop, bit_idx, insert, contains, new}
use lsmlite.Bloom.Bits.{test_bit-set_bit_self, test_bit-set_bit_mono}

-- `num_bits` is the size of the words, and there is one at least.
pub record IsFilter (f : BloomFilter) : Type 0 where
  pub sized : f.num_bits ≡ 64 * length f.bits
  pub nonempty : 0 < length f.bits

pub new-IsFilter : (h : Hashing) (size : ℕ) → IsFilter (new h size)
unfolding new
new-IsFilter h size =
    let l = length-replicate ((size * 10 + 63 + 63) / 64) zero in
    record { sized = rw l; nonempty = rw l (omega arith) }

-- The bits that are set stay set.
pub record Covers (bits bits' : List ℕ) : Type 0 where
  pub same_length : length bits' ≡ length bits
  pub stays : (idx : ℕ) → contains_bit bits idx ≡ some true → contains_bit bits' idx ≡ some true

get_elem?-some : (xs : List ℕ) (i : ℕ) → i < length xs → (x : ℕ) × (get_elem? xs i ≡ some x)
get_elem?-some [] i h = absurd (omega arith)
get_elem?-some (x ∷ xs) zero h = (x, refl)
get_elem?-some (x ∷ xs) (suc i) h = get_elem?-some xs i (omega arith)

contains_set :
    (bits : List ℕ) (idx idx' word : ℕ)
    → get_elem? bits (idx / 64) ≡ some word
    → contains_bit bits idx' ≡ some true
    → contains_bit (set bits (idx / 64) (set_bit (idx % 64) word)) idx' ≡ some true
unfolding contains_bit
contains_set bits idx idx' word e h = elim (Bool-cases (idx' / 64 == idx / 64)) [
  | inl same ↦
      let q : idx' / 64 ≡ idx / 64 = ground arith in
      let there =
        get_elem?-set_self bits (idx / 64) (set_bit (idx % 64) word)
          (get_elem?-lt bits (idx / 64) e) in
      let old : test_bit (idx' % 64) word ≡ true = ground (arith, e, q, h) in
      rw (q, there) (ap some (test_bit-set_bit_mono (idx' % 64) (idx % 64) word old))
  | inr other ↦
      let q : idx / 64 ≢ idx' / 64 = ground arith in
      rw (get_elem?-set_ne bits (idx / 64) (idx' / 64) (set_bit (idx % 64) word) q) h
]

insert_bit_lem :
    (bits : List ℕ) (idx : ℕ)
    → idx < 64 * length bits
    → (bits' : List ℕ) × (insert_bit bits idx ≡ some bits')
      × Covers bits bits'
      × (contains_bit bits' idx ≡ some true)
unfolding insert_bit contains_bit
insert_bit_lem bits idx h =
    let (word, e) = get_elem?-some bits (idx / 64) (omega arith) in
    let bits' : List ℕ = set bits (idx / 64) (set_bit (idx % 64) word) in
    (
      bits',
      rw e,
      record {
        same_length = length-set bits (idx / 64) (set_bit (idx % 64) word);
        stays = λ idx' t. contains_set bits idx idx' word e t;
      },
      rw
          (get_elem?-set_self bits (idx / 64) (set_bit (idx % 64) word)
            (get_elem?-lt bits (idx / 64) e))
          (ap some (test_bit-set_bit_self (idx % 64) word)),
    )

Covers-refl : (bits : List ℕ) → Covers bits bits
Covers-refl bits = record { same_length = refl; stays = λ idx h. h }

Covers-trans : (a b c : List ℕ) → Covers a b → Covers b c → Covers a c
Covers-trans a b c f g = record {
  same_length = g.same_length ∙ f.same_length;
  stays = λ idx h. g.stays idx (f.stays idx h);
}

module _ (h : Hashing) (key : Blob) (num_bits : ℕ) where
  contains_loop-Covers :
      (rounds i : ℕ) (a b : List ℕ)
      → Covers a b
      → contains_loop h key num_bits rounds i a ≡ some true
      → contains_loop h key num_bits rounds i b ≡ some true
  unfolding contains_loop
  contains_loop-Covers zero i a b c t = refl
  contains_loop-Covers (suc rounds) i a b c t =
      let idx = bit_idx h key num_bits i in
      let here : contains_bit a idx ≡ some true = ground arith in
      let rest : contains_loop h key num_bits rounds (i + 1) a ≡ some true = ground arith in
      rw (c.stays idx here) (contains_loop-Covers rounds (i + 1) a b c rest)

  idx-lt : (i : ℕ) → 0 < num_bits → bit_idx h key num_bits i < num_bits
  unfolding bit_idx
  idx-lt i p = omega arith

  insert_loop_lem :
      (rounds i : ℕ) (bits : List ℕ)
      → num_bits ≡ 64 * length bits
      → 0 < num_bits
      → (bits' : List ℕ) × (insert_loop h key num_bits rounds i bits ≡ some bits')
        × Covers bits bits'
        × (contains_loop h key num_bits rounds i bits' ≡ some true)
  unfolding insert_loop contains_loop
  insert_loop_lem zero i bits n p = (bits, refl, Covers-refl bits, refl)
  insert_loop_lem (suc rounds) i bits n p =
      let idx = bit_idx h key num_bits i in
      let (b₁, e₁, c₁, t₁) = insert_bit_lem bits idx (omega (arith, idx-lt i p)) in
      let (b₂, e₂, c₂, t₂) = insert_loop_lem rounds (i + 1) b₁ (omega (arith, c₁.same_length)) p in
      (b₂, rw (e₁, e₂), Covers-trans bits b₁ b₂ c₁ c₂, rw (c₂.stays idx t₁) t₂)

-- `insert` does not panic on a well-formed filter and keeps it so; afterwards the key is contained,
-- and so is every key that was contained before.
pub contains-insert :
    (h : Hashing) (f : BloomFilter) (key : Blob)
    → IsFilter f
    → (f' : BloomFilter) × (insert h key f ≡ some f')
      × IsFilter f'
      × (contains h f' key ≡ some true)
      × ((key' : Blob) → contains h f key' ≡ some true → contains h f' key' ≡ some true)
unfolding insert contains
contains-insert h f key w =
    let (bits, e, c, t) =
      insert_loop_lem h key f.num_bits f.num_hashes 0 f.bits w.sized
        (omega (arith, w.sized, w.nonempty)) in
    (
      record f { bits = bits },
      rw e,
      record {
        sized = omega (arith, w.sized, c.same_length);
        nonempty = omega (arith, w.nonempty, c.same_length);
      },
      t,
      λ key' t'. contains_loop-Covers h key' f.num_bits f.num_hashes 0 f.bits bits c t',
    )

contains_loop_total :
    (h : Hashing) (key : Blob) (num_bits rounds i : ℕ) (bits : List ℕ)
    → num_bits ≡ 64 * length bits
    → 0 < num_bits
    → (b : Bool) × (contains_loop h key num_bits rounds i bits ≡ some b)
unfolding contains_loop contains_bit
contains_loop_total h key num_bits zero i bits n p = (true, refl)
contains_loop_total h key num_bits (suc rounds) i bits n p =
    let (word, e) =
      get_elem?-some bits (bit_idx h key num_bits i / 64)
        (omega (arith, idx-lt h key num_bits i p)) in
    let (rest, q) = contains_loop_total h key num_bits rounds (i + 1) bits n p in
    elim (Bool-cases (test_bit (bit_idx h key num_bits i % 64) word)) [
      | inl t ↦ (rest, rw (e, t, q))
      | inr f ↦ (false, rw (e, f))
    ]

-- `contains` does not panic on a well-formed filter.
pub contains_total :
    (h : Hashing) (f : BloomFilter) (key : Blob)
    → IsFilter f
    → (b : Bool) × (contains h f key ≡ some b)
unfolding contains
contains_total h f key w =
    contains_loop_total h key f.num_bits f.num_hashes 0 f.bits w.sized
      (omega (arith, w.sized, w.nonempty))

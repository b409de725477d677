-- ===== src/FileView/ByteOffset.antt =====
-- mca_io_bbview_file_get_byte_offset (io_bbview_file_open.c): where in the file an offset into the
-- view lies. The block index `i` and the length `k` are 32-bit `int`s there, so the model converts
-- to 32 bits, compares as signed numbers, and extends the sign on the way back.
use bbview.Base.{
  ℕ, zero, suc, ◌+◌, ◌-◌, ◌*◌, ◌/◌, ◌%◌, ◌^◌, ◌≤◌, ◌<◌, ◌≡◌, ap, ◌∙◌, inl, inr, List, Option, none,
  some, true, false, Bool, arith, ltb, leb, ◌==◌, if◌then◌else◌, get_elem?, length, Bool-cases,
}
use bbview.Base.Words.{word}
use bbview.FileView.{Block, FileView}
use bbview.FileView.Bytes.{
  prefix, total_len, byte_at, view_byte, byte_at-prefix, prefix-le, prefix-next, prefix-length,
  prefix-zero,
}
use bbview.FileView.Place.{IsTiling, get_elem?-lt, lt-length}

abbrev half32 : ℕ
half32 = 2 ^ 31

abbrev mod32 : ℕ
mod32 = 2 ^ 32

-- `(int)x`, a bit pattern.
abbrev to_int : ℕ → ℕ
to_int x = x % mod32

-- `a >= b` for two `int`s.
abbrev int_ge : ℕ → ℕ → Bool
int_ge a b = leb ((b + half32) % mod32) ((a + half32) % mod32)

abbrev int_sub : ℕ → ℕ → ℕ
int_sub a b = (a + mod32 - b) % mod32

-- An `int` as an operand of a 64-bit sum.
abbrev sign_extend : ℕ → ℕ
sign_extend a = if ltb a half32 then a else a + (word - mod32)

pub data Located : Type 0 where
  located : ℕ → Located
  err_arg : Located
  -- a read behind `f_decoded_iov`, or the model's fuel used up
  fault : Located

-- The `while (1)` loop: the block and the place in it.
unfoldable pub find_block : ℕ → List Block → ℕ → ℕ → Option (ℕ × ℕ)
find_block zero iov index i = none
find_block (suc fuel) iov index i = elim (get_elem? iov index) [
  | none ↦ none
  | some b ↦
      let k = to_int b.iov_len in
      elim (int_ge i k) [
        | true ↦ elim (int_sub i k == 0) [
          | true ↦ some (index + 1, 0)
          | false ↦ find_block fuel iov (index + 1) (int_sub i k)
        ]
        | false ↦ some (index, i)
      ]
]

-- The last sum.
place : FileView → ℕ → Option (ℕ × ℕ) → Located
place v temp none = fault
place v temp (some (index, k)) = elim (get_elem? v.decoded_iov index) [
  | none ↦ fault
  | some b ↦ located ((v.disp + temp + b.iov_base + sign_extend k) % word)
]

unfoldable pub get_byte_offset : FileView → ℕ → Located
unfolding find_block place
get_byte_offset v offset = elim (v.view_size == 0) [
  | true ↦ located 0
  | false ↦
      let bytes_before = (offset * v.etype_size) % word in
      let temp = v.view_extent * (bytes_before / v.view_size) % word in
      elim (leb (2 ^ 63) temp) [
        | true ↦ err_arg
        | false ↦ place v temp (
            find_block (length v.decoded_iov + 1) v.decoded_iov 0
              (to_int (bytes_before % v.view_size)))
      ]
]

-- The three ways in which a round of the loop ends.
module _ (fuel : ℕ) (iov : List Block) (j i : ℕ) (b : Block) (here : get_elem? iov j ≡ some b)
    (size : to_int b.iov_len ≡ b.iov_len) where
  find_stop : int_ge i b.iov_len ≡ false → find_block (suc fuel) iov j i ≡ some (j, i)
  unfolding find_block
  find_stop g = rw (here, find_block) (rw (size, find_block) (rw g))

  find_edge :
      int_ge i b.iov_len ≡ true
      → int_sub i b.iov_len ≡ 0
      → find_block (suc fuel) iov j i ≡ some (j + 1, 0)
  unfolding find_block
  find_edge g z =
      rw (here, find_block)
        (rw (size, find_block) (rw (g, find_block) (rw (size, find_block) (rw (z)))))

  find_next :
      int_ge i b.iov_len ≡ true
      → (r : ℕ) → int_sub i b.iov_len ≡ r
      → (r == 0) ≡ false
      → find_block (suc fuel) iov j i ≡ find_block fuel iov (j + 1) r
  unfolding find_block
  find_next g r d z =
      rw (here, find_block)
        (rw (size, find_block)
          (rw (g, find_block) (rw (size, d, z) (ap (find_block fuel iov (j + 1)) (rw size d)))))

-- The block and the place of byte `q` of a copy.
record Found (iov : List Block) (q : ℕ) (r : Option (ℕ × ℕ)) : Type 0 where
  index : ℕ
  k : ℕ
  block : Block
  result : r ≡ some (index, k)
  here : get_elem? iov index ≡ some block
  sum : prefix iov index + k ≡ q
  inside : k < block.iov_len

module _ (iov : List Block) (n : ℕ) (t : IsTiling iov n) (small : total_len iov < half32) (q : ℕ)
    (low : q < total_len iov) where
  -- With bytes still to come there is a block to come.
  block_left : (j : ℕ) → j ≤ length iov → prefix iov j ≤ q → j < length iov
  block_left j h le = elim (Bool-cases (j == length iov)) [
    | inl e ↦ absurd (
        omega (
          arith,
          ap (prefix iov) (let e' : j ≡ length iov = ground arith in e'),
          prefix-length iov,
        ))
    | inr e ↦ ground arith
  ]

  find_block-Found :
      (fuel j i : ℕ)
      → length iov < fuel + j
      → j ≤ length iov
      → prefix iov j + i ≡ q
      → Found iov q (find_block fuel iov j i)
  find_block-Found zero j i f h e = absurd (omega arith)
  find_block-Found (suc fuel) j i f h e =
      let (b, here) = get_elem?-lt iov j (block_left j h (omega arith)) in
      let bound = lt-length iov j b here in
      let le = prefix-le iov j b here in
      let next = prefix-next iov j b here in
      let size : to_int b.iov_len ≡ b.iov_len = omega arith in
      elim (Bool-cases (int_ge i b.iov_len)) [
        | inr g ↦ record {
          index = j;
          k = i;
          block = b;
          result = find_stop fuel iov j i b here size g;
          here = here;
          sum = e;
          inside = ground arith;
        }
        | inl g ↦
            let diff : int_sub i b.iov_len ≡ i - b.iov_len = ground arith in
            let rest : prefix iov (j + 1) + (i - b.iov_len) ≡ q = ground (arith, next) in
            elim (Bool-cases (i - b.iov_len == 0)) [
              | inr z ↦
                  rw (find_next fuel iov j i b here size g (i - b.iov_len) diff z)
                    (find_block-Found fuel (j + 1) (i - b.iov_len) (omega arith) (omega arith) rest)
              | inl z ↦
                  let (b2, here2) =
                    get_elem?-lt iov (j + 1) (block_left (j + 1) (omega arith) (omega arith)) in
                  record {
                    index = j + 1;
                    k = 0;
                    block = b2;
                    result = find_edge fuel iov j i b here size g (ground arith);
                    here = here2;
                    sum = ground (arith, rest);
                    inside = t.positive (j + 1) b2 here2;
                  }
            ]
      ]

-- The call in range: the loop runs from byte `p % view_size` of copy `p / view_size`.
get_byte_offset_runs :
    (v : FileView) (offset p q temp : ℕ)
    → (v.view_size == 0) ≡ false
    → offset * v.etype_size % word ≡ p
    → v.view_extent * (p / v.view_size) % word ≡ temp
    → leb (2 ^ 63) temp ≡ false
    → to_int (p % v.view_size) ≡ q
    → get_byte_offset v offset
      ≡ place v temp (find_block (length v.decoded_iov + 1) v.decoded_iov 0 q)
unfolding get_byte_offset
get_byte_offset_runs v offset p q temp nonzero plain ahead nonneg as_int =
    rw (nonzero, get_byte_offset)
      (rw (plain, get_byte_offset)
        (rw (ahead, get_byte_offset) (rw (nonneg, get_byte_offset) (rw (plain, ahead, as_int)))))

place_located :
    (v : FileView) (temp index k : ℕ) (b : Block)
    → get_elem? v.decoded_iov index ≡ some b
    → k < half32
    → place v temp (some (index, k)) ≡ located ((v.disp + temp + b.iov_base + k) % word)
unfolding place
place_located v temp index k b here low =
    rw (here, place) (ap located (let e : sign_extend k ≡ k = ground arith in rw e))

-- For a view whose size is that of its blocks, below 2^31, and an offset whose byte position and
-- distance are in range, the call finds the byte of the file that the view shows there: byte
-- `offset * etype_size` of the copies laid out from `disp`.
pub get_byte_offset_exact :
    (v : FileView) (offset : ℕ)
    → IsTiling v.decoded_iov v.iov_count
    → v.view_size ≡ total_len v.decoded_iov
    → 0 < v.view_size
    → v.view_size < half32
    → offset * v.etype_size < word
    → v.view_extent * (offset * v.etype_size / v.view_size) < 2 ^ 63
    → get_byte_offset v offset
      ≡ located (view_byte (record v { offset = v.disp }) (offset * v.etype_size))
unfolding get_byte_offset view_byte
get_byte_offset_exact v offset t size pos small inside near =
    let p = offset * v.etype_size in
    let q = p % v.view_size in
    let found =
      find_block-Found v.decoded_iov v.iov_count t (omega (arith, size)) q (omega (arith, size))
        (length v.decoded_iov + 1) 0 q (omega arith) (omega arith)
        (omega (arith, prefix-zero v.decoded_iov)) in
    let le = prefix-le v.decoded_iov found.index found.block found.here in
    let temp = v.view_extent * (p / v.view_size) in
    let runs =
      get_byte_offset_runs v offset p q temp (ground arith) (omega arith) (omega arith)
        (ground arith) (omega arith) in
    let at =
      byte_at-prefix v.decoded_iov found.index q found.block found.here (omega (arith, found.sum))
        (omega (arith, found.sum, found.inside)) in
    runs
    ∙ ap (place v temp) found.result
    ∙ place_located v temp found.index found.k found.block found.here
        (omega (arith, found.inside, found.sum, size))
    ∙ ap located (
        omega (
          arith,
          at,
          found.sum,
          ap (λ (n : ℕ). p / n * v.view_extent) size,
          ap (λ (n : ℕ). byte_at v.decoded_iov (p % n)) size,
        ))

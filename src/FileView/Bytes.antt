-- ===== src/FileView/Bytes.antt =====
-- What a file view means, independently of the code: the bytes of the file that it shows, in order,
-- and the bytes that an I/O vector names.
use Prim.Native.Nat.add
use mathlib.Core.List.{append_assoc}
use native.Mathlib.Nat.{add-zero, add-mod_left, add-div_left, mod-eq_of_lt, div-eq_of_lt}
use native.Mathlib.Numerals.{add-one}
use bbview.Base.{
  ℕ, zero, suc, ◌+◌, ◌-◌, ◌*◌, ◌/◌, ◌%◌, ◌≤◌, ◌<◌, ◌≡◌, refl, ap, ap₂, sym, List, [], ◌∷◌, ◌++◌,
  some, arith, ltb, if◌then◌else◌, get_elem?, length,
}
use bbview.Base.Words.{word}
use bbview.FileView.{Block, FileView}

-- `f start, f (start + 1), …`, `n` values.
unfoldable pub window : (ℕ → ℕ) → ℕ → ℕ → List ℕ
window f start zero = []
window f start (suc n) = f start ∷ window f (suc start) n

-- The file offsets of one block, and of a vector.
abbrev pub block_byte : ℕ → ℕ → ℕ
block_byte from i = (from + i) % word

unfoldable pub bytes : List Block → List ℕ
bytes [] = []
bytes (b ∷ bs) = window (block_byte b.iov_base) 0 b.iov_len ++ bytes bs

-- The number of bytes in the first `j` blocks, and in all.
unfoldable pub prefix : List Block → ℕ → ℕ
prefix [] j = 0
prefix (b ∷ bs) zero = 0
prefix (b ∷ bs) (suc j) = b.iov_len + prefix bs j

abbrev pub total_len : List Block → ℕ
total_len [] = 0
total_len (b ∷ bs) = b.iov_len + total_len bs

-- Where byte `p` of one copy of the view lies, from the start of the copy.
unfoldable pub byte_at : List Block → ℕ → ℕ
byte_at [] p = 0
byte_at (b ∷ bs) p = if ltb p b.iov_len then b.iov_base + p else byte_at bs (p - b.iov_len)

-- The file offset of byte `p` of the view, counted from the start of the current copy: the copies
-- follow one another at distance `view_extent`.
unfoldable pub view_byte : FileView → ℕ → ℕ
view_byte v p =
    (v.offset
      + p / total_len v.decoded_iov * v.view_extent
      + byte_at v.decoded_iov (p % total_len v.decoded_iov))
    % word

pub window-append :
    (f : ℕ → ℕ) (s m n : ℕ) → window f s (m + n) ≡ window f s m ++ window f (s + m) n
unfolding window
window-append f s zero n = ap₂ (window f) (omega arith) (omega arith)
window-append f s (suc m) n =
    rw (add.suc m n, window-append f (suc s) m n)
      (ap (λ t. f s ∷ (window f (suc s) m ++ window f t n)) (omega arith))

pub window-eq :
    (f g : ℕ → ℕ) (s t n : ℕ)
    → ((i : ℕ) → i < n → f (s + i) ≡ g (t + i))
    → window f s n ≡ window g t n
unfolding window
window-eq f g s t zero h = refl
window-eq f g s t (suc n) h = ap₂ ◌∷◌ (simp add-zero at (h 0 (omega arith))) (
    window-eq f g (suc s) (suc t) n λ i lt.
      let left : suc s + i ≡ s + suc i = omega arith in
      let right : suc t + i ≡ t + suc i = omega arith in rw (left, right) (h (suc i) (omega arith)))

pub bytes-append : (xs ys : List Block) → bytes (xs ++ ys) ≡ bytes xs ++ bytes ys
unfolding bytes
bytes-append [] ys = refl
bytes-append (b ∷ xs) ys = rw (bytes-append xs ys) (sym (append_assoc _ (bytes xs) (bytes ys)))

-- A byte inside block `j`.
pub byte_at-prefix :
    (bs : List Block) (j p : ℕ) (b : Block)
    → get_elem? bs j ≡ some b
    → prefix bs j ≤ p
    → p < prefix bs j + b.iov_len
    → byte_at bs p ≡ b.iov_base + (p - prefix bs j)
unfolding byte_at prefix
byte_at-prefix [] j p b e lo hi = ground arith
byte_at-prefix (x ∷ bs) zero p b e lo hi = ground arith
byte_at-prefix (x ∷ bs) (suc j) p b e lo hi = ground (arith, byte_at-prefix bs j (p - x.iov_len) b)

prefix-suc :
    (bs : List Block) (j : ℕ) (b : Block)
    → get_elem? bs j ≡ some b
    → prefix bs (suc j) ≡ prefix bs j + b.iov_len
unfolding prefix
prefix-suc [] j b e = ground arith
prefix-suc (x ∷ []) zero b e = ground arith
prefix-suc (x ∷ y ∷ bs) zero b e = ground arith
prefix-suc (x ∷ bs) (suc j) b e = ground (arith, prefix-suc bs j b)

pub prefix-next :
    (bs : List Block) (j : ℕ) (b : Block)
    → get_elem? bs j ≡ some b
    → prefix bs (j + 1) ≡ prefix bs j + b.iov_len
prefix-next bs j b e = rw add-one (prefix-suc bs j b e)

pub prefix-length : (bs : List Block) → prefix bs (length bs) ≡ total_len bs
unfolding prefix
prefix-length [] = refl
prefix-length (x ∷ bs) = ap (◌+◌ x.iov_len) (prefix-length bs)

pub prefix-le :
    (bs : List Block) (j : ℕ) (b : Block)
    → get_elem? bs j ≡ some b
    → prefix bs j + b.iov_len ≤ total_len bs
unfolding prefix
prefix-le [] j b e = ground arith
prefix-le (x ∷ bs) zero b e = ground arith
prefix-le (x ∷ bs) (suc j) b e = ground (arith, prefix-le bs j b)

pub prefix-zero : (bs : List Block) → prefix bs 0 ≡ 0
unfolding prefix
prefix-zero [] = refl
prefix-zero (b ∷ bs) = refl

-- A byte of the current copy.
pub view_byte-lt :
    (v : FileView) (p : ℕ)
    → p < total_len v.decoded_iov
    → view_byte v p ≡ (v.offset + byte_at v.decoded_iov p) % word
unfolding view_byte
view_byte-lt v p h = rw (mod-eq_of_lt h, div-eq_of_lt h) (omega arith)

-- The next copy of the view.
pub view_byte-next :
    (v w : FileView) (p : ℕ)
    → 0 < total_len v.decoded_iov
    → w.decoded_iov ≡ v.decoded_iov
    → w.view_extent ≡ v.view_extent
    → w.offset ≡ (v.offset + v.view_extent) % word
    → view_byte v (total_len v.decoded_iov + p) ≡ view_byte w p
unfolding view_byte
view_byte-next v w p h e f g = rw (add-mod_left, add-div_left p h, e, f, g) (omega arith)

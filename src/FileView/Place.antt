-- ===== src/FileView/Place.antt =====
-- A well-formed file view (`fh->f_fview` of ompio), and where in it a call stands.
use bbview.Base.{
  ℕ, zero, suc, ◌+◌, ◌≤◌, ◌<◌, ◌≡◌, refl, List, [], ◌∷◌, some, arith, get_elem?, length,
}
use bbview.Base.Words.{word}
use bbview.FileView.{Block, FileView}
use bbview.FileView.Bytes.{prefix, total_len, view_byte}

-- A decoded view: `n` blocks, none of them empty, of less than 2^64 bytes together.
pub record IsTiling (bs : List Block) (n : ℕ) : Type 0 where
  pub count : n ≡ length bs
  pub small : total_len bs < word
  pub positive : (i : ℕ) (b : Block) → get_elem? bs i ≡ some b → 0 < b.iov_len

-- `total` bytes of the copy are used up, and the last of them lies in block `j` or just before it.
pub record IsAt (bs : List Block) (j sum total : ℕ) : Type 0 where
  pub current : Block
  pub here : get_elem? bs j ≡ some current
  pub before : sum ≡ prefix bs j
  pub from : sum ≤ total
  pub to : total ≤ sum + current.iov_len

-- A view between two calls.
pub record IsValid (v : FileView) : Type 0 where
  pub tiling : IsTiling v.decoded_iov v.iov_count
  pub at : IsAt v.decoded_iov v.index_in_file_view v.position_in_file_view v.total_bytes

-- `w` shows what `v` shows after `n` more bytes.
abbrev pub Follows : ℕ → FileView → FileView → Type 0
Follows n v w = (i : ℕ) → view_byte w (w.total_bytes + i) ≡ view_byte v (v.total_bytes + n + i)

pub get_elem?-lt {ℓ} :
    {A : Type ℓ} (xs : List A) (i : ℕ) → i < length xs → (x : A) × (get_elem? xs i ≡ some x)
get_elem?-lt [] i h = absurd (omega arith)
get_elem?-lt (x ∷ xs) zero h = (x, refl)
get_elem?-lt (x ∷ xs) (suc i) h = get_elem?-lt xs i (omega arith)

pub lt-length {ℓ} :
    {A : Type ℓ} (xs : List A) (i : ℕ) (x : A) → get_elem? xs i ≡ some x → i < length xs
lt-length [] i x e = ground arith
lt-length (y ∷ xs) zero x e = omega arith
lt-length (y ∷ xs) (suc i) x e = omega (arith, lt-length xs i x e)

-- ===== src/Manage/Seek.antt =====
-- mca_io_bbview_file_seek and mca_io_bbview_file_get_eof_offset (io_bbview_file_open.c).
-- An offset is signed there, but is multiplied by, added to and divided by a `size_t`: it is its 64-bit
-- pattern here, and negative from 2^63 on. In get_eof_offset the size of the file is a number
-- below 2^63, and so are the sums.
pub mod Eof
pub mod Position
use bbview.Base.{
  ℕ, zero, suc, ◌+◌, ◌-◌, ◌*◌, ◌/◌, ◌%◌, ◌^◌, List, Bool, true, false, ◌&&◌, ◌||◌, not, Option,
  none, some, ltb, leb, ◌==◌, if◌then◌else◌, get_elem?,
}
use bbview.Base.Options
use bbview.Base.Words.{word, add64}
use bbview.FileView.{Block, FileView}
use bbview.Manage.{Manager}
use bbview.Session.{Code, File, is_success, ompi_error}
use bbview.Session.Run.{Run, M, ok, stuck, pure, get, lock, unlock, call, branch, ◌>>=◌, ◌>>◌}
use bbview.SetView.{leave}

abbrev pub is_negative : ℕ → Bool
is_negative x = not (ltb x (2 ^ 63))

-- The first loop: the number of blocks looked at, and the start of the last one that starts at
-- `in_offset` or before.
unfoldable pub scan_blocks : List Block → ℕ → ℕ → ℕ → ℕ → ℕ → ℕ → Option (ℕ × ℕ)
scan_blocks iov start in_offset zero index offset prev = some (index, prev)
scan_blocks iov start in_offset (suc rounds) index offset prev = elim (leb offset in_offset) [
  | false ↦ some (index, prev)
  | true ↦ elim (get_elem? iov index) [
    | none ↦ none
    | some b ↦
        let next = start + b.iov_base in
        scan_blocks iov start in_offset rounds (index + 1) next
          (if leb next in_offset then next else prev)
  ]
]

-- The second loop: the last multiple of an element up to `in_offset` and `blocklen`. `none` is the
-- model's fuel used up: the loop does not end for an element of size 0.
unfoldable pub step_etypes : ℕ → ℕ → ℕ → ℕ → ℕ → ℕ → ℕ → Option ℕ
step_etypes zero in_offset blocklen size offset prev k = none
step_etypes (suc fuel) in_offset blocklen size offset prev k =
    elim (leb offset in_offset && leb k blocklen) [
      | true ↦ step_etypes fuel in_offset blocklen size (offset + size) offset (k + size)
      | false ↦ some prev
    ]

-- The length of block `index - 1`. For `index` 0 that is an access in front of the array.
unfoldable pub block_before : List Block → ℕ → Option ℕ
block_before iov zero = none
block_before iov (suc i) = elim (get_elem? iov i) [ none ↦ none | some b ↦ some b.iov_len ]

-- `in_offset` counts from the displacement already; if the file ends in front of it, the first loop
-- makes no round.
unfoldable pub eof_from : FileView → ℕ → Option ℕ
eof_from v in_offset =
    let start = in_offset / v.view_extent * v.view_extent in
    Options.◌>>=◌ (scan_blocks v.decoded_iov start in_offset v.iov_count 0 0 0) λ (index, prev).
      Options.◌>>=◌ (block_before v.decoded_iov index)
        λ blocklen. step_etypes (in_offset + 2) in_offset blocklen v.etype_size prev prev 0

-- `none` is an access outside `f_decoded_iov`, a division by an extent of 0, or a loop that does not
-- end.
unfoldable pub get_eof_offset : FileView → ℕ → Option ℕ
get_eof_offset v size =
    if v.view_size == 0
    then some 0
    else if ltb size v.disp || v.view_extent == 0
    then none
    else eof_from v (size - v.disp)

-- `whence`
pub data Whence : Type 0 where
  seek_set seek_cur seek_end other : Whence

module _ {D W : Type 0} (io : Manager W) where
  -- Behind the switch. A division by an element of size 0 does not return.
  unfoldable pub seek_to : ℕ → M D W Code
  seek_to offset f =
      let size = f.ompio.fview.etype_size in
      let moved : M D W Code = do ret ← call (io.set_explicit_offset (offset / size)); leave ret
      in if size == 0 then stuck else moved f

  unfoldable pub seek_if : Bool → ℕ → M D W Code
  seek_if bad offset = branch bad (leave ompi_error) (seek_to offset)

  unfoldable pub seek_from_end : ℕ → Code → Option ℕ → M D W Code
  seek_from_end offset ret none f = stuck
  seek_from_end offset ret (some eof) f =
      let at = add64 offset eof in seek_if (is_negative at || not (is_success ret)) at f

  unfoldable pub seek_by : ℕ → Whence → M D W Code
  seek_by offset seek_set = seek_if (is_negative offset) offset
  seek_by offset seek_cur = do
    (_, temp) ← call io.get_position
    f ← get
    let at = add64 offset (temp * f.ompio.fview.etype_size)
    seek_if (is_negative at) at
  seek_by offset seek_end = do
    (ret, size) ← call io.fs_get_size
    f ← get
    seek_from_end offset ret (get_eof_offset f.ompio.fview size)
  seek_by offset other = leave ompi_error

  unfoldable pub file_seek : ℕ → Whence → M D W Code
  file_seek off whence = do lock; f ← get; seek_by (off * f.ompio.fview.etype_size % word) whence

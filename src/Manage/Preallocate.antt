-- ===== src/Manage/Preallocate.antt =====
-- mca_io_bbview_file_preallocate (io_bbview_file_open.c). A size is a number below 2^63 here; a
-- negative one, which is below every file's size, would end as a smaller one does.
pub mod Outcome
pub mod Bytes
use bbview.Base.{
  ℕ, zero, suc, ◌+◌, ◌-◌, ◌/◌, ◌%◌, ◌^◌, Bool, true, false, Option, none, some, ltb, ◌==◌,
  if◌then◌else◌,
}
use bbview.Manage.{Manager, Buffer}
use bbview.Session.{Code, File, is_success, success, ompi_error, err_out_of_resource}
use bbview.Session.Run.{Run, M, ok, pure, get, lock, call, effect, branch, ◌>>=◌, ◌>>◌}
use bbview.SetView.{leave}

-- OMPIO_PREALLOC_MAX_BUF_SIZE and OMPIO_ROOT.
abbrev pub max_buf_size : ℕ
max_buf_size = 33554432

abbrev pub ompio_root : ℕ
ompio_root = 0

-- The rounds that a loop up to `cycles` makes: an `int`, which holds the low 32 bits of the quotient.
unfoldable pub cycles_of : ℕ → ℕ
cycles_of size =
    let cycles = (size + max_buf_size - 1) / max_buf_size % 2 ^ 32 in
    if ltb cycles (2 ^ 31) then cycles else 0

-- `len`, where `rest` bytes are left.
unfoldable pub piece : ℕ → ℕ
piece rest = if ltb rest max_buf_size then rest else max_buf_size

module _ {D W : Type 0} (io : Manager W) where
  -- The loop that reads what is there and writes it back. The results are `ret`, the buffer and
  -- `written`.
  unfoldable pub write_back : ℕ → ℕ → Buffer → ℕ → M D W (Code × Buffer × ℕ)
  write_back zero size buf written f = ok (success, buf, written) f
  write_back (suc rounds) size buf written f =
      let len = piece (size - written) in
      let read = io.file_read buf len f.ompio f.world in
      let wrote = io.file_write read.0.1 len read.1 read.2 in
      elim (is_success read.0.0) [
        | false ↦ ok (read.0.0, read.0.1, written) (record f { ompio = read.1; world = read.2 })
        | true ↦ elim (is_success wrote.0) [
          | false ↦ ok (wrote.0, read.0.1, written) (record f { ompio = wrote.1; world = wrote.2 })
          | true ↦
              write_back rounds size read.0.1 (written + len)
                (record f { ompio = wrote.1; world = wrote.2 })
        ]
      ]

  -- The loop that writes zeros behind it.
  unfoldable pub write_zeros : ℕ → ℕ → Buffer → ℕ → M D W Code
  write_zeros zero diskspace buf written f = ok success f
  write_zeros (suc rounds) diskspace buf written f =
      let len = piece (diskspace - written) in
      let wrote = io.file_write buf len f.ompio f.world in
      elim (is_success wrote.0) [
        | false ↦ ok wrote.0 (record f { ompio = wrote.1; world = wrote.2 })
        | true ↦
            write_zeros rounds diskspace buf (written + len)
              (record f { ompio = wrote.1; world = wrote.2 })
      ]

  -- `if (diskspace > current_size)` around it, with the memset.
  unfoldable pub extend : ℕ → ℕ → ℕ → M D W Code
  extend diskspace current written =
      branch (ltb current diskspace)
        (write_zeros (cycles_of (diskspace - current)) diskspace (λ i. 0) written) (pure success)

  -- What the root does with a buffer.
  unfoldable pub write_all : ℕ → ℕ → Buffer → M D W Code
  write_all diskspace current buf =
      let size = if ltb current diskspace then current else diskspace in
      do
        (ret, _, written) ← write_back (cycles_of size) size buf 0
        branch (is_success ret) (extend diskspace current written) (pure ret)

  -- The root's part, up to `exit`. `buffer` is what malloc returns.
  unfoldable pub root_part : Option Buffer → ℕ → ℕ → M D W Code
  root_part buffer diskspace current = do
    (_, prev_offset) ← call io.get_position
    elim buffer [
      | none ↦ pure err_out_of_resource
      | some buf ↦
          let restore : M D W Code = (do call (io.set_explicit_offset prev_offset); pure success) in
          do ret ← write_all diskspace current buf; branch (is_success ret) restore (pure ret)
    ]

  -- From `exit` on.
  unfoldable pub finish : ℕ → ℕ → Code → M D W Code
  finish diskspace current at_root =
      let resize : Code → M D W Code = (λ ret. do call (io.fs_set_size diskspace); leave ret) in
      do
        ret ← effect (io.bcast_ret at_root)
        branch (ltb current diskspace) (resize ret) (leave ret)

  -- Behind the broadcast and the size.
  unfoldable pub allocate : Option Buffer → ℕ → ℕ → M D W Code
  allocate buffer diskspace current = do
    f ← get
    at_root ← branch (f.rank == ompio_root) (root_part buffer diskspace current) (pure success)
    finish diskspace current at_root

  unfoldable pub file_preallocate : Option Buffer → ℕ → M D W Code
  file_preallocate buffer diskspace =
      let sized : M D W Code = do
        (ret, current) ← call io.fs_get_size
        branch (is_success ret)
            (branch (ltb diskspace current) (leave success) (allocate buffer diskspace current))
            (leave ompi_error)
      in do
        lock
        (ret, tmp) ← effect (io.bcast diskspace)
        branch (is_success ret) (branch (tmp == diskspace) sized (leave ompi_error))
            (leave ompi_error)

-- ===== src/FileView.antt =====
-- The file view of an open file (`fh->f_fview`, an `mca_io_ompio` structure) as far as
-- io_bbview.c and io_bbview_file_open.c read and write it, and the function that turns the next
-- bytes of the view into an I/O vector, `ompi_io_bbview_generate_current_file_view`.
-- Sizes and offsets are 64-bit words with their wrap-around; the block index and the entry counts
-- are small `int`s and stay plain numbers.
pub mod ByteOffset
pub mod Bytes
pub mod Emit
pub mod Generate
pub mod Place
pub mod Skip
use bbview.Base.{
  ℕ, zero, suc, ◌+◌, ◌*◌, List, [], ◌∷◌, ◌++◌, Bool, true, false, Option, none, some, ltb, leb,
  ◌==◌, get_elem?, if◌then◌else◌,
}
use bbview.Base.Words.{add64, sub64}

-- `struct iovec`
pub record Block : Type 0 where
  pub iov_base : ℕ
  pub iov_len : ℕ

pub record FileView : Type 0 where
  pub disp : ℕ
  pub offset : ℕ
  pub decoded_iov : List Block
  pub iov_count : ℕ
  pub view_extent : ℕ
  pub view_size : ℕ
  pub etype_size : ℕ
  pub total_bytes : ℕ
  pub position_in_file_view : ℕ
  pub index_in_file_view : ℕ

-- The variables of the loop; `k` is the number of entries written so far, `left` is
-- `bytes_to_write`, `sum` is `sum_previous_counts`.
pub record Cursor : Type 0 where
  pub view : FileView
  pub sum : ℕ
  pub j : ℕ
  pub left : ℕ
  pub k : ℕ
  pub block : ℕ
  pub iov : List Block

-- How the call ends: with the vector, with a failed allocation, with an access outside an array, or
-- with the model's fuel used up.
pub data Generated : Type 0 where
  done : FileView → List Block → Generated
  out_of_resource : FileView → Generated
  fault : Generated
  out_of_fuel : Generated

-- What is left of block `b`, `iov_len - (f_total_bytes - sum_previous_counts)`.
pub unread : FileView → ℕ → Block → ℕ
unread v sum b = sub64 b.iov_len (sub64 v.total_bytes sum)

-- `j == f_iov_count`: the next copy of the view begins.
pub next_copy : Cursor → Cursor
next_copy c = record c {
  view = record c.view {
    offset = add64 c.view.offset c.view.view_extent;
    position_in_file_view = 0;
    index_in_file_view = 0;
    total_bytes = 0;
  };
  sum = 0;
  j = 0;
}

-- Steps over a block that is used up. The test `… <= 0` is on an unsigned value.
pub skip_block : Cursor → Block → Cursor
skip_block c b =
    let next = record c { sum = add64 c.sum b.iov_len; j = c.j + 1 } in
    if unread c.view c.sum b == 0
    then (if c.j + 1 == c.view.iov_count then next_copy next else next)
    else c

-- Writes `iov[k]` from block `b`.
pub emit : Cursor → Block → Cursor
emit c b =
    let rest = unread c.view c.sum b in
    let len = if leb c.left rest then c.left else rest in
    let from = add64 b.iov_base (sub64 c.view.total_bytes c.sum) in
    record c {
      view = record c.view { total_bytes = add64 c.view.total_bytes len };
      left = sub64 c.left len;
      k = c.k + 1;
      iov = c.iov ++ record { iov_base = add64 from c.view.offset; iov_len = len } ∷ [];
    }

-- What surrounds the loop: OMPIO_IOVEC_INITIAL_SIZE, and whether an allocation of so many entries
-- succeeds.
pub record Memory : Type 0 where
  pub initial_size : ℕ
  pub alloc : ℕ → Bool

module _ (mem : Memory) where
  -- The reallocation at the top of the loop.
  pub grow : Cursor → Cursor
  grow c = if leb (mem.initial_size * c.block) c.k then record c { block = c.block + 1 } else c

  -- Whether the reallocation, if there is one, succeeds.
  pub grows : Cursor → Bool
  grows c =
      if leb (mem.initial_size * c.block) c.k
      then mem.alloc (mem.initial_size * (c.block + 1))
      else true

  -- The body behind the reallocation, with the read of `f_decoded_iov[j]` and the write of `iov[k]`
  -- inside their arrays.
  pub round : Cursor → Option Cursor
  round c = elim (get_elem? c.view.decoded_iov c.j) [
    | none ↦ none
    | some b ↦
        let c' = skip_block c b in
        elim (get_elem? c'.view.decoded_iov c'.j) [
          | none ↦ none
          | some b' ↦ if ltb c'.k (mem.initial_size * c'.block) then some (emit c' b') else none
        ]
  ]

  pub generate_loop : ℕ → Cursor → Generated
  generate_loop zero c = out_of_fuel
  generate_loop (suc fuel) c = elim (c.left == 0) [
    | true ↦ done (record c.view { position_in_file_view = c.sum; index_in_file_view = c.j }) c.iov
    | false ↦ elim (grows c) [
      | false ↦ out_of_resource c.view
      | true ↦ elim (round (grow c)) [ none ↦ fault | some c' ↦ generate_loop fuel c' ]
    ]
  ]

  -- A vector for the next `max_data` bytes. A round writes at least one byte where no block of the
  -- view is empty, so `max_data + 1` rounds are enough.
  pub generate_current_file_view : FileView → ℕ → Generated
  unfolding generate_loop round grow grows emit skip_block next_copy unread
  generate_current_file_view v max_data = elim (mem.alloc mem.initial_size) [
    | false ↦ out_of_resource v
    | true ↦ generate_loop (max_data + 1) (record {
      view = v;
      sum = v.position_in_file_view;
      j = v.index_in_file_view;
      left = max_data;
      k = 0;
      block = 1;
      iov = [];
    })
  ]

-- ===== src/OffsetInfo.antt =====
-- The record of offsets in ompi_io_bbview_generate_current_file_view (io_bbview.c), behind
-- `mca_io_ompio_record_offset_info`: the root process gathers the entries of all, sorts them by offset,
-- counts how often two processes stand next to each other, and writes the matrix of these counts in
-- compressed rows. The collective calls and ompio's sort are parameters. A file is the lines of
-- numbers that are printed behind its first line.
pub mod Crs
pub mod Decoded
pub mod Displacements
pub mod Matrix
pub mod Whole
use bbview.Base.{
  ℕ, zero, suc, ◌+◌, List, [], ◌∷◌, ◌++◌, map, Bool, true, false, ◌&&◌, Option, none, some, ltb,
  ◌==◌, if◌then◌else◌, get_elem?, length,
}
use bbview.Base.Options.{◌>>=◌, store}
use bbview.FileView
use bbview.FileView.{Block, FileView, Memory, Generated, generate_current_file_view}
use bbview.SortOfflen.{OffLen}

-- `fileview_info.out`
pub record Dump : Type 0 where
  pub entries : ℕ
  pub rows : ℕ
  pub columns : List ℕ
  pub values : List ℕ
  pub row_index : List ℕ

pub data Recorded : Type 0 where
  -- the file, if this process writes one
  success : Option Dump → Recorded
  out_of_resource : Recorded
  err_other : Recorded
  -- an access outside an array
  fault : Recorded

-- The communicator and ompio's `ompi_io_ompio_sort_offlen`. `is_root` is OMPIO_ROOT == f_rank.
pub record Group : Type 0 where
  pub size : ℕ
  pub rank : ℕ
  pub is_root : Bool
  pub gather : ℕ → List ℕ
  pub gatherv : List OffLen → List ℕ → List ℕ → List OffLen
  pub sort : List OffLen → ℕ → List ℕ

-- Which allocations succeed, in the order of the code, and whether the file can be opened.
pub record Allocation : Type 0 where
  pub recvcounts : Bool
  pub displs : Bool
  pub per_process : Bool
  pub all_process : Bool
  pub sorted : Bool
  pub matrix : Bool
  pub file : Bool
  pub column_list : Bool
  pub values : Bool
  pub row_index : Bool

-- `per_process`
abbrev pub own_entries : ℕ → List Block → List OffLen
own_entries rank iov =
    map (λ b. record { offset = b.iov_base; length = b.iov_len; process_id = rank }) iov

-- `displs`, from `displs[0] = before` on, and `tot_entries`.
unfoldable pub displacements : ℕ → List ℕ → List ℕ
displacements before [] = []
displacements before (c ∷ counts) = before ∷ displacements (before + c) counts

unfoldable pub total : List ℕ → ℕ
total [] = 0
total (c ∷ counts) = c + total counts

-- An array of `n` entries.
abbrev pub array {ℓ} : {A : Type ℓ} → ℕ → A → List A
array zero v = []
array (suc n) v = v ∷ array n v

-- `adj_matrix[j][l] += 1`
unfoldable pub bump : List (List ℕ) → ℕ → ℕ → Option (List (List ℕ))
bump matrix j l = get_elem? matrix j >>= λ row.
    get_elem? row l >>= λ v. store row l (v + 1) >>= λ row'. store matrix j row'

-- `all_process[t].process_id`
abbrev pub process_of : List OffLen → ℕ → Option ℕ
process_of all_process t = get_elem? all_process t >>= λ e. some e.process_id

-- The loop over neighbours in `sorted`.
unfoldable pub count_neighbours : List OffLen → List ℕ → List (List ℕ) → Option (List (List ℕ))
count_neighbours all_process [] matrix = some matrix
count_neighbours all_process (s ∷ []) matrix = some matrix
count_neighbours all_process (s ∷ t ∷ sorted) matrix = process_of all_process s >>= λ j.
    process_of all_process t >>= λ l.
    bump matrix j l >>= λ m. bump m l j >>= count_neighbours all_process (t ∷ sorted)

-- `m`: the entries that are not 0.
unfoldable pub count_row : List ℕ → ℕ
count_row [] = 0
count_row (v ∷ row) = (if ltb 0 v then 1 else 0) + count_row row

unfoldable pub count_entries : List (List ℕ) → ℕ
count_entries [] = 0
count_entries (row ∷ rows) = count_row row + count_entries rows

-- The arrays that are filled.
pub record Compressed : Type 0 where
  pub values : List ℕ
  pub column_list : List ℕ
  pub row_index : List ℕ
  pub column_index : ℕ
  pub r_index : ℕ

-- The inner loop, from column `j` on.
unfoldable pub fill_row : ℕ → List ℕ → Compressed → Option Compressed
fill_row j [] s = some s
fill_row j (v ∷ row) s =
    let entered : Option Compressed = store s.values s.column_index v >>= λ values.
    store s.column_list s.column_index j >>= λ columns. some (record s {
      values = values;
      column_list = columns;
      column_index = s.column_index + 1;
      r_index = s.r_index + 1;
    }) in
    (if ltb 0 v then entered else some s) >>= fill_row (j + 1) row

-- The outer loop, from row `i` on.
unfoldable pub fill : ℕ → List (List ℕ) → Compressed → Option Compressed
fill i [] s = some s
fill i (row ∷ rows) s = fill_row 0 row s >>= λ t. store t.row_index (i + 1) t.r_index >>= λ index.
    fill (i + 1) rows (record t { row_index = index })

-- What is written of a matrix of `size` rows.
unfoldable pub write_out : ℕ → List (List ℕ) → Option Dump
write_out size matrix =
    let m = count_entries matrix in
    store (array (size + 1) 0) 0 1 >>= λ index.
    fill 0 matrix (record {
      values = array m 0;
      column_list = array m 0;
      row_index = index;
      column_index = 0;
      r_index = 1;
    })
    >>= λ s. some (record {
      entries = m;
      rows = size + 1;
      columns = s.column_list;
      values = s.values;
      row_index = s.row_index;
    })

abbrev pub written : Option Dump → Recorded
written none = fault
written (some d) = success (some d)

-- Behind the count of the neighbours.
unfoldable pub with_matrix : ℕ → Allocation → Option (List (List ℕ)) → Recorded
with_matrix size alloc none = fault
with_matrix size alloc (some m) =
    let arrays = alloc.column_list && (alloc.values && alloc.row_index) in
    if alloc.file
    then (if arrays then written (write_out size m) else out_of_resource)
    else err_other

-- On the root process.
unfoldable pub record_root : Group → Allocation → List OffLen → List ℕ → Recorded
record_root g alloc own counts =
    let all = g.gatherv own counts (displacements 0 counts) in
    let arrays = alloc.all_process && (alloc.sorted && alloc.matrix) in
    if arrays
    then with_matrix g.size alloc
        (count_neighbours all (g.sort all (total counts)) (array g.size (array g.size 0)))
    else out_of_resource

unfoldable pub record_offset_info : Group → Allocation → List Block → Recorded
record_offset_info g alloc iov =
    let own = own_entries g.rank iov in
    let counts = g.gather (length iov) in
    if alloc.recvcounts && (alloc.displs && alloc.per_process)
    then (if g.is_root then record_root g alloc own counts else success none)
    else out_of_resource

-- The whole of ompi_io_bbview_generate_current_file_view: what it returns of the view, and, where
-- `mca_io_ompio_record_offset_info` is set, of the record.
unfoldable pub generate_and_record :
    Memory → Bool → Group → Allocation → FileView → ℕ → Generated × Recorded
generate_and_record mem flag g alloc v max_data = elim (generate_current_file_view mem v max_data) [
  | FileView.Generated.done v' iov ↦ (
    FileView.Generated.done v' iov,
    if flag then record_offset_info g alloc iov else success none,
  )
  | FileView.Generated.out_of_resource v' ↦ (FileView.Generated.out_of_resource v', out_of_resource)
  | FileView.Generated.fault ↦ (FileView.Generated.fault, fault)
  | FileView.Generated.out_of_fuel ↦ (FileView.Generated.out_of_fuel, fault)
]

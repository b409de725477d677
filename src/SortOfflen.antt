-- ===== src/SortOfflen.antt =====
-- ompi_io_bbview_sort_offlen (io_bbview.c): a heap sort of the indices of an array of offsets and
-- lengths. A read or a write outside an array is `none` within the loops. The indices of children
-- stay below twice the number of entries plus one, which fits an `int` up to 2^30 entries.
pub mod Heap
pub mod Sift
pub mod Sorted
use bbview.Base.{
  ℕ, zero, suc, ◌+◌, ◌-◌, ◌*◌, ◌/◌, List, [], ◌∷◌, Bool, Option, none, some, ltb, leb, ◌==◌,
  if◌then◌else◌, get_elem?,
}
use bbview.Base.Options.{◌>>=◌, store}

-- `mca_io_ompio_offlen_array_t`; a file offset is not negative.
pub record OffLen : Type 0 where
  pub offset : ℕ
  pub length : ℕ
  pub process_id : ℕ

pub data SortResult : Type 0 where
  done : List ℕ → SortResult
  out_of_resource : SortResult
  -- an access outside an array, or the model's fuel used up
  fault : SortResult

-- `temp = temp_arr[i]; temp_arr[i] = temp_arr[j]; temp_arr[j] = temp;`
unfoldable pub swap : List ℕ → ℕ → ℕ → Option (List ℕ)
swap temp_arr i j = get_elem? temp_arr i >>= λ temp.
    get_elem? temp_arr j >>= λ v. store temp_arr i v >>= λ a. store a j temp

-- `temp_arr[i] = i`
abbrev pub indices : ℕ → ℕ → List ℕ
indices i zero = []
indices i (suc n) = i ∷ indices (suc i) n

abbrev finish : Option (List ℕ) → SortResult
finish none = fault
finish (some sorted) = done sorted

module _ (io_array : List OffLen) where
  -- `io_array[temp_arr[j]].offset`
  unfoldable pub offset_at : List ℕ → ℕ → Option ℕ
  offset_at temp_arr j = get_elem? temp_arr j >>= λ t. get_elem? io_array t >>= λ e. some e.offset

  -- A child that is in the heap and larger takes the place of the largest so far.
  unfoldable pub prefer : ℕ → List ℕ → ℕ → ℕ → Option ℕ
  prefer heap_size temp_arr child largest =
      let compared : Option ℕ = offset_at temp_arr child >>= λ x.
      offset_at temp_arr largest >>= λ y. some (if ltb y x then child else largest) in
      if leb child heap_size then compared else some largest

  unfoldable pub largest_of : ℕ → List ℕ → ℕ → Option ℕ
  largest_of heap_size temp_arr j =
      prefer heap_size temp_arr (j * 2 + 1) j >>= prefer heap_size temp_arr (j * 2 + 2)

  -- `while (!done)`: an entry sinks to its place. Every round goes down in the tree, so there are at
  -- most as many as the heap has entries.
  unfoldable pub sift : ℕ → ℕ → List ℕ → ℕ → Option (List ℕ)
  sift zero heap_size temp_arr j = none
  sift (suc fuel) heap_size temp_arr j = largest_of heap_size temp_arr j >>= λ largest.
      let sink = swap temp_arr largest j >>= λ a. sift fuel heap_size a largest in
      if largest == j then some temp_arr else sink

  -- `for (i = num_entries/2-1; i >= 0; i--)`
  unfoldable pub build : ℕ → ℕ → List ℕ → Option (List ℕ)
  build heap_size zero temp_arr = some temp_arr
  build heap_size (suc i) temp_arr = sift (heap_size + 2) heap_size temp_arr i >>= build heap_size i

  -- `for (i = num_entries-1; i >= 1; --i)`
  unfoldable pub extract : ℕ → ℕ → List ℕ → List ℕ → Option (List ℕ × List ℕ)
  extract zero heap_size temp_arr sorted = some (temp_arr, sorted)
  extract (suc i) heap_size temp_arr sorted = swap temp_arr 0 (suc i) >>= λ a.
      sift (heap_size + 2) (heap_size - 1) a 0 >>= λ b.
      get_elem? b (suc i) >>= λ v. store sorted (suc i) v >>= extract i (heap_size - 1) b

  -- `alloc` says whether the array of indices can be had. An array of no entries is written to all
  -- the same, at its first place.
  unfoldable pub sort_offlen : Bool → ℕ → List ℕ → SortResult
  unfolding build extract sift swap largest_of prefer offset_at
  sort_offlen alloc zero sorted = if alloc then fault else out_of_resource
  sort_offlen alloc (suc last) sorted =
      let run : Option (List ℕ) = build last (suc last / 2) (indices 0 (suc last)) >>= λ a.
      extract last last a sorted >>= λ r. get_elem? r.0 0 >>= λ v. store r.1 0 v in
      if alloc then finish run else out_of_resource

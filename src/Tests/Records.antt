-- ===== src/Tests/Records.antt =====
-- The theorems on the heap sort and the record of offsets (io_bbview.c) at a few entries.
use bbview.Base.{
  ℕ, zero, suc, ◌+◌, ◌≤◌, ◌<◌, ◌≡◌, refl, List, [], ◌∷◌, some, true, arith, drop, take, get_or,
  length,
}
use bbview.Base.Arrays.{Perm}
use bbview.FileView
use bbview.FileView.{Block, FileView}
use bbview.FileView.Generate.{Names}
use bbview.OffsetInfo.{
  Dump, Group, Allocation, success, record_offset_info, generate_and_record, displacements, total,
  own_entries,
}
use bbview.OffsetInfo.Decoded.{decoded, IsPlenty, gathered, order, decoded-record_offset_info}
use bbview.OffsetInfo.Matrix.{pairs, processes, AreEntries}
use bbview.OffsetInfo.Whole.{generate_and_record_exact}
use bbview.SortOfflen.{OffLen, sort_offlen, done, indices}
use bbview.SortOfflen.Heap.{no_entry}
use bbview.SortOfflen.Sorted.{IsAscending, sort_offlen_sorts}
use bbview.Tests.Views.{sample_view, sample_memory, sample_view-IsValid}

abbrev three : List OffLen
three =
    record { offset = 30; length = 4; process_id = 0 }
    ∷ record { offset = 10; length = 4; process_id = 1 }
    ∷ record { offset = 20; length = 4; process_id = 0 }
    ∷ []

sort_offlen_sorts_example :
    (out : List ℕ) × (sort_offlen three true 3 (9 ∷ 9 ∷ 9 ∷ 7 ∷ []) ≡ done out)
    × Perm (take 3 out) (indices 0 3)
    × IsAscending three (take 3 out)
    × (drop 3 out ≡ 7 ∷ [])
sort_offlen_sorts_example =
    sort_offlen_sorts three 2 (9 ∷ 9 ∷ 9 ∷ 7 ∷ []) (omega arith) (omega arith)

-- A process alone: what it sends is what it gathers, and the order is the one it came in.
abbrev alone : Group
alone = record {
  size = 1;
  rank = 0;
  is_root = true;
  gather = λ n. n ∷ [];
  gatherv = λ own counts displs. own;
  sort = λ all n. indices 0 (length all);
}

abbrev plenty : Allocation
plenty = record {
  recvcounts = true;
  displs = true;
  per_process = true;
  all_process = true;
  sorted = true;
  matrix = true;
  file = true;
  column_list = true;
  values = true;
  row_index = true;
}

plenty-IsPlenty : IsPlenty plenty
plenty-IsPlenty = record { counts = refl; arrays = refl; file = refl; compressed = refl }

abbrev two_blocks : List Block
two_blocks = record { iov_base = 0; iov_len = 4 } ∷ record { iov_base = 8; iov_len = 4 } ∷ []

sample_rows :
    (d : Dump) × (record_offset_info alone plenty two_blocks ≡ success (some d))
    × ((x y : ℕ)
        → x < 1
        → decoded d x y
          ≡ pairs x y (processes (gathered alone two_blocks) (order alone two_blocks))
            + pairs y x (processes (gathered alone two_blocks) (order alone two_blocks)))
sample_rows =
    decoded-record_offset_info alone plenty two_blocks refl plenty-IsPlenty
      (omega arith, omega arith, (omega arith, omega arith, tt))

indices-AreEntries :
    (all : List OffLen)
    → ((i : ℕ) → (get_or all i no_entry).process_id < 1)
    → (k n : ℕ) → k + n ≤ length all
    → AreEntries 1 all (indices k n)
indices-AreEntries all own k zero le = tt
indices-AreEntries all own k (suc n) le =
    (omega (arith, le), own k, indices-AreEntries all own (suc k) n (omega (arith, le)))

own_entries-process :
    (iov : List Block) (i : ℕ) → (get_or (own_entries 0 iov) i no_entry).process_id < 1
own_entries-process [] i = omega arith
own_entries-process (b ∷ iov) zero = omega arith
own_entries-process (b ∷ iov) (suc i) = own_entries-process iov i

alone-AreEntries : (iov : List Block) → AreEntries 1 (gathered alone iov) (order alone iov)
unfolding displacements total
alone-AreEntries iov =
    indices-AreEntries (own_entries 0 iov) (own_entries-process iov) 0 (length (own_entries 0 iov))
      (omega arith)

generate_and_record_exact_example :
    (after : FileView) × (iov : List Block) × (d : Dump) × (generate_and_record sample_memory true
        alone plenty sample_view 13
      ≡ (FileView.Generated.done after iov, success (some d)))
    × Names sample_view 13 [] (FileView.Generated.done after iov)
    × ((x y : ℕ)
        → x < 1
        → decoded d x y
          ≡ pairs x y (processes (gathered alone iov) (order alone iov))
            + pairs y x (processes (gathered alone iov) (order alone iov)))
generate_and_record_exact_example =
    generate_and_record_exact sample_memory (λ n. refl) (omega arith) alone plenty refl
      plenty-IsPlenty alone-AreEntries sample_view 13 sample_view-IsValid (omega arith)

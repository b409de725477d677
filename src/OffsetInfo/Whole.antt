-- ===== src/OffsetInfo/Whole.antt =====
-- ompi_io_bbview_generate_current_file_view (io_bbview.c) as a whole: the vector and the record of it.
use bbview.Base.{ℕ, ◌+◌, ◌<◌, ◌≡◌, refl, List, [], true, some}
use bbview.Base.Words.{word}
use bbview.FileView
use bbview.FileView.{Block, FileView, Memory, Generated, generate_current_file_view}
use bbview.FileView.Generate.{Names, generate_current_file_view_exact}
use bbview.FileView.Place.{IsValid}
use bbview.OffsetInfo.{Dump, Group, Allocation, success, generate_and_record}
use bbview.OffsetInfo.Decoded.{decoded, IsPlenty, gathered, order, decoded-record_offset_info}
use bbview.OffsetInfo.Matrix.{pairs, processes, AreEntries}

-- On the root process, with memory and a file to be had, the record switched on, and if ompio's sort
-- always gives indices of what was gathered: the call for fewer than 2^64 bytes from a valid view
-- returns a vector that names exactly the next bytes of the view, and has written a file that says how
-- often entries of two processes follow each other among the gathered vectors.
pub generate_and_record_exact :
    (mem : Memory)
    → ((n : ℕ) → mem.alloc n ≡ true)
    → 0 < mem.initial_size
    → (g : Group) (alloc : Allocation) → g.is_root ≡ true
    → IsPlenty alloc
    → ((iov : List Block) → AreEntries g.size (gathered g iov) (order g iov))
    → (v : FileView) (n : ℕ) → IsValid v
    → n < word
    → (after : FileView) × (iov : List Block) × (d : Dump) × (generate_and_record mem true g alloc v
          n
        ≡ (FileView.Generated.done after iov, success (some d)))
      × Names v n [] (FileView.Generated.done after iov)
      × ((x y : ℕ)
          → x < g.size
          → decoded d x y
            ≡ pairs x y (processes (gathered g iov) (order g iov))
              + pairs y x (processes (gathered g iov) (order g iov)))
unfolding generate_and_record
generate_and_record_exact mem ok some_size g alloc root plenty valid v n h small =
    let named = generate_current_file_view_exact mem ok some_size v n h small in
    let (d, recorded, reads) =
      decoded-record_offset_info g alloc named.iov root plenty (valid named.iov) in
    (
      named.after,
      named.iov,
      d,
      rw (named.result, generate_and_record) (rw recorded refl),
      record {
        after = named.after;
        iov = named.iov;
        result = refl;
        exact = named.exact;
        valid = named.valid;
        follows = named.follows;
      },
      reads,
    )

-- ===== src/Tests/Copies.antt =====
-- The theorems on the copy of a local file (bbviewd.c) at a store of attributes and a short file.
use bbview.Base.{ℕ, ◌+◌, ◌≡◌, refl, [], ◌∷◌, ◌++◌, true, false, none, some, arith, take, ◌/◌}
use bbview.Daemon.Chunks.{IsStore, read_chunks-set_datatype}
use bbview.Daemon.Copied.{IsOpen, whole_elements, copy_loop_exact}
use bbview.Daemon.Copy.{read_chunks, copy_loop, buffer_size, finished, target_buffer_size}
use bbview.Flush.{set_datatype, max_xattr_value_size}
use bbview.Session.{File}
use bbview.Session.Run.{Post}
use bbview.Tests.Disk.{Disk, attr_eq_refl, attr_eq-false, disk_posix, disk_copier}
use bbview.Tests.Sample.{opened_file}

abbrev empty_disk : Disk
empty_disk = record {
  attrs = λ a. none;
  content = [];
  rest = [];
  written = [];
  view = none;
  sent = [];
}

abbrev stored_file : File ℕ Disk
stored_file = record {
  view = opened_file.view;
  ompio = opened_file.ompio;
  filename = opened_file.filename;
  rank = 0;
  is_open = true;
  locked = false;
  ucount = 0;
  world = empty_disk;
}

disk-IsStore : IsStore disk_posix disk_copier [] 3
disk-IsStore = record {
  same = λ a v size w done fits. let e = attr_eq_refl a in ground arith;
  others = λ a b v size w done other. let e = attr_eq-false b a other in rw e refl;
}

read_chunks-set_datatype_example :
    Post
      (λ done g.
        done ≡ true
        → read_chunks disk_copier 3 g.world (target_buffer_size / max_xattr_value_size) 0 []
          ≡ some (take 3 (1 ∷ 2 ∷ 3 ∷ [])))
      (set_datatype disk_posix [] 3 (1 ∷ 2 ∷ 3 ∷ []) (3 + 1) 0 0 stored_file)
read_chunks-set_datatype_example =
    read_chunks-set_datatype disk_posix disk_copier [] 3 disk-IsStore 3 (1 ∷ 2 ∷ 3 ∷ []) stored_file
      (omega arith) (omega arith) (omega arith) (λ i. refl)

disk-IsOpen : IsOpen disk_copier 3 5 Disk.rest Disk.written
disk-IsOpen = record { reads = λ n w. (refl, refl, refl); writes = λ et bs w. (refl, refl, refl) }

-- Five bytes, one element of four.
abbrev short_disk : Disk
short_disk = record {
  attrs = λ a. none;
  content = [];
  rest = 1 ∷ 2 ∷ 3 ∷ 4 ∷ 5 ∷ [];
  written = [];
  view = none;
  sent = [];
}

copy_loop_exact_example :
    (w : Disk) × (copy_loop disk_copier 6 3 5 4 4 (buffer_size disk_copier 4) short_disk
      ≡ finished true w)
    × (w.written ≡ short_disk.written ++ whole_elements 4 short_disk.rest)
copy_loop_exact_example =
    copy_loop_exact disk_copier 3 5 Disk.rest Disk.written disk-IsOpen 4 4 (omega arith) 6
      short_disk (omega arith)

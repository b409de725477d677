-- ===== src/Tests/Deliveries.antt =====
-- The way of the data of a view at one disk.
use bbview.Base.{ℕ, ◌≡◌, refl, List, [], ◌∷◌, ◌++◌, true, false, none, some, arith, ◌==◌}
use bbview.Daemon.{message, starved, accept, enqueue, main}
use bbview.Daemon.Chunks.{IsStore}
use bbview.Daemon.Copied.{whole_elements}
use bbview.Daemon.Copy.{finished}
use bbview.Daemon.Job.{JobCalls, handle_job, executed}
use bbview.Delivery.{Delivers}
use bbview.Delivery.Delivered.{file_flush-delivers}
use bbview.Delivery.Received.{file_flush-received}
use bbview.Flush.{file_flush, local_name}
use bbview.Session.{Env, Ompio, File, success, active}
use bbview.Session.Run.{Post}
use bbview.Tests.Disk.{Disk, attr_eq_refl, attr_eq-false, fitting, disk_posix, disk_copier}
use bbview.Tests.Sample.{opened_file, sample_mpi}

abbrev storage_calls : JobCalls ℕ Disk
storage_calls = record {
  copier = disk_copier;
  getxattr = λ path a size w. fitting size (w.attrs a);
  stat = λ path w. true;
}

abbrev storage_ompio : Ompio ℕ ℕ Disk
storage_ompio = record {
  perform = λ op t o w. (success, o, w);
  set_view = λ disp etype filetype datarep info o w. (success, o, w);
  type_size = λ d. d;
  type_extent = λ d. (success, d);
  pack_description_length = λ d. 1;
  get_pack_description = λ d. (success, d ∷ []);
  is_byte = λ d. d == 1;
  is_predefined = λ d. d == 1;
  duplicate = λ d. some d;
  direct_io = λ info. none;
  cstring_to_bool = λ text. none;
}

abbrev storage_env : Env ℕ ℕ Disk
storage_env = record {
  ompio = storage_ompio;
  posix = disk_posix;
  mpi = sample_mpi;
  config = record { tmp_dir = b'/' ∷ b't' ∷ []; path_max = 64 };
  depth = 1;
  displacement_current = 0;
}

-- Six bytes in the local file, one element of four.
abbrev storage : Disk
storage = record {
  attrs = λ a. none;
  content = 1 ∷ 2 ∷ 3 ∷ 4 ∷ 5 ∷ 6 ∷ [];
  rest = [];
  written = 9 ∷ [];
  view = none;
  sent = [];
}

abbrev buffered_file : File ℕ Disk
buffered_file = record {
  view = record opened_file.view {
    state = active;
    saved_disp = 16;
    saved_et_buf = 1 ∷ [];
    saved_et_len = 1;
    saved_dt_buf = 2 ∷ 3 ∷ [];
    saved_dt_len = 2;
  };
  ompio = opened_file.ompio;
  filename = opened_file.filename;
  rank = 0;
  is_open = true;
  locked = false;
  ucount = 0;
  world = storage;
}

storage-IsStore : IsStore disk_posix disk_copier (local_name storage_env buffered_file) 3
storage-IsStore = record {
  same = λ a v size w done fits. let e = attr_eq_refl a in ground arith;
  others = λ a b v size w done other. let e = attr_eq-false b a other in rw e refl;
}

storage-Delivers :
    Delivers storage_calls
      (local_name storage_env buffered_file)
      (b'/' ∷ b'a' ∷ [])
      3
      5
      16
      4
      4
      Disk.content
      Disk.rest
      Disk.written
      Disk.view
storage-Delivers = record {
  by_path = λ a n w. refl;
  there = λ w. refl;
  opens = λ w. (refl, refl, refl);
  open_keeps = λ a n w. refl;
  file_opens = λ w. (refl, refl, refl);
  views = λ w. (refl, refl, refl, refl);
  moves = record {
    reads = λ n w set. (refl, refl, refl, set);
    writes = λ et bs w set. (refl, refl, refl, set);
  };
  closes = λ w. refl;
}

file_flush-delivers_example :
    Post
      (λ c g.
        c ≡ success
        → (name : List ℕ) × (w : Disk) × (g.world.sent ≡ [] ++ (name ∷ []))
          × (handle_job storage_calls 7 name g.world ≡ executed (finished true w))
          × (w.written ≡ (9 ∷ []) ++ whole_elements 4 (1 ∷ 2 ∷ 3 ∷ 4 ∷ 5 ∷ 6 ∷ [])))
      (file_flush storage_env buffered_file)
file_flush-delivers_example =
    file_flush-delivers storage_env storage_calls buffered_file 3 5 3 (b'/' ∷ b'a' ∷ []) 4 4
      Disk.content Disk.rest Disk.written Disk.view Disk.sent storage-IsStore
      (record {
        socket = λ w. refl;
        connect = λ fd w. refl;
        write = λ fd bs w. refl;
        close = λ fd w. refl;
      })
      (record {
        socket = λ w. refl;
        connect = λ fd w. refl;
        write = λ fd bs w. refl;
        close = λ fd w. refl;
      })
      (λ at v w done. refl) storage-Delivers
      (record {
        socket = λ w. refl;
        connect = λ fd w. refl;
        write = λ fd bs w all. refl;
        close = λ fd w. refl;
      })
      (λ at v w done. refl) refl refl (omega arith) (ground arith, (ground arith, tt))
      (record {
        some_bytes = omega arith;
        fits = omega arith;
        whole = omega arith;
        element_fits = omega arith;
      })
      (λ i. refl) refl refl refl refl 7 (omega arith)

file_flush-received_example :
    Post
      (λ c g.
        c ≡ success
        → (name : List ℕ) × (g.world.sent ≡ [] ++ (name ∷ []))
          × (accept (message name) (main 1) ≡ enqueue name (main 1))
          × (accept (starved name) (main 1) ≡ main 1))
      (file_flush storage_env buffered_file)
unfolding main
file_flush-received_example =
    file_flush-received storage_env buffered_file Disk.sent
      (record {
        socket = λ w. refl;
        connect = λ fd w. refl;
        write = λ fd bs w all. refl;
        close = λ fd w. refl;
      })
      (λ at v w done. refl) (b't' ∷ []) (b'/' ∷ b'a' ∷ []) (main 1) refl (omega arith) (omega arith)
      ((λ e. cc), (λ e. cc), ((λ e. cc), (λ e. cc), tt))
      ((λ e. cc), (λ e. cc), ((λ e. cc), (λ e. cc), tt)) refl refl refl

-- ===== src/Tests/Sample.antt =====
-- A file, an environment whose calls all succeed, and one whose daemon does not answer. Datatypes
-- and info objects are numbers, of which 1 is MPI_BYTE; the world counts the calls made on it.
use bbview.Base.{ℕ, ◌+◌, ◌-◌, ◌==◌, [], ◌∷◌, none, some, true, false, length}
use bbview.Base.Words.{word}
use bbview.DirectIo.{Datatypes, named}
use bbview.Manage.{Manager}
use bbview.Session.{Env, File, Ompio, Posix, Transfer, success, active, fresh_data}
use bbview.SetView.{ViewArgs}

abbrev pub sample_ompio : Ompio ℕ ℕ ℕ
sample_ompio = record {
  perform = λ op t o w. (success, o, w + 1);
  set_view = λ disp etype filetype datarep info o w. (success, o, w + 1);
  type_size = λ d. d;
  type_extent = λ d. (success, d);
  pack_description_length = λ d. 1;
  get_pack_description = λ d. (success, d ∷ []);
  is_byte = λ d. d == 1;
  is_predefined = λ d. d == 1;
  duplicate = λ d. some d;
  direct_io = λ info. none;
  cstring_to_bool = λ text. none;
}

abbrev pub sample_posix : Posix ℕ
sample_posix = record {
  realpath = λ path w. some path;
  setxattr = λ path attr v w. (true, w + 1);
  open_local = λ path direct w. (some 7, w + 1);
  reopen = λ path w. (some 8, w + 1);
  close = λ fd w. w + 1;
  socket = λ w. (some 9, w + 1);
  connect = λ fd w. (true, w + 1);
  write = λ fd name w. (some (length name), w + 1);
}

abbrev pub sample_mpi : Datatypes ℕ
sample_mpi = record {
  get_envelope = λ d. some named;
  get_contents = λ d. none;
  type_size = λ d. some d;
  order_c = 0;
  order_fortran = 1;
  distribute_none = 2;
  distribute_block = 0;
  dflt_darg = 5;
}

abbrev pub sample_env : Env ℕ ℕ ℕ
sample_env = record {
  ompio = sample_ompio;
  posix = sample_posix;
  mpi = sample_mpi;
  config = record { tmp_dir = b'/' ∷ b't' ∷ []; path_max = 64 };
  depth = 1;
  displacement_current = word - 54278278;
}

-- No daemon listens.
abbrev pub deaf_env : Env ℕ ℕ ℕ
deaf_env = record sample_env { posix = record sample_posix { connect = λ fd w. (false, w + 1) } }

-- No local file can be opened.
abbrev pub full_env : Env ℕ ℕ ℕ
full_env = record sample_env {
  posix = record sample_posix { open_local = λ path direct w. (none, w + 1) };
}

abbrev pub sample_manager : Manager ℕ
sample_manager = record {
  file_open = λ o w. (success, o, w + 1);
  file_close = λ o w. (success, o, w + 1);
  file_get_size = λ o w. ((success, 0), o, w);
  fs_get_size = λ o w. ((success, 0), o, w);
  fs_set_size = λ size o w. (success, o, w + 1);
  fs_sync = λ o w. (success, o, w + 1);
  check_atomicity = λ o w. (true, o, w);
  bcast = λ n w. ((success, n), w + 1);
  barrier = λ w. (success, w + 1);
  no_pending_requests = λ w. true;
  get_position = λ o w. ((success, 0), o, w);
  set_explicit_offset = λ offset o w. (success, o, w + 1);
  bcast_ret = λ ret w. (ret, w + 1);
  file_read = λ buf len o w. ((success, buf), o, w + 1);
  file_write = λ buf len o w. (success, o, w + 1);
  sharedfp_seek = λ offset whence o w. (success, o, w + 1);
  sharedfp_get_position = λ o w. ((success, 0), o, w);
}

-- A file as it is opened, and one with a buffered view.
abbrev pub opened_file : File ℕ ℕ
opened_file = record {
  view = fresh_data;
  ompio = record {
    fd = some 3;
    filename = b'/' ∷ b'a' ∷ [];
    sequential = false;
    rdonly = false;
    atomicity = false;
    sharedfp = true;
    split_coll_in_use = false;
    fview = record {
      disp = 0;
      offset = 0;
      decoded_iov = [];
      iov_count = 0;
      view_extent = 0;
      view_size = 0;
      etype_size = 1;
      total_bytes = 0;
      position_in_file_view = 0;
      index_in_file_view = 0;
    };
  };
  filename = b'/' ∷ b'a' ∷ [];
  rank = 0;
  is_open = true;
  locked = false;
  ucount = 0;
  world = 0;
}

abbrev pub active_file : File ℕ ℕ
active_file = record opened_file {
  view = record {
    state = active;
    view_index = 1;
    saved_disp = 0;
    saved_dt_len = 1;
    saved_dt_buf = 2 ∷ [];
    saved_et_len = 1;
    saved_et_buf = 1 ∷ [];
    saved_datarep = some [];
    saved_etype = some 1;
    saved_filetype = some 2;
  };
}

-- A view of a type other than MPI_BYTE, from offset 0 on.
abbrev pub strided_args : ViewArgs ℕ ℕ
strided_args = record {
  disp = 0;
  etype = 1;
  filetype = 2;
  datarep = b'n' ∷ b'a' ∷ b't' ∷ b'i' ∷ b'v' ∷ b'e' ∷ [];
  info = none;
}

abbrev pub sample_transfer : Transfer ℕ
sample_transfer = record { offset = 0; buf = 0; count = 3; datatype = 2; status = true }

-- The sizes of types cannot be had.
abbrev pub bare_env : Env ℕ ℕ ℕ
bare_env = record sample_env { mpi = record sample_mpi { type_size = λ d. none } }

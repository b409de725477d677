-- ===== src/Tests/Handles.antt =====
-- The descriptors of a file, in a world that lists them.
use bbview.Base.{
  ℕ, ◌==◌, ◌≡◌, refl, ap, sym, ◌∙◌, List, [], ◌∷◌, true, false, some, none, length, inl, inr, Bool,
  Option, Option-cases,
}
use bbview.Base.Handles.{adding}
use bbview.DirectIo.{enable_directio}
use bbview.Flush.Descriptors.{IsHeld}
use bbview.Manage.{Manager}
use bbview.Manage.Descriptors.{views_and_close, views_and_close-even, without_fd}
use bbview.Session.{Env, File, OmpioFile, Ompio, Posix, success}
use bbview.Session.Run.{Post}
use bbview.SetView.{direct_flag, ViewArgs}
use bbview.Tests.Fds.{is_open, fresh, shut, fresh-free, is_open-cons, is_open-shut}
use bbview.Tests.Sample.{sample_mpi, opened_file, strided_args}

abbrev Fds : Type 0
Fds = List ℕ

abbrev shut_fd : Option ℕ → Fds → Fds
shut_fd none w = w
shut_fd (some fd) w = shut fd w

abbrev open_fd : Fds → Option ℕ × Fds
open_fd w = (some (fresh w), fresh w ∷ w)

abbrev counting_posix : Posix Fds
counting_posix = record {
  realpath = λ path w. some path;
  setxattr = λ path attr v w. (true, w);
  open_local = λ path direct w. open_fd w;
  reopen = λ path w. open_fd w;
  close = shut_fd;
  socket = open_fd;
  connect = λ fd w. (true, w);
  write = λ fd name w. (some (length name), w);
}

new_fd :
    (w : Fds) (fd : ℕ)
    → some (fresh w) ≡ some fd
    → (is_open w fd ≡ false) × (is_open (fresh w ∷ w) ≡ adding fd (is_open w))
new_fd w fd e =
    let same : fresh w ≡ fd = cc in
    (
      ap (is_open w) (sym same) ∙ fresh-free w,
      is_open-cons (fresh w) w ∙ ap (λ n. adding n (is_open w)) same,
    )

counting_posix-IsHeld : IsHeld counting_posix is_open
counting_posix-IsHeld = record {
  stores = λ path at v w. refl;
  socket = λ w fd e. new_fd w fd e;
  no_socket = λ w e. cc;
  connects = λ fd w. refl;
  writes = λ fd bs w. refl;
  closes = λ fd w. is_open-shut fd w;
  closes_none = λ w. refl;
  opens = λ path direct w fd e. new_fd w fd e;
  opens_none = λ path direct w e. cc;
  reopens = λ path w fd e. new_fd w fd e;
  reopens_none = λ path w e. cc;
}

abbrev counting_ompio : Ompio ℕ ℕ Fds
counting_ompio = record {
  perform = λ op t o w. (success, o, w);
  set_view = λ disp etype filetype datarep info o w. (success, o, w);
  type_size = λ d. d;
  type_extent = λ d. (success, d);
  pack_description_length = λ d. 1;
  get_pack_description = λ d. (success, d ∷ []);
  is_byte = λ d. d == 1;
  is_predefined = λ d. d == 1;
  duplicate = λ d. some d;
  direct_io = λ info. none;
  cstring_to_bool = λ text. none;
}

abbrev counting_env : Env ℕ ℕ Fds
counting_env = record {
  ompio = counting_ompio;
  posix = counting_posix;
  mpi = record sample_mpi { type_size = λ d. none };
  config = record { tmp_dir = b'/' ∷ b't' ∷ []; path_max = 64 };
  depth = 1;
  displacement_current = 7;
}

counting_env-known :
    (a : ViewArgs ℕ ℕ) → (direct : Bool) × (direct_flag counting_env a ≡ some direct)
unfolding direct_flag enable_directio
counting_env-known a = elim (Option-cases a.info) [
  | inl e ↦ (false, rw e refl)
  | inr (info, e) ↦ (false, rw e refl)
]

abbrev counting_manager : Manager Fds
counting_manager = record {
  file_open = λ o w. (success, o, w);
  file_close = λ o w. (success, o, shut_fd o.fd w);
  file_get_size = λ o w. ((success, 0), o, w);
  fs_get_size = λ o w. ((success, 0), o, w);
  fs_set_size = λ size o w. (success, o, w);
  fs_sync = λ o w. (success, o, w);
  check_atomicity = λ o w. (true, o, w);
  bcast = λ n w. ((success, n), w);
  barrier = λ w. (success, w);
  no_pending_requests = λ w. true;
  get_position = λ o w. ((success, 0), o, w);
  set_explicit_offset = λ offset o w. (success, o, w);
  bcast_ret = λ ret w. (ret, w);
  file_read = λ buf len o w. ((success, buf), o, w);
  file_write = λ buf len o w. (success, o, w);
  sharedfp_seek = λ offset whence o w. (success, o, w);
  sharedfp_get_position = λ o w. ((success, 0), o, w);
}

-- The file is open as 3, beside three others.
abbrev counted_file : File ℕ Fds
counted_file = record {
  view = opened_file.view;
  ompio = opened_file.ompio;
  filename = opened_file.filename;
  rank = 0;
  is_open = true;
  locked = false;
  ucount = 0;
  world = 3 ∷ 2 ∷ 1 ∷ 0 ∷ [];
}

closing_fd : (o : OmpioFile) (w : Fds) → is_open (shut_fd o.fd w) ≡ without_fd (is_open w) o.fd
closing_fd o w = elim (Option-cases o.fd) [
  | inl e ↦ rw e refl
  | inr (fd, e) ↦ rw e (is_open-shut fd w)
]

views_and_close-even_example :
    Post
      (λ r g. r.1 ≡ true → is_open g.world ≡ is_open (2 ∷ 1 ∷ 0 ∷ []))
      (views_and_close counting_env counting_manager
        (strided_args ∷ strided_args ∷ [])
        counted_file)
views_and_close-even_example =
    views_and_close-even counting_env counting_manager is_open counting_posix-IsHeld
      (λ disp et ft datarep info o w. (refl, refl)) closing_fd (is_open (2 ∷ 1 ∷ 0 ∷ []))
      counting_env-known (strided_args ∷ strided_args ∷ []) counted_file refl
      (refl, is_open-cons 3 (2 ∷ 1 ∷ 0 ∷ []))

-- ===== src/Tests/Places.antt =====
-- The theorems on seeking and preallocation (io_bbview_file_open.c) at a file of 42 bytes.
use bbview.Base.{
  ℕ, ◌+◌, ◌-◌, ◌*◌, ◌/◌, ◌<◌, ◌≡◌, refl, [], ◌∷◌, some, true, false, arith, ◌&&◌, ◌==◌,
}
use bbview.Base.Words.{word}
use bbview.FileView.{FileView}
use bbview.Manage.{Manager, Buffer}
use bbview.Manage.Preallocate.{write_back, root_part, file_preallocate}
use bbview.Manage.Preallocate.Bytes.{write_back_moves_on, root_part_writes}
use bbview.Manage.Preallocate.Outcome.{file_preallocate_outcome}
use bbview.Manage.Seek.{get_eof_offset, seek_cur, seek_set, seek_end, file_seek}
use bbview.Manage.Seek.Eof.{get_eof_offset_contiguous, get_eof_offset_in_gap}
use bbview.Manage.Seek.Position.{moved, file_seek_cur, file_seek_set, file_seek_end}
use bbview.Session.{File, success, ompi_error}
use bbview.Session.Run.{Post}
use bbview.Tests.Sample.{opened_file}
use bbview.Tests.Views.{sample_view}

-- Two elements of four bytes, without gaps, from byte 4 on.
abbrev dense_view : FileView
dense_view = record sample_view {
  disp = 4;
  offset = 4;
  decoded_iov = record { iov_base = 0; iov_len = 8 } ∷ [];
  iov_count = 1;
  view_extent = 8;
}

sample_eof : get_eof_offset dense_view 42 ≡ some 36
sample_eof =
    get_eof_offset_contiguous dense_view 2 42 refl refl refl (λ e. cc) (omega arith) (omega arith)
      (omega arith)

-- Two blocks of single bytes, with a gap from byte 4 to byte 8.
abbrev gap_view : FileView
gap_view = record sample_view {
  decoded_iov = record { iov_base = 0; iov_len = 4 } ∷ record { iov_base = 8; iov_len = 8 } ∷ [];
  etype_size = 1;
  view_size = 12;
}

get_eof_offset_in_gap_example : get_eof_offset gap_view 106 ≡ some 6
get_eof_offset_in_gap_example =
    get_eof_offset_in_gap gap_view 4 8 8 6 refl refl (omega arith) (λ e. cc) refl (omega arith)
      (omega arith) (omega arith)

-- The world is the number of bytes written and the byte the file pointer is at.
abbrev disk : Manager (ℕ × ℕ)
disk = record {
  file_open = λ o w. (success, o, w);
  file_close = λ o w. (success, o, w);
  file_get_size = λ o w. ((success, 42), o, w);
  fs_get_size = λ o w. ((success, 42), o, w);
  fs_set_size = λ size o w. (success, o, w);
  fs_sync = λ o w. (success, o, w);
  check_atomicity = λ o w. (true, o, w);
  bcast = λ n w. ((success, n), w);
  barrier = λ w. (success, w);
  no_pending_requests = λ w. true;
  get_position = λ o w. ((success, w.1), o, w);
  set_explicit_offset = λ offset o w. (success, o, (w.0, offset));
  bcast_ret = λ ret w. (ret, w);
  file_read = λ buf len o w. ((success, buf), o, (w.0, w.1 + len));
  file_write = λ buf len o w. (success, o, (w.0 + len, w.1 + len));
  sharedfp_seek = λ offset whence o w. (success, o, w);
  sharedfp_get_position = λ o w. ((success, 0), o, w);
}

abbrev dense_file : File ℕ (ℕ × ℕ)
dense_file = record {
  view = opened_file.view;
  ompio = record opened_file.ompio { fview = dense_view };
  filename = opened_file.filename;
  rank = 0;
  is_open = true;
  locked = false;
  ucount = 0;
  world = (0, 5);
}

-- Three elements back from element 5.
file_seek_cur_example :
    file_seek disk (word - 3) seek_cur dense_file ≡ moved disk 2 dense_file.ompio (0, 5) dense_file
file_seek_cur_example =
    file_seek_cur disk dense_file refl (omega arith) (word - 3) 5 2 success (0, 5) refl refl
      (omega arith)

seek_to_seven :
    file_seek disk 7 seek_set dense_file ≡ moved disk 7 dense_file.ompio (0, 5) dense_file
seek_to_seven = file_seek_set disk dense_file refl (omega arith) 7 (omega arith)

-- Two elements back from the end, which is behind nine.
file_seek_end_example :
    file_seek disk (word - 2) seek_end dense_file ≡ moved disk 7 dense_file.ompio (0, 5) dense_file
file_seek_end_example =
    file_seek_end disk dense_file refl (omega arith) 2 42 (word - 2) 7 (0, 5) refl refl refl refl
      (λ e. cc) (omega arith) (omega arith) refl (omega arith)

abbrev zeros : Buffer
zeros = λ i. 0

file_preallocate_outcome_example :
    Post
      (λ c g.
        (g ≡ record dense_file { ompio = g.ompio; world = g.world; locked = false })
        × ((true && 7 == 7) ≡ false → (c ≡ ompi_error) × (g.ompio ≡ dense_file.ompio))
        × ((true && 7 == 7) ≡ true → true ≡ false → (c ≡ ompi_error) × (g.ompio ≡ dense_file.ompio))
        × ((true && 7 == 7) ≡ true
            → true ≡ true
            → 7 < 42
            → (c ≡ success) × (g.ompio ≡ dense_file.ompio)))
      (file_preallocate disk (some zeros) 7 dense_file)
file_preallocate_outcome_example = file_preallocate_outcome disk dense_file (some zeros) 7 refl

write_back_moves_on_example :
    Post
      (λ r g.
        (r.0 ≡ success)
        × (r.2 ≡ 42)
        × (g.world.0 ≡ 0 + (42 - 0))
        × (g.world.1 ≡ 5 + (42 - 0) + (42 - 0)))
      (write_back disk 1 42 zeros 0 dense_file)
write_back_moves_on_example =
    write_back_moves_on disk (λ o w. w.0) (λ o w. w.1) (λ buf len o w. (refl, refl, refl))
      (λ buf len o w. (refl, refl, refl)) 1 42 zeros 0 dense_file (omega arith) (omega arith)

-- The same disk, with positions in elements of four bytes.
abbrev disk_of_fours : Manager (ℕ × ℕ)
disk_of_fours = record disk {
  get_position = λ o w. ((success, w.1 / 4), o, w);
  set_explicit_offset = λ offset o w. (success, o, (w.0, offset * 4));
}

-- At the second element.
abbrev second_element : File ℕ (ℕ × ℕ)
second_element = record dense_file { world = (0, 8) }

root_part_writes_example :
    Post
      (λ c g. (c ≡ success) × (g.world.0 ≡ 0 + 101) × (g.world.1 ≡ 8))
      (root_part disk_of_fours (some zeros) 101 42 second_element)
root_part_writes_example =
    root_part_writes disk_of_fours (λ o w. w.0) (λ o w. w.1) (λ buf len o w. (refl, refl, refl))
      (λ buf len o w. (refl, refl, refl)) 4 (λ t o w. (refl, refl)) zeros 101 42 second_element refl
      refl (omega arith) (omega arith)

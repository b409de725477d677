-- ===== src/Tests/Disk.antt =====
-- A disk with one local file and one destination.
use bbview.Base.{
  ℕ, ◌≡◌, ◌≢◌, refl, List, [], ◌∷◌, ◌++◌, Bool, true, false, Option, none, some, arith, leb, ◌==◌,
  if◌then◌else◌, length, take, drop,
}
use bbview.Daemon.Chunks.{value_size}
use bbview.Daemon.Copy.{Copier}
use bbview.Session.{Attr, AttrValue, Posix, dest_path, disp, etype, datatype}

-- The attributes and the content of the one local file, what is left to read of it, what has been
-- written, the view of the destination, and the messages that have been sent.
pub record Disk : Type 0 where
  pub attrs : Attr → Option AttrValue
  pub content : List ℕ
  pub rest : List ℕ
  pub written : List ℕ
  pub view : Option (ℕ × ℕ × ℕ)
  pub sent : List (List ℕ)

abbrev pub attr_eq : Attr → Attr → Bool
attr_eq dest_path dest_path = true
attr_eq disp disp = true
attr_eq etype etype = true
attr_eq (datatype i) (datatype j) = i == j
attr_eq a b = false

pub attr_eq_refl : (a : Attr) → attr_eq a a ≡ true
attr_eq_refl dest_path = refl
attr_eq_refl disp = refl
attr_eq_refl etype = refl
attr_eq_refl (datatype i) = ground arith

pub attr_eq-false : (a b : Attr) → b ≢ a → attr_eq a b ≡ false
attr_eq-false a b h = ground arith

abbrev pub fitting : ℕ → Option AttrValue → Option AttrValue
fitting size none = none
fitting size (some v) = if leb (value_size v) size then some v else none

abbrev pub disk_posix : Posix Disk
disk_posix = record {
  realpath = λ path w. some path;
  setxattr =
      λ path a v w. (true, record w { attrs = λ b. if attr_eq b a then some v else w.attrs b });
  open_local = λ path direct w. (some 7, w);
  reopen = λ path w. (some 8, w);
  close = λ fd w. w;
  socket = λ w. (some 9, w);
  connect = λ fd w. (true, w);
  write = λ fd name w. (some (length name), record w { sent = w.sent ++ (name ∷ []) });
}

abbrev pub disk_copier : Copier ℕ Disk
disk_copier = record {
  open_read = λ path w. (some 3, record w { rest = w.content });
  fgetxattr = λ fd a size w. fitting size (w.attrs a);
  unpack = λ bs. some 4;
  type_size = λ d. some d;
  malloc = λ n. true;
  file_open = λ path w. (some 5, w);
  set_view = λ fh from et dt w. (true, record w { view = some (from, et, dt) });
  read = λ fd n w. (some (take n w.rest), record w { rest = drop n w.rest });
  file_write = λ fh et bs w. (true, record w { written = w.written ++ bs });
  file_close = λ fh w. w;
  close = λ fd w. w;
}

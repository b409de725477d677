-- ===== src/Tests/Descriptors.antt =====
-- The theorem on the descriptors of a copy (bbviewd.c) at a local file that one read empties.
use bbview.Base.{
  ℕ, List, ◌≡◌, ap, sym, ◌∙◌, refl, [], ◌∷◌, Bool, true, false, Option, none, some, arith, ◌==◌,
  if◌then◌else◌,
}
use bbview.Daemon.Copy.{Copier, execute}
use bbview.Base.Handles.{Table, adding}
use bbview.Daemon.Descriptors.{Tables, IsCounted, EndsWith, execute-EndsWith}
use bbview.Session.{Attr, AttrValue, text, number, dest_path, disp, etype, datatype}
use bbview.Tests.Fds.{is_open, fresh, shut, fresh-free, is_open-cons, is_open-shut}

record Handles : Type 0 where
  fds : List ℕ
  handles : List ℕ
  unread : Bool

abbrev attribute : Attr → Option AttrValue
attribute dest_path = none
attribute disp = some (number 0)
attribute etype = some (text (1 ∷ []))
attribute (datatype i) = if i == 0 then some (text (2 ∷ [])) else none

abbrev opening : Handles → Option ℕ × Handles
opening w = (some (fresh w.fds), record w { fds = fresh w.fds ∷ w.fds })

abbrev opening_handle : Handles → Option ℕ × Handles
opening_handle w = (some (fresh w.handles), record w { handles = fresh w.handles ∷ w.handles })

abbrev counting : Copier ℕ Handles
counting = record {
  open_read = λ path w. opening w;
  fgetxattr = λ fd a size w. attribute a;
  unpack = λ bs. some 4;
  type_size = λ d. some 4;
  malloc = λ n. true;
  file_open = λ path w. opening_handle w;
  set_view = λ fh from et dt w. (true, w);
  read =
      λ fd n w. (some (if w.unread then 1 ∷ 2 ∷ 3 ∷ 4 ∷ [] else []), record w { unread = false });
  file_write = λ fh et bs w. (true, w);
  file_close = λ fh w. record w { handles = shut fh w.handles };
  close = λ fd w. record w { fds = shut fd w.fds };
}

abbrev remaining : Handles → ℕ
remaining w = if w.unread then 1 else 0

abbrev held : Handles → Tables
held w = (is_open w.fds, is_open w.handles)

new_number :
    (xs : List ℕ) (n : ℕ)
    → some (fresh xs) ≡ some n
    → (is_open xs n ≡ false) × (is_open (fresh xs ∷ xs) ≡ adding n (is_open xs))
new_number xs n e =
    let same : fresh xs ≡ n = cc in
    (
      ap (is_open xs) (sym same) ∙ fresh-free xs,
      is_open-cons (fresh xs) xs ∙ ap (λ k. adding k (is_open xs)) same,
    )

counting-IsCounted : IsCounted counting held remaining
counting-IsCounted = record {
  opens = λ path w fd e.
      let (free, more) = new_number w.fds fd e in
      (free, ap (λ (t : Table). (t, is_open w.handles)) more);
  opens_none = λ path w e. cc;
  file_opens = λ path w fh e.
      let (free, more) = new_number w.handles fh e in
      (free, ap (λ (t : Table). (is_open w.fds, t)) more);
  file_opens_none = λ path w e. cc;
  views = λ fh from et dt w. refl;
  reads = λ fd n w. refl;
  shrinks = λ fd n w c cs e. ground arith;
  writes = λ fh et bs w. refl;
  writes_only = λ fh et bs w. refl;
  closes = λ fd w. ap (λ (t : Table). (t, is_open w.handles)) (is_open-shut fd w.fds);
  file_closes = λ fh w. ap (λ (t : Table). (is_open w.fds, t)) (is_open-shut fh w.handles);
}

abbrev before : Handles
before = record { fds = 3 ∷ []; handles = []; unread = true }

execute-EndsWith_example : EndsWith held (held before) (execute counting 2 [] [] before)
execute-EndsWith_example =
    execute-EndsWith counting held remaining counting-IsCounted 2 (λ w. ground arith)
      (λ et e. ground arith) [] [] before

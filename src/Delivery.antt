-- ===== src/Delivery.antt =====
-- The way of the data of one view: what the flush (io_bbview_file_flush.c) stores with the local file and
-- sends, and what a worker of the daemon (bbviewd.c) makes of it. Nothing here is code: it states
-- what both sides rely on of the system calls, the datatype engine and ompio.
pub mod Attributes
pub mod Delivered
pub mod Kept
pub mod Received
use bbview.Base.{
  ℕ, zero, suc, ◌-◌, ◌+◌, ◌/◌, [], ◌<◌, ◌≤◌, ◌≡◌, List, ◌∷◌, ◌++◌, Bool, true, Option, none, some,
  length, take,
}
use bbview.Daemon.{path_max}
use bbview.Daemon.Copied.{IsOpenWhile}
use bbview.Daemon.Copy.{Copier, target_buffer_size, read_chunks, buffer_size}
use bbview.Daemon.Job.{JobCalls, c_string}
use bbview.Flush.{max_xattr_value_size}
use bbview.Session.{
  Attr, AttrValue, Posix, ViewData, text, number, dest_path, disp, etype, datatype,
}

-- What the sockets, and the opening of the local file, leave alone.
pub record IsQuiet {W A : Type 0} (posix : Posix W) (seen : W → A) : Type 0 where
  pub socket : (w : W) → seen (posix.socket w).1 ≡ seen w
  pub connect : (fd : ℕ) (w : W) → seen (posix.connect fd w).1 ≡ seen w
  pub write : (fd : ℕ) (bs : List ℕ) (w : W) → seen (posix.write fd bs w).1 ≡ seen w
  pub close : (fd : Option ℕ) (w : W) → seen (posix.close fd w) ≡ seen w

-- The messages that have been sent: a write of a whole message to a connection sends it, and nothing else
-- that the flush does with a socket sends any.
pub record IsSending {W : Type 0} (posix : Posix W) (sent : W → List (List ℕ)) : Type 0 where
  pub socket : (w : W) → sent (posix.socket w).1 ≡ sent w
  pub connect : (fd : ℕ) (w : W) → sent (posix.connect fd w).1 ≡ sent w
  pub write :
      (fd : ℕ) (bs : List ℕ) (w : W)
      → (posix.write fd bs w).0 ≡ some (length bs)
      → sent (posix.write fd bs w).1 ≡ sent w ++ (bs ∷ [])
  pub close : (fd : Option ℕ) (w : W) → sent (posix.close fd w) ≡ sent w

-- All that can be read of the attributes of an open file.
abbrev pub attributes_of : {D W : Type 0} → Copier D W → ℕ → W → Attr → ℕ → Option AttrValue
attributes_of io fd w at n = io.fgetxattr fd at n w

-- What a local file holds, and what has been written to a destination.
abbrev pub files : {W : Type 0} → (W → List ℕ) → (W → List ℕ) → W → List ℕ × List ℕ
files content written w = (content w, written w)

-- The attributes of the local file, as the daemon reads them.
pub record Described {D W : Type 0} (io : Copier D W) (fd : ℕ) (v : ViewData D) (dest : List ℕ)
    (w : W) : Type 0 where
  pub destination : io.fgetxattr fd dest_path (path_max - 1) w ≡ some (text dest)
  pub from : io.fgetxattr fd disp 8 w ≡ some (number v.saved_disp)
  pub filetype :
      read_chunks io fd w (target_buffer_size / max_xattr_value_size) 0 []
      ≡ some (take v.saved_dt_len v.saved_dt_buf)
  pub element :
      io.fgetxattr fd etype max_xattr_value_size w
      ≡ some (text (take v.saved_et_len v.saved_et_buf))

-- A saved view whose descriptions fit into the attributes.
pub record IsStorable {D : Type 0} (v : ViewData D) : Type 0 where
  pub some_bytes : 0 < v.saved_dt_len
  pub fits : v.saved_dt_len ≤ target_buffer_size
  pub whole : v.saved_dt_len ≤ length v.saved_dt_buf
  pub element_fits : length (take v.saved_et_len v.saved_et_buf) ≤ max_xattr_value_size

-- The calls of the daemon on one job, where they succeed: the local file `path` is open as `fd`,
-- and `content` is what it holds; the destination is open as `fh`, `view` is the view that has been set on it, and
-- `written` is what has been written to it through the view with the displacement `from` and the
-- types `et` and `dt`: a write counts there while that view is set.
pub record Delivers {D W : Type 0} (calls : JobCalls D W) (path dest : List ℕ) (fd fh : ℕ)
    (from : ℕ) (et dt : D) (content rest written : W → List ℕ) (view : W → Option (ℕ × D × D))
    : Type 0 where
  pub by_path :
      (at : Attr) (n : ℕ) (w : W) → calls.getxattr path at n w ≡ calls.copier.fgetxattr fd at n w
  pub there : (w : W) → calls.stat dest w ≡ true
  pub opens :
      (w : W)
      → ((calls.copier.open_read path w).0 ≡ some fd)
        × (rest (calls.copier.open_read path w).1 ≡ content w)
        × (written (calls.copier.open_read path w).1 ≡ written w)
  pub open_keeps :
      (at : Attr) (n : ℕ) (w : W)
      → calls.copier.fgetxattr fd at n (calls.copier.open_read path w).1
        ≡ calls.copier.fgetxattr fd at n w
  pub file_opens :
      (w : W)
      → ((calls.copier.file_open dest w).0 ≡ some fh)
        × (rest (calls.copier.file_open dest w).1 ≡ rest w)
        × (written (calls.copier.file_open dest w).1 ≡ written w)
  pub views :
      (w : W)
      → ((calls.copier.set_view fh from et dt w).0 ≡ true)
        × (rest (calls.copier.set_view fh from et dt w).1 ≡ rest w)
        × (written (calls.copier.set_view fh from et dt w).1 ≡ written w)
        × (view (calls.copier.set_view fh from et dt w).1 ≡ some (from, et, dt))
  pub moves : IsOpenWhile calls.copier fd fh rest written (λ w. view w ≡ some (from, et, dt))
  pub closes : (w : W) → written (calls.copier.close fd (calls.copier.file_close fh w)) ≡ written w

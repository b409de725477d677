-- ===== src/Manage.antt =====
-- Opening, closing and the settings of a file (io_bbview_file_open.c). `file_NAME` is
-- `mca_io_bbview_file_NAME`. The other processes take part through the broadcast and the barrier.
pub mod Closing
pub mod Descriptors
pub mod Kept
pub mod Preallocate
pub mod Reach
pub mod Seek
use bbview.Base.{ℕ, ◌/◌, List, Bool, true, false, not, Option, none, some, ◌==◌, if◌then◌else◌}
use bbview.Session.{
  Code, File, Env, Call, OmpioFile, is_success, success, err_out_of_resource, ompi_error, err_io,
  err_other, err_access, fallback, is_active,
}
use bbview.Session.Run.{
  Run, M, ok, stuck, pure, get, lock, unlock, with_lock, call, effect, set_view_data, set_ompio,
  branch, with_sharedfp, ◌>>=◌, ◌>>◌,
}
use bbview.Flush.{file_flush}
use bbview.SetView.{leave}

-- The bytes behind a `char *`.
abbrev pub Buffer : Type 0
Buffer = ℕ → ℕ

-- What this file calls of ompio, of its file system modules and of the communicator. `bcast_ret`
-- is the broadcast of a return code, and gives the code that this process has then. A read is given
-- the buffer, and returns what it holds then.
pub record Manager (W : Type 0) : Type 0 where
  pub file_open : Call W Code
  pub file_close : Call W Code
  pub file_get_size : Call W (Code × ℕ)
  pub fs_get_size : Call W (Code × ℕ)
  pub fs_set_size : ℕ → Call W Code
  pub fs_sync : Call W Code
  pub check_atomicity : Call W Bool
  pub bcast : ℕ → W → (Code × ℕ) × W
  pub barrier : W → Code × W
  pub no_pending_requests : W → Bool
  pub get_position : Call W (Code × ℕ)
  pub set_explicit_offset : ℕ → Call W Code
  pub bcast_ret : Code → W → Code × W
  pub file_read : Buffer → ℕ → Call W (Code × Buffer)
  pub file_write : Buffer → ℕ → Call W Code
  pub sharedfp_seek : ℕ → ℕ → Call W Code
  pub sharedfp_get_position : Call W (Code × ℕ)

module _ {D I W : Type 0} (env : Env D I W) (io : Manager W) where
  -- `has_data` says whether `f_io_selected_data` is set.
  unfoldable pub file_open : Bool → M D W Code
  file_open has_data f =
      let opened : M D W Code = do
        ret ← call io.file_open
        branch (is_success ret) (λ g. ok ret (record g { is_open = true })) (pure ret)
      in if has_data then opened f else ok err_out_of_resource f

  -- Behind the flush; the second result says whether the private data has been freed.
  unfoldable pub close_ompio : M D W (Code × Bool)
  close_ompio = do ret ← call io.file_close; pure (ret, true)

  unfoldable pub file_close : Bool → M D W (Code × Bool)
  file_close has_data f =
      let flushed : M D W (Code × Bool) = do
        ret ← with_lock (file_flush env)
        branch (is_success ret) close_ompio (pure (ret, false))
      in if has_data
        then (if f.view.view_index == 0 then close_ompio f else flushed f)
        else ok (success, false) f

module _ {D W : Type 0} (io : Manager W) where
  unfoldable pub file_set_size : ℕ → M D W Code
  file_set_size size =
      let synced : M D W Code = (do ret ← effect io.barrier; leave ret) in
      let sized : M D W Code = do
        ret ← call (io.fs_set_size size)
        branch (is_success ret) synced (leave ret)
      in do
        lock
        (ret, tmp) ← effect (io.bcast size)
        branch (is_success ret) (branch (tmp == size) sized (leave ompi_error)) (leave ret)

  unfoldable pub file_get_size : M D W (Code × ℕ)
  file_get_size = with_lock (call io.file_get_size)

  -- Behind the agreement on the flag.
  unfoldable pub agreed_atomicity : Bool → M D W Code
  agreed_atomicity flag =
      let check : M D W Code = do
        result ← call io.check_atomicity
        ret ←
            branch result
              (λ f. ok success (record f { ompio = record f.ompio { atomicity = flag } }))
              (pure err_io)
        set_view_data (λ d. record d { state = fallback })
        leave ret
      in let clear : M D W Code = do set_ompio (λ o. record o { atomicity = flag }); leave success
        in branch flag check clear

  -- The flag is 0 or 1 by then.
  unfoldable pub file_set_atomicity : Bool → M D W Code
  file_set_atomicity flag =
      let as_int : ℕ = if flag then 1 else 0 in
      let ask : M D W Code = do
        (_, tmp) ← effect (io.bcast as_int)
        branch (tmp == as_int) (agreed_atomicity flag) (leave ompi_error)
      in do lock; f ← get; branch (is_active f.view.state) (leave ompi_error) ask

  unfoldable pub file_get_atomicity : M D W Bool
  file_get_atomicity = with_lock (λ f. ok f.ompio.atomicity f)

  unfoldable pub file_sync : M D W Code
  file_sync =
      let synced : M D W Code = (do ret ← call io.fs_sync; leave ret) in
      let wait : M D W Code = do ret ← effect io.barrier; branch (is_success ret) synced (leave ret)
      in do
        lock
        f ← get
        branch (io.no_pending_requests f.world) (branch f.ompio.rdonly (leave err_access) wait)
            (leave err_other)

  unfoldable pub file_get_position : M D W (Code × ℕ)
  file_get_position = with_lock (call io.get_position)

  unfoldable pub file_seek_shared : ℕ → ℕ → M D W Code
  file_seek_shared offset whence = with_sharedfp (with_lock (call (io.sharedfp_seek offset whence)))

  -- `offset` is what the caller's variable holds before. A division by an element of size 0 does not
  -- return.
  unfoldable pub file_get_position_shared : ℕ → M D W (Code × ℕ)
  file_get_position_shared offset f =
      let asked : M D W (Code × ℕ) = do
        lock
        (ret, at) ← call io.sharedfp_get_position
        g ← get
        let size = g.ompio.fview.etype_size
        let answered : M D W (Code × ℕ) = (do unlock; pure (ret, at / size))
        if size == 0 then (λ h. stuck) else answered
      in if f.ompio.sharedfp then asked f else ok (ompi_error, offset) f

-- ===== src/Flush.antt =====
-- io_bbview_file_flush.c: the local file of the view that is buffered is given its attributes, and
-- its name is sent to the daemon.
pub mod Descriptors
pub mod Total
use bbview.Base.{
  ℕ, zero, suc, ◌+◌, ◌-◌, List, Bool, true, false, Option, none, some, ltb, ◌==◌, if◌then◌else◌,
  length, take, drop,
}
use bbview.LocalName.{local_filename}
use bbview.Session.{
  Code, File, Env, Posix, Attr, AttrValue, text, number, dest_path, disp, etype, datatype, success,
  ompi_error, is_active,
}
use bbview.Session.Run.{Run, M, ok, stuck, pure, effect, ◌>>=◌, ◌>>◌}

abbrev pub max_xattr_value_size : ℕ
max_xattr_value_size = 65536

-- The size of the next chunk.
abbrev pub chunk_size : ℕ → ℕ → ℕ
chunk_size len offset =
    if ltb max_xattr_value_size (len - offset) then max_xattr_value_size else len - offset

-- Whether `write` took the whole name.
abbrev pub sent : ℕ → Option ℕ → Code
sent len none = ompi_error
sent len (some n) = if n == len then success else ompi_error

module _ {D W : Type 0} (posix : Posix W) where
  -- One `setxattr`, and what follows it if it succeeds.
  abbrev pub set_attr : List ℕ → Attr → AttrValue → M D W Bool → M D W Bool
  set_attr path attr v next = do
    done ← effect (posix.setxattr path attr v)
    if done then next else pure false

  -- The loop over the packed file type; every round moves at least one byte, so as many rounds as
  -- there are bytes, and one more, are enough.
  unfoldable pub set_datatype : List ℕ → ℕ → List ℕ → ℕ → ℕ → ℕ → M D W Bool
  set_datatype path len buf zero offset index f = stuck
  set_datatype path len buf (suc fuel) offset index f =
      let n = chunk_size len offset in
      let next = set_datatype path len buf fuel (offset + n) (index + 1) in
      let put = set_attr path (datatype index) (text (take n (drop offset buf))) next in
      if ltb offset len then put f else ok true f

  unfoldable pub set_xattrs_for_bbview : List ℕ → M D W Bool
  set_xattrs_for_bbview path f = elim (posix.realpath f.ompio.filename f.world) [
    | none ↦ ok false f
    | some dest ↦
        set_attr path dest_path (text dest)
          (set_attr path disp (number f.view.saved_disp) (
            set_datatype path f.view.saved_dt_len f.view.saved_dt_buf (f.view.saved_dt_len + 1) 0 0
            >>= λ done.
                if done
                then set_attr path etype (text (take f.view.saved_et_len f.view.saved_et_buf))
                    (pure true)
                else pure false))
          f
  ]

  abbrev close_fd : ℕ → M D W (Unit {0})
  close_fd fd f = ok tt (record f { world = posix.close (some fd) f.world })

  -- The message to the daemon.
  unfoldable pub send_name : List ℕ → M D W Code
  send_name name = effect posix.socket >>= λ sock. elim sock [
    | none ↦ pure ompi_error
    | some fd ↦ do
      connected ← effect (posix.connect fd)
      if connected
          then (do
            written ← effect (posix.write fd name)
            close_fd fd
            pure (sent (length name) written))
          else (do close_fd fd; pure ompi_error)
  ]

module _ {D I W : Type 0} (env : Env D I W) where
  abbrev pub local_name : File D W → List ℕ
  local_name f = local_filename env.config f.filename f.rank f.view.view_index

  unfoldable pub file_flush : M D W Code
  file_flush f =
      let send : M D W Code = do
        done ← set_xattrs_for_bbview env.posix (local_name f)
        if done then send_name env.posix (local_name f) else pure ompi_error
      in if is_active f.view.state then send f else ok success f

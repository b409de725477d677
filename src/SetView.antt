-- ===== src/SetView.antt =====
-- mca_io_bbview_file_set_view and mca_io_bbview_file_get_view (io_bbview_file_set_view.c). A view that
-- is not the plain byte view switches the file over to a local file, which buffers what is written;
-- the next view, and the close, flush it.
pub mod Descriptors
pub mod Flushing
pub mod Outcome
use bbview.Base.{
  ℕ, ◌+◌, ◌*◌, ◌%◌, List, [], ◌∷◌, Bool, true, false, not, ◌&&◌, ◌||◌, Option, none, some, ◌==◌,
  if◌then◌else◌, take,
}
use bbview.Base.Words.{word}
use bbview.DirectIo.{enable_directio}
use bbview.Session.{
  Code, File, Env, ViewData, OmpioFile, is_success, success, unsupported_datarep, err_disp,
  ompi_error, default, fallback, active, is_active, is_fallback,
}
use bbview.Session.Run.{
  Run, M, ok, stuck, pure, get, lock, unlock, call, branch, with_lock, set_view_data, set_ompio,
  ◌>>=◌, ◌>>◌,
}
use bbview.Flush.{local_name, file_flush}

abbrev pub text_eq : List ℕ → List ℕ → Bool
text_eq [] [] = true
text_eq (x ∷ xs) (y ∷ ys) = x == y && text_eq xs ys
text_eq xs ys = false

-- "native", "NATIVE"
abbrev pub is_native : List ℕ → Bool
is_native r =
    text_eq r (b'n' ∷ b'a' ∷ b't' ∷ b'i' ∷ b'v' ∷ b'e' ∷ [])
    || text_eq r (b'N' ∷ b'A' ∷ b'T' ∷ b'I' ∷ b'V' ∷ b'E' ∷ [])

-- OPAL_THREAD_UNLOCK(&fp->f_lock); return ret;
abbrev pub leave : {D W : Type 0} → Code → M D W Code
leave c = unlock >> pure c

-- The arguments of a call.
pub record ViewArgs (D I : Type 0) : Type 0 where
  pub disp : ℕ
  pub etype : D
  pub filetype : D
  pub datarep : List ℕ
  pub info : Option I

module _ {D I W : Type 0} (env : Env D I W) where
  unfoldable pub close_fh : M D W (Unit {0})
  close_fh f = ok tt (record f { world = env.posix.close f.ompio.fd f.world })

  -- `fh->fd = open(…)`
  unfoldable pub open_fh : (W → Option ℕ × W) → M D W (Unit {0})
  open_fh open_file f =
      let r = open_file f.world in
      ok tt (record f { ompio = record f.ompio { fd = r.0 }; world = r.1 })

  unfoldable pub ompio_set_view : ℕ → D → D → ViewArgs D I → M D W Code
  ompio_set_view disp etype filetype a =
      call (env.ompio.set_view disp etype filetype a.datarep a.info)

  -- The flush of the view before, if there is one; the buffered type is forgotten.
  unfoldable pub flush_previous : M D W Code → M D W Code
  flush_previous next f =
      let flushed : M D W Code = do
        ret ← file_flush env
        branch (is_success ret) (set_view_data (λ d. record d { saved_datarep = none }) >> next)
            (leave ret)
      in if is_active f.view.state then flushed f else next f

  -- Back to the plain byte view of the file itself.
  pub byte_view : ViewArgs D I → M D W Code
  byte_view a f =
      let finish : M D W Code = do
        set_view_data (λ d. record d { state = if is_fallback d.state then d.state else default })
        ret ← ompio_set_view a.disp a.etype a.filetype a
        leave ret
      in let reopen : M D W Code = do close_fh; open_fh (env.posix.reopen f.filename); finish
        in flush_previous (branch (is_active f.view.state) reopen finish) f

  -- The packed descriptions are saved, the lengths before the calls that may fail.
  unfoldable pub save_etype : ViewArgs D I → M D W Code → M D W Code
  save_etype a next =
      let et = env.ompio.get_pack_description a.etype in
      let ext = env.ompio.type_extent a.filetype in
      do
        set_view_data (λ d. record d { saved_et_len = env.ompio.pack_description_length a.etype })
        branch (is_success et.0)
            (do
              set_view_data (λ d. record d { saved_et_buf = take d.saved_et_len et.1 })
              branch (is_success ext.0) next (leave ext.0))
            (leave et.0)

  unfoldable pub save_types : ViewArgs D I → M D W Code → M D W Code
  save_types a next =
      let dt = env.ompio.get_pack_description a.filetype in
      do
        set_view_data
            (λ d. record d { saved_dt_len = env.ompio.pack_description_length a.filetype })
        branch (is_success dt.0)
            (do
              set_view_data (λ d. record d { saved_dt_buf = take d.saved_dt_len dt.1 })
              save_etype a next)
            (leave dt.0)

  -- Whether the local file is opened with O_DIRECT: the hint decides, if it is set.
  unfoldable pub direct_flag : ViewArgs D I → Option Bool
  direct_flag a =
      elim (enable_directio env.mpi (record { pagesize = 4096; threshold = 512 * 1024 }) env.depth
        a.filetype) [
          | none ↦ none
          | some computed ↦ elim a.info [
            | none ↦ some computed
            | some info ↦ elim (env.ompio.direct_io info) [
              | none ↦ some computed
              | some hint ↦ elim (env.ompio.cstring_to_bool hint) [
                | some b ↦ some b
                | none ↦ some false
              ]
            ]
          ]
        ]

  -- The file is switched over to the local file of the new view.
  unfoldable pub open_local : ViewArgs D I → M D W Code
  open_local a f = elim (direct_flag a) [
    | none ↦ stuck
    | some direct ↦
        (do
          close_fh
          open_fh (env.posix.open_local (local_name env f) direct)
          g ← get
          elim g.ompio.fd [
            | none ↦ leave ompi_error
            | some fd ↦ do ret ← ompio_set_view 0 a.etype a.etype a; leave ret
          ])
          f
  ]

  unfoldable pub new_view : ViewArgs D I → M D W Code
  new_view a = do
    set_view_data (λ d. record d {
      state = active;
      view_index = (d.view_index + 1) % word;
      saved_datarep = some a.datarep;
      saved_etype = some a.etype;
      saved_filetype = some a.filetype;
      saved_disp = a.disp;
    })
    save_types a (open_local a)

  unfoldable pub is_byte_view : ViewArgs D I → Bool
  is_byte_view a = a.disp == 0 && (env.ompio.is_byte a.etype && env.ompio.is_byte a.filetype)

  -- Behind the lock.
  unfoldable pub locked_set_view : ViewArgs D I → M D W Code
  locked_set_view a f =
      if is_byte_view a
      then byte_view a f
      else if is_fallback f.view.state
      then (do ret ← ompio_set_view a.disp a.etype a.filetype a; leave ret) f
      else flush_previous (new_view a) f

  unfoldable pub file_set_view : ViewArgs D I → M D W Code
  file_set_view a f =
      if not (is_native a.datarep)
      then ok unsupported_datarep f
      else if a.disp == env.displacement_current && not f.ompio.sequential
      then ok err_disp f
      else (lock >> locked_set_view a) f

  -- datatype_duplicate: a predefined type stands for itself; a failed duplication leaves the output
  -- as it was, which is `none` here.
  unfoldable pub datatype_duplicate : D → Option D
  datatype_duplicate d = if env.ompio.is_predefined d then some d else env.ompio.duplicate d

  -- mca_io_bbview_file_get_view. It follows `saved_etype`, `saved_filetype` and `saved_datarep`, which
  -- are NULL before the first view and, the last, again after the byte view.
  unfoldable pub file_get_view : M D W (ℕ × Option D × Option D × List ℕ)
  file_get_view f = elim f.view.saved_etype [
    | none ↦ stuck
    | some etype ↦ elim f.view.saved_filetype [
      | none ↦ stuck
      | some filetype ↦ elim f.view.saved_datarep [
        | none ↦ stuck
        | some datarep ↦
            with_lock
              (pure
                (f.view.saved_disp, datatype_duplicate etype, datatype_duplicate filetype, datarep))
              f
      ]
    ]
  ]

-- ===== src/SetView/Flushing.antt =====
-- The flush that mca_io_bbview_file_set_view (io_bbview_file_set_view.c) makes of the view before,
-- and what mca_io_bbview_file_get_view gives back.
use bbview.Base.{
  ℕ, ◌+◌, ◌%◌, ◌≡◌, refl, List, Bool, true, false, not, ◌&&◌, none, some, arith, ◌==◌,
}
use bbview.Base.Words.{word}
use bbview.LocalName.{local_filename}
use bbview.Flush.{file_flush}
use bbview.Flush.Total.{file_flush_ends}
use bbview.Session.{Code, File, Env, is_success, success, active, is_active, is_fallback}
use bbview.Session.Run.{ok, Post}
use bbview.SetView.{
  ViewArgs, is_native, direct_flag, open_local, open_fh, close_fh, save_types, save_etype, new_view,
  byte_view, flush_previous, is_byte_view, locked_set_view, file_set_view, datatype_duplicate,
  file_get_view,
}
use bbview.SetView.Outcome.{Recorded, new_view-Recorded}

module _ {D I W : Type 0} (env : Env D I W) (a : ViewArgs D I) (direct : Bool)
    (known : direct_flag env a ≡ some direct)
    (fails : (name : List ℕ) (w : W) → (env.posix.open_local name direct w).0 ≡ none) where
  new_view-fails :
      (f : File D W)
      → f.locked ≡ true
      → Post
          (λ c g.
            (is_success c ≡ false)
            × (g.view.state ≡ active)
            × (g.view.view_index ≡ (f.view.view_index + 1) % word))
          (new_view env a f)
  unfolding new_view save_types save_etype open_local open_fh close_fh
  new_view-fails f held = ground (
    arith,
    fails (local_filename env.config f.filename f.rank ((f.view.view_index + 1) % word))
        (env.posix.close f.ompio.fd f.world),
  )

module _ {D I W : Type 0} (env : Env D I W) (a : ViewArgs D I) (f : File D W) where
  -- Whether the call gets behind its first two tests.
  abbrev pub admitted : Bool
  admitted =
      is_native a.datarep && not (a.disp == env.displacement_current && not f.ompio.sequential)

  -- A flush that fails stops the change of view: while a view is buffered and its flush returns
  -- another code than success, any admitted call returns that code, and of the open file only the
  -- world that the flush acted on has changed.
  pub flush_failure_stops :
      (c : Code) (w : W)
      → f.locked ≡ false
      → f.view.state ≡ active
      → admitted ≡ true
      → file_flush env (record f { locked = true }) ≡ ok c (record f { locked = true; world = w })
      → is_success c ≡ false
      → file_set_view env a f ≡ ok c (record f { world = w })
  unfolding file_set_view locked_set_view byte_view flush_previous
  flush_failure_stops c w free state adm fails bad = ground arith

  -- A call with a free lock that gets behind its first two tests, for a view that is not the byte view, on a
  -- file without a buffered view and not in fallback, with the answer on O_DIRECT known: if no local file can be
  -- opened, it reports an error, and the view is active all the same, with its index gone up.
  pub open_failure-active :
      (direct : Bool)
      → f.locked ≡ false
      → is_active f.view.state ≡ false
      → is_fallback f.view.state ≡ false
      → admitted ≡ true
      → is_byte_view env a ≡ false
      → direct_flag env a ≡ some direct
      → ((name : List ℕ) (w : W) → (env.posix.open_local name direct w).0 ≡ none)
      → Post
          (λ c g.
            (is_success c ≡ false)
            × (g.view.state ≡ active)
            × (g.view.view_index ≡ (f.view.view_index + 1) % word))
          (file_set_view env a f)
  unfolding file_set_view locked_set_view flush_previous
  open_failure-active direct free idle own adm other known fails =
      ground (arith, new_view-fails env a direct known fails (record f { locked = true }) refl)

  -- A new view that is not the byte view, on a file that is not in fallback: where the call succeeds,
  -- the view is recorded.
  file_set_view-Recorded :
      (direct : Bool)
      → f.locked ≡ false
      → is_fallback f.view.state ≡ false
      → is_byte_view env a ≡ false
      → direct_flag env a ≡ some direct
      → Post (λ c g. is_success c ≡ true → Recorded a f g) (file_set_view env a f)
  unfolding file_set_view locked_set_view flush_previous
  file_set_view-Recorded direct free own other known =
      let held = record f { locked = true } in
      let (c, w, e) = file_flush_ends env held in
      ground (
        arith,
        e,
        new_view-Recorded env a direct known held refl,
        new_view-Recorded env a direct known
            (record held { view = record f.view { saved_datarep = none }; world = w }) refl,
      )

  -- What a successful call for a view other than the byte view sets, on a file that is not in
  -- fallback, is what `file_get_view` gives back: the displacement and the data representation as they
  -- were given, and duplicates of the two types; nothing is changed by the question.
  pub get_view-set_view :
      (direct : Bool) (g : File D W)
      → f.locked ≡ false
      → is_fallback f.view.state ≡ false
      → is_byte_view env a ≡ false
      → direct_flag env a ≡ some direct
      → file_set_view env a f ≡ ok success g
      → file_get_view env g
        ≡ ok
            (a.disp, datatype_duplicate env a.etype, datatype_duplicate env a.filetype, a.datarep)
            g
  unfolding file_get_view
  get_view-set_view direct g free own other known done =
      let kept = file_set_view-Recorded direct free own other known in ground (arith, kept)

-- ===== src/Manage/Closing.antt =====
-- What closing a file and setting its atomicity (io_bbview_file_open.c) do on every path.
use bbview.Base.{◌≡◌, refl, ◌⊎◌, Bool, true, false, arith}
use bbview.Flush.{file_flush}
use bbview.Flush.Total.{file_flush_ends}
use bbview.Session.{
  Code, File, Env, is_success, success, ompi_error, fallback, is_active, is_fallback,
}
use bbview.Session.Run.{ok, Post}
use bbview.Manage.{Manager, close_ompio, file_close, agreed_atomicity, file_set_atomicity}

-- A close either frees the private data behind a successful flush (or when there never was a view
-- to flush), or it fails and leaves the open file as it was, but for the world.
abbrev pub Closed : {D I W : Type 0} → Env D I W → File D W → Code × Bool → File D W → Type 0
Closed {D} {I} {W} env f r g =
    (g.locked ≡ false)
    × (r.1 ≡ true
        → (f.view.view_index ≡ 0)
          ⊎ ((w : W) × (file_flush env (record f { locked = true })
                ≡ ok success (record f { locked = true; world = w }))))
    × (r.1 ≡ false → (is_success r.0 ≡ false) × (g.view ≡ f.view) × (g.ompio ≡ f.ompio))

only_success : (c : Code) → is_success c ≡ true → c ≡ success
only_success success h = refl
only_success _ h = cc

module _ {D I W : Type 0} (env : Env D I W) (io : Manager W) where
  -- Closing a file whose lock is free always comes to an end and frees the lock. It frees the
  -- private data only when the view index is 0 or the flush of the last view returned success.
  -- Otherwise it returns an error code, and the view and ompio's handle are as before.
  pub file_close-Closed :
      (f : File D W) → f.locked ≡ false → Post (Closed env f) (file_close env io true f)
  unfolding file_close close_ompio
  file_close-Closed f free =
      let (c, w, e) = file_flush_ends env (record f { locked = true }) in
      ground (arith, e, only_success c)

module _ {D W : Type 0} (io : Manager W) where
  -- Setting the atomicity of a file whose lock is free ends and frees the lock. Under a buffered
  -- view it is refused and nothing changes. Otherwise, where it succeeds, the flag is set; asking for
  -- atomicity, granted or not, leads to fallback unless the processes disagree, which is an
  -- ompi_error and changes neither; and no call leaves fallback.
  pub file_set_atomicity_outcome :
      (flag : Bool) (f : File D W)
      → f.locked ≡ false
      → Post
          (λ c g.
            (g.locked ≡ false)
            × (is_active f.view.state ≡ true → (c ≡ ompi_error) × (g ≡ f))
            × (is_success c ≡ true → g.ompio.atomicity ≡ flag)
            × (flag ≡ true → (g.view.state ≡ fallback) ⊎ ((c ≡ ompi_error) × (g.view ≡ f.view)))
            × (is_fallback f.view.state ≡ true → g.view.state ≡ fallback))
          (file_set_atomicity io flag f)
  unfolding file_set_atomicity agreed_atomicity
  file_set_atomicity_outcome flag f free = ground arith

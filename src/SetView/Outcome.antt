-- ===== src/SetView/Outcome.antt =====
-- What mca_io_bbview_file_set_view (io_bbview_file_set_view.c) does to the open file, on every path.
use bbview.Base.{ℕ, ◌+◌, ◌%◌, ◌≡◌, ◌≢◌, refl, Bool, true, false, none, some, arith}
use bbview.Base.Words.{word}
use bbview.Flush.Total.{file_flush_ends}
use bbview.Session.{
  Code, File, Env, is_success, ViewState, default, fallback, active, is_active, is_fallback,
}
use bbview.Session.Run.{Post}
use bbview.SetView.{
  ViewArgs, direct_flag, open_local, open_fh, close_fh, ompio_set_view, save_types, save_etype,
  new_view, byte_view, flush_previous, is_byte_view, locked_set_view, file_set_view,
}

-- What every buffered view has: the saved view is whole. The other states need nothing.
abbrev pub IsReady : {D W : Type 0} → File D W → Type 0
IsReady f =
    is_active f.view.state ≡ true
    → (f.view.saved_datarep ≢ none) × (f.view.saved_etype ≢ none) × (f.view.saved_filetype ≢ none)

-- The state machine of the views: the plain byte view ends the buffering, any other view begins it,
-- and fallback is never left.
abbrev pub next_state : Bool → ViewState → ViewState
next_state byte fallback = fallback
next_state true default = default
next_state true active = default
next_state false default = active
next_state false active = active

abbrev pub next_index : Bool → ViewState → ℕ → ℕ
next_index byte fallback n = n
next_index true default n = n
next_index true active n = n
next_index false default n = (n + 1) % word
next_index false active n = (n + 1) % word

-- What a call may do: it frees the lock, keeps a buffered view whole, leaves a file in fallback as it
-- is, and, where it succeeds, moves as the state machine says.
pub record Outcome {D W : Type 0} (byte : Bool) (f : File D W) (c : Code) (g : File D W)
    : Type 0 where
  pub free : g.locked ≡ false
  pub ready : IsReady f → IsReady g
  pub absorbing : is_fallback f.view.state ≡ true → g.view ≡ f.view
  pub state : is_success c ≡ true → g.view.state ≡ next_state byte f.view.state
  pub index :
      is_success c ≡ true → g.view.view_index ≡ next_index byte f.view.state f.view.view_index

-- What is saved of a new view, which is active from then on, also where the call fails later.
pub record Recorded {D I W : Type 0} (a : ViewArgs D I) (f g : File D W) : Type 0 where
  pub free : g.locked ≡ false
  pub state : g.view.state ≡ active
  pub index : g.view.view_index ≡ (f.view.view_index + 1) % word
  pub disp : g.view.saved_disp ≡ a.disp
  pub datarep : g.view.saved_datarep ≡ some a.datarep
  pub etype : g.view.saved_etype ≡ some a.etype
  pub filetype : g.view.saved_filetype ≡ some a.filetype

module _ {D I W : Type 0} (env : Env D I W) (a : ViewArgs D I) (direct : Bool)
    (known : direct_flag env a ≡ some direct) where
  pub new_view-Recorded :
      (f : File D W) → f.locked ≡ true → Post (λ c g. Recorded a f g) (new_view env a f)
  unfolding new_view save_types save_etype open_local open_fh close_fh ompio_set_view
  new_view-Recorded f held = ground arith

  module _ (f : File D W) (held : f.locked ≡ true) where
    byte_view-Outcome : Post (Outcome true f) (byte_view env a f)
    unfolding byte_view flush_previous open_fh close_fh ompio_set_view
    byte_view-Outcome = let (c, w, e) = file_flush_ends env f in ground (arith, e)

    -- The file that the new view finds after the flush.
    abbrev flushed : W → File D W
    flushed w = record f { view = record f.view { saved_datarep = none }; world = w }

    view-Outcome :
        is_fallback f.view.state ≡ false
        → Post (Outcome false f) (flush_previous env (new_view env a) f)
    unfolding flush_previous
    view-Outcome moved =
        let (c, w, e) = file_flush_ends env f in
        ground (arith, e, new_view-Recorded f held, new_view-Recorded (flushed w) held)

    locked_set_view-Outcome : Post (Outcome (is_byte_view env a) f) (locked_set_view env a f)
    unfolding locked_set_view ompio_set_view
    locked_set_view-Outcome = ground (arith, byte_view-Outcome, view-Outcome)

  -- With the lock free and the answer about O_DIRECT known, the call comes to an end on every path:
  -- the lock is free again, a buffered view stays whole, a file in fallback keeps its view data, and
  -- a call that succeeds moves state and index as the state machine of the views says.
  pub file_set_view-Outcome :
      (f : File D W)
      → f.locked ≡ false
      → Post (Outcome (is_byte_view env a) f) (file_set_view env a f)
  unfolding file_set_view
  file_set_view-Outcome f free =
      ground (arith, locked_set_view-Outcome (record f { locked = true }) refl)

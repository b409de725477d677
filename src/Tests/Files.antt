-- ===== src/Tests/Files.antt =====
-- The theorems on open files at a file that has just been opened, and at one with a buffered view.
use bbview.Base.Words.{word}
use bbview.Base.{◌%◌, ◌+◌, Option-cases, inl, inr, false, Bool, some, ℕ, ◌≡◌, ◌⊎◌, refl, true}
use bbview.DirectIo.{enable_directio}
use bbview.Flush.{file_flush, set_xattrs_for_bbview, set_datatype, send_name}
use bbview.Flush.Total.{file_flush_ends}
use bbview.Manage.{file_close, file_set_atomicity}
use bbview.Manage.Kept.{IsKept}
use bbview.Manage.Reach.{Operation, operate, always_returns, view, start, next, Reach-IsKept}
use bbview.Manage.Closing.{Closed, file_close-Closed, file_set_atomicity_outcome}
use bbview.Session.{
  success, Code, File, ompi_error, is_success, is_active, is_fallback, active, fallback,
}
use bbview.Session.Run.{ok, Post}
use bbview.SetView.{
  ViewArgs, locked_set_view, flush_previous, new_view, save_types, save_etype, open_local, open_fh,
  close_fh, ompio_set_view, direct_flag, is_byte_view, file_set_view, file_get_view,
  datatype_duplicate,
}
use bbview.SetView.Outcome.{Outcome, file_set_view-Outcome}
use bbview.SetView.Flushing.{flush_failure_stops, open_failure-active, get_view-set_view}
use bbview.Transfers.{Slot, dispatch}
use bbview.Transfers.Locking.{specified, dispatch-specified}
use bbview.Tests.Sample.{
  bare_env, sample_ompio, sample_env, deaf_env, full_env, sample_manager, opened_file, active_file,
  strided_args, sample_transfer,
}

dispatch-specified_example :
    dispatch sample_ompio Slot.read_all_begin sample_transfer opened_file
    ≡ specified sample_ompio Slot.read_all_begin sample_transfer opened_file
dispatch-specified_example =
    dispatch-specified sample_ompio Slot.read_all_begin sample_transfer opened_file refl

file_set_view-Outcome_example :
    Post
      (Outcome (is_byte_view sample_env strided_args) active_file)
      (file_set_view sample_env strided_args active_file)
unfolding direct_flag enable_directio
file_set_view-Outcome_example =
    file_set_view-Outcome sample_env strided_args false refl active_file refl

flush_failure_stops_example :
    file_set_view deaf_env strided_args active_file
    ≡ ok ompi_error (record active_file { world = 7 })
unfolding file_flush set_xattrs_for_bbview set_datatype send_name
flush_failure_stops_example =
    flush_failure_stops deaf_env strided_args active_file ompi_error 7 refl refl refl refl refl

open_failure-active_example :
    Post
      (λ c g.
        (is_success c ≡ false)
        × (g.view.state ≡ active)
        × (g.view.view_index ≡ (opened_file.view.view_index + 1) % word))
      (file_set_view full_env strided_args opened_file)
unfolding direct_flag enable_directio is_byte_view
open_failure-active_example =
    open_failure-active full_env strided_args opened_file false refl refl refl refl refl refl
      (λ name w. refl)

abbrev pub viewed_file : File ℕ ℕ
viewed_file = record opened_file {
  view = record active_file.view { saved_datarep = some strided_args.datarep };
  ompio = record opened_file.ompio { fd = some 7 };
  world = 3;
}

get_view-set_view_example :
    file_get_view sample_env viewed_file
    ≡ ok
        (
          strided_args.disp,
          datatype_duplicate sample_env strided_args.etype,
          datatype_duplicate sample_env strided_args.filetype,
          strided_args.datarep,
        )
        viewed_file
unfolding direct_flag enable_directio is_byte_view file_set_view locked_set_view flush_previous
    new_view save_types save_etype open_local open_fh close_fh ompio_set_view
get_view-set_view_example =
    get_view-set_view sample_env strided_args opened_file false viewed_file refl refl refl refl refl

file_flush_ends_example :
    (c : Code) × (w : ℕ) × (file_flush sample_env active_file
      ≡ ok c (record active_file { world = w }))
file_flush_ends_example = file_flush_ends sample_env active_file

file_close-Closed_example :
    Post (Closed deaf_env active_file) (file_close deaf_env sample_manager true active_file)
file_close-Closed_example = file_close-Closed deaf_env sample_manager active_file refl

file_set_atomicity_outcome_example :
    Post
      (λ c g.
        (g.locked ≡ false)
        × (is_active opened_file.view.state ≡ true → (c ≡ ompi_error) × (g ≡ opened_file))
        × (is_success c ≡ true → g.ompio.atomicity ≡ true)
        × (true ≡ true
            → (g.view.state ≡ fallback) ⊎ ((c ≡ ompi_error) × (g.view ≡ opened_file.view)))
        × (is_fallback opened_file.view.state ≡ true → g.view.state ≡ fallback))
      (file_set_atomicity sample_manager true opened_file)
file_set_atomicity_outcome_example = file_set_atomicity_outcome sample_manager true opened_file refl

pub bare_env-known : (a : ViewArgs ℕ ℕ) → (direct : Bool) × (direct_flag bare_env a ≡ some direct)
unfolding direct_flag enable_directio
bare_env-known a = elim (Option-cases a.info) [
  | inl e ↦ (false, rw e refl)
  | inr (info, e) ↦ (false, rw e refl)
]

sample_reach :
    IsKept opened_file viewed_file
    × ((op : Operation bare_env sample_manager)
        → always_returns bare_env sample_manager op ≡ true
        → (c : Code) × (h : File ℕ ℕ) × (operate bare_env sample_manager op viewed_file ≡ ok c h))
unfolding direct_flag enable_directio is_byte_view file_set_view locked_set_view flush_previous
    new_view save_types save_etype open_local open_fh close_fh ompio_set_view operate
sample_reach =
    Reach-IsKept bare_env sample_manager bare_env-known opened_file viewed_file refl
      (next (view strided_args) success opened_file viewed_file start refl)

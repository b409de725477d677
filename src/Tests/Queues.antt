-- ===== src/Tests/Queues.antt =====
-- The theorems on the linked queue (bbviewd.c), on the parameters and on the query of the component
-- (io_bbview_component.c, io_bbview.c) at concrete inputs.
use bbview.Base.{
  true, ℕ, ◌+◌, ◌≡◌, refl, List, [], ◌∷◌, ◌++◌, false, Option, Option-cases, none, some, inl, inr,
}
use bbview.Component.{
  Parameters, Globals, codes, register_component, get_mca_parameter_value, file_query,
}
use bbview.Component.Lookup.{
  Answer, get_mca_parameter_value-Answer, registered-get_mca_parameter_value, grouping_option,
}
use bbview.Component.Queried.{queried-Reach}
use bbview.Daemon.{main}
use bbview.Daemon.Queue.{Store, Queue, empty_queue, enter, take_by, Access, on_nodes, on_list}
use bbview.Daemon.Queue.Refined.{Represents, admitted, on_nodes_refines}
use bbview.DirectIo.{enable_directio}
use bbview.Manage.{Manager, file_open, file_close}
use bbview.Manage.Closing.{Closed}
use bbview.Manage.Reach.{Operation, operate, always_returns, view, start, next}
use bbview.Session.{Code, File, success}
use bbview.Session.Run.{ok, Post}
use bbview.SetView.{
  direct_flag, is_byte_view, file_set_view, locked_set_view, flush_previous, new_view, save_types,
  save_etype, open_local, open_fh, close_fh, ompio_set_view,
}
use bbview.SetView.Outcome.{IsReady}
use bbview.Tests.Files.{viewed_file, bare_env-known}
use bbview.Tests.Sample.{bare_env, sample_manager, opened_file, strided_args}

-- A memory of two addresses.
abbrev two_cells : Store → Option ℕ
two_cells s = elim (s 0) [ none ↦ some 0 | some j ↦ elim (s 1) [ none ↦ some 1 | some k ↦ none ] ]

two_cells-fresh : (s : Store) (a : ℕ) → two_cells s ≡ some a → s a ≡ none
two_cells-fresh s a e = elim (Option-cases (s 0)) [
  | inl first ↦
      let same : some 0 ≡ some a = rw (first, two_cells) at e in
      let zero_is : 0 ≡ a = cc in rw (← zero_is) first
  | inr (j, first) ↦ elim (Option-cases (s 1)) [
    | inl second ↦
        let same : some 1 ≡ some a = rw (first, second, two_cells) at e in
        let one_is : 1 ≡ a = cc in rw (← one_is) second
    | inr (k, second) ↦ let clash : none ≡ some a = rw (first, second, two_cells) at e in cc
  ]
]

-- There is no memory for the third path.
abbrev accesses : List Access
accesses =
    enter (codes "/a")
    ∷ enter (codes "/b")
    ∷ enter (codes "/c")
    ∷ take_by 0
    ∷ take_by 0
    ∷ take_by 0
    ∷ []

on_nodes_refines_example :
    (out : List (List ℕ)) × (q' : Queue) × (on_nodes two_cells accesses (empty_queue (λ a. none))
      ≡ some (out, q'))
    × ((on_list (admitted two_cells accesses (empty_queue (λ a. none))) (main 1)).taken ≡ [] ++ out)
    × Represents q' (on_list (admitted two_cells accesses (empty_queue (λ a. none))) (main 1)).jobs
unfolding main
on_nodes_refines_example =
    on_nodes_refines two_cells two_cells-fresh accesses (empty_queue (λ a. none)) (main 1)
      (record { nodes = []; chain = refl; tail = refl })

abbrev ones : Parameters
ones = record {
  record_offset_info = 1;
  coll_timing_info = 1;
  cycle_buffer_size = 1;
  pipeline_buffer_size = 1;
  bytes_per_agg = 1;
  num_aggregators = 1;
  grouping_option = 1;
  max_aggregators_ratio = 1;
  aggregators_cutoff_threshold = 1;
  overwrite_amode = 1;
  verbose_info_parsing = 1;
  use_accelerator_buffers = 1;
}

abbrev sample_globals : Globals
sample_globals = record {
  priority_param = 30;
  delete_priority_param = 30;
  bbview = ones;
  ompio = record ones { grouping_option = 7 };
}

sample_registered :
    get_mca_parameter_value 99
      (register_component (λ name v. v + 1) sample_globals)
      (codes "grouping_option")
      15
    ≡ 7
sample_registered =
    registered-get_mca_parameter_value 99 (λ name v. v + 1) sample_globals grouping_option

get_mca_parameter_value-Answer_example :
    Answer 99 sample_globals
      (codes "no_such_name")
      12
      (get_mca_parameter_value 99 sample_globals (codes "no_such_name") 12)
get_mca_parameter_value-Answer_example =
    get_mca_parameter_value-Answer 99 sample_globals (codes "no_such_name") 12

-- An open that leaves the world alone.
abbrev quiet_manager : Manager ℕ
quiet_manager = record sample_manager { file_open = λ o w. (success, o, w) }

queried-Reach_example :
    IsReady viewed_file
    × (viewed_file.locked ≡ false)
    × ((op : Operation bare_env quiet_manager)
        → always_returns bare_env quiet_manager op ≡ true
        → (c : Code) × (h : File ℕ ℕ) × (operate bare_env quiet_manager op viewed_file ≡ ok c h))
    × Post (Closed bare_env viewed_file) (file_close bare_env quiet_manager true viewed_file)
unfolding file_query direct_flag enable_directio is_byte_view file_set_view locked_set_view
    flush_previous new_view save_types save_etype open_local open_fh close_fh ompio_set_view operate
    file_open
queried-Reach_example =
    queried-Reach bare_env quiet_manager bare_env-known sample_globals
      (record opened_file { is_open = false }) opened_file viewed_file success refl refl refl
      (next (view strided_args) success opened_file viewed_file start refl)

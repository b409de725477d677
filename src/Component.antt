-- ===== src/Component.antt =====
-- The component's parameters, the queries of the framework, and the deletion of a file
-- (io_bbview_component.c), and `mca_io_bbview_get_mca_parameter_value` (io_bbview.c). An `int` is its
-- 32-bit pattern.
pub mod Lookup
pub mod Queried
use Prim.Native.Char.{code}
use Prim.Native.String.{String}
use bbview.Base.{
  ℕ, zero, suc, ◌+◌, ◌-◌, ◌^◌, List, [], ◌∷◌, Bool, true, false, ◌&&◌, Option, none, some, ◌==◌,
  if◌then◌else◌, length,
}
use bbview.Session.{Code, ViewData, fresh_data, success, ompi_error}

-- The bytes of a text.
abbrev pub codes : String → List ℕ
codes String.[] = []
codes (String.◌∷◌ c s) = code c ∷ codes s

-- The integers that the component registers; ompio has a set of the same names.
pub record Parameters : Type 0 where
  pub record_offset_info : ℕ
  pub coll_timing_info : ℕ
  pub cycle_buffer_size : ℕ
  pub pipeline_buffer_size : ℕ
  pub bytes_per_agg : ℕ
  pub num_aggregators : ℕ
  pub grouping_option : ℕ
  pub max_aggregators_ratio : ℕ
  pub aggregators_cutoff_threshold : ℕ
  pub overwrite_amode : ℕ
  pub verbose_info_parsing : ℕ
  pub use_accelerator_buffers : ℕ

-- `mca_io_bbview_NAME` and `mca_io_ompio_NAME`.
pub record Globals : Type 0 where
  pub priority_param : ℕ
  pub delete_priority_param : ℕ
  pub bbview : Parameters
  pub ompio : Parameters

-- OMPIO_DEFAULT_CYCLE_BUF_SIZE, OMPIO_DEFAULT_PIPELINE_BUF_SIZE, OMPIO_PREALLOC_MAX_BUF_SIZE.
abbrev pub default_cycle_buf_size : ℕ
default_cycle_buf_size = 536870912

abbrev pub default_pipeline_buf_size : ℕ
default_pipeline_buf_size = 1048576

abbrev pub prealloc_max_buf_size : ℕ
prealloc_max_buf_size = 33554432

-- `var_register` is mca_base_component_var_register: what a variable of that name holds, once it is
-- registered with the value it has.
unfoldable pub register_component : (List ℕ → ℕ → ℕ) → Globals → Globals
register_component var_register g = record g {
  priority_param = var_register (codes "priority") 30;
  delete_priority_param = var_register (codes "delete_priority") 30;
  bbview = record {
    record_offset_info = var_register (codes "record_file_offset_info") 0;
    coll_timing_info = var_register (codes "coll_timing_info") 0;
    cycle_buffer_size = var_register (codes "cycle_buffer_size") default_cycle_buf_size;
    pipeline_buffer_size = var_register (codes "pipeline_buffer_size") default_pipeline_buf_size;
    bytes_per_agg = var_register (codes "bytes_per_agg") prealloc_max_buf_size;
    num_aggregators = var_register (codes "num_aggregators") (2 ^ 32 - 1);
    grouping_option = var_register (codes "grouping_option") 5;
    max_aggregators_ratio = var_register (codes "max_aggregators_ratio") 8;
    aggregators_cutoff_threshold = var_register (codes "aggregators_cutoff_threshold") 3;
    overwrite_amode = var_register (codes "overwrite_amode") 1;
    verbose_info_parsing = var_register (codes "verbose_info_parsing") 0;
    use_accelerator_buffers = var_register (codes "use_accelerator_buffers") 0;
  };
}

-- `!strncmp(xs, ys, n)`, for texts that end in NUL and have none before.
abbrev pub strncmp : List ℕ → List ℕ → ℕ → Bool
strncmp xs ys zero = true
strncmp [] [] (suc n) = true
strncmp [] (y ∷ ys) (suc n) = false
strncmp (x ∷ xs) [] (suc n) = false
strncmp (x ∷ xs) (y ∷ ys) (suc n) = (x == y) && strncmp xs ys n

-- `err_max` is OMPI_ERR_MAX.
unfoldable pub get_mca_parameter_value : ℕ → Globals → List ℕ → ℕ → ℕ
get_mca_parameter_value err_max g name n =
    if strncmp name (codes "verbose_info_parsing") n
    then g.ompio.verbose_info_parsing
    else if strncmp name (codes "num_aggregators") n
    then g.ompio.num_aggregators
    else if strncmp name (codes "bytes_per_agg") n
    then g.ompio.bytes_per_agg
    else if strncmp name (codes "overwrite_amode") n
    then g.ompio.overwrite_amode
    else if strncmp name (codes "cycle_buffer_size") n
    then g.ompio.cycle_buffer_size
    else if strncmp name (codes "pipeline_buffer_size") n
    then g.ompio.pipeline_buffer_size
    else if strncmp name (codes "max_aggregators_ratio") n
    then g.ompio.max_aggregators_ratio
    else if strncmp name (codes "aggregators_cutoff_threshold") n
    then g.ompio.aggregators_cutoff_threshold
    else if strncmp name (codes "grouping_option") n
    then g.ompio.grouping_option
    else if strncmp name (codes "coll_timing_info") n
    then g.ompio.coll_timing_info
    else if strncmp name (codes "use_accelerator_buffers") n
    then g.ompio.use_accelerator_buffers
    else err_max

-- The priority, and the private data, if there is memory for it: none is the module that is not
-- returned.
unfoldable pub file_query : {D : Type 0} → Bool → Globals → ℕ × Option (ViewData D)
file_query alloc g = (g.priority_param, if alloc then some fresh_data else none)

-- What is left of the private data.
unfoldable pub file_unquery : {D : Type 0} → Option (ViewData D) → Code × Option (ViewData D)
file_unquery private_data = (success, none)

-- The priority, and that the component can be used; it has no private data for a deletion.
unfoldable pub delete_query : Globals → Code × ℕ × Bool
delete_query g = (success, g.delete_priority_param, true)

-- Under `mca_io_bbview_mutex`, whose state is the first component; `none` is a wait for itself.
unfoldable pub delete_select :
    {W : Type 0} → (List ℕ → W → Code × W) → List ℕ → Bool × W → Option (Code × Bool × W)
delete_select file_delete filename (true, w) = none
delete_select file_delete filename (false, w) =
    let r = file_delete filename w in some (r.0, false, r.1)

unfoldable pub register_datarep : List ℕ → Code
register_datarep datarep = ompi_error

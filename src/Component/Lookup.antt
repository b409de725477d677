-- ===== src/Component/Lookup.antt =====
-- What mca_io_bbview_get_mca_parameter_value (io_bbview.c) finds, after register_component
-- (io_bbview_component.c).
use bbview.Base.{
  ℕ, ◌≡◌, ◌⊎◌, refl, inl, inr, List, [], ◌∷◌, true, false, Bool-cases, length, if◌then◌else◌,
}
use bbview.Component.{
  Parameters, Globals, codes, strncmp, register_component, get_mca_parameter_value,
}

-- The parameters that can be asked for.
pub data Key : Type 0 where
  verbose_info_parsing num_aggregators bytes_per_agg overwrite_amode : Key
  cycle_buffer_size pipeline_buffer_size max_aggregators_ratio : Key
  aggregators_cutoff_threshold grouping_option coll_timing_info use_accelerator_buffers : Key

abbrev all_keys : List Key
all_keys =
    verbose_info_parsing ∷ num_aggregators ∷ bytes_per_agg ∷ overwrite_amode ∷ cycle_buffer_size
    ∷ pipeline_buffer_size ∷ max_aggregators_ratio ∷ aggregators_cutoff_threshold ∷ grouping_option
    ∷ coll_timing_info ∷ use_accelerator_buffers ∷ []

abbrev pub key_name : Key → List ℕ
key_name verbose_info_parsing = codes "verbose_info_parsing"
key_name num_aggregators = codes "num_aggregators"
key_name bytes_per_agg = codes "bytes_per_agg"
key_name overwrite_amode = codes "overwrite_amode"
key_name cycle_buffer_size = codes "cycle_buffer_size"
key_name pipeline_buffer_size = codes "pipeline_buffer_size"
key_name max_aggregators_ratio = codes "max_aggregators_ratio"
key_name aggregators_cutoff_threshold = codes "aggregators_cutoff_threshold"
key_name grouping_option = codes "grouping_option"
key_name coll_timing_info = codes "coll_timing_info"
key_name use_accelerator_buffers = codes "use_accelerator_buffers"

abbrev pub value_of : Parameters → Key → ℕ
value_of p verbose_info_parsing = p.verbose_info_parsing
value_of p num_aggregators = p.num_aggregators
value_of p bytes_per_agg = p.bytes_per_agg
value_of p overwrite_amode = p.overwrite_amode
value_of p cycle_buffer_size = p.cycle_buffer_size
value_of p pipeline_buffer_size = p.pipeline_buffer_size
value_of p max_aggregators_ratio = p.max_aggregators_ratio
value_of p aggregators_cutoff_threshold = p.aggregators_cutoff_threshold
value_of p grouping_option = p.grouping_option
value_of p coll_timing_info = p.coll_timing_info
value_of p use_accelerator_buffers = p.use_accelerator_buffers

-- Asked for a parameter by its name and the name's length, the component returns the variable of ompio
-- of that name, whatever it has registered for its own.
pub registered-get_mca_parameter_value :
    (err_max : ℕ) (var_register : List ℕ → ℕ → ℕ) (g : Globals) (k : Key)
    → get_mca_parameter_value err_max
        (register_component var_register g)
        (key_name k)
        (length (key_name k))
      ≡ value_of g.ompio k
unfolding get_mca_parameter_value register_component
registered-get_mca_parameter_value err_max var_register g verbose_info_parsing = refl
registered-get_mca_parameter_value err_max var_register g num_aggregators = refl
registered-get_mca_parameter_value err_max var_register g bytes_per_agg = refl
registered-get_mca_parameter_value err_max var_register g overwrite_amode = refl
registered-get_mca_parameter_value err_max var_register g cycle_buffer_size = refl
registered-get_mca_parameter_value err_max var_register g pipeline_buffer_size = refl
registered-get_mca_parameter_value err_max var_register g max_aggregators_ratio = refl
registered-get_mca_parameter_value err_max var_register g aggregators_cutoff_threshold = refl
registered-get_mca_parameter_value err_max var_register g grouping_option = refl
registered-get_mca_parameter_value err_max var_register g coll_timing_info = refl
registered-get_mca_parameter_value err_max var_register g use_accelerator_buffers = refl

-- A match of the name with one of the parameters, or with none.
abbrev pub Answer : ℕ → Globals → List ℕ → ℕ → ℕ → Type 0
Answer err_max g name n answer =
    ((k : Key) × (strncmp name (key_name k) n ≡ true) × (answer ≡ value_of g.ompio k))
    ⊎ (((k : Key) → strncmp name (key_name k) n ≡ false) × (answer ≡ err_max))

module _ (err_max : ℕ) (g : Globals) (name : List ℕ) (n : ℕ) where
  unfoldable search : List Key → ℕ
  search [] = err_max
  search (k ∷ ks) =
      let rest = search ks in if strncmp name (key_name k) n then value_of g.ompio k else rest

  abbrev NoneOf : List Key → Type 0
  NoneOf [] = Unit
  NoneOf (k ∷ ks) = (strncmp name (key_name k) n ≡ false) × NoneOf ks

  search-Answer :
      (ks : List Key)
      → ((k : Key) × (strncmp name (key_name k) n ≡ true) × (search ks ≡ value_of g.ompio k))
        ⊎ (NoneOf ks × (search ks ≡ err_max))
  unfolding search
  search-Answer [] = inr (tt, refl)
  search-Answer (k ∷ ks) = elim (Bool-cases (strncmp name (key_name k) n)) [
    | inl e ↦ inl (k, e, rw e refl)
    | inr e ↦ elim (search-Answer ks) [
      | inl (j, same, found) ↦ inl (j, same, rw e found)
      | inr (none_of, missed) ↦ inr ((e, none_of), rw e missed)
    ]
  ]

  all_keys-NoneOf : NoneOf all_keys → (k : Key) → strncmp name (key_name k) n ≡ false
  all_keys-NoneOf p verbose_info_parsing = p.0
  all_keys-NoneOf p num_aggregators = p.1.0
  all_keys-NoneOf p bytes_per_agg = p.1.1.0
  all_keys-NoneOf p overwrite_amode = p.1.1.1.0
  all_keys-NoneOf p cycle_buffer_size = p.1.1.1.1.0
  all_keys-NoneOf p pipeline_buffer_size = p.1.1.1.1.1.0
  all_keys-NoneOf p max_aggregators_ratio = p.1.1.1.1.1.1.0
  all_keys-NoneOf p aggregators_cutoff_threshold = p.1.1.1.1.1.1.1.0
  all_keys-NoneOf p grouping_option = p.1.1.1.1.1.1.1.1.0
  all_keys-NoneOf p coll_timing_info = p.1.1.1.1.1.1.1.1.1.0
  all_keys-NoneOf p use_accelerator_buffers = p.1.1.1.1.1.1.1.1.1.1.0

  get_mca_parameter_value-search : get_mca_parameter_value err_max g name n ≡ search all_keys
  unfolding get_mca_parameter_value search
  get_mca_parameter_value-search = refl

-- Any name and length: the answer is ompio's variable of a parameter whose name agrees in the first
-- `n` characters, and OMPI_ERR_MAX only where none agrees.
pub get_mca_parameter_value-Answer :
    (err_max : ℕ) (g : Globals) (name : List ℕ) (n : ℕ)
    → Answer err_max g name n (get_mca_parameter_value err_max g name n)
get_mca_parameter_value-Answer err_max g name n =
    rw (get_mca_parameter_value-search err_max g name n)
      (elim (search-Answer err_max g name n all_keys) [
        | inl found ↦ inl found
        | inr (none_of, missed) ↦ inr (all_keys-NoneOf err_max g name n none_of, missed)
      ])

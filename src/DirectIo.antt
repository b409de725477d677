-- ===== src/DirectIo.antt =====
-- enable_directio (io_bbview_file_set_view.c): whether a file type moves data in runs that are whole
-- pages and long enough for O_DIRECT. The datatype engine is a parameter: what an envelope, the
-- contents and a size call return, or `none` where the call fails. An `int` is its 32-bit pattern.
-- The answer is `none` where the C would read behind an array of contents or divide by zero, or
-- where the fuel, the depth of the datatype, is used up. Counts are not negative, as MPI makes them.
use bbview.Base.{
  ℕ, zero, suc, ◌+◌, ◌-◌, ◌*◌, ◌/◌, ◌%◌, ◌^◌, List, Bool, true, false, not, ◌&&◌, ◌||◌, Option,
  none, some, ltb, ◌==◌, if◌then◌else◌, get_elem?,
}

pub data Combiner : Type 0 where
  named dup contiguous vector hvector indexed hindexed indexed_block hindexed_block : Combiner
  struct subarray darray f90_real f90_complex f90_integer resized : Combiner
  -- a combiner that the switch does not name
  other : Combiner

abbrev pub is_named : Combiner → Bool
is_named named = true
is_named _ = false

pub record Datatypes (D : Type 0) : Type 0 where
  pub get_envelope : D → Option Combiner
  pub get_contents : D → Option (List ℕ × List D)
  pub type_size : D → Option ℕ
  pub order_c : ℕ
  pub order_fortran : ℕ
  pub distribute_none : ℕ
  pub distribute_block : ℕ
  pub dflt_darg : ℕ

pub record Limits : Type 0 where
  pub pagesize : ℕ
  pub threshold : ℕ

abbrev int_mod : ℕ
int_mod = 2 ^ 32

abbrev pub is_negative : ℕ → Bool
is_negative x = not (ltb x (2 ^ 31))

-- The size of an `int` without its sign, and the quotient of two that are not both negative.
abbrev magnitude : ℕ → ℕ
magnitude x = if is_negative x then int_mod - x else x

abbrev pub int_mul : ℕ → ℕ → ℕ
int_mul a b = a * b % int_mod

unfoldable pub int_div : ℕ → ℕ → ℕ
int_div a b =
    let q = magnitude a / magnitude b in
    if is_negative a && is_negative b || not (is_negative a) && not (is_negative b)
    then q
    else (int_mod - q) % int_mod

-- `x % pagesize != 0 || x < threshold`
unfoldable pub unfit : Limits → ℕ → Bool
unfit l x = not (magnitude x % l.pagesize == 0) || (is_negative x || ltb x l.threshold)

abbrev bind : {A B : Type 0} → Option A → (A → Option B) → Option B
bind none f = none
bind (some a) f = f a

module _ {D : Type 0} (mpi : Datatypes D) (l : Limits) where
  -- `goto disable` where a run of `x` bytes does not fit, else what follows.
  fits : ℕ → Option Bool
  fits x = some (not (unfit l x))

  -- What the cases say of a base type: it is good by itself, or it is a named type of some size,
  -- on which the rest of the case decides.
  base : (D → Option Bool) → D → (ℕ → Option Bool) → Option Bool
  base self d check = elim (self d) [
    | none ↦ none
    | some true ↦ some true
    | some false ↦ elim (mpi.get_envelope d) [
      | none ↦ some false
      | some combiner ↦
          if is_named combiner
          then elim (mpi.type_size d) [
            | none ↦ some false
            | some size ↦ elim (size == 0) [ true ↦ some false | false ↦ check size ]
          ]
          else some false
    ]
  ]

  -- `if (i[0] == 0) goto disable;`
  nonempty : List ℕ → Option Bool → Option Bool
  nonempty i rest = bind (get_elem? i 0) λ n. if n == 0 then some false else rest

  -- The cases on the contents `i` and `d`, once PMPI_Type_get_contents has returned them.
  module _ (self : D → Option Bool) (i : List ℕ) (d : List D) where
    dup_case : Option Bool
    dup_case = bind (get_elem? d 0) self

    contiguous_case : Option Bool
    contiguous_case = nonempty i (
        bind (get_elem? i 0)
          λ count. bind (get_elem? d 0) λ d0. base self d0 λ size. fits (int_mul size count))

    -- Vectors and blocks of one length: `i[1]` elements to a run.
    vector_case : Option Bool
    vector_case = nonempty i (
        bind (get_elem? d 0)
          λ d0. base self d0 λ size. bind (get_elem? i 1) λ len. fits (int_mul size len))

    -- The loop over `i[c+1]`, from the `c` of the list's first entry on.
    lengths_fit : ℕ → ℕ → ℕ → Option Bool
    lengths_fit zero c size = some true
    lengths_fit (suc n) c size =
        let rest = lengths_fit n (c + 1) size in
        bind (get_elem? i (c + 1)) λ len. if unfit l (int_mul size len) then some false else rest

    indexed_case : Option Bool
    indexed_case = nonempty i (
        bind (get_elem? i 0)
          λ count. bind (get_elem? d 0) λ d0. base self d0 λ size. lengths_fit count 0 size)

    -- The loop over the members of a struct.
    members_fit : ℕ → ℕ → Option Bool
    members_fit zero c = some true
    members_fit (suc n) c =
        let rest = members_fit n (c + 1) in
        bind (get_elem? d c) λ dc.
          bind (base self dc λ size. bind (get_elem? i (c + 1)) λ len. fits (int_mul size len))
            λ good. if good then rest else some false

    struct_case : Option Bool
    struct_case = nonempty i (bind (get_elem? i 0) λ count. members_fit count 0)

    -- The length of the innermost dimension, by the order of the array.
    subarray_case : Option Bool
    subarray_case = nonempty i (
        bind (get_elem? i 0) λ n. bind (get_elem? d 0) λ d0. base self d0 λ size.
          bind (get_elem? i (3 * n + 1)) λ order.
            if order == mpi.order_c
            then bind (get_elem? i (2 * n)) (λ len. fits (int_mul size len))
            else if order == mpi.order_fortran
            then bind (get_elem? i (n + 1)) (λ len. fits (int_mul size len))
            else some false)

    -- A block distribution: the block is the argument, or the default share of the processes. `dim1`
    -- is the C's `dim + 1`.
    block_size : ℕ → ℕ → Option ℕ
    block_size n dim1 = bind (get_elem? i (2 * n + 2 + dim1)) λ darg.
        if darg == mpi.dflt_darg
        then bind (get_elem? i (2 + dim1)) (λ gsize.
          bind (get_elem? i (3 * n + 2 + dim1))
            λ psize. if psize == 0 then none else some (int_div gsize psize))
        else some darg

    distributed : ℕ → ℕ → ℕ → Option Bool
    distributed n dim1 size = bind (get_elem? i (n + 2 + dim1)) λ distrib.
        if distrib == mpi.distribute_none
        then bind (get_elem? i (2 + dim1)) (λ len. fits (int_mul size len))
        else if distrib == mpi.distribute_block
        then bind (block_size n dim1) (λ len. fits (int_mul size len))
        else some false

    darray_case : Option Bool
    darray_case = nonempty i (
        bind (get_elem? d 0) λ d0. base self d0 λ size. bind (get_elem? i 2) λ n.
          bind (get_elem? i (4 * n + 3)) λ order.
            if order == mpi.order_c
            then distributed n n size
            else if order == mpi.order_fortran
            then distributed n 1 size
            else some false)

  named_case : D → Option Bool
  named_case d = elim (mpi.type_size d) [
    | none ↦ some false
    | some size ↦ if size == 0 then some false else fits size
  ]

  with_contents : D → (List ℕ → List D → Option Bool) → Option Bool
  with_contents d case = elim (mpi.get_contents d) [ none ↦ some false | some (i, ds) ↦ case i ds ]

  -- The switch.
  cases : (D → Option Bool) → D → Combiner → Option Bool
  cases self d named = named_case d
  cases self d dup = with_contents d (dup_case self)
  cases self d contiguous = with_contents d (contiguous_case self)
  cases self d vector = with_contents d (vector_case self)
  cases self d hvector = with_contents d (vector_case self)
  cases self d indexed = with_contents d (indexed_case self)
  cases self d hindexed = with_contents d (indexed_case self)
  cases self d indexed_block = with_contents d (vector_case self)
  cases self d hindexed_block = with_contents d (vector_case self)
  cases self d struct = with_contents d (struct_case self)
  cases self d subarray = with_contents d (subarray_case self)
  cases self d darray = with_contents d (darray_case self)
  cases self d f90_real = some false
  cases self d f90_complex = some false
  cases self d f90_integer = some false
  cases self d resized = some false
  cases self d other = some true

  unfoldable pub enable_directio : ℕ → D → Option Bool
  unfolding cases named_case with_contents dup_case contiguous_case vector_case indexed_case
      lengths_fit struct_case members_fit subarray_case darray_case distributed block_size base
      nonempty fits unfit int_div
  enable_directio zero d = none
  enable_directio (suc fuel) d = elim (mpi.get_envelope d) [
    | none ↦ some false
    | some combiner ↦ cases (enable_directio fuel) d combiner
  ]

-- ===== src/OffsetInfo/Decoded.antt =====
-- Reading back the record of offsets that io_bbview.c writes.
use bbview.Base.{
  ℕ, zero, suc, ◌+◌, ◌-◌, ◌≤◌, ◌<◌, ◌≡◌, refl, sym, ap, ap₂, ◌∙◌, inl, inr, List, [], ◌∷◌, ◌++◌,
  Bool-cases, true, false, ◌&&◌, some, arith, ltb, ◌==◌, if◌then◌else◌, length, get_or, take, drop,
}
use bbview.FileView.{Block}
use bbview.SortOfflen.{OffLen}
use bbview.OffsetInfo.{
  Dump, success, Group, Allocation, own_entries, displacements, total, array, count_row,
  count_entries, write_out, with_matrix, record_root, record_offset_info,
}
use bbview.OffsetInfo.Matrix.{
  entry, pairs, processes, AreEntries, zeros-IsSquare, entry-zeros, count_neighbours_lem,
}
use bbview.OffsetInfo.Crs.{
  row_columns, row_values, all_columns, all_values, row_ends, write_out_lem, length-row_values,
}

-- What a row of compressed columns and values says of column `y`: 0 where it is silent.
unfoldable pub value_at : ℕ → List ℕ → List ℕ → ℕ
value_at y [] vs = 0
value_at y (c ∷ cs) [] = 0
value_at y (c ∷ cs) (v ∷ vs) = let rest = value_at y cs vs in if c == y then v else rest

-- The value at row `x`, column `y` of the matrix that the file describes. The entries of row `x`
-- stand from `row_index[x]` on, counted from 1, to before `row_index[x + 1]`.
abbrev pub decoded : Dump → ℕ → ℕ → ℕ
decoded d x y =
    let from = get_or d.row_index x 0 - 1 in
    let len = get_or d.row_index (x + 1) 0 - get_or d.row_index x 0 in
    value_at y (take len (drop from d.columns)) (take len (drop from d.values))

value_at_before :
    (j y : ℕ) (row : List ℕ) → y < j → value_at y (row_columns j row) (row_values row) ≡ 0
unfolding value_at row_columns row_values
value_at_before j y [] h = refl
value_at_before j y (v ∷ row) h =
    let rest = value_at_before (j + 1) y row (omega (arith, h)) in
    elim (Bool-cases (ltb 0 v)) [
      | inl e ↦ rw e (let other : (j == y) ≡ false = ground arith in rw other rest)
      | inr e ↦ rw e rest
    ]

value_at-row :
    (j y : ℕ) (row : List ℕ)
    → j ≤ y
    → value_at y (row_columns j row) (row_values row) ≡ get_or row (y - j) 0
unfolding value_at row_columns row_values
value_at-row j y [] h = refl
value_at-row j y (v ∷ row) h = elim (Bool-cases (j == y)) [
  | inl same ↦
      let first : y - j ≡ 0 = ground arith in
      let before = value_at_before (j + 1) y row (ground arith) in
      rw first (elim (Bool-cases (ltb 0 v)) [
        | inl e ↦ rw e (rw same)
        | inr e ↦ rw e (before ∙ ground arith)
      ])
  | inr other ↦
      let later : y - j ≡ suc (y - (j + 1)) = ground arith in
      let rest = value_at-row (j + 1) y row (ground arith) in
      rw later (elim (Bool-cases (ltb 0 v)) [ inl e ↦ rw e (rw other rest) | inr e ↦ rw e rest ])
]

-- One row out of all.
length-row_columns : (j : ℕ) (row : List ℕ) → length (row_columns j row) ≡ count_row row
unfolding row_columns count_row
length-row_columns j [] = refl
length-row_columns j (v ∷ row) = ground (arith, length-row_columns (j + 1) row)

take-append {ℓ} : {A : Type ℓ} (xs ys : List A) (n : ℕ) → n ≡ length xs → take n (xs ++ ys) ≡ xs
take-append [] ys n e = ap (λ k. take k ys) e
take-append (x ∷ xs) ys zero e = absurd (omega (arith, e))
take-append (x ∷ xs) ys (suc n) e = ap (x ∷◌) (take-append xs ys n (omega (arith, e)))

drop-append {ℓ} :
    {A : Type ℓ} (xs ys : List A) (n k : ℕ) → n ≡ length xs + k → drop n (xs ++ ys) ≡ drop k ys
drop-append [] ys n k e = ap (λ m. drop m ys) (omega (arith, e))
drop-append (x ∷ xs) ys zero k e = absurd (omega (arith, e))
drop-append (x ∷ xs) ys (suc n) k e = drop-append xs ys n k (omega (arith, e))

-- The rows from the one that ends in front of `r` on.
row-ends :
    (m : List (List ℕ)) (r x : ℕ)
    → x < length m
    → let from = get_or (r ∷ row_ends r m) x 0 - r in
      let len = get_or (r ∷ row_ends r m) (suc x) 0 - get_or (r ∷ row_ends r m) x 0 in
      (r ≤ get_or (r ∷ row_ends r m) x 0)
      × (take len (drop from (all_columns m)) ≡ row_columns 0 (get_or m x []))
      × (take len (drop from (all_values m)) ≡ row_values (get_or m x []))
unfolding row_ends all_columns all_values
row-ends [] r x h = absurd (omega (arith, h))
row-ends (row ∷ m) r zero h =
    let none_before : r - r ≡ 0 = omega arith in
    let len : r + count_row row - r ≡ count_row row = omega arith in
    (
      omega arith,
      rw (none_before, len)
          (take-append (row_columns 0 row) (all_columns m) (count_row row)
            (sym (length-row_columns 0 row))),
      rw (none_before, len)
          (take-append (row_values row) (all_values m) (count_row row)
            (sym (length-row_values row))),
    )
row-ends (row ∷ m) r (suc x) h =
    let (le, columns, values) = row-ends m (r + count_row row) x (omega (arith, h)) in
    let g = get_or ((r + count_row row) ∷ row_ends (r + count_row row) m) x 0 in
    let len = get_or (row_ends (r + count_row row) m) x 0 - g in
    let k = g - (r + count_row row) in
    (
      omega (arith, le),
      ap (take len) (
            drop-append (row_columns 0 row) (all_columns m) (g - r) k
              (omega (arith, le, length-row_columns 0 row)))
          ∙ columns,
      ap (take len) (
            drop-append (row_values row) (all_values m) (g - r) k
              (omega (arith, le, length-row_values row)))
          ∙ values,
    )

-- The file describes its matrix.
pub decoded-write_out :
    (size : ℕ) (m : List (List ℕ))
    → length m ≡ size
    → (d : Dump) × (write_out size m ≡ some d)
      × ((x y : ℕ) → x < size → decoded d x y ≡ entry m x y)
decoded-write_out size m len = (
  record {
    entries = count_entries m;
    rows = size + 1;
    columns = all_columns m;
    values = all_values m;
    row_index = 1 ∷ row_ends 1 m;
  },
  write_out_lem size m len,
  λ x y lt.
      let (le, columns, values) = row-ends m 1 x (omega (arith, lt, len)) in
      let next : x + 1 ≡ suc x = omega arith in
      rw next (
        ap₂ (value_at y) columns values
        ∙ value_at-row 0 y (get_or m x []) (omega arith)
        ∙ ap (λ k. get_or (get_or m x []) k 0) (omega arith)),
)

-- Allocations that all succeed, and a file that can be opened.
pub record IsPlenty (a : Allocation) : Type 0 where
  pub counts : (a.recvcounts && (a.displs && a.per_process)) ≡ true
  pub arrays : (a.all_process && (a.sorted && a.matrix)) ≡ true
  pub file : a.file ≡ true
  pub compressed : (a.column_list && (a.values && a.row_index)) ≡ true

-- What the root has gathered, with the offsets at which the entries of each process start.
abbrev pub gathered : Group → List Block → List OffLen
gathered g iov =
    let counts = g.gather (length iov) in
    g.gatherv (own_entries g.rank iov) counts (displacements 0 counts)

abbrev pub order : Group → List Block → List ℕ
order g iov = g.sort (gathered g iov) (total (g.gather (length iov)))

-- On the root process, with memory and a file to be had, and if ompio's sort gives indices of what was
-- gathered from the processes of the group: the call succeeds, and the file it writes says, at row x
-- and column y, how often entries of the processes x and y follow each other in the order of the sort,
-- counted in both directions.
pub decoded-record_offset_info :
    (g : Group) (alloc : Allocation) (iov : List Block)
    → g.is_root ≡ true
    → IsPlenty alloc
    → AreEntries g.size (gathered g iov) (order g iov)
    → (d : Dump) × (record_offset_info g alloc iov ≡ success (some d))
      × ((x y : ℕ)
          → x < g.size
          → decoded d x y
            ≡ pairs x y (processes (gathered g iov) (order g iov))
              + pairs y x (processes (gathered g iov) (order g iov)))
unfolding record_offset_info record_root with_matrix
decoded-record_offset_info g alloc iov root plenty valid =
    let (m, counted, sq, entries) =
      count_neighbours_lem g.size (gathered g iov) (order g iov) (array g.size (array g.size 0))
        valid (zeros-IsSquare g.size) in
    let (d, wrote, reads) = decoded-write_out g.size m sq.rows in
    (
      d,
      simp (plenty.counts, root, plenty.arrays, counted, plenty.file, plenty.compressed, wrote)
          refl,
      λ x y lt.
          reads x y lt
          ∙ entries x y
          ∙ (let zeros = entry-zeros g.size g.size x y in omega (arith, zeros)),
    )

-- ===== src/OffsetInfo/Crs.antt =====
-- The compressed rows that the record of offsets (io_bbview.c) writes, as an encoding: the loops fill
-- their arrays exactly, and never write outside them.
use mathlib.Core.List.{append_assoc, append-nil}
use bbview.Base.{
  ℕ, zero, suc, ◌+◌, ◌≤◌, ◌<◌, ◌≡◌, refl, sym, ap, ap₂, ◌∙◌, inl, inr, List, [], ◌∷◌, ◌++◌,
  Bool-cases, some, arith, ltb, if◌then◌else◌, length, set, take, take_all, lt→ltb, length-set,
  length-append,
}
use bbview.OffsetInfo.{Compressed, array, count_row, count_entries, fill_row, fill, write_out}
use bbview.OffsetInfo.Matrix.{length-array}

-- The columns and the values of a row that are not 0, from column `j` on.
unfoldable pub row_columns : ℕ → List ℕ → List ℕ
row_columns j [] = []
row_columns j (v ∷ row) = (if ltb 0 v then j ∷ [] else []) ++ row_columns (j + 1) row

unfoldable pub row_values : List ℕ → List ℕ
row_values [] = []
row_values (v ∷ row) = (if ltb 0 v then v ∷ [] else []) ++ row_values row

unfoldable pub all_columns : List (List ℕ) → List ℕ
all_columns [] = []
all_columns (row ∷ rows) = row_columns 0 row ++ all_columns rows

unfoldable pub all_values : List (List ℕ) → List ℕ
all_values [] = []
all_values (row ∷ rows) = row_values row ++ all_values rows

-- Where each row ends, counted from 1.
unfoldable pub row_ends : ℕ → List (List ℕ) → List ℕ
row_ends r [] = []
row_ends r (row ∷ rows) = (r + count_row row) ∷ row_ends (r + count_row row) rows

take-set {ℓ} :
    {A : Type ℓ} (xs : List A) (i : ℕ) (v : A)
    → i < length xs
    → take (suc i) (set xs i v) ≡ take i xs ++ (v ∷ [])
take-set [] i v h = absurd (omega (arith, h))
take-set (x ∷ xs) zero v h = refl
take-set (x ∷ xs) (suc i) v h = ap (x ∷◌) (take-set xs i v (omega (arith, h)))

take-set-suc {ℓ} :
    {A : Type ℓ} (xs : List A) (i : ℕ) (v : A)
    → i < length xs
    → take (i + 1) (set xs i v) ≡ take i xs ++ (v ∷ [])
take-set-suc xs i v h = let e : i + 1 ≡ suc i = omega arith in rw e (take-set xs i v h)

-- What the loops have written after `vs` and `cs`.
record Filled (s t : Compressed) (vs cs : List ℕ) : Type 0 where
  values : take t.column_index t.values ≡ take s.column_index s.values ++ vs
  columns : take t.column_index t.column_list ≡ take s.column_index s.column_list ++ cs
  values_size : length t.values ≡ length s.values
  columns_size : length t.column_list ≡ length s.column_list
  index : t.column_index ≡ s.column_index + length vs
  r_index : t.r_index ≡ s.r_index + length vs

-- Room for `k` more entries.
abbrev Room : ℕ → Compressed → Type 0
Room k s = (s.column_index + k ≤ length s.values) × (s.column_index + k ≤ length s.column_list)

Filled-refl : (s : Compressed) → Filled s s [] []
Filled-refl s = record {
  values = sym (append-nil _);
  columns = sym (append-nil _);
  values_size = refl;
  columns_size = refl;
  index = omega arith;
  r_index = omega arith;
}

Filled-trans :
    (s t u : Compressed) (vs ws cs ds : List ℕ)
    → Filled s t vs cs
    → Filled t u ws ds
    → Filled s u (vs ++ ws) (cs ++ ds)
Filled-trans s t u vs ws cs ds f g = record {
  values = g.values ∙ ap (λ l. l ++ ws) f.values ∙ append_assoc _ vs ws;
  columns = g.columns ∙ ap (λ l. l ++ ds) f.columns ∙ append_assoc _ cs ds;
  values_size = g.values_size ∙ f.values_size;
  columns_size = g.columns_size ∙ f.columns_size;
  index = omega (arith, f.index, g.index, length-append vs ws);
  r_index = omega (arith, f.r_index, g.r_index, length-append vs ws);
}

pub length-row_values : (row : List ℕ) → length (row_values row) ≡ count_row row
unfolding row_values count_row
length-row_values [] = refl
length-row_values (v ∷ row) = ground (arith, length-row_values row)

-- One entry.
abbrev enter : Compressed → ℕ → ℕ → Compressed
enter s j v = record s {
  values = set s.values s.column_index v;
  column_list = set s.column_list s.column_index j;
  column_index = s.column_index + 1;
  r_index = s.r_index + 1;
}

enter-Filled : (s : Compressed) (j v : ℕ) → Room 1 s → Filled s (enter s j v) (v ∷ []) (j ∷ [])
enter-Filled s j v room = record {
  values = take-set-suc s.values s.column_index v (omega (arith, room));
  columns = take-set-suc s.column_list s.column_index j (omega (arith, room));
  values_size = length-set _ _ _;
  columns_size = length-set _ _ _;
  index = omega arith;
  r_index = omega arith;
}

fill_row-Filled :
    (j : ℕ) (row : List ℕ) (s : Compressed)
    → Room (count_row row) s
    → (t : Compressed) × (fill_row j row s ≡ some t)
      × Filled s t (row_values row) (row_columns j row)
      × (t.row_index ≡ s.row_index)
unfolding fill_row row_values row_columns count_row
fill_row-Filled j [] s room = (s, refl, Filled-refl s, refl)
fill_row-Filled j (v ∷ row) s room = elim (Bool-cases (ltb 0 v)) [
  | inl e ↦
      let one = enter-Filled s j v (ground arith) in
      let (t, run, f, same) =
        fill_row-Filled (j + 1) row (enter s j v)
          (ground (arith, one.values_size, one.columns_size, one.index)) in
      (
        t,
        rw e (
            rw
              (
                lt→ltb s.column_index (length s.values) (ground arith),
                lt→ltb s.column_index (length s.column_list) (ground arith),
              )
              run),
        rw e (
            Filled-trans s (enter s j v) t (v ∷ []) (row_values row) (j ∷ [])
              (row_columns (j + 1) row) one f),
        same,
      )
  | inr e ↦
      let (t, run, f, same) = fill_row-Filled (j + 1) row s (ground arith) in
      (t, rw e run, rw e f, same)
]

length-all_values : (rows : List (List ℕ)) → length (all_values rows) ≡ count_entries rows
unfolding all_values count_entries
length-all_values [] = refl
length-all_values (row ∷ rows) = omega (
  arith,
  length-append (row_values row) (all_values rows),
  length-row_values row,
  length-all_values rows,
)

-- The ends of the rows are kept apart.
Filled-index :
    (s t : Compressed) (vs cs index : List ℕ)
    → Filled s t vs cs
    → Filled s (record t { row_index = index }) vs cs
Filled-index s t vs cs index f = record {
  values = f.values;
  columns = f.columns;
  values_size = f.values_size;
  columns_size = f.columns_size;
  index = f.index;
  r_index = f.r_index;
}

-- And the ends of the rows from `i` on.
record Ended (i : ℕ) (rows : List (List ℕ)) (s t : Compressed) : Type 0 where
  entries : Filled s t (all_values rows) (all_columns rows)
  ends :
      take (i + 1 + length rows) t.row_index ≡ take (i + 1) s.row_index ++ row_ends s.r_index rows
  size : length t.row_index ≡ length s.row_index

fill-Ended :
    (i : ℕ) (rows : List (List ℕ)) (s : Compressed)
    → Room (count_entries rows) s
    → i + length rows < length s.row_index
    → (t : Compressed) × (fill i rows s ≡ some t) × Ended i rows s t
unfolding fill all_values all_columns row_ends count_entries
fill-Ended i [] s room ends = (
  s,
  refl,
  record {
    entries = Filled-refl s;
    ends = ap (λ n. take n s.row_index) (omega arith) ∙ sym (append-nil _);
    size = refl;
  },
)
fill-Ended i (row ∷ rows) s room ends =
    let (t, run, f, same) = fill_row-Filled 0 row s (omega (arith, room)) in
    let index = set t.row_index (i + 1) t.r_index in
    let u = record t { row_index = index } in
    let many = length-row_values row in
    let inside : i + 1 < length t.row_index = omega (arith, ap length same, ends) in
    let size : length index ≡ length s.row_index =
      length-set t.row_index (i + 1) t.r_index ∙ ap length same in
    let g = Filled-index s t (row_values row) (row_columns 0 row) index f in
    let (w, rest, e) =
      fill-Ended (i + 1) rows u (omega (arith, room, f.values_size, f.columns_size, f.index, many))
        (omega (arith, size, ends)) in
    (
      w,
      rw run (rw (lt→ltb (i + 1) (length t.row_index) inside) rest),
      record {
        entries =
            Filled-trans s u w (row_values row) (all_values rows) (row_columns 0 row)
              (all_columns rows) g e.entries;
        ends =
            ap (λ n. take n w.row_index) (omega arith)
            ∙ e.ends
            ∙ ap (λ l. l ++ row_ends t.r_index rows)
                (take-set-suc t.row_index (i + 1) t.r_index inside)
            ∙ append_assoc (take (i + 1) t.row_index) (t.r_index ∷ []) (row_ends t.r_index rows)
            ∙ ap₂ (λ l r. take (i + 1) l ++ (r ∷ row_ends r rows)) same
                (f.r_index ∙ omega (arith, many));
        size = e.size ∙ size;
      },
    )

-- What the loops start from.
abbrev opened : ℕ → ℕ → Compressed
opened size entries = record {
  values = array entries 0;
  column_list = array entries 0;
  row_index = 1 ∷ array size 0;
  column_index = 0;
  r_index = 1;
}

Ended-all :
    (size : ℕ) (m : List (List ℕ)) (t : Compressed)
    → length m ≡ size
    → Ended 0 m (opened size (count_entries m)) t
    → (t.values ≡ all_values m) × (t.column_list ≡ all_columns m) × (t.row_index ≡ 1 ∷ row_ends 1 m)
Ended-all size m t len e =
    let f = e.entries in
    let many = length-all_values m in
    let room = length-array {A = ℕ} (count_entries m) 0 in
    let rows = length-array {A = ℕ} size 0 in
    (
      sym (take_all t.column_index t.values (omega (arith, f.values_size, f.index, many, room)))
          ∙ f.values,
      sym (
            take_all t.column_index t.column_list
              (omega (arith, f.columns_size, f.index, many, room)))
          ∙ f.columns,
      sym (take_all (0 + 1 + length m) t.row_index (omega (arith, e.size, rows, len))) ∙ e.ends,
    )

-- The loops write the encoding, and nothing outside their arrays.
pub write_out_lem :
    (size : ℕ) (m : List (List ℕ))
    → length m ≡ size
    → write_out size m
      ≡ some (record {
        entries = count_entries m;
        rows = size + 1;
        columns = all_columns m;
        values = all_values m;
        row_index = 1 ∷ row_ends 1 m;
      })
unfolding write_out
write_out_lem size m len =
    let room = length-array {A = ℕ} (count_entries m) 0 in
    let rows = length-array {A = ℕ} size 0 in
    let (t, run, e) =
      fill-Ended 0 m (opened size (count_entries m)) (omega (arith, room))
        (omega (arith, rows, len)) in
    let (values, columns, index) = Ended-all size m t len e in
    let next : size + 1 ≡ suc size = omega arith in
    rw next (rw (lt→ltb 0 (length (array {A = ℕ} (suc size) 0)) (omega arith)) (rw run (cc)))

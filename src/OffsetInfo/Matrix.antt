-- ===== src/OffsetInfo/Matrix.antt =====
-- The matrix of neighbours that the record of offsets (io_bbview.c) counts.
use bbview.Base.{
  ℕ, zero, suc, ◌+◌, ◌<◌, ◌≡◌, refl, ap, ◌∙◌, List, [], ◌∷◌, map, Bool, ◌&&◌, some, arith, ◌==◌,
  if◌then◌else◌, length, get_or, set, lt→ltb, length-set,
}
use bbview.Base.Arrays.{get_elem?-get_or, get_or-set}
use bbview.OffsetInfo.{array, bump, process_of, count_neighbours}
use bbview.SortOfflen.{OffLen}
use bbview.SortOfflen.Heap.{no_entry}

abbrev pub entry : List (List ℕ) → ℕ → ℕ → ℕ
entry m x y = get_or (get_or m x []) y 0

pub record IsSquare (n : ℕ) (m : List (List ℕ)) : Type 0 where
  pub rows : length m ≡ n
  pub columns : (x : ℕ) → x < n → length (get_or m x []) ≡ n

abbrev pub one : Bool → ℕ
one b = if b then 1 else 0

-- How often `x` stands right before `y`.
unfoldable pub pairs : ℕ → ℕ → List ℕ → ℕ
pairs x y [] = 0
pairs x y (p ∷ []) = 0
pairs x y (p ∷ q ∷ ps) = one (p == x && q == y) + pairs x y (q ∷ ps)

-- The process that each index stands for.
abbrev pub processes : List OffLen → List ℕ → List ℕ
processes all sorted = map (λ t. (get_or all t no_entry).process_id) sorted

-- Indices of entries of processes below `n`.
abbrev pub AreEntries : ℕ → List OffLen → List ℕ → Type 0
AreEntries n all [] = Unit
AreEntries n all (t ∷ sorted) =
    (t < length all) × ((get_or all t no_entry).process_id < n) × AreEntries n all sorted

pub length-array {ℓ} : {A : Type ℓ} (n : ℕ) (v : A) → length (array n v) ≡ n
length-array zero v = refl
length-array (suc n) v = ap suc (length-array n v)

pub get_or-array {ℓ} : {A : Type ℓ} (n i : ℕ) (v d : A) → i < n → get_or (array n v) i d ≡ v
get_or-array zero i v d h = absurd (omega (arith, h))
get_or-array (suc n) zero v d h = refl
get_or-array (suc n) (suc i) v d h = get_or-array n i v d (omega (arith, h))

pub zeros-IsSquare : (n : ℕ) → IsSquare n (array n (array n 0))
zeros-IsSquare n = record {
  rows = length-array n (array n 0);
  columns = λ x lt. ap length (get_or-array n x (array n 0) [] lt) ∙ length-array n 0;
}

get_or-zeros : (n y : ℕ) → get_or {A = ℕ} (array n 0) y 0 ≡ 0
get_or-zeros zero y = refl
get_or-zeros (suc n) zero = refl
get_or-zeros (suc n) (suc y) = get_or-zeros n y

pub entry-zeros : (n k x y : ℕ) → entry (array k (array n 0)) x y ≡ 0
entry-zeros n zero x y = refl
entry-zeros n (suc k) zero y = get_or-zeros n y
entry-zeros n (suc k) (suc x) y = entry-zeros n k x y

module _ (n : ℕ) (m : List (List ℕ)) (sq : IsSquare n m) (j l : ℕ) (hj : j < n) (hl : l < n) where
  row : List ℕ
  row = get_or m j []

  bumped : List (List ℕ)
  unfolding row
  bumped = set m j (set row l (get_or row l 0 + 1))

  bump-bumped : bump m j l ≡ some bumped
  unfolding bump bumped
  bump-bumped = rw (
    get_elem?-get_or m j [] (omega (arith, sq.rows, hj)),
    get_elem?-get_or (get_or m j []) l 0 (omega (arith, sq.columns j hj, hl)),
    lt→ltb l (length (get_or m j [])) (omega (arith, sq.columns j hj, hl)),
    lt→ltb j (length m) (omega (arith, sq.rows, hj)),
  )

  row_of :
      (x : ℕ)
      → get_or bumped x [] ≡ (if j == x then set row l (get_or row l 0 + 1) else get_or m x [])
  unfolding bumped
  row_of x = get_or-set m j x _ [] (omega (arith, sq.rows, hj))

  bumped-IsSquare : IsSquare n bumped
  unfolding bumped
  bumped-IsSquare = record {
    rows = length-set m j _ ∙ sq.rows;
    columns = λ x lt.
        ap length (row_of x)
        ∙ (let size = length-set row l (get_or row l 0 + 1) in
            let old = sq.columns x lt in let this = sq.columns j hj in ground arith);
  }

  entry-bumped : (x y : ℕ) → entry bumped x y ≡ entry m x y + one (j == x && l == y)
  unfolding bumped
  entry-bumped x y =
      ap (λ r. get_or r y 0) (row_of x)
      ∙ (let cell =
            get_or-set (get_or m j []) l y (get_or (get_or m j []) l 0 + 1) 0
              (omega (arith, sq.columns j hj, hl)) in
          ground arith)

  pub bump_lem :
      (m' : List (List ℕ)) × (bump m j l ≡ some m')
      × IsSquare n m'
      × ((x y : ℕ) → entry m' x y ≡ entry m x y + one (j == x && l == y))
  bump_lem = (bumped, bump-bumped, bumped-IsSquare, entry-bumped)

module _ (n : ℕ) (all : List OffLen) where
  process_of_lem :
      (t : ℕ) → t < length all → process_of all t ≡ some (get_or all t no_entry).process_id
  process_of_lem t lt = rw (get_elem?-get_or all t no_entry lt)

  -- Two processes next to each other are counted in both orders.
  pub count_neighbours_lem :
      (sorted : List ℕ) (m : List (List ℕ))
      → AreEntries n all sorted
      → IsSquare n m
      → (m' : List (List ℕ)) × (count_neighbours all sorted m ≡ some m')
        × IsSquare n m'
        × ((x y : ℕ)
            → entry m' x y
              ≡ entry m x y + (pairs x y (processes all sorted) + pairs y x (processes all sorted)))
  unfolding count_neighbours pairs
  count_neighbours_lem [] m v sq = (m, refl, sq, λ x y. omega arith)
  count_neighbours_lem (s ∷ []) m v sq = (m, refl, sq, λ x y. omega arith)
  count_neighbours_lem (s ∷ t ∷ sorted) m v sq =
      let j = (get_or all s no_entry).process_id in
      let l = (get_or all t no_entry).process_id in
      let (a, ra, sa, ea) = bump_lem n m sq j l v.1 v.2.1 in
      let (b, rb, sb, eb) = bump_lem n a sa l j v.2.1 v.1 in
      let (c, rc, sc, ec) = count_neighbours_lem (t ∷ sorted) b v.2 sb in
      (
        c,
        rw (process_of_lem s v.0, process_of_lem t v.2.0) (rw ra (rw rb rc)),
        sc,
        λ x y. let e = ec x y in let f = eb x y in let g = ea x y in ground arith,
      )

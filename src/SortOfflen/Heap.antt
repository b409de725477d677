-- ===== src/SortOfflen/Heap.antt =====
-- The order of the heap in ompi_io_bbview_sort_offlen (io_bbview.c), and what its loops keep.
use bbview.Base.{
  ℕ, ◌+◌, ◌-◌, ◌*◌, ◌/◌, ◌≤◌, ◌<◌, ◌≡◌, ◌≢◌, ◌⊎◌, inl, inr, Bool-cases, List, some, arith, ltb, leb,
  if◌then◌else◌, get_or, set, length, lt→ltb, length-set,
}
use bbview.Base.Arrays.{exchange, get_elem?-get_or, get_or-exchange}
use bbview.SortOfflen.{OffLen, offset_at, prefer, largest_of, swap}

abbrev pub no_entry : OffLen
no_entry = record { offset = 0; length = 0; process_id = 0 }

-- The offset that the index at place `j` stands for.
abbrev pub key : List OffLen → List ℕ → ℕ → ℕ
key io a j = (get_or io (get_or a j 0) no_entry).offset

abbrev pub parent : ℕ → ℕ
parent c = (c - 1) / 2

-- `n` indices of entries.
pub record IsIndexed (io : List OffLen) (n : ℕ) (a : List ℕ) : Type 0 where
  pub size : length a ≡ n
  pub inside : (i : ℕ) → i < n → get_or a i 0 < length io

module _ (io : List OffLen) where
  -- Up to place `h`, no child of a place from `lo` on is larger than its parent.
  abbrev pub IsHeapFrom : ℕ → ℕ → List ℕ → Type 0
  IsHeapFrom lo h a = (c : ℕ) → 0 < c → c ≤ h → lo ≤ parent c → key io a c ≤ key io a (parent c)

  -- The same but for the children of `j`, which are not larger than the parent of `j`.
  pub record IsSinking (lo h : ℕ) (a : List ℕ) (j : ℕ) : Type 0 where
    pub edges :
        (c : ℕ) → 0 < c → c ≤ h → lo ≤ parent c → parent c ≢ j → key io a c ≤ key io a (parent c)
    pub bridged :
        (c : ℕ)
        → 0 < c
        → c ≤ h
        → parent c ≡ j
        → 0 < j
        → lo ≤ parent j
        → key io a c ≤ key io a (parent j)

  -- Behind place `h` the entries are in order, and not smaller than any before.
  abbrev pub IsTail : ℕ → ℕ → List ℕ → Type 0
  IsTail n h a = (p q : ℕ) → p < q → h < q → q < n → key io a p ≤ key io a q

  -- The largest of `j` and its children in the heap.
  pub record IsLargest (h : ℕ) (a : List ℕ) (j m : ℕ) : Type 0 where
    pub place : (m ≡ j) ⊎ ((j < m) × (m ≤ h) × (parent m ≡ j))
    pub above : key io a j ≤ key io a m
    pub most : (c : ℕ) → 0 < c → c ≤ h → parent c ≡ j → key io a c ≤ key io a m

  module _ (n h : ℕ) (a : List ℕ) (ix : IsIndexed io n a) (fits : h < n) where
    offset_at-key : (j : ℕ) → j < n → offset_at io a j ≡ some (key io a j)
    unfolding offset_at
    offset_at-key j lt = rw (
      get_elem?-get_or a j 0 (omega (arith, ix.size, lt)),
      get_elem?-get_or io (get_or a j 0) no_entry (ix.inside j lt),
    )

    prefer_lem :
        (c b : ℕ)
        → b < n
        → prefer io h a c b
          ≡ some (if leb c h then (if ltb (key io a b) (key io a c) then c else b) else b)
    unfolding prefer
    prefer_lem c b lt = elim (Bool-cases (leb c h)) [
      | inl e ↦ rw (e, prefer) (rw (offset_at-key c (ground arith), offset_at-key b lt))
      | inr e ↦ rw (e, prefer)
    ]

    pub largest_of-IsLargest :
        (j : ℕ) → j < n → (m : ℕ) × (largest_of io h a j ≡ some m) × IsLargest h a j m
    unfolding largest_of
    largest_of-IsLargest j lt =
        let left = j * 2 + 1 in
        let right = j * 2 + 2 in
        let l : ℕ =
          if leb left h then (if ltb (key io a j) (key io a left) then left else j) else j in
        let m : ℕ =
          if leb right h then (if ltb (key io a l) (key io a right) then right else l) else l in
        let inside : l < n = ground arith in
        (
          m,
          rw (prefer_lem left j lt) (prefer_lem right l inside),
          record { place = ground arith; above = ground arith; most = λ c p q e. ground arith },
        )

    pub swap_lem : (i j : ℕ) → i < n → j < n → swap a i j ≡ some (exchange a i j 0)
    unfolding swap exchange
    swap_lem i j hi hj = rw (
      get_elem?-get_or a i 0 (omega (arith, ix.size, hi)),
      get_elem?-get_or a j 0 (omega (arith, ix.size, hj)),
      lt→ltb i (length a) (omega (arith, ix.size, hi)),
      lt→ltb j (length (set a i (get_or a j 0)))
          (omega (arith, ix.size, hj, length-set a i (get_or a j 0))),
    )

    module _ (lo j m : ℕ) (hj : j ≤ h) (s : IsSinking lo h a j) (l : IsLargest h a j m) where
      pub settled : m ≡ j → IsHeapFrom lo h a
      settled e c p q r = ground (arith, s.edges c, l.most c)

      pub sunk : m ≢ j → IsSinking lo h (exchange a m j 0) m
      sunk ne =
          let at =
            get_or-exchange a m j 0 (omega (arith, ix.size, l.place, fits, hj))
              (omega (arith, ix.size, fits, hj)) in
          record {
            edges = λ c p q r t.
                ground
                  (arith, at c, at (parent c), s.edges c, s.bridged m, l.most c, l.above, l.place);
            bridged = λ c p q r t u. ground (arith, at c, at (parent m), s.edges c, l.place);
          }

      pub IsTail-kept : IsTail n h a → IsTail n h (exchange a m j 0)
      IsTail-kept t p q lt past inside =
          let at =
            get_or-exchange a m j 0 (omega (arith, ix.size, l.place, fits, hj))
              (omega (arith, ix.size, fits, hj)) in
          ground (arith, at p, at q, t p q, t m q, t j q, l.place)

-- ===== src/SortOfflen/Sift.antt =====
-- The inner loop of ompi_io_bbview_sort_offlen (io_bbview.c) restores the heap, and the first outer
-- loop builds it.
use mathlib.Core.List.Perm
use bbview.Base.{
  ℕ, zero, suc, ◌+◌, ◌-◌, ◌≤◌, ◌<◌, ◌≡◌, ◌≢◌, refl, ◌∙◌, inl, inr, Bool-cases, List, some, arith,
  ◌==◌, get_or,
}
use bbview.Base.Arrays.{Perm, exchange, get_or-exchange, length-exchange, exchange-perm}
use bbview.SortOfflen.{OffLen, sift, build}
use bbview.SortOfflen.Heap.{
  IsIndexed, IsHeapFrom, IsSinking, IsTail, largest_of-IsLargest, swap_lem, settled, sunk,
  IsTail-kept,
}

-- `b` is `a` with the entries up to place `h` put into the order of the heap from `lo` on.
pub record Sifted (io : List OffLen) (n lo h : ℕ) (a b : List ℕ) : Type 0 where
  pub heap : IsHeapFrom io lo h b
  pub perm : Perm b a
  pub indexed : IsIndexed io n b
  pub tail : IsTail io n h a → IsTail io n h b
  pub kept : (q : ℕ) → h < q → get_or b q 0 ≡ get_or a q 0

module _ (io : List OffLen) (n : ℕ) where
  pub exchange-IsIndexed :
      (a : List ℕ) (i j : ℕ) → IsIndexed io n a → i < n → j < n → IsIndexed io n (exchange a i j 0)
  exchange-IsIndexed a i j ix hi hj = record {
    size = length-exchange a i j 0 ∙ ix.size;
    inside = λ c lt.
        let at =
          get_or-exchange a i j 0 (omega (arith, ix.size, hi)) (omega (arith, ix.size, hj)) c in
        ground (arith, ix.inside i, ix.inside j, ix.inside c);
  }

  -- One round that goes on.
  Sifted-exchange :
      (lo h : ℕ) (a b : List ℕ) (j m : ℕ)
      → IsIndexed io n a
      → h < n
      → j ≤ h
      → m ≤ h
      → (IsTail io n h a → IsTail io n h (exchange a m j 0))
      → Sifted io n lo h (exchange a m j 0) b
      → Sifted io n lo h a b
  Sifted-exchange lo h a b j m ix fits hj hm t s = record {
    heap = s.heap;
    perm = Perm.trans s.perm (
        exchange-perm a m j 0 (omega (arith, ix.size, hm, fits))
          (omega (arith, ix.size, hj, fits)));
    indexed = s.indexed;
    tail = λ old. s.tail (t old);
    kept = λ q past.
        let at =
          get_or-exchange a m j 0 (omega (arith, ix.size, hm, fits))
            (omega (arith, ix.size, hj, fits)) q in
        s.kept q past ∙ ground arith;
  }

  pub sift-Sifted :
      (fuel lo h : ℕ) (a : List ℕ) (j : ℕ)
      → h - j < fuel
      → j ≤ h
      → h < n
      → IsIndexed io n a
      → IsSinking io lo h a j
      → (b : List ℕ) × (sift io fuel h a j ≡ some b) × Sifted io n lo h a b
  unfolding sift
  sift-Sifted zero lo h a j f hj fits ix s = absurd (omega arith)
  sift-Sifted (suc fuel) lo h a j f hj fits ix s =
      let (m, found, l) = largest_of-IsLargest io n h a ix fits j (omega arith) in
      elim (Bool-cases (m == j)) [
        | inl e ↦ (
          a,
          rw found (rw e),
          record {
            heap = settled io n h a ix fits lo j m hj s l (ground arith);
            perm = Perm.rfl;
            indexed = ix;
            tail = λ t. t;
            kept = λ q past. refl;
          },
        )
        | inr e ↦
            let ne : m ≢ j = ground arith in
            let hm : m ≤ h = omega (arith, l.place, ne) in
            let (b, run, done) =
              sift-Sifted fuel lo h (exchange a m j 0) m (omega (arith, l.place, ne)) hm fits
                (exchange-IsIndexed a m j ix (omega arith) (omega arith))
                (sunk io n h a ix fits lo j m hj s l ne) in
            (
              b,
              rw found (rw e (rw (swap_lem io n h a ix fits m j (omega arith) (omega arith)) run)),
              Sifted-exchange lo h a b j m ix fits hj hm
                  (IsTail-kept io n h a ix fits lo j m hj s l) done,
            )
      ]

  -- From a heap but for the children of `j`.
  pub sift_restores :
      (lo h : ℕ) (a : List ℕ) (j : ℕ)
      → j ≤ h
      → h < n
      → IsIndexed io n a
      → IsSinking io lo h a j
      → (b : List ℕ) × (sift io (h + 2) h a j ≡ some b) × Sifted io n lo h a b
  sift_restores lo h a j hj fits ix s = sift-Sifted (h + 2) lo h a j (omega arith) hj fits ix s

  pub build_orders :
      (h i : ℕ) (a : List ℕ)
      → h < n
      → i ≤ h + 1
      → IsIndexed io n a
      → IsHeapFrom io i h a
      → (b : List ℕ) × (build io h i a ≡ some b) × IsHeapFrom io 0 h b × Perm b a × IsIndexed io n b
  unfolding build
  build_orders h zero a fits le ix heap = (a, refl, heap, Perm.rfl, ix)
  build_orders h (suc i) a fits le ix heap =
      let sinking : IsSinking io i h a i = record {
        edges = λ c p q r ne. heap c p q (omega (arith, r, ne));
        bridged = λ c p q e pos r. absurd (omega arith);
      } in
      let (b, run, s) = sift_restores i h a i (omega (arith, le)) fits ix sinking in
      let (c, rest, ordered, perm, indexed) =
        build_orders h i b fits (omega (arith, le)) s.indexed s.heap in
      (c, rw run rest, ordered, Perm.trans perm s.perm, indexed)

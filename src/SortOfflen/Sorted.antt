-- ===== src/SortOfflen/Sorted.antt =====
-- The result of ompi_io_bbview_sort_offlen (io_bbview.c).
use mathlib.Core.List.Perm
use bbview.Base.{
  ℕ, zero, suc, ◌+◌, ◌-◌, ◌/◌, ◌≤◌, ◌<◌, ◌≡◌, refl, sym, ap, ◌∙◌, true, List, some, arith, ◌==◌,
  if◌then◌else◌, get_or, set, take, drop, length, length-set, length-take, lt→ltb,
}
use bbview.Base.Arrays.{
  Perm, exchange, get_or-exchange, exchange-perm, get_elem?-get_or, get_or-set, get_or-ext,
  get_or-take, drop-set,
}
use bbview.SortOfflen.{OffLen, done, indices, sift, build, extract, sort_offlen}
use bbview.SortOfflen.Heap.{key, parent, IsIndexed, IsHeapFrom, IsSinking, IsTail, swap_lem}
use bbview.SortOfflen.Sift.{Sifted, exchange-IsIndexed, sift-Sifted, build_orders}

module _ (io : List OffLen) where
  root_largest :
      (k h : ℕ) (a : List ℕ) (c : ℕ) → IsHeapFrom io 0 h a → c < k → c ≤ h → key io a c ≤ key io a 0
  root_largest zero h a c heap f le = absurd (omega (arith, f))
  root_largest (suc k) h a zero heap f le = omega arith
  root_largest (suc k) h a (suc c) heap f le = omega (
    arith,
    heap (suc c) (omega arith) le (omega arith),
    root_largest k h a (parent (suc c)) heap (omega (arith, f)) (omega (arith, le)),
  )

  module _ (n i : ℕ) (a : List ℕ) (ix : IsIndexed io n a) (hi : suc i < n)
      (heap : IsHeapFrom io 0 (suc i) a) where
    -- The largest entry goes behind the heap.
    at :
        (c : ℕ)
        → get_or (exchange a 0 (suc i) 0) c 0 ≡ (
            if suc i == c
            then get_or a 0 0
            else if 0 == c
            then get_or a (suc i) 0
            else get_or a c 0)
    at c = get_or-exchange a 0 (suc i) 0 (omega (arith, ix.size, hi)) (omega (arith, ix.size, hi)) c

    root_out-IsSinking : IsSinking io 0 i (exchange a 0 (suc i) 0) 0
    root_out-IsSinking = record {
      edges = λ c p q r ne. ground (arith, at c, at (parent c), heap c);
      bridged = λ c p q e pos r. absurd (omega (arith, pos));
    }

    root_out-IsTail : IsTail io n (suc i) a → IsTail io n i (exchange a 0 (suc i) 0)
    root_out-IsTail t p q lt past inside =
        let low = root_largest (suc p) (suc i) a p heap (omega arith) in
        let last = root_largest (suc (suc i)) (suc i) a (suc i) heap (omega arith) (omega arith) in
        ground (arith, at p, at q, low, last, t p q, t (suc i) q, t 0 q)

  -- What the second outer loop has done when the heap ends at place `h`.
  record Placed (n h : ℕ) (a sorted b s : List ℕ) : Type 0 where
    heap : IsHeapFrom io 0 h b
    tail : IsTail io n h b
    perm : Perm b a
    indexed : IsIndexed io n b
    copied : (q : ℕ) → h < q → q < n → get_or s q 0 ≡ get_or b q 0
    size : length s ≡ length sorted
    rest : drop n s ≡ drop n sorted

  module _ (n i : ℕ) (a sorted : List ℕ) (hi : suc i < n) (room : n ≤ length sorted)
      (p : Placed n (suc i) a sorted a sorted) where
    sifted :
        (b : List ℕ) × (sift io (suc i + 2) i (exchange a 0 (suc i) 0) 0 ≡ some b)
        × Sifted io n 0 i (exchange a 0 (suc i) 0) b
    sifted =
        sift-Sifted io n (suc i + 2) 0 i (exchange a 0 (suc i) 0) 0 (omega arith) (omega arith)
          (omega (arith, hi)) (exchange-IsIndexed io n a 0 (suc i) p.indexed (omega (arith, hi)) hi)
          (root_out-IsSinking n i a p.indexed hi p.heap)

    round_runs :
        (b : List ℕ)
        → sift io (suc i + 2) i (exchange a 0 (suc i) 0) 0 ≡ some b
        → IsIndexed io n b
        → extract io (suc i) (suc i) a sorted
          ≡ extract io i i b (set sorted (suc i) (get_or b (suc i) 0))
    unfolding extract
    round_runs b run ix =
        let back : suc i - 1 ≡ i = omega arith in
        rw (swap_lem io n (suc i) a p.indexed hi 0 (suc i) (omega (arith, hi)) hi) (
          rw back (
            rw run (
              rw (
                get_elem?-get_or b (suc i) 0 (omega (arith, ix.size, hi)),
                lt→ltb (suc i) (length sorted) (omega (arith, hi, room)),
              ))))

    round-Placed :
        (b : List ℕ)
        → Sifted io n 0 i (exchange a 0 (suc i) 0) b
        → Placed n i a sorted b (set sorted (suc i) (get_or b (suc i) 0))
    round-Placed b s = record {
      heap = s.heap;
      tail = s.tail (root_out-IsTail n i a p.indexed hi p.heap p.tail);
      perm = Perm.trans s.perm (
          exchange-perm a 0 (suc i) 0 (omega (arith, p.indexed.size, hi))
            (omega (arith, p.indexed.size, hi)));
      indexed = s.indexed;
      copied = λ q past inside.
          let kept = s.kept q past in
          let moved = at n i a p.indexed hi p.heap q in
          let old = p.copied q in
          let now = get_or-set sorted (suc i) q (get_or b (suc i) 0) 0 (omega (arith, hi, room)) in
          ground arith;
      size = length-set sorted (suc i) (get_or b (suc i) 0);
      rest = drop-set n sorted (suc i) (get_or b (suc i) 0) hi;
    }

  -- Seen from `b` alone.
  restart : (n h : ℕ) (a sorted b s : List ℕ) → Placed n h a sorted b s → Placed n h b s b s
  restart n h a sorted b s p = record {
    heap = p.heap;
    tail = p.tail;
    perm = Perm.rfl;
    indexed = p.indexed;
    copied = p.copied;
    size = refl;
    rest = refl;
  }

  follow :
      (n h k : ℕ) (a sorted b s c t : List ℕ)
      → Placed n h a sorted b s
      → Placed n k b s c t
      → Placed n k a sorted c t
  follow n h k a sorted b s c t p q = record {
    heap = q.heap;
    tail = q.tail;
    perm = Perm.trans q.perm p.perm;
    indexed = q.indexed;
    copied = q.copied;
    size = q.size ∙ p.size;
    rest = q.rest ∙ p.rest;
  }

  extract-Placed :
      (n i : ℕ) (a sorted : List ℕ)
      → i < n
      → n ≤ length sorted
      → Placed n i a sorted a sorted
      → (b s : List ℕ) × (extract io i i a sorted ≡ some (b, s)) × Placed n 0 a sorted b s
  extract-Placed n zero a sorted hi room p = (a, sorted, unfold extract in refl, p)
  extract-Placed n (suc i) a sorted hi room p =
      let (b, run, s) = sifted n i a sorted hi room p in
      let one = round-Placed n i a sorted hi room p b s in
      let sorted' = set sorted (suc i) (get_or b (suc i) 0) in
      let (c, t, rest, placed) =
        extract-Placed n i b sorted' (omega (arith, hi)) (omega (arith, one.size, room))
          (restart n i a sorted b sorted' one) in
      (
        c,
        t,
        round_runs n i a sorted hi room p b run s.indexed ∙ rest,
        follow n i 0 a sorted b sorted' c t one placed,
      )

  -- The entries that the list of indices stands for are in order of their offsets.
  abbrev pub IsAscending : List ℕ → Type 0
  IsAscending out = (p q : ℕ) → p < q → q < length out → key io out p ≤ key io out q

get_or-indices : (i n j : ℕ) → j < n → get_or (indices i n) j 0 ≡ i + j
get_or-indices i zero j h = absurd (omega (arith, h))
get_or-indices i (suc n) zero h = omega arith
get_or-indices i (suc n) (suc j) h = omega (arith, get_or-indices (suc i) n j (omega (arith, h)))

length-indices : (i n : ℕ) → length (indices i n) ≡ n
length-indices i zero = refl
length-indices i (suc n) = ap suc (length-indices (suc i) n)

module _ (io : List OffLen) (last : ℕ) (sorted : List ℕ) (many : suc last ≤ length io)
    (room : suc last ≤ length sorted) where
  indices-IsIndexed : IsIndexed io (suc last) (indices 0 (suc last))
  indices-IsIndexed = record {
    size = length-indices 0 (suc last);
    inside = λ i lt. omega (arith, get_or-indices 0 (suc last) i lt, many, lt);
  }

  -- Both outer loops.
  loops :
      (a b s : List ℕ) × (build io last (suc last / 2) (indices 0 (suc last)) ≡ some a)
      × (extract io last last a sorted ≡ some (b, s))
      × Perm a (indices 0 (suc last))
      × Placed io (suc last) 0 a sorted b s
  loops =
      let (a, built, heap, perm, ix) =
        build_orders io (suc last) last (suc last / 2) (indices 0 (suc last)) (omega arith)
          (omega arith) indices-IsIndexed (λ c p q r. absurd (omega arith)) in
      let (b, s, run, placed) =
        extract-Placed io (suc last) last a sorted (omega arith) room (record {
          heap = heap;
          tail = λ p q lt past inside. absurd (omega (arith, past, inside));
          perm = Perm.rfl;
          indexed = ix;
          copied = λ q past inside. absurd (omega (arith, past, inside));
          size = refl;
          rest = refl;
        }) in
      (a, b, s, built, run, perm, placed)

  copied_all :
      (a b s : List ℕ)
      → Placed io (suc last) 0 a sorted b s
      → take (suc last) (set s 0 (get_or b 0 0)) ≡ b
  copied_all a b s p =
      let v = get_or b 0 0 in
      let out = set s 0 v in
      let full : length (take (suc last) out) ≡ suc last =
        omega (arith, length-take (suc last) out, length-set s 0 v, p.size, room) in
      get_or-ext (take (suc last) out) b 0 (full ∙ sym p.indexed.size) λ i lt.
        get_or-take (suc last) out i 0 (omega (arith, full, lt))
        ∙ (let now = get_or-set s 0 i v 0 (omega (arith, p.size, room)) in
            let old = p.copied i in ground (arith, full))

  -- With memory for the indices, and room for at least one entry in both arrays, the call returns: its first
  -- places hold every index of an entry once, in the order of the offsets, and the places behind
  -- them keep their values.
  pub sort_offlen_sorts :
      (out : List ℕ) × (sort_offlen io true (suc last) sorted ≡ done out)
      × Perm (take (suc last) out) (indices 0 (suc last))
      × IsAscending io (take (suc last) out)
      × (drop (suc last) out ≡ drop (suc last) sorted)
  unfolding sort_offlen
  sort_offlen_sorts =
      let (a, b, s, built, run, perm, p) = loops in
      let v = get_or b 0 0 in
      let all = copied_all a b s p in
      (
        set s 0 v,
        rw built (
            rw run (
              rw (
                get_elem?-get_or b 0 0 (omega (arith, p.indexed.size)),
                lt→ltb 0 (length s) (omega (arith, p.size, room)),
              ))),
        rw all (Perm.trans p.perm perm),
        rw all (λ x y lt inside.
            p.tail x y lt (omega (arith, lt)) (omega (arith, p.indexed.size, inside))),
        drop-set (suc last) s 0 v (omega arith) ∙ p.rest,
      )

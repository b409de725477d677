-- ===== src/FileView/Generate.antt =====
-- ompi_io_bbview_generate_current_file_view (io_bbview.c) as a whole: its I/O vector names exactly
-- the next bytes of the file view.
use mathlib.Core.List.{append-nil, append_assoc}
use bbview.Base.{
  ℕ, zero, suc, ◌+◌, ◌*◌, ◌≤◌, ◌<◌, ◌≡◌, refl, ap, ◌∙◌, sym, inl, inr, List, [], ◌++◌, true, arith,
  leb, ◌==◌, Bool-cases,
}
use bbview.Base.Words.{word}
use bbview.FileView.{
  Block, FileView, Cursor, Generated, done, Memory, grow, grows, generate_loop,
  generate_current_file_view,
}
use bbview.FileView.Bytes.{window, bytes, view_byte, window-append, window-eq}
use bbview.FileView.Place.{IsTiling, IsAt, IsValid, Follows}
use bbview.FileView.Emit.{Emitted, round-Emitted}

-- The call ends with a vector for exactly the bytes `total_bytes … total_bytes + n - 1` of the view,
-- in order, and leaves a valid view that goes on with the byte behind them.
pub record Names (v : FileView) (n : ℕ) (sofar : List ℕ) (r : Generated) : Type 0 where
  pub after : FileView
  pub iov : List Block
  pub result : r ≡ done after iov
  pub exact : bytes iov ≡ sofar ++ window (view_byte v) v.total_bytes n
  pub valid : IsValid after
  pub follows : Follows n v after

-- The bytes of the vector, and the view that the call leaves.
abbrev pub vector_bytes : Generated → List ℕ
vector_bytes (done v iov) = bytes iov
vector_bytes r = []

abbrev pub view_after : FileView → Generated → FileView
view_after v (done w iov) = w
view_after v r = v

generated-nothing :
    (c : Cursor)
    → IsTiling c.view.decoded_iov c.view.iov_count
    → IsAt c.view.decoded_iov c.j c.sum c.view.total_bytes
    → c.left ≡ 0
    → Names c.view c.left
        (bytes c.iov)
        (done (record c.view { position_in_file_view = c.sum; index_in_file_view = c.j }) c.iov)
unfolding window view_byte
generated-nothing c t p e = rw e (record {
  after = _;
  iov = _;
  result = refl;
  exact = sym (append-nil _);
  valid = record { tiling = t; at = p };
  follows = λ i. ap (view_byte c.view) (omega arith);
})

Names-Emitted :
    {c d : Cursor} {r : Generated}
    → Emitted c d
    → Names d.view d.left (bytes d.iov) r
    → Names c.view c.left (bytes c.iov) r
Names-Emitted {c} {d} m n = record {
  after = n.after;
  iov = n.iov;
  result = n.result;
  exact =
      n.exact
      ∙ ap (λ l. l ++ window (view_byte d.view) d.view.total_bytes d.left) m.named
      ∙ append_assoc (bytes c.iov) _ _
      ∙ ap (λ l. bytes c.iov ++ l)
          (ap (λ l. window (view_byte c.view) c.view.total_bytes m.n ++ l)
              (window-eq _ _ _ _ d.left (λ i _. m.follows i))
            ∙ sym (window-append (view_byte c.view) c.view.total_bytes m.n d.left)
            ∙ ap (window (view_byte c.view) c.view.total_bytes) (omega (arith, m.some_bytes)));
  valid = n.valid;
  follows = λ i.
      n.follows i
      ∙ ap (view_byte d.view) (omega arith)
      ∙ m.follows (d.left + i)
      ∙ ap (view_byte c.view) (omega (arith, m.some_bytes));
}

module _ (mem : Memory) (ok : (n : ℕ) → mem.alloc n ≡ true) (pos : 0 < mem.initial_size) where
  -- The array has room for the next entry after the reallocation, which changes nothing else.
  grow_room :
      (c : Cursor)
      → c.k ≤ mem.initial_size * c.block
      → (g : ℕ) × (grow mem c ≡ record c { block = g }) × (c.k < mem.initial_size * g)
  unfolding grow
  grow_room c h = elim (Bool-cases (leb (mem.initial_size * c.block) c.k)) [
    | inl e ↦ (c.block + 1, rw e, grind arith)
    | inr e ↦ (c.block, rw e, ground arith)
  ]

  grows-true : (c : Cursor) → grows mem c ≡ true
  unfolding grows
  grows-true c = ground (arith, ok (mem.initial_size * (c.block + 1)))

  generate_loop-Names :
      (fuel : ℕ) (c : Cursor)
      → IsTiling c.view.decoded_iov c.view.iov_count
      → IsAt c.view.decoded_iov c.j c.sum c.view.total_bytes
      → c.left < fuel
      → c.left < word
      → c.k ≤ mem.initial_size * c.block
      → Names c.view c.left (bytes c.iov) (generate_loop mem fuel c)
  unfolding generate_loop
  generate_loop-Names zero c t p f s r = absurd (omega arith)
  generate_loop-Names (suc fuel) c t p f s r = elim (Bool-cases (c.left == 0)) [
    | inl e ↦ rw (e, generate_loop) (generated-nothing c t p (ground arith))
    | inr e ↦
        let (g, grown, room) = grow_room c r in
        let (d, result, m) = round-Emitted mem (record c { block = g }) t p (ground arith) s room in
        let u : IsTiling d.view.decoded_iov d.view.iov_count = rw (m.tiled.0, m.tiled.1) t in
        rw (e, generate_loop)
          (rw (grows-true c, generate_loop)
            (rw (grown, result)
              (Names-Emitted m (
                generate_loop-Names fuel d u m.place (omega (arith, m.some_bytes))
                  (omega (arith, m.some_bytes))
                  (rw (m.count.0, m.count.1) (omega (arith, room)))))))
  ]

  -- From a valid view, with memory to be had, the call for fewer than 2^64 bytes comes to an end
  -- with a vector that names exactly the next `n` bytes of the view, in order, and leaves a valid
  -- view that goes on with the byte behind them.
  pub generate_current_file_view_exact :
      (v : FileView) (n : ℕ)
      → IsValid v
      → n < word
      → Names v n [] (generate_current_file_view mem v n)
  unfolding generate_current_file_view bytes
  generate_current_file_view_exact v n h s =
      rw (ok mem.initial_size, generate_current_file_view)
        (generate_loop-Names (n + 1) _ h.tiling h.at (omega arith) s (omega arith))

  -- Two calls in a row, for `n` and for `m` bytes, name together what one call for `n + m` bytes
  -- names: from a valid view, with memory to be had and `n + m` below 2^64.
  pub generate_current_file_view-add :
      (v : FileView) (n m : ℕ)
      → IsValid v
      → n + m < word
      → vector_bytes (generate_current_file_view mem v n)
          ++ vector_bytes
              (generate_current_file_view mem (view_after v (generate_current_file_view mem v n)) m)
        ≡ vector_bytes (generate_current_file_view mem v (n + m))
  generate_current_file_view-add v n m h s =
      let a = generate_current_file_view_exact v n h (omega arith) in
      let b = generate_current_file_view_exact a.after m a.valid (omega arith) in
      let both = generate_current_file_view_exact v (n + m) h s in
      rw (a.result, b.result, both.result, a.exact, b.exact, both.exact)
        (ap (λ l. window (view_byte v) v.total_bytes n ++ l)
            (window-eq _ _ _ _ m λ i _. a.follows i)
          ∙ sym (window-append (view_byte v) v.total_bytes n m))

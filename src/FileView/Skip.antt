-- ===== src/FileView/Skip.antt =====
-- The step over a used-up block in ompi_io_bbview_generate_current_file_view (io_bbview.c).
use native.Mathlib.Nat.{zero-add}
use bbview.Base.{
  ◌+◌, ◌-◌, ◌≤◌, ◌<◌, ◌≡◌, refl, ap, ◌∙◌, sym, inl, inr, true, false, arith, ◌==◌, length,
  Bool-cases,
}
use bbview.Base.Words.{add64}
use bbview.FileView.{Block, Cursor, unread, next_copy, skip_block}
use bbview.FileView.Bytes.{
  prefix, total_len, view_byte, prefix-next, prefix-zero, prefix-length, prefix-le, view_byte-next,
}
use bbview.FileView.Place.{IsTiling, IsAt, Follows, get_elem?-lt, lt-length}

-- What a skip leaves: the same place in the view, now before the end of a block.
pub record Skipped (c d : Cursor) : Type 0 where
  pub tiled : (d.view.decoded_iov ≡ c.view.decoded_iov) × (d.view.iov_count ≡ c.view.iov_count)
  pub place : IsAt d.view.decoded_iov d.j d.sum d.view.total_bytes
  pub inside : d.view.total_bytes < d.sum + place.current.iov_len
  pub follows : Follows 0 c.view d.view
  pub rest : (d.left ≡ c.left) × (d.k ≡ c.k) × (d.block ≡ c.block) × (d.iov ≡ c.iov)

module _ (c : Cursor) (t : IsTiling c.view.decoded_iov c.view.iov_count)
    (p : IsAt c.view.decoded_iov c.j c.sum c.view.total_bytes) where
  abbrev b : Block
  b = p.current

  pub unread-current : unread c.view c.sum b ≡ c.sum + b.iov_len - c.view.total_bytes
  unfolding unread
  unread-current =
      omega (arith, p.from, p.to, p.before, t.small, prefix-le c.view.decoded_iov c.j b p.here)

  skip-stays : (unread c.view c.sum b == 0) ≡ false → Skipped c (skip_block c b)
  unfolding skip_block
  skip-stays e = rw e (record {
    tiled = (refl, refl);
    place = p;
    inside = ground (arith, unread-current);
    follows = λ i. ap (view_byte c.view) (omega arith);
    rest = (refl, refl, refl, refl);
  })

  pub whole : c.sum + b.iov_len ≤ total_len c.view.decoded_iov
  whole = omega (arith, p.before, prefix-le c.view.decoded_iov c.j b p.here)

  -- Where the current block is used up, the sum moves to its end.
  used : (unread c.view c.sum b == 0) ≡ true → add64 c.sum b.iov_len ≡ c.view.total_bytes
  used e = ground (arith, unread-current, p.from, p.to, t.small, whole)

  skip-next :
      (unread c.view c.sum b == 0) ≡ true
      → (c.j + 1 == c.view.iov_count) ≡ false
      → Skipped c (skip_block c b)
  unfolding skip_block
  skip-next e f =
      let bound = lt-length c.view.decoded_iov c.j b p.here in
      let (b2, here) = get_elem?-lt c.view.decoded_iov (c.j + 1) (ground (arith, t.count)) in
      let at = used e in
      rw (e, f)
        (record {
          tiled = (refl, refl);
          place = record {
            current = b2;
            here = here;
            before =
                omega (arith, at, whole, p.from, p.to, prefix-next c.view.decoded_iov c.j b p.here);
            from = omega (arith, at);
            to = omega (arith, at);
          };
          inside = omega (arith, at, t.positive (c.j + 1) b2 here);
          follows = λ i. ap (view_byte c.view) (omega arith);
          rest = (refl, refl, refl, refl);
        })

  skip-copy :
      (unread c.view c.sum b == 0) ≡ true
      → (c.j + 1 == c.view.iov_count) ≡ true
      → Skipped c (skip_block c b)
  unfolding skip_block next_copy
  skip-copy e f =
      let bound = lt-length c.view.decoded_iov c.j b p.here in
      let (b2, here) = get_elem?-lt c.view.decoded_iov 0 (ground (arith, t.count)) in
      let at = used e in
      let pos = t.positive c.j b p.here in
      let last : c.j + 1 ≡ length c.view.decoded_iov = ground (arith, t.count) in
      let sums = prefix-next c.view.decoded_iov c.j b p.here in
      let full : c.view.total_bytes ≡ total_len c.view.decoded_iov = omega (
        arith,
        at,
        p.from,
        p.to,
        p.before,
        whole,
        t.small,
        sums,
        ap (prefix c.view.decoded_iov) last,
        prefix-length c.view.decoded_iov,
      ) in
      rw (e, f)
        (record {
          tiled = (refl, refl);
          place = record {
            current = b2;
            here = here;
            before = sym (prefix-zero _);
            from = omega arith;
            to = omega arith;
          };
          inside = omega (arith, t.positive 0 b2 here);
          follows = λ i.
              ap (view_byte _) (zero-add i)
              ∙ sym (view_byte-next c.view _ i (omega (arith, pos, whole)) refl refl refl)
              ∙ ap (view_byte c.view) (omega (arith, full));
          rest = (refl, refl, refl, refl);
        })

  pub skip-Skipped : Skipped c (skip_block c b)
  skip-Skipped = elim (Bool-cases (unread c.view c.sum b == 0)) [
    | inr e ↦ skip-stays e
    | inl e ↦ elim (Bool-cases (c.j + 1 == c.view.iov_count)) [
      | inr f ↦ skip-next e f
      | inl f ↦ skip-copy e f
    ]
  ]

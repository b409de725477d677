-- ===== src/FileView/Emit.antt =====
-- The entry that a round of ompi_io_bbview_generate_current_file_view (io_bbview.c) writes.
use mathlib.Core.List.{append-nil}
use bbview.Base.{
  ℕ, ◌+◌, ◌-◌, ◌*◌, ◌≤◌, ◌<◌, ◌≡◌, refl, ap, ◌∙◌, ap₂, ◌++◌, some, true, arith, ltb, leb,
  if◌then◌else◌, lt→ltb,
}
use bbview.Base.Words.{word, add64, sub64}
use bbview.FileView.{Cursor, unread, skip_block, emit, Memory, round}
use bbview.FileView.Bytes.{
  window, bytes, block_byte, total_len, view_byte, window-eq, bytes-append, byte_at-prefix,
  view_byte-lt,
}
use bbview.FileView.Place.{IsTiling, IsAt, Follows}
use bbview.FileView.Skip.{Skipped, skip-Skipped, unread-current, whole}

-- What an entry of the vector does: `n` more bytes are named, and used up.
pub record Emitted (c d : Cursor) : Type 0 where
  pub n : ℕ
  pub some_bytes : (0 < n) × (n ≤ c.left) × (d.left ≡ c.left - n)
  pub tiled : (d.view.decoded_iov ≡ c.view.decoded_iov) × (d.view.iov_count ≡ c.view.iov_count)
  pub place : IsAt d.view.decoded_iov d.j d.sum d.view.total_bytes
  pub named : bytes d.iov ≡ bytes c.iov ++ window (view_byte c.view) c.view.total_bytes n
  pub follows : Follows n c.view d.view
  pub count : (d.k ≡ c.k + 1) × (d.block ≡ c.block)

module _ (c : Cursor) (t : IsTiling c.view.decoded_iov c.view.iov_count)
    (p : IsAt c.view.decoded_iov c.j c.sum c.view.total_bytes)
    (inside : c.view.total_bytes < c.sum + p.current.iov_len) (more : 0 < c.left)
    (fits : c.left < word) where
  abbrev len : ℕ
  len = if leb c.left (unread c.view c.sum p.current) then c.left else unread c.view c.sum p.current

  rest : unread c.view c.sum p.current ≡ c.sum + p.current.iov_len - c.view.total_bytes
  rest = unread-current c t p

  len_bounds : (0 < len) × (len ≤ c.left) × (c.view.total_bytes + len ≤ c.sum + p.current.iov_len)
  len_bounds = ground (arith, rest)

  -- The bytes that are left in the block lie in the current copy.
  inside_copy : c.view.total_bytes + len ≤ total_len c.view.decoded_iov
  inside_copy = omega (arith, len_bounds, whole c t p)

  -- Byte `i` of the entry is byte `total_bytes + i` of the copy.
  entry_byte :
      (i : ℕ)
      → i < len
      → block_byte
          (add64 (add64 p.current.iov_base (sub64 c.view.total_bytes c.sum)) c.view.offset)
          (0 + i)
        ≡ view_byte c.view (c.view.total_bytes + i)
  entry_byte i h = omega (
    arith,
    p.from,
    p.before,
    t.small,
    byte_at-prefix c.view.decoded_iov c.j (c.view.total_bytes + i) p.current p.here
        (omega (arith, p.from, p.before)) (omega (arith, p.before, len_bounds)),
    view_byte-lt c.view (c.view.total_bytes + i) (omega (arith, inside_copy)),
  )

  emit-named :
      bytes (emit c p.current).iov ≡ bytes c.iov ++ window (view_byte c.view) c.view.total_bytes len
  unfolding emit bytes
  emit-named = rw bytes-append (
      ap (λ r. bytes c.iov ++ r) (append-nil _ ∙ window-eq _ _ 0 c.view.total_bytes len entry_byte))

  advanced : add64 c.view.total_bytes len ≡ c.view.total_bytes + len
  advanced = omega (arith, inside_copy, t.small)

  emit-Follows : Follows len c.view (emit c p.current).view
  unfolding emit view_byte
  emit-Follows i = ap (λ s. view_byte c.view (s + i)) advanced

  emit-Emitted : Emitted c (emit c p.current)
  unfolding emit
  emit-Emitted = record {
    n = len;
    some_bytes = (len_bounds.0, len_bounds.1, omega (arith, len_bounds));
    tiled = (refl, refl);
    place = record {
      current = p.current;
      here = p.here;
      before = p.before;
      from = omega (arith, advanced, p.from);
      to = omega (arith, advanced, len_bounds);
    };
    named = emit-named;
    follows = emit-Follows;
    count = (refl, refl);
  }

Emitted-Skipped : {c d e : Cursor} → Skipped c d → Emitted d e → Emitted c e
Emitted-Skipped {c} {d} {e} s m = record {
  n = m.n;
  some_bytes =
      (m.some_bytes.0, omega (arith, s.rest, m.some_bytes), omega (arith, s.rest, m.some_bytes));
  tiled = (m.tiled.0 ∙ s.tiled.0, m.tiled.1 ∙ s.tiled.1);
  place = m.place;
  named =
      m.named
      ∙ ap₂ ◌++◌ (ap bytes s.rest.3)
          (window-eq _ _ _ _ m.n λ i lt. s.follows i ∙ ap (view_byte c.view) (omega arith));
  follows = λ i.
      m.follows i
      ∙ ap (view_byte d.view) (omega arith)
      ∙ s.follows (m.n + i)
      ∙ ap (view_byte c.view) (omega arith);
  count = (m.count.0 ∙ ap (λ k. k + 1) s.rest.1, m.count.1 ∙ s.rest.2);
}

-- A round of the loop writes one entry, inside the array.
pub round-Emitted :
    (mem : Memory) (c : Cursor)
    → IsTiling c.view.decoded_iov c.view.iov_count
    → IsAt c.view.decoded_iov c.j c.sum c.view.total_bytes
    → 0 < c.left
    → c.left < word
    → c.k < mem.initial_size * c.block
    → (d : Cursor) × (round mem c ≡ some d) × Emitted c d
unfolding round
round-Emitted mem c t p more fits room =
    let s = skip-Skipped c t p in
    let d = skip_block c p.current in
    let u : IsTiling d.view.decoded_iov d.view.iov_count = rw (s.tiled.0, s.tiled.1) t in
    let in_array : ltb d.k (mem.initial_size * d.block) ≡ true =
      rw (s.rest.1, s.rest.2) (lt→ltb _ _ room) in
    (
      emit d s.place.current,
      rw (p.here, round) (rw (s.place.here, round) (rw in_array)),
      Emitted-Skipped s
          (emit-Emitted d u s.place s.inside (omega (arith, s.rest)) (omega (arith, s.rest))),
    )

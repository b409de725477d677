-- ===== src/Manage/Preallocate/Bytes.antt =====
-- The bytes that the root writes in mca_io_bbview_file_preallocate (io_bbview_file_open.c), and where
-- the file pointer is meanwhile.
use native.Mathlib.Nat.{div-add-mod', mod-lt}
use bbview.Base.{
  ℕ, zero, suc, ◌+◌, ◌-◌, ◌*◌, ◌^◌, ◌≡◌, ◌≤◌, ◌<◌, refl, ◌∙◌, true, some, arith, ltb, if◌then◌else◌,
}
use bbview.Manage.{Manager, Buffer}
use bbview.Manage.Preallocate.{
  max_buf_size, piece, cycles_of, write_back, write_zeros, extend, write_all, root_part,
}
use bbview.Session.{File, OmpioFile, is_success, success}
use bbview.Session.Run.{Post, Post-map, Post-and_then}

-- Enough rounds, and few enough for an `int`.
cycles_of_lem :
    (size : ℕ)
    → size < 2 ^ 55
    → (cycles_of size * max_buf_size < size + max_buf_size) × (size ≤ cycles_of size * max_buf_size)
unfolding cycles_of
cycles_of_lem size small =
    let n = size + max_buf_size - 1 in
    let parts = div-add-mod' n max_buf_size in
    let rest = mod-lt n {m = max_buf_size} (omega arith) in ground (arith, parts, rest, small)

round_lem :
    (size written rounds : ℕ)
    → written ≤ size
    → size ≤ written + suc rounds * max_buf_size
    → let next = written + piece (size - written) in
      (next ≤ size)
      × (size ≤ next + rounds * max_buf_size)
      × (piece (size - written) + (size - next) ≡ size - written)
unfolding piece
round_lem size written rounds le enough = ground (arith, le, enough)

-- `count` is the number of bytes written so far, and `at` the byte that the file pointer is at. A read and
-- a write of `len` bytes succeed and move the pointer by `len`.
module _ {D W : Type 0} (io : Manager W) (count at : OmpioFile → W → ℕ)
    (reads : (buf : Buffer) (len : ℕ) (o : OmpioFile) (w : W)
      → let r = io.file_read buf len o w in
        (is_success r.0.0 ≡ true) × (count r.1 r.2 ≡ count o w) × (at r.1 r.2 ≡ at o w + len))
    (writes : (buf : Buffer) (len : ℕ) (o : OmpioFile) (w : W)
      → let r = io.file_write buf len o w in
        (is_success r.0 ≡ true)
        × (count r.1 r.2 ≡ count o w + len)
        × (at r.1 r.2 ≡ at o w + len)) where
  -- Writing back what is there moves the pointer on twice: by what it reads, and by as much again that it
  -- writes. Bytes are read from the pointer on and written behind where they were read.
  pub write_back_moves_on :
      (rounds size : ℕ) (buf : Buffer) (written : ℕ) (f : File D W)
      → written ≤ size
      → size ≤ written + rounds * max_buf_size
      → Post
          (λ r g.
            (r.0 ≡ success)
            × (r.2 ≡ size)
            × (count g.ompio g.world ≡ count f.ompio f.world + (size - written))
            × (at g.ompio g.world ≡ at f.ompio f.world + (size - written) + (size - written)))
          (write_back io rounds size buf written f)
  unfolding write_back
  write_back_moves_on zero size buf written f le enough = ground (arith, enough, le)
  write_back_moves_on (suc rounds) size buf written f le enough =
      let len = piece (size - written) in
      let read = io.file_read buf len f.ompio f.world in
      let wrote = io.file_write read.0.1 len read.1 read.2 in
      let (rs, rc, ra) = reads buf len f.ompio f.world in
      let (ws, wc, wa) = writes read.0.1 len read.1 read.2 in
      let (below, enough', split) = round_lem size written rounds le enough in
      let rest =
        write_back_moves_on rounds size read.0.1 (written + len)
          (record f { ompio = wrote.1; world = wrote.2 }) below enough' in
      rw (rs, write_back)
        (rw (ws, write_back)
          (Post-map
            (write_back io rounds size read.0.1 (written + len)
              (record f { ompio = wrote.1; world = wrote.2 }))
            rest
            (λ r g p.
              (p.0, p.1, omega (arith, p.2, wc, rc, split), omega (arith, p.3, wa, ra, split)))))

  write_zeros_lem :
      (rounds diskspace : ℕ) (buf : Buffer) (written : ℕ) (f : File D W)
      → written ≤ diskspace
      → diskspace ≤ written + rounds * max_buf_size
      → Post
          (λ c g.
            (c ≡ success) × (count g.ompio g.world ≡ count f.ompio f.world + (diskspace - written)))
          (write_zeros io rounds diskspace buf written f)
  unfolding write_zeros
  write_zeros_lem zero diskspace buf written f le enough = ground (arith, enough, le)
  write_zeros_lem (suc rounds) diskspace buf written f le enough =
      let len = piece (diskspace - written) in
      let wrote = io.file_write buf len f.ompio f.world in
      let (ws, wc, wa) = writes buf len f.ompio f.world in
      let (below, enough', split) = round_lem diskspace written rounds le enough in
      let rest =
        write_zeros_lem rounds diskspace buf (written + len)
          (record f { ompio = wrote.1; world = wrote.2 }) below enough' in
      rw (ws, write_zeros)
        (Post-map
          (write_zeros io rounds diskspace buf (written + len)
            (record f { ompio = wrote.1; world = wrote.2 }))
          rest (λ c g p. (p.0, omega (arith, p.1, wc, split))))

  extend_lem :
      (diskspace current : ℕ) (f : File D W)
      → current ≤ diskspace
      → diskspace < 2 ^ 55
      → Post
          (λ c g.
            (c ≡ success) × (count g.ompio g.world ≡ count f.ompio f.world + (diskspace - current)))
          (extend io diskspace current current f)
  unfolding extend
  extend_lem diskspace current f le small =
      let (_, rounds) = cycles_of_lem (diskspace - current) (omega (arith, small)) in
      let zeros =
        write_zeros_lem (cycles_of (diskspace - current)) diskspace (λ i. 0) current f le
          (omega (arith, rounds, le)) in
      ground (arith, zeros, le)

  write_all_lem :
      (diskspace current : ℕ) (buf : Buffer) (f : File D W)
      → current ≤ diskspace
      → diskspace < 2 ^ 55
      → Post
          (λ c g. (c ≡ success) × (count g.ompio g.world ≡ count f.ompio f.world + diskspace))
          (write_all io diskspace current buf f)
  unfolding write_all
  write_all_lem diskspace current buf f le small =
      let size = if ltb current diskspace then current else diskspace in
      let whole : size ≡ current = ground (arith, le) in
      let (_, rounds) = cycles_of_lem size (omega (arith, small, le, whole)) in
      Post-and_then
        (λ c g. (c ≡ success) × (count g.ompio g.world ≡ count f.ompio f.world + diskspace))
        (write_back io (cycles_of size) size buf 0 f) _
        (write_back_moves_on (cycles_of size) size buf 0 f (omega arith) (omega (arith, rounds)))
        (λ r g p. rw (p.0) (
          rw (p.1 ∙ whole) (
            Post-map (extend io diskspace current current g)
              (extend_lem diskspace current g le small)
              (λ c h q. (q.0, omega (arith, p.2, q.1, whole, le))))))

  -- Where reads and writes succeed and move the pointer by their bytes, the root with a buffer, for a file of
  -- `current` bytes and a larger or equal size below 2^55, succeeds: it has written as many bytes as the size
  -- asked for, and has put the file pointer back to the byte where it was. Positions are in elements of
  -- `es` bytes; at the start the pointer stands at a whole element, which is the position told, and the
  -- question writes nothing.
  pub root_part_writes :
      (es : ℕ)
      → ((t : ℕ) (o : OmpioFile) (w : W)
          → let r = io.set_explicit_offset t o w in
            (at r.1 r.2 ≡ t * es) × (count r.1 r.2 ≡ count o w))
      → (buf : Buffer) (diskspace current : ℕ) (f : File D W)
      → let r = io.get_position f.ompio f.world in
        r.0.1 * es ≡ at f.ompio f.world
        → count r.1 r.2 ≡ count f.ompio f.world
        → current ≤ diskspace
        → diskspace < 2 ^ 55
        → Post
            (λ c g.
              (c ≡ success)
              × (count g.ompio g.world ≡ count f.ompio f.world + diskspace)
              × (at g.ompio g.world ≡ at f.ompio f.world))
            (root_part io (some buf) diskspace current f)
  unfolding root_part
  root_part_writes es seeks buf diskspace current f place same le small =
      let asked = io.get_position f.ompio f.world in
      let g : File D W = record f { ompio = asked.1; world = asked.2 } in
      Post-and_then
        (λ c h.
          (c ≡ success)
          × (count h.ompio h.world ≡ count f.ompio f.world + diskspace)
          × (at h.ompio h.world ≡ at f.ompio f.world))
        (write_all io diskspace current buf g) _ (write_all_lem diskspace current buf g le small)
        (λ c h p.
          let (back, kept) = seeks asked.0.1 h.ompio h.world in
          rw (p.0) (refl, omega (arith, kept, p.1, same), back ∙ place))

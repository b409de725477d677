-- ===== src/Daemon/Chunks.antt =====
-- The file type's description on its way through the extended attributes: written in chunks by the
-- flush (io_bbview_file_flush.c) and put together again by the daemon (bbviewd.c).
use mathlib.Core.List.{append_assoc, append-nil}
use bbview.Base.{
  ltb→lt, ℕ, zero, suc, ◌+◌, ◌-◌, ◌*◌, ◌≤◌, ◌<◌, ◌≡◌, ◌≢◌, ◌⊎◌, take-append-drop, drop-drop,
  drop_all, take-drop-take, take-drop_end, refl, sym, ap, ◌∙◌, inl, inr, List, [], ◌++◌, true,
  false, none, some, arith, ltb, ◌==◌, length, length-take, take, drop, ◌/◌, Bool-cases,
}
use bbview.Flush.{max_xattr_value_size, chunk_size, set_datatype}
use bbview.Session.{File, Posix, Attr, AttrValue, text, number, datatype}
use bbview.Session.Run.{Post, Post-map}
use bbview.Daemon.Copy.{Copier, read_chunks, target_buffer_size}

abbrev pub value_size : AttrValue → ℕ
value_size (text bs) = length bs
value_size (number n) = 8

-- What setxattr(2) and fgetxattr(2) promise of the local file `path`, open as `fd`: what has been
-- stored under a name can be read if it fits, and the other names keep their values.
pub record IsStore {D W : Type 0} (posix : Posix W) (io : Copier D W) (path : List ℕ) (fd : ℕ)
    : Type 0 where
  pub same :
      (at : Attr) (v : AttrValue) (size : ℕ) (w : W)
      → (posix.setxattr path at v w).0 ≡ true
      → value_size v ≤ size
      → io.fgetxattr fd at size (posix.setxattr path at v w).1 ≡ some v
  pub others :
      (at at' : Attr) (v : AttrValue) (size : ℕ) (w : W)
      → (posix.setxattr path at v w).0 ≡ true
      → at ≢ at'
      → io.fgetxattr fd at' size (posix.setxattr path at v w).1 ≡ io.fgetxattr fd at' size w

-- Chunk `i` of a description.
abbrev chunk : List ℕ → ℕ → List ℕ
chunk bs i = take max_xattr_value_size (drop (max_xattr_value_size * i) bs)

chunk-size :
    (len : ℕ) (buf : List ℕ) (offset index : ℕ)
    → offset < len
    → offset ≡ max_xattr_value_size * index
    → chunk (take len buf) index ≡ take (chunk_size len offset) (drop offset buf)
chunk-size len buf offset index lt at =
    ap (λ k. take max_xattr_value_size (drop k (take len buf))) (sym at)
    ∙ elim (Bool-cases (ltb max_xattr_value_size (len - offset))) [
      | inl e ↦ rw e (take-drop-take max_xattr_value_size offset len buf (ground arith))
      | inr e ↦
          rw e (take-drop_end max_xattr_value_size offset len buf (ground arith) (ground arith))
    ]

chunk-rest :
    (bs : List ℕ) (i : ℕ)
    → chunk bs i ++ drop (max_xattr_value_size * (i + 1)) bs ≡ drop (max_xattr_value_size * i) bs
chunk-rest bs i =
    ap (λ r. chunk bs i ++ r)
      (ap (λ k. drop k bs) (omega arith)
        ∙ sym (drop-drop (max_xattr_value_size * i) max_xattr_value_size bs))
    ∙ take-append-drop max_xattr_value_size (drop (max_xattr_value_size * i) bs)

module _ {D W : Type 0} (posix : Posix W) (io : Copier D W) (path : List ℕ) (fd : ℕ)
    (store : IsStore posix io path fd) where
  -- The first `n` chunks are stored, and no more.
  record Stored (bs : List ℕ) (n : ℕ) (w : W) : Type 0 where
    pub here :
        (i : ℕ)
        → i < n
        → io.fgetxattr fd (datatype i) max_xattr_value_size w ≡ some (text (chunk bs i))
    pub absent : (i : ℕ) → n ≤ i → io.fgetxattr fd (datatype i) max_xattr_value_size w ≡ none

  -- The description that is put together from its chunks.
  read_chunks-Stored :
      (bs : List ℕ) (n : ℕ) (w : W)
      → Stored bs n w
      → 0 < n
      → length bs ≤ max_xattr_value_size * n
      → (left index : ℕ) (dt_buf : List ℕ) → index ≤ n
      → n ≤ index + left
      → read_chunks io fd w left index dt_buf
        ≡ some (dt_buf ++ drop (max_xattr_value_size * index) bs)
  unfolding read_chunks
  read_chunks-Stored bs n w s pos all zero index dt_buf le room = ap some (
      sym (append-nil dt_buf)
      ∙ ap (λ r. dt_buf ++ r) (sym (drop_all (max_xattr_value_size * index) bs (omega arith))))
  read_chunks-Stored bs n w s pos all (suc left) index dt_buf le room =
      elim (Bool-cases (ltb index n)) [
        | inl e ↦
            rw (s.here index (ground arith), read_chunks)
              (read_chunks-Stored bs n w s pos all left (index + 1) (dt_buf ++ chunk bs index)
                  (ground arith) (omega arith)
                ∙ ap some (
                    append_assoc dt_buf (chunk bs index)
                      (drop (max_xattr_value_size * (index + 1)) bs)
                    ∙ ap (λ r. dt_buf ++ r) (chunk-rest bs index)))
        | inr e ↦
            rw (s.absent index (ground arith), read_chunks)
              (let some_chunk : (index == 0) ≡ false = ground arith in
                rw some_chunk (
                  ap some (
                    sym (append-nil dt_buf)
                    ∙ ap (λ r. dt_buf ++ r)
                        (sym (drop_all (max_xattr_value_size * index) bs (ground arith))))))
      ]

  -- One more chunk.
  Stored-next :
      (bs : List ℕ) (n : ℕ) (v : AttrValue) (w : W)
      → v ≡ text (chunk bs n)
      → (posix.setxattr path (datatype n) v w).0 ≡ true
      → Stored bs n w
      → Stored bs (n + 1) (posix.setxattr path (datatype n) v w).1
  Stored-next bs n v w e kept s = record {
    here = λ i lt. elim (Bool-cases (i == n)) [
      | inl same ↦
          let q : i ≡ n = ground arith in
          let small : length (chunk bs n) ≤ max_xattr_value_size =
            omega (arith, length-take max_xattr_value_size (drop (max_xattr_value_size * n) bs)) in
          rw q (store.same (datatype n) v max_xattr_value_size w kept (rw e small) ∙ ap some e)
      | inr other ↦
          store.others (datatype n) (datatype i) v max_xattr_value_size w kept (λ q. ground arith)
          ∙ s.here i (ground arith)
    ];
    absent = λ i le.
        store.others (datatype n) (datatype i) v max_xattr_value_size w kept (λ q. ground arith)
        ∙ s.absent i (omega (arith, le));
  }

  set_datatype-Stored :
      (len : ℕ) (buf : List ℕ) (fuel offset index : ℕ) (f : File D W)
      → len ≤ length buf
      → len - offset < fuel
      → (offset < len → offset ≡ max_xattr_value_size * index)
      → (len ≤ offset → len ≤ max_xattr_value_size * index)
      → (index ≡ 0) ⊎ (max_xattr_value_size * index < len + max_xattr_value_size)
      → Stored (take len buf) index f.world
      → Post
          (λ done g.
            done ≡ true
            → (n : ℕ) × Stored (take len buf) n g.world
              × (len ≤ max_xattr_value_size * n)
              × ((n ≡ 0) ⊎ (max_xattr_value_size * n < len + max_xattr_value_size)))
          (set_datatype posix path len buf fuel offset index f)
  unfolding set_datatype
  set_datatype-Stored len buf zero offset index f long room at end few s =
      absurd (omega (arith, room))
  set_datatype-Stored len buf (suc fuel) offset index f long room at end few s =
      elim (Bool-cases (ltb offset len)) [
        | inr e ↦ rw e (λ done. (index, s, end (ground arith), few))
        | inl e ↦
            let v : AttrValue = text (take (chunk_size len offset) (drop offset buf)) in
            elim (Bool-cases (posix.setxattr path (datatype index) v f.world).0) [
              | inr lost ↦ rw (e, lost) (λ done. cc)
              | inl kept ↦
                  rw (e, kept)
                    (set_datatype-Stored len buf fuel (offset + chunk_size len offset) (index + 1)
                      (record f { world = (posix.setxattr path (datatype index) v f.world).1 }) long
                      (ground arith) (ground arith) (ground arith)
                      (inr (omega (arith, at (ltb→lt offset len e), ltb→lt offset len e)))
                      (Stored-next (take len buf) index v f.world
                        (ap text (
                          sym (
                            chunk-size len buf offset index (ltb→lt offset len e)
                              (at (ltb→lt offset len e)))))
                        kept s))
            ]
      ]

  -- The daemon reads the description that the flush has stored: on a local file without a chunk of an
  -- earlier one, as setxattr and fgetxattr promise, a flush of between 1 byte and 4 MiB that stores all
  -- chunks leaves attributes from which the daemon puts together exactly these bytes.
  pub read_chunks-set_datatype :
      (len : ℕ) (buf : List ℕ) (f : File D W)
      → 0 < len
      → len ≤ target_buffer_size
      → len ≤ length buf
      → ((i : ℕ) → io.fgetxattr fd (datatype i) max_xattr_value_size f.world ≡ none)
      → Post
          (λ done g.
            done ≡ true
            → read_chunks io fd g.world (target_buffer_size / max_xattr_value_size) 0 []
              ≡ some (take len buf))
          (set_datatype posix path len buf (len + 1) 0 0 f)
  read_chunks-set_datatype len buf f pos small long fresh =
      let stored =
        set_datatype-Stored len buf (len + 1) 0 0 f long (omega arith) (λ h. omega arith)
          (λ h. omega arith) (inl refl)
          (record { here = λ i h. absurd (omega (arith, h)); absent = λ i h. fresh i }) in
      Post-map (set_datatype posix path len buf (len + 1) 0 0 f) stored (λ done g k h.
        let (n, s, all, few) = k h in
        read_chunks-Stored (take len buf) n g.world s (ground arith)
          (omega (arith, length-take len buf)) (target_buffer_size / max_xattr_value_size) 0 []
          (omega arith) (ground arith))

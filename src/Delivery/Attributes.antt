-- ===== src/Delivery/Attributes.antt =====
-- The attributes that a flush (io_bbview_file_flush.c) leaves, as the daemon (bbviewd.c) reads them.
use bbview.Base.{
  ℕ, zero, suc, ◌+◌, ◌-◌, ◌/◌, ◌<◌, ◌≡◌, ◌≢◌, refl, ap, ◌∙◌, List, [], ◌++◌, true, Option-cases,
  inl, inr, none, some, arith, length, take,
}
use bbview.Daemon.{path_max}
use bbview.Daemon.Chunks.{IsStore, read_chunks-set_datatype}
use bbview.Daemon.Copy.{Copier, as_text, read_chunks, target_buffer_size}
use bbview.Delivery.{Described, IsStorable}
use bbview.Delivery.Kept.{Keeps, set_datatype-kept, set_xattrs-Post}
use bbview.Flush.{max_xattr_value_size, set_datatype, set_xattrs_for_bbview}
use bbview.Session.{
  File, Posix, Attr, AttrValue, ViewData, text, number, dest_path, disp, etype, datatype,
}
use bbview.Session.Run.{Post, Post-map, Post-both}

-- The chunks are all that the daemon reads of a description.
pub read_chunks-same :
    {D W : Type 0} (io : Copier D W) (fd : ℕ) (w w' : W)
    → ((i : ℕ)
        → io.fgetxattr fd (datatype i) max_xattr_value_size w'
          ≡ io.fgetxattr fd (datatype i) max_xattr_value_size w)
    → (left index : ℕ) (dt_buf : List ℕ)
    → read_chunks io fd w' left index dt_buf ≡ read_chunks io fd w left index dt_buf
unfolding read_chunks
read_chunks-same io fd w w' same zero index dt_buf = refl
read_chunks-same io fd w w' same (suc left) index dt_buf =
    let part = as_text (io.fgetxattr fd (datatype index) max_xattr_value_size w) in
    let part' : as_text (io.fgetxattr fd (datatype index) max_xattr_value_size w') ≡ part =
      ap as_text (same index) in
    elim (Option-cases part) [
      | inl e ↦ rw (part' ∙ e, read_chunks) (rw (e, read_chunks) refl)
      | inr (bs, e) ↦
          rw (part' ∙ e, read_chunks)
            (rw (e, read_chunks) (read_chunks-same io fd w w' same left (index + 1) (dt_buf ++ bs)))
    ]

-- A world in which every attribute is the same is described in the same way.
pub Described-same :
    {D W : Type 0} (io : Copier D W) (fd : ℕ) (v : ViewData D) (dest : List ℕ) (w w' : W)
    → ((at : Attr) (n : ℕ) → io.fgetxattr fd at n w' ≡ io.fgetxattr fd at n w)
    → Described io fd v dest w
    → Described io fd v dest w'
Described-same io fd v dest w w' same d = record {
  destination = same dest_path (path_max - 1) ∙ d.destination;
  from = same disp 8 ∙ d.from;
  filetype =
      read_chunks-same io fd w w' (λ i. same (datatype i) max_xattr_value_size)
        (target_buffer_size / max_xattr_value_size) 0 []
      ∙ d.filetype;
  element = same etype max_xattr_value_size ∙ d.element;
}

module _ {D W : Type 0} (posix : Posix W) (io : Copier D W) (path : List ℕ) (fd : ℕ)
    (store : IsStore posix io path fd) where
  apart : (a b : Attr) (n : ℕ) → a ≢ b → Keeps posix (io.fgetxattr fd b n) path a
  apart a b n other v w stored = store.others a b v n w stored other

  -- Where every setxattr succeeds, the attributes describe the saved view and the destination.
  pub set_xattrs-Described :
      (f : File D W) (dest : List ℕ)
      → posix.realpath f.ompio.filename f.world ≡ some dest
      → length dest < path_max
      → IsStorable f.view
      → ((i : ℕ) → io.fgetxattr fd (datatype i) max_xattr_value_size f.world ≡ none)
      → Post
          (λ done g. done ≡ true → Described io fd f.view dest g.world)
          (set_xattrs_for_bbview posix path f)
  set_xattrs-Described f dest real short storable fresh =
      let v = f.view in
      let r1 = posix.setxattr path dest_path (text dest) f.world in
      let r2 = posix.setxattr path disp (number v.saved_disp) r1.1 in
      let last : AttrValue = text (take v.saved_et_len v.saved_et_buf) in
      set_xattrs-Post posix path (λ g. Described io fd v dest g.world) f dest real
        (λ first second.
          let f2 : File D W = record f { world = r2.1 } in
          let chunks =
            set_datatype posix path v.saved_dt_len v.saved_dt_buf (v.saved_dt_len + 1) 0 0 f2 in
          let kept = λ (b : Attr) (n : ℕ) (other : (i : ℕ) → datatype i ≢ b).
            set_datatype-kept posix (io.fgetxattr fd b n) path
              (λ i. apart (datatype i) b n (other i)) v.saved_dt_len v.saved_dt_buf
              (v.saved_dt_len + 1) 0 0 f2 (omega arith) in
          let still_fresh : (i : ℕ)
              → io.fgetxattr fd (datatype i) max_xattr_value_size f2.world ≡ none =
            λ i.
              store.others disp (datatype i) (number v.saved_disp) max_xattr_value_size r1.1 second
                (λ e. cc)
              ∙ store.others dest_path (datatype i) (text dest) max_xattr_value_size f.world first
                  (λ e. cc)
              ∙ fresh i in
          Post-map chunks
            (Post-both _ _ chunks
              (read_chunks-set_datatype posix io path fd store v.saved_dt_len v.saved_dt_buf f2
                storable.some_bytes storable.fits storable.whole still_fresh)
              (Post-both _ _ chunks (kept dest_path (path_max - 1) (λ i e. cc))
                (kept disp 8 (λ i e. cc))))
            (λ done g p good stored. record {
              destination =
                  store.others etype dest_path last (path_max - 1) g.world stored (λ e. cc)
                  ∙ p.1.0 good
                  ∙ store.others disp dest_path (number v.saved_disp) (path_max - 1) r1.1 second
                      (λ e. cc)
                  ∙ store.same dest_path (text dest) (path_max - 1) f.world first
                      (omega (arith, short));
              from =
                  store.others etype disp last 8 g.world stored (λ e. cc)
                  ∙ p.1.1 good
                  ∙ store.same disp (number v.saved_disp) 8 r1.1 second (omega arith);
              filetype =
                  read_chunks-same io fd g.world (posix.setxattr path etype last g.world).1
                    (λ i.
                      store.others etype (datatype i) last max_xattr_value_size g.world stored
                        (λ e. cc))
                    (target_buffer_size / max_xattr_value_size) 0 []
                  ∙ p.0 good;
              element =
                  store.same etype last max_xattr_value_size g.world stored storable.element_fits;
            }))

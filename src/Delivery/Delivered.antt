-- ===== src/Delivery/Delivered.antt =====
-- From the flush of a view (io_bbview_file_flush.c) to the bytes in its destination (bbviewd.c).
use bbview.Base.{
  ℕ, suc, ◌-◌, ◌<◌, ◌≡◌, ◌≢◌, refl, ap, ◌∙◌, List, [], ◌∷◌, ◌++◌, true, Bool-cases, inl, inr,
  Option, none, some, arith, length, take,
}
use bbview.Daemon.{path_max}
use bbview.Daemon.Chunks.{IsStore}
use bbview.Daemon.Copied.{whole_elements, copy_loop_while}
use bbview.Daemon.Copy.{finished, as_text, as_number, buffer_size, copy_to, with_types, execute}
use bbview.Daemon.Job.{JobCalls, Handled, executed, c_string, handle_to, handle_job}
use bbview.Delivery.{IsQuiet, attributes_of, files, Described, IsStorable, IsSending, Delivers}
use bbview.Delivery.Attributes.{Described-same, set_xattrs-Described}
use bbview.Delivery.Kept.{Keeps, send_name-kept, send_name-sends, set_xattrs-kept}
use bbview.Flush.{max_xattr_value_size, set_xattrs_for_bbview, send_name, local_name, file_flush}
use bbview.Session.{
  Env, File, ViewData, Attr, AttrValue, success, is_active, dest_path, disp, etype,
}
use bbview.Session.Run.{Post, Post-map, Post-both, Post-and_then}

abbrev NoNul : List ℕ → Type 0
NoNul [] = Unit
NoNul (c ∷ cs) = (c ≢ 0) × NoNul cs

c_string-NoNul : (cs : List ℕ) → NoNul cs → c_string cs ≡ cs
c_string-NoNul [] h = refl
c_string-NoNul (c ∷ cs) (ne, h) = let rest = c_string-NoNul cs h in ground (arith, ne)

module _ {D W : Type 0} (calls : JobCalls D W) (path dest : List ℕ) (fd fh : ℕ) (v : ViewData D)
    (et dt : D) (content rest written : W → List ℕ) (view : W → Option (ℕ × D × D))
    (delivers : Delivers calls path dest fd fh v.saved_disp et dt content rest written view) (n : ℕ)
    (element : calls.copier.unpack (take v.saved_et_len v.saved_et_buf) ≡ some et)
    (filetype : calls.copier.unpack (take v.saved_dt_len v.saved_dt_buf) ≡ some dt)
    (sized : calls.copier.type_size et ≡ some (suc n))
    (memory : calls.copier.malloc (buffer_size calls.copier (suc n)) ≡ true) where
  -- A copy that ends well, with these bytes in the destination.
  abbrev Wrote : List ℕ → Handled W → Type 0
  Wrote bs r = (w' : W) × (r ≡ executed (finished true w')) × (written w' ≡ bs)

  copy_to-Wrote :
      (fuel : ℕ) (w : W)
      → length (rest w) < fuel
      → (w' : W) × (copy_to calls.copier fuel fd dest v.saved_disp et dt (suc n) w
          ≡ finished true w')
        × (written w' ≡ written w ++ whole_elements (suc n) (rest w))
  unfolding copy_to
  copy_to-Wrote fuel w enough =
      let io = calls.copier in
      let (opened, same_rest, same_written) = delivers.file_opens w in
      let w1 = (io.file_open dest w).1 in
      let (viewed, same_rest', same_written', set) = delivers.views w1 in
      let w2 = (io.set_view fh v.saved_disp et dt w1).1 in
      let left : rest w2 ≡ rest w = same_rest' ∙ same_rest in
      let (w3, run, wrote) =
        copy_loop_while io fd fh rest written (λ w. view w ≡ some (v.saved_disp, et, dt))
          delivers.moves et (suc n) (omega arith) fuel w2 set (rw left enough) in
      (
        io.close fd (io.file_close fh w3),
        rw (opened, copy_to) (rw (viewed, run) refl),
        delivers.closes w3 ∙ wrote ∙ (rw (same_written' ∙ same_written, left) refl),
      )

  with_types-copy_to :
      (fuel : ℕ) (w : W)
      → with_types calls.copier fuel fd dest v.saved_disp
          (take v.saved_et_len v.saved_et_buf)
          (take v.saved_dt_len v.saved_dt_buf)
          w
        ≡ copy_to calls.copier fuel fd dest v.saved_disp et dt (suc n) w
  unfolding with_types
  with_types-copy_to fuel w =
      rw (element, with_types) (rw (filetype, with_types) (rw (sized, with_types) (rw memory refl)))

  execute-copy_to :
      (fuel : ℕ) (w : W)
      → Described calls.copier fd v dest w
      → execute calls.copier fuel path dest w
        ≡ copy_to calls.copier fuel fd dest v.saved_disp et dt
            (suc n)
            (calls.copier.open_read path w).1
  unfolding execute
  execute-copy_to fuel w d =
      let io = calls.copier in
      let w1 = (io.open_read path w).1 in
      let (opened, _, _) = delivers.opens w in
      let d1 = Described-same io fd v dest w w1 (λ at k. delivers.open_keeps at k w) d in
      let et_buf : as_text (io.fgetxattr fd etype max_xattr_value_size w1)
          ≡ some (take v.saved_et_len v.saved_et_buf) =
        ap as_text d1.element in
      let from : as_number (io.fgetxattr fd disp 8 w1) ≡ some v.saved_disp = ap as_number d1.from in
      rw (opened, execute)
        (rw (et_buf, execute)
          (rw (d1.filetype, execute) (rw (from, execute) (with_types-copy_to fuel w1))))

  handle_job-Wrote :
      (fuel : ℕ) (w : W)
      → Described calls.copier fd v dest w
      → NoNul dest
      → length (content w) < fuel
      → Wrote (written w ++ whole_elements (suc n) (content w)) (handle_job calls fuel path w)
  unfolding handle_job handle_to
  handle_job-Wrote fuel w d text enough =
      let io = calls.copier in
      let w1 = (io.open_read path w).1 in
      let (_, left, before) = delivers.opens w in
      let (w', run, wrote) = copy_to-Wrote fuel w1 (rw left enough) in
      let dst : as_text (calls.getxattr path dest_path (path_max - 1) w) ≡ some dest =
        ap as_text (delivers.by_path dest_path (path_max - 1) w ∙ d.destination) in
      (
        w',
        rw (dst, handle_job)
            (rw (c_string-NoNul dest text)
              (rw (delivers.there w) (ap executed (execute-copy_to fuel w d ∙ run)))),
        wrote ∙ (rw (before, left) refl),
      )

module _ {D I W : Type 0} (env : Env D I W) (calls : JobCalls D W) (f : File D W) (fd fh n : ℕ)
    (dest : List ℕ) (et dt : D) (content rest written : W → List ℕ) (view : W → Option (ℕ × D × D))
    (sent : W → List (List ℕ)) (store : IsStore env.posix calls.copier (local_name env f) fd)
    (quiet : IsQuiet env.posix (attributes_of calls.copier fd))
    (files_quiet : IsQuiet env.posix (files content written))
    (files_kept : (at : Attr) → Keeps env.posix (files content written) (local_name env f) at)
    (delivers : Delivers calls
      (local_name env f)
      dest
      fd
      fh
      f.view.saved_disp
      et
      dt
      content
      rest
      written
      view)
    (sending : IsSending env.posix sent)
    (sent_kept : (at : Attr) → Keeps env.posix sent (local_name env f) at) where
  abbrev path : List ℕ
  path = local_name env f

  abbrev Seen : File D W → Type 0
  Seen g =
      Described calls.copier fd f.view dest g.world
      × (files content written g.world ≡ files content written f.world)

  -- A worker that takes up the one message that has been sent does what the flush asks for.
  abbrev Sent : File D W → Type 0
  Sent g = sent g.world ≡ sent f.world ++ (path ∷ [])

  send_name-Seen :
      (g : File D W)
      → Seen g
      → sent g.world ≡ sent f.world
      → Post (λ c h. c ≡ success → Seen h × Sent h) (send_name env.posix path g)
  send_name-Seen g (d, same) none_yet =
      Post-map (send_name env.posix path g)
        (Post-both _ _ (send_name env.posix path g)
          (Post-both _ _ (send_name env.posix path g)
            (send_name-kept env.posix (attributes_of calls.copier fd) path quiet path g)
            (send_name-kept env.posix (files content written) path files_quiet path g))
          (send_name-sends env.posix sent sending path g))
        (λ c h p good. (
          (
            Described-same calls.copier fd f.view dest g.world h.world
                (λ at k. ap (λ (a : Attr → ℕ → Option AttrValue). a at k) p.0.0) d,
            p.0.1 ∙ same,
          ),
          p.1 good ∙ ap (λ l. l ++ (path ∷ [])) none_yet,
        ))

  flush-Seen :
      is_active f.view.state ≡ true
      → env.posix.realpath f.ompio.filename f.world ≡ some dest
      → length dest < path_max
      → IsStorable f.view
      → ((i : ℕ) → calls.copier.fgetxattr fd (Attr.datatype i) max_xattr_value_size f.world ≡ none)
      → Post (λ c g. c ≡ success → Seen g × Sent g) (file_flush env f)
  unfolding file_flush
  flush-Seen buffered real short storable fresh = rw buffered (
      Post-and_then (λ c g. c ≡ success → Seen g × Sent g) (set_xattrs_for_bbview env.posix path f)
        _
        (Post-both _ _ (set_xattrs_for_bbview env.posix path f)
          (set_xattrs-Described env.posix calls.copier path fd store f dest real short storable
            fresh)
          (Post-both _ _ (set_xattrs_for_bbview env.posix path f)
            (set_xattrs-kept env.posix (files content written) path files_kept f dest real)
            (set_xattrs-kept env.posix sent path sent_kept f dest real)))
        (λ done g p. elim (Bool-cases done) [
          | inl good ↦ rw good (send_name-Seen g (p.0 good, p.1.0 good) (p.1.1 good))
          | inr bad ↦ rw bad (λ c. cc)
        ]))

  -- A buffered view whose descriptions fit into the attributes, with a local file that has no chunk of an
  -- earlier one; calls that keep what they document, of which those that the daemon makes on this
  -- destination, this displacement and these types succeed; and descriptions that the datatype engine
  -- gives back as the two types, the elements being of `n + 1` bytes: if the flush returns success, then it has
  -- sent one message, and a worker that takes up that message as the name of its job ends the job with success,
  -- and what it has written while the view with this displacement and these types was set is the whole
  -- elements that the local file held at the flush, in order.
  pub file_flush-delivers :
      is_active f.view.state ≡ true
      → env.posix.realpath f.ompio.filename f.world ≡ some dest
      → length dest < path_max
      → NoNul dest
      → IsStorable f.view
      → ((i : ℕ) → calls.copier.fgetxattr fd (Attr.datatype i) max_xattr_value_size f.world ≡ none)
      → calls.copier.unpack (take f.view.saved_et_len f.view.saved_et_buf) ≡ some et
      → calls.copier.unpack (take f.view.saved_dt_len f.view.saved_dt_buf) ≡ some dt
      → calls.copier.type_size et ≡ some (suc n)
      → calls.copier.malloc (buffer_size calls.copier (suc n)) ≡ true
      → (fuel : ℕ) → length (content f.world) < fuel
      → Post
          (λ c g.
            c ≡ success
            → (name : List ℕ) × (w : W) × (sent g.world ≡ sent f.world ++ (name ∷ []))
              × (handle_job calls fuel name g.world ≡ executed (finished true w))
              × (written w ≡ written f.world ++ whole_elements (suc n) (content f.world)))
          (file_flush env f)
  file_flush-delivers buffered real short text storable fresh element filetype sized memory fuel
        enough =
      Post-map (file_flush env f) (flush-Seen buffered real short storable fresh) (λ c g seen good.
        let ((d, same), one) = seen good in
        let content_same : content g.world ≡ content f.world =
          ap (λ (x : List ℕ × List ℕ). x.0) same in
        let written_same : written g.world ≡ written f.world =
          ap (λ (x : List ℕ × List ℕ). x.1) same in
        let (w, run, wrote) =
          handle_job-Wrote calls path dest fd fh f.view et dt content rest written view delivers n
            element filetype sized memory fuel g.world d text (rw content_same enough) in
        (path, w, one, run, wrote ∙ (rw (content_same, written_same) refl)))

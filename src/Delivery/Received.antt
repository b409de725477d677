-- ===== src/Delivery/Received.antt =====
-- The name that a flush (io_bbview_file_flush.c) sends, as the daemon's listener (bbviewd.c) takes it.
use bbview.Base.{
  ℕ, ◌<◌, ◌≤◌, ◌≡◌, ap, ◌∙◌, List, [], ◌∷◌, ◌++◌, true, false, Bool-cases, inl, inr, some,
}
use bbview.Daemon.{Daemon, path_max, message, starved, accept, enqueue}
use bbview.Daemon.Done.{IsPath}
use bbview.Daemon.Sent.{receive-local_filename, refuse-local_filename}
use bbview.Delivery.{IsSending}
use bbview.Delivery.Kept.{Keeps, send_name-sends, set_xattrs-kept}
use bbview.Flush.{set_xattrs_for_bbview, send_name, local_name, file_flush}
use bbview.Session.{Env, File, Attr, success, is_active}
use bbview.Session.Run.{Post, Post-map, Post-and_then}

module _ {D I W : Type 0} (env : Env D I W) (f : File D W) (sent : W → List (List ℕ))
    (sending : IsSending env.posix sent)
    (kept : (at : Attr) → Keeps env.posix sent (local_name env f) at) where
  -- A buffered view; a directory for local files that is an absolute path, and a name of the file, without NUL
  -- and newline; and a PATH_MAX of 2 to 4096: if the flush returns success, then it has sent one message. A
  -- daemon in its accept loop, with the queue's mutex free, that takes it puts it into the queue as it is, byte for
  -- byte, where there is memory for the job; where there is none the daemon is as before, and the job is lost.
  -- In neither case is it taken for the request to terminate.
  pub file_flush-received :
      (t dest : List ℕ) (d : Daemon)
      → env.config.tmp_dir ≡ b'/' ∷ t
      → 1 < env.config.path_max
      → env.config.path_max ≤ path_max
      → IsPath env.config.tmp_dir
      → IsPath f.filename
      → is_active f.view.state ≡ true
      → env.posix.realpath f.ompio.filename f.world ≡ some dest
      → d.held ≡ false
      → Post
          (λ c g.
            c ≡ success
            → (name : List ℕ) × (sent g.world ≡ sent f.world ++ (name ∷ []))
              × (accept (message name) d ≡ enqueue name d)
              × (accept (starved name) d ≡ d))
          (file_flush env f)
  unfolding file_flush accept
  file_flush-received t dest d absolute room fits dir name buffered real free =
      let path = local_name env f in
      let took =
        receive-local_filename env.config f.filename f.rank f.view.view_index t absolute room d fits
          dir name free in
      let lost =
        refuse-local_filename env.config f.filename f.rank f.view.view_index t absolute room d in
      rw buffered (
        Post-and_then _ (set_xattrs_for_bbview env.posix path f) _
          (set_xattrs-kept env.posix sent path kept f dest real)
          (λ done g same. elim (Bool-cases done) [
            | inl good ↦ rw good (
                Post-map (send_name env.posix path g)
                  (send_name-sends env.posix sent sending path g)
                  (λ c h p ok. (path, p ok ∙ ap (λ l. l ++ (path ∷ [])) (same good), took, lost)))
            | inr bad ↦ rw bad (λ c. cc)
          ]))

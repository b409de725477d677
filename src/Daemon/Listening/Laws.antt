-- ===== src/Daemon/Listening/Laws.antt =====
-- What the listener (bbviewd.c) relies on of its calls.
use bbview.Base.{ℕ, ◌<◌, ◌≤◌, ◌≡◌, List, [], ◌∷◌, ◌++◌, false, ◌==◌}
use bbview.Base.Handles.{Table, adding, removing}
use bbview.Daemon.Listening.{eintr, error, client, Server}

-- Which descriptors are open (an accepted one was not, and a close ends the one that it names), what has been written to which, and how many connections and
-- interruptions are to come and how long the workers take: what the calls document, for a daemon that
-- is asked to end at some time.
pub record IsServing {W : Type 0} (io : Server W) (held : W → Table) (ahead : W → ℕ)
    (replies : W → List (ℕ × List ℕ)) : Type 0 where
  pub interrupted :
      (fd : ℕ) (w : W)
      → (io.accept fd w).0 ≡ eintr
      → (held (io.accept fd w).1 ≡ held w) × (ahead (io.accept fd w).1 < ahead w)
  pub fails :
      (fd : ℕ) (w : W)
      → (io.accept fd w).0 ≡ error
      → (held (io.accept fd w).1 ≡ held w) × (ahead (io.accept fd w).1 ≤ ahead w)
  pub accepts :
      (fd : ℕ) (w : W) (cfd : ℕ)
      → (io.accept fd w).0 ≡ client cfd
      → (held (io.accept fd w).1 ≡ adding cfd (held w)) × (ahead (io.accept fd w).1 < ahead w)
  pub new_client : (fd : ℕ) (w : W) (cfd : ℕ) → (io.accept fd w).0 ≡ client cfd → held w cfd ≡ false
  pub accept_writes : (fd : ℕ) (w : W) → replies (io.accept fd w).1 ≡ replies w
  pub reads :
      (fd n : ℕ) (w : W)
      → let v = (io.read fd n w).1 in
        (held v ≡ held w) × (ahead v ≤ ahead w) × (replies v ≡ replies w)
  pub enqueues :
      (path : List ℕ) (w : W)
      → let v = io.enqueue path w in
        (held v ≡ held w) × (ahead v ≤ ahead w) × (replies v ≡ replies w)
  pub shuts :
      (w : W)
      → let v = io.shut_down w in (held v ≡ held w) × (ahead v ≤ ahead w) × (replies v ≡ replies w)
  pub closes :
      (fd : ℕ) (w : W)
      → let v = io.close fd w in
        (held v ≡ removing fd (held w)) × (ahead v ≤ ahead w) × (replies v ≡ replies w)
  pub sleeps :
      (w : W)
      → (io.active_workers w == 0) ≡ false
      → let v = io.usleep w in (held v ≡ held w) × (ahead v < ahead w) × (replies v ≡ replies w)
  pub writes :
      (fd : ℕ) (bs : List ℕ) (w : W)
      → let v = io.write fd bs w in (held v ≡ held w) × (replies v ≡ replies w ++ ((fd, bs) ∷ []))

-- ===== src/Daemon/Listening/Ends.antt =====
-- What the listener (bbviewd.c) leaves behind.
use bbview.Base.{
  false, sym, ℕ, zero, suc, ◌+◌, ◌<◌, ◌≤◌, ◌≡◌, refl, ap, ◌∙◌, ◌⊎◌, inl, inr, List, [], ◌∷◌, ◌++◌,
  Bool-cases, Option, Option-cases, none, some, arith, ◌==◌,
}
use bbview.Base.Handles.{Table, adding, removing, removing-adding}
use bbview.Daemon.{path_max, terminate, is_prefix, job_name}
use bbview.Daemon.Listening.{
  Accepted, eintr, error, client, Server, done_line, accept_loop, wait_loop, finish_loop, listen_on,
}
use bbview.Daemon.Listening.Laws.{IsServing}

Accepted-cases : (x : Accepted) → (x ≡ eintr) ⊎ ((x ≡ error) ⊎ ((cfd : ℕ) × (x ≡ client cfd)))
Accepted-cases eintr = inl refl
Accepted-cases error = inr (inl refl)
Accepted-cases (client cfd) = inr (inr (cfd, refl))

module _ {W : Type 0} (io : Server W) (held : W → Table) (ahead : W → ℕ)
    (replies : W → List (ℕ × List ℕ)) (laws : IsServing io held ahead replies) where
  -- What the accept loop ends with: nothing written, and only the client that asked to terminate
  -- still open.
  abbrev Accepts : W → Option ℕ × W → Type 0
  Accepts w (none, v) = (held v ≡ held w) × (ahead v ≤ ahead w) × (replies v ≡ replies w)
  Accepts w (some cfd, v) =
      (held w cfd ≡ false)
      × (held v ≡ adding cfd (held w))
      × (ahead v ≤ ahead w)
      × (replies v ≡ replies w)

  -- A round that ends with the client closed.
  goes_on :
      (w u : W) (fuel sock_fd : ℕ)
      → held u ≡ held w
      → ahead u < ahead w
      → replies u ≡ replies w
      → (r : Option ℕ × W) × (accept_loop io fuel sock_fd u ≡ some r) × Accepts u r
      → (r : Option ℕ × W) × (accept_loop io fuel sock_fd u ≡ some r) × Accepts w r
  goes_on w u fuel sock_fd same less quiet ((none, v), e, (h, a, q)) =
      ((none, v), e, (h ∙ same, omega (arith, a, less), q ∙ quiet))
  goes_on w u fuel sock_fd same less quiet ((some cfd, v), e, (free, h, a, q)) = (
    (some cfd, v),
    e,
    (
      ap (λ (t : Table). t cfd) (sym same) ∙ free,
      h ∙ ap (adding cfd) same,
      omega (arith, a, less),
      q ∙ quiet,
    ),
  )

  -- A client that is closed again.
  closed_round :
      (w w1 w2 u : W) (cfd fuel sock_fd : ℕ)
      → held w cfd ≡ false
      → (held w1 ≡ adding cfd (held w)) × (ahead w1 < ahead w)
      → replies w1 ≡ replies w
      → (held w2 ≡ held w1) × (ahead w2 ≤ ahead w1) × (replies w2 ≡ replies w1)
      → (held u ≡ held w2) × (ahead u ≤ ahead w2) × (replies u ≡ replies w2)
      → (r : Option ℕ × W) × (accept_loop io fuel sock_fd (io.close cfd u) ≡ some r)
        × Accepts (io.close cfd u) r
      → (r : Option ℕ × W) × (accept_loop io fuel sock_fd (io.close cfd u) ≡ some r) × Accepts w r
  closed_round w w1 w2 u cfd fuel sock_fd free (more, less) quiet (h2, a2, q2) (h3, a3, q3) rest =
      let (h4, a4, q4) = laws.closes cfd u in
      goes_on w (io.close cfd u) fuel sock_fd
        (h4 ∙ ap (removing cfd) (h3 ∙ h2 ∙ more) ∙ removing-adding cfd (held w) free)
        (omega (arith, a4, a3, a2, less)) (q4 ∙ q3 ∙ q2 ∙ quiet) rest

  -- The loop comes to its end.
  accept_loop-Accepts :
      (fuel sock_fd : ℕ) (w : W)
      → ahead w < fuel
      → (r : Option ℕ × W) × (accept_loop io fuel sock_fd w ≡ some r) × Accepts w r
  unfolding accept_loop
  accept_loop-Accepts zero sock_fd w h = absurd (omega (arith, h))
  accept_loop-Accepts (suc fuel) sock_fd w h =
      let w1 = (io.accept sock_fd w).1 in
      let quiet = laws.accept_writes sock_fd w in
      elim (Accepted-cases (io.accept sock_fd w).0) [
        | inl e ↦
            let (same, less) = laws.interrupted sock_fd w e in
            rw (e, accept_loop)
              (goes_on w w1 fuel sock_fd same less quiet
                (accept_loop-Accepts fuel sock_fd w1 (omega (arith, less, h))))
        | inr (inl e) ↦
            let (same, less) = laws.fails sock_fd w e in
            rw (e, accept_loop) ((none, w1), refl, (same, less, quiet))
        | inr (inr (cfd, e)) ↦
            let gone = laws.accepts sock_fd w cfd e in
            let free = laws.new_client sock_fd w cfd e in
            let w2 = (io.read cfd (path_max + 15) w1).1 in
            let read = laws.reads cfd (path_max + 15) w1 in
            let next : (u : W)
                → ahead u ≤ ahead w2
                → (r : Option ℕ × W) × (accept_loop io fuel sock_fd (io.close cfd u) ≡ some r)
                  × Accepts (io.close cfd u) r =
              λ u kept.
                let closed = (laws.closes cfd u).1 in
                accept_loop-Accepts fuel sock_fd (io.close cfd u)
                  (omega (arith, closed, kept, read.1, gone.1, h)) in
            elim (Option-cases (io.read cfd (path_max + 15) w1).0) [
              | inl n ↦
                  rw (e, accept_loop)
                    (rw (n, accept_loop)
                      (closed_round w w1 w2 w2 cfd fuel sock_fd free gone quiet read
                        (refl, omega arith, refl) (next w2 (omega arith))))
              | inr ([], n) ↦
                  rw (e, accept_loop)
                    (rw (n, accept_loop)
                      (closed_round w w1 w2 w2 cfd fuel sock_fd free gone quiet read
                        (refl, omega arith, refl) (next w2 (omega arith))))
              | inr (c ∷ cs, n) ↦
                  let (hs, as', qs) = laws.shuts w2 in
                  let u = io.enqueue (job_name (c ∷ cs)) w2 in
                  let queued = laws.enqueues (job_name (c ∷ cs)) w2 in
                  rw (e, accept_loop)
                    (rw (n, accept_loop)
                      (elim (Bool-cases (is_prefix terminate (c ∷ cs))) [
                        | inl t ↦ rw t (
                          (some cfd, io.shut_down w2),
                          refl,
                          (
                            free,
                            hs ∙ read.0 ∙ gone.0,
                            omega (arith, as', read.1, gone.1),
                            qs ∙ read.2 ∙ quiet,
                          ),
                        )
                        | inr t ↦ rw t (
                            closed_round w w1 w2 u cfd fuel sock_fd free gone quiet read queued
                              (next u queued.1))
                      ]))
            ]
      ]

  wait_loop-ends :
      (fuel : ℕ) (w : W)
      → ahead w < fuel
      → (v : W) × (wait_loop io fuel w ≡ some v)
        × (held v ≡ held w)
        × (replies v ≡ replies w)
        × (io.active_workers v ≡ 0)
  unfolding wait_loop
  wait_loop-ends zero w h = absurd (omega (arith, h))
  wait_loop-ends (suc fuel) w h = elim (Bool-cases (io.active_workers w == 0)) [
    | inl idle ↦ (w, rw idle refl, refl, refl, ground (arith, idle))
    | inr busy ↦
        let (same, less, quiet) = laws.sleeps w busy in
        let (v, e, h', q', idle) = wait_loop-ends fuel (io.usleep w) (omega (arith, less, h)) in
        (v, rw busy e, h' ∙ same, q' ∙ quiet, idle)
  ]

  -- Closed, with nothing written or with "done" to the one client still open.
  abbrev Answered : ℕ → W → W → Type 0
  Answered sock_fd w v =
      (replies v ≡ replies w)
      ⊎ ((cfd : ℕ) × (u : W) × (io.active_workers u ≡ 0)
          × (v ≡ io.close sock_fd (io.close cfd (io.write cfd done_line u)))
          × (replies v ≡ replies w ++ ((cfd, done_line) ∷ [])))

  finish_loop-Answered :
      (fuel sock_fd : ℕ) (w : W) (r : Option ℕ × W)
      → ahead w < fuel
      → Accepts w r
      → (v : W) × (finish_loop io fuel sock_fd r ≡ some v)
        × (held v ≡ removing sock_fd (held w))
        × Answered sock_fd w v
  unfolding finish_loop
  finish_loop-Answered fuel sock_fd w (none, v) h (same, less, quiet) =
      let (shut, _, silent) = laws.closes sock_fd v in
      (io.close sock_fd v, refl, shut ∙ ap (removing sock_fd) same, inl (silent ∙ quiet))
  finish_loop-Answered fuel sock_fd w (some cfd, v) h (free, more, less, quiet) =
      let (u, waited, same, still, idle) = wait_loop-ends fuel v (omega (arith, less, h)) in
      let (hw, qw) = laws.writes cfd done_line u in
      let (hc, _, qc) = laws.closes cfd (io.write cfd done_line u) in
      let (hs, _, qs) = laws.closes sock_fd (io.close cfd (io.write cfd done_line u)) in
      (
        io.close sock_fd (io.close cfd (io.write cfd done_line u)),
        rw (waited, finish_loop) refl,
        hs
            ∙ ap (removing sock_fd)
                (hc ∙ ap (removing cfd) (hw ∙ same ∙ more) ∙ removing-adding cfd (held w) free),
        inr (
          cfd,
          u,
          idle,
          refl,
          qs ∙ qc ∙ qw ∙ ap (λ q. q ++ ((cfd, done_line) ∷ [])) (still ∙ quiet),
        ),
      )

  -- The daemon's listener, as the calls document what they open, close and write, with finitely many
  -- connections and interruptions ahead and workers that come to an end: it returns, with
  -- the descriptors open that were open before, less its socket, so that no client's connection is left; and
  -- either nothing is written, or, after a look at `active_workers` that found 0, "done" once, to one client
  -- whose connection, and then the socket, it closes last.
  pub listen_on-ends :
      (fuel sock_fd : ℕ) (w : W)
      → ahead w < fuel
      → (v : W) × (listen_on io fuel sock_fd w ≡ some v)
        × (held v ≡ removing sock_fd (held w))
        × ((replies v ≡ replies w)
            ⊎ ((cfd : ℕ) × (u : W) × (io.active_workers u ≡ 0)
                × (v ≡ io.close sock_fd (io.close cfd (io.write cfd done_line u)))
                × (replies v ≡ replies w ++ ((cfd, done_line) ∷ []))))
  unfolding listen_on
  listen_on-ends fuel sock_fd w h =
      let (r, e, accepted) = accept_loop-Accepts fuel sock_fd w h in
      let (v, ended, closed, answered) = finish_loop-Answered fuel sock_fd w r h accepted in
      (v, rw (e, listen_on) ended, closed, answered)

-- ===== src/Daemon/Sockets/Started.antt =====
-- What create_socket and main (bbviewd.c) leave behind: the descriptors, and a daemon with a worker.
use bbview.Base.{
  ℕ, ◌+◌, ◌-◌, ◌<◌, ◌≡◌, refl, subst, ◌∙◌, ◌⊎◌, List, Bool-cases, Option, Option-cases, none, some,
  inl, inr, arith, length,
}
use bbview.Daemon.{Daemon, Turn, main, run}
use bbview.Daemon.Counts.{is_starting, count}
use bbview.Daemon.Done.{done_drained}
use bbview.Daemon.Sockets.{
  System, thread_count, open_to, create_socket, open_frameworks, create_threads, start_threads,
  start_daemon,
}

-- `held` counts the open descriptors.
pub record IsHeld {W : Type 0} (sys : System W) (held : W → ℕ) : Type 0 where
  pub unlink : (w : W) → held (sys.unlink w) ≡ held w
  pub opened : (w : W) (fd : ℕ) → (sys.socket w).0 ≡ some fd → held (sys.socket w).1 ≡ held w + 1
  pub refused : (w : W) → (sys.socket w).0 ≡ none → held (sys.socket w).1 ≡ held w
  pub bind : (fd : ℕ) (w : W) → held (sys.bind fd w).1 ≡ held w
  pub listen : (fd : ℕ) (w : W) → held (sys.listen fd w).1 ≡ held w
  pub connect : (fd : ℕ) (w : W) → held (sys.connect fd w).1 ≡ held w
  pub write : (fd : ℕ) (bs : List ℕ) (w : W) → held (sys.write fd bs w) ≡ held w
  pub read : (fd n : ℕ) (w : W) → held (sys.read fd n w).1 ≡ held w
  pub print : (bs : List ℕ) (w : W) → held (sys.print bs w) ≡ held w
  pub close : (fd : ℕ) (w : W) → held (sys.close fd w) ≡ held w - 1

module _ {W : Type 0} (sys : System W) where
  module _ (held : W → ℕ) (laws : IsHeld sys held) where
    open_to-held :
        (fd : ℕ) (w : W)
        → (((open_to sys fd w).0 ≡ some fd) × (held (open_to sys fd w).1 ≡ held w))
          ⊎ (((open_to sys fd w).0 ≡ none) × (held (open_to sys fd w).1 ≡ held w - 1))
    unfolding open_to
    open_to-held fd w =
        let b = laws.bind fd w in
        let l = laws.listen fd (sys.bind fd w).1 in
        let c = laws.close fd (sys.bind fd w).1 in
        let c' = laws.close fd (sys.listen fd (sys.bind fd w).1).1 in ground (arith, b, l, c, c')

    -- As the calls document what they open and close: create_socket either returns a socket, and one more
    -- descriptor is open, or it fails and leaves none of its own open.
    pub create_socket-held :
        (w : W)
        → ((fd : ℕ) × ((create_socket sys w).0 ≡ some fd)
            × (held (create_socket sys w).1 ≡ held w + 1))
          ⊎ (((create_socket sys w).0 ≡ none) × (held (create_socket sys w).1 ≡ held w))
    unfolding create_socket
    create_socket-held w =
        let u = laws.unlink w in
        elim (Option-cases (sys.socket (sys.unlink w)).0) [
          | inl e ↦ inr (
            rw (e, create_socket) refl,
            rw (e, create_socket) (laws.refused (sys.unlink w) e ∙ u),
          )
          | inr (fd, e) ↦
              let o = laws.opened (sys.unlink w) fd e in
              elim (open_to-held fd (sys.socket (sys.unlink w)).1) [
                | inl (made, same) ↦ inl (
                  fd,
                  rw (e, create_socket) made,
                  rw (e, create_socket) (omega (arith, same, o, u)),
                )
                | inr (failed, less) ↦ inr (
                  rw (e, create_socket) failed,
                  rw (e, create_socket) (omega (arith, less, o, u)),
                )
              ]
        ]

  thread_count-positive : (n : ℕ) → 0 < thread_count n
  unfolding thread_count
  thread_count-positive n = ground arith

  -- What runs is what `main` starts with `n` workers.
  abbrev Starts : ℕ → Option (ℕ × Daemon) → Type 0
  Starts n none = Unit
  Starts n (some (fd, d)) = d ≡ main n

  start_threads-Starts : (n fd : ℕ) (w : W) → Starts n (start_threads sys n fd w).0
  unfolding start_threads
  start_threads-Starts n fd w = elim (Bool-cases (create_threads sys 0 n w).0) [
    | inl e ↦ rw (e, start_threads) refl
    | inr e ↦ rw (e, start_threads) tt
  ]

  start_daemon-Starts :
      (arg : List ℕ) (w : W) → Starts (thread_count (sys.atoi arg)) (start_daemon sys arg w).0
  unfolding start_daemon
  start_daemon-Starts arg w =
      let ready = open_frameworks sys 0 5 (sys.mpi_init w) in
      let made = create_socket sys ready.1 in
      elim (Bool-cases ready.0) [
        | inr e ↦ rw (e, start_daemon) tt
        | inl e ↦ elim (Option-cases made.0) [
          | inl none_made ↦ rw (e, start_daemon) (rw none_made tt)
          | inr (fd, got) ↦
              rw (e, start_daemon)
                (rw got (start_threads-Starts (thread_count (sys.atoi arg)) fd made.1))
        ]
      ]

  -- Whatever the number of threads on the command line, also none or a negative one: where the daemon
  -- starts, then under any schedule, once every worker has been counted, `active_workers` is 0 only when
  -- every job put into the queue has been taken and dealt with.
  pub start_daemon_drains :
      (arg : List ℕ) (w : W) (fd : ℕ) (d : Daemon)
      → (start_daemon sys arg w).0 ≡ some (fd, d)
      → (schedule : List Turn) → count is_starting (run schedule d).workers ≡ 0
      → (run schedule d).active_workers ≡ 0
      → ((run schedule d).taken ≡ (run schedule d).enqueued)
        × ((run schedule d).finished ≡ length (run schedule d).enqueued)
  start_daemon_drains arg w fd d started schedule =
      let n = thread_count (sys.atoi arg) in
      let same : d ≡ main n = subst (Starts n) started (start_daemon-Starts arg w) in
      rw same (done_drained n schedule (thread_count-positive (sys.atoi arg)))

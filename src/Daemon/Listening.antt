-- ===== src/Daemon/Listening.antt =====
-- `listener_loop` of bbviewd.c as one thread runs it, with the descriptors of its clients. What the
-- other threads do meanwhile is part of what its calls do to the world. The texts of the log are left out.
pub mod Ends
pub mod Laws
use bbview.Base.{ℕ, zero, suc, ◌+◌, List, [], ◌∷◌, Bool, Option, none, some, ◌==◌, if◌then◌else◌}
use bbview.Daemon.{path_max, terminate, is_prefix, job_name}

-- What `accept` returns: an error, EINTR or not, or a descriptor.
pub data Accepted : Type 0 where
  eintr error : Accepted
  client : ℕ → Accepted

-- `shut_down` sets `shutting_down` and broadcasts; `active_workers` is the atomic load.
pub record Server (W : Type 0) : Type 0 where
  pub accept : ℕ → W → Accepted × W
  pub read : ℕ → ℕ → W → Option (List ℕ) × W
  pub write : ℕ → List ℕ → W → W
  pub close : ℕ → W → W
  pub enqueue : List ℕ → W → W
  pub shut_down : W → W
  pub active_workers : W → ℕ
  pub usleep : W → W

-- "done\n"
abbrev pub done_line : List ℕ
done_line = 100 ∷ 111 ∷ 110 ∷ 101 ∷ 10 ∷ []

module _ {W : Type 0} (io : Server W) where
  -- The accept loop, up to its end: the client that asked to terminate, or none behind a failed accept.
  -- `none` is the model's fuel used up.
  unfoldable pub accept_loop : ℕ → ℕ → W → Option (Option ℕ × W)
  accept_loop zero sock_fd w = none
  accept_loop (suc fuel) sock_fd w =
      let (got, w1) = io.accept sock_fd w in
      elim got [
        | eintr ↦ accept_loop fuel sock_fd w1
        | error ↦ some (none, w1)
        | client cfd ↦
            let (n, w2) = io.read cfd (path_max + 15) w1 in
            elim n [
              | none ↦ accept_loop fuel sock_fd (io.close cfd w2)
              | some buf ↦ elim buf [
                | [] ↦ accept_loop fuel sock_fd (io.close cfd w2)
                | c ∷ cs ↦
                    let next =
                      accept_loop fuel sock_fd (io.close cfd (io.enqueue (job_name (c ∷ cs)) w2)) in
                    if is_prefix terminate (c ∷ cs) then some (some cfd, io.shut_down w2) else next
              ]
            ]
      ]

  -- The loop that waits for the workers.
  unfoldable pub wait_loop : ℕ → W → Option W
  wait_loop zero w = none
  wait_loop (suc fuel) w =
      let later = wait_loop fuel (io.usleep w) in if io.active_workers w == 0 then some w else later

  -- Behind the accept loop.
  unfoldable pub finish_loop : ℕ → ℕ → Option ℕ × W → Option W
  finish_loop fuel sock_fd (none, w) = some (io.close sock_fd w)
  finish_loop fuel sock_fd (some cfd, w) = elim (wait_loop fuel w) [
    | none ↦ none
    | some w1 ↦ some (io.close sock_fd (io.close cfd (io.write cfd done_line w1)))
  ]

  unfoldable pub listen_on : ℕ → ℕ → W → Option W
  listen_on fuel sock_fd w = elim (accept_loop fuel sock_fd w) [
    | none ↦ none
    | some r ↦ finish_loop fuel sock_fd r
  ]

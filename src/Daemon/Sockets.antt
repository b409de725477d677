-- ===== src/Daemon/Sockets.antt =====
-- create_socket and main (bbviewd.c): the socket of the daemon, the start of its threads, and the client
-- that waits for the daemon to finish. The texts of the log are left out.
pub mod Started
use bbview.Base.{
  ℕ, zero, suc, ◌+◌, ◌^◌, List, [], ◌∷◌, Bool, true, false, not, ◌&&◌, ◌||◌, Option, none, some,
  ltb, ◌==◌, if◌then◌else◌,
}
use bbview.Base.Options.{◌>>=◌}
use bbview.Daemon.{Daemon, Turn, Worker, is_prefix, terminate, main, run}

-- The system calls, MPI, and the five frameworks of ompi.
pub record System (W : Type 0) : Type 0 where
  pub unlink : W → W
  pub socket : W → Option ℕ × W
  pub bind : ℕ → W → Bool × W
  pub listen : ℕ → W → Bool × W
  pub connect : ℕ → W → Bool × W
  pub write : ℕ → List ℕ → W → W
  -- what has been read, up to so many bytes: nothing at an error
  pub read : ℕ → ℕ → W → List ℕ × W
  pub print : List ℕ → W → W
  pub close : ℕ → W → W
  pub mpi_init : W → W
  pub framework_open : ℕ → W → Bool × W
  pub thread_create : ℕ → W → Bool × W
  -- the 32-bit pattern
  pub atoi : List ℕ → ℕ

-- "terminate\n" and "wait".
abbrev pub terminate_line : List ℕ
terminate_line = 116 ∷ 101 ∷ 114 ∷ 109 ∷ 105 ∷ 110 ∷ 97 ∷ 116 ∷ 101 ∷ 10 ∷ []

abbrev pub wait_word : List ℕ
wait_word = 119 ∷ 97 ∷ 105 ∷ 116 ∷ []

abbrev pub is_wait : List ℕ → Bool
is_wait arg = is_prefix wait_word arg && is_prefix arg wait_word

-- `nthreads`
unfoldable pub thread_count : ℕ → ℕ
thread_count n = if n == 0 || not (ltb n (2 ^ 31)) then 1 else n

module _ {W : Type 0} (sys : System W) where
  -- From the bind on.
  unfoldable pub open_to : ℕ → W → Option ℕ × W
  open_to fd w =
      let bound = sys.bind fd w in
      let listening = sys.listen fd bound.1 in
      if bound.0
      then (if listening.0 then (some fd, listening.1) else (none, sys.close fd listening.1))
      else (none, sys.close fd bound.1)

  unfoldable pub create_socket : W → Option ℕ × W
  create_socket w =
      let made = sys.socket (sys.unlink w) in
      elim made.0 [ none ↦ (none, made.1) | some fd ↦ open_to fd made.1 ]

  -- `while` the frameworks open, in order.
  unfoldable pub open_frameworks : ℕ → ℕ → W → Bool × W
  open_frameworks i zero w = (true, w)
  open_frameworks i (suc n) w =
      let opened = sys.framework_open i w in
      elim opened.0 [ false ↦ (false, opened.1) | true ↦ open_frameworks (suc i) n opened.1 ]

  unfoldable pub create_threads : ℕ → ℕ → W → Bool × W
  create_threads i zero w = (true, w)
  create_threads i (suc n) w =
      let created = sys.thread_create i w in
      elim created.0 [ false ↦ (false, created.1) | true ↦ create_threads (suc i) n created.1 ]

  -- The client: whether it exits with success.
  unfoldable pub request : ℕ → W → Bool × W
  request fd w =
      let joined = sys.connect fd w in
      let answer = sys.read fd 127 (sys.write fd terminate_line joined.1) in
      if joined.0 then (true, sys.close fd (sys.print answer.0 answer.1)) else (false, joined.1)

  unfoldable pub wait_for_daemon : W → Bool × W
  wait_for_daemon w =
      let made = sys.socket w in
      elim made.0 [ none ↦ (false, made.1) | some fd ↦ request fd made.1 ]

  -- Behind the frameworks: the socket, and with it the threads, whose start is `main`.
  unfoldable pub start_threads : ℕ → ℕ → W → Option (ℕ × Daemon) × W
  start_threads nthreads fd w =
      let created = create_threads 0 nthreads w in
      if created.0 then (some (fd, main nthreads), created.1) else (none, created.1)

  unfoldable pub start_daemon : List ℕ → W → Option (ℕ × Daemon) × W
  start_daemon arg w =
      let ready = open_frameworks 0 5 (sys.mpi_init w) in
      let made = create_socket ready.1 in
      let started : Option (ℕ × Daemon) × W = elim made.0 [
        | none ↦ (none, made.1)
        | some fd ↦ start_threads (thread_count (sys.atoi arg)) fd made.1
      ] in
      if ready.0 then started else (none, ready.1)

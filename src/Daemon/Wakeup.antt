-- ===== src/Daemon/Wakeup.antt =====
-- The condition variable `q_cv` (bbviewd.c): a worker in pthread_cond_wait goes on only after it has been
-- woken, by the signal in `enqueue` or by the broadcast of `listener_loop`. A wake-up without a cause,
-- which POSIX allows, is not among the steps.
pub mod Awake
pub mod Drains
pub mod Guarded
pub mod Lost
pub mod Others
pub mod Refined
pub mod Served
pub mod Stirring
use bbview.Base.{
  ℕ, List, [], ◌∷◌, Bool, true, false, not, ◌&&◌, ◌||◌, Option, none, some, ◌==◌, if◌then◌else◌,
  get_elem?,
}
use bbview.Daemon.{
  Daemon, Worker, starting, looking, checked, waiting, working, leaving, ended, Listener, accepting,
  raised, draining, answered, broken, Arrival, interrupted, failed, message, Turn, listener, worker,
  terminate, is_prefix, main, listener_loop, worker_fn,
}

-- The daemon, and which of the waiting workers have been woken.
pub record Sleepers : Type 0 where
  pub daemon : Daemon
  pub woken : ℕ → Bool

abbrev pub is_waiting : Option Worker → Bool
is_waiting (some waiting) = true
is_waiting _ = false

-- Worker `i` in pthread_cond_wait, and not woken.
abbrev pub is_asleep : ℕ → Sleepers → Bool
is_asleep i s = is_waiting (get_elem? s.daemon.workers i) && not (s.woken i)

-- A worker that goes to sleep has yet to be woken.
unfoldable pub worker_turn : ℕ → Sleepers → Sleepers
worker_turn i s =
    if is_asleep i s
    then s
    else record { daemon = worker_fn i s.daemon; woken = λ j. if j == i then false else s.woken j }

-- A message that `enqueue` puts into the queue, where it signals.
abbrev pub is_job : List ℕ → Bool → Bool
is_job [] held = false
is_job (c ∷ cs) held = not (is_prefix terminate (c ∷ cs) || held)

abbrev pub wake : Option ℕ → (ℕ → Bool) → ℕ → Bool
wake none woken j = woken j
wake (some i) woken j = if j == i then true else woken j

-- Who is woken by a turn of the listener. `pick` is the worker that the system chooses at a signal.
unfoldable pub woken_by : (Sleepers → Option ℕ) → Arrival → Listener → Sleepers → ℕ → Bool
woken_by pick (message buf) accepting s =
    if is_job buf s.daemon.held then wake (pick s) s.woken else s.woken
woken_by pick a raised s = λ j. true
woken_by pick a l s = s.woken

unfoldable pub listener_turn : (Sleepers → Option ℕ) → Arrival → Sleepers → Sleepers
listener_turn pick a s = record {
  daemon = listener_loop a s.daemon;
  woken = woken_by pick a s.daemon.listener s;
}

unfoldable pub wakeful_turn : (Sleepers → Option ℕ) → Turn → Sleepers → Sleepers
wakeful_turn pick (listener a) s = listener_turn pick a s
wakeful_turn pick (worker i) s = worker_turn i s

unfoldable pub wakeful_run : (Sleepers → Option ℕ) → List Turn → Sleepers → Sleepers
wakeful_run pick [] s = s
wakeful_run pick (t ∷ ts) s = wakeful_run pick ts (wakeful_turn pick t s)

abbrev pub wakeful_main : ℕ → Sleepers
wakeful_main nthreads = record { daemon = main nthreads; woken = λ j. false }

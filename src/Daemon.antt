-- ===== src/Daemon.antt =====
-- The threads of the copying daemon (bbviewd.c): the queue of jobs under `q_mtx`, the workers, and
-- the listener. A step is what one thread does while it holds the mutex, or between two accesses to
-- what the threads share. The queue is the list from `q_head` to `q_tail`.
pub mod Chunks
pub mod Copied
pub mod Copy
pub mod Counts
pub mod Descriptors
pub mod Done
pub mod Ending
pub mod Draining
pub mod Job
pub mod Listening
pub mod Queue
pub mod Sent
pub mod Sockets
pub mod Wakeup
use bbview.Base.{
  ℕ, zero, suc, ◌+◌, ◌-◌, ◌<◌, ◌≡◌, List, [], ◌∷◌, ◌++◌, Bool, true, false, not, ◌&&◌, Option, none,
  some, ◌==◌, if◌then◌else◌, length, get_elem?, set, take,
}

-- `worker_fn`: not yet counted; about to take `q_mtx` in `dequeue`; past the test of `dequeue`'s loop
-- with the mutex held; in `pthread_cond_wait`; with a job; behind the loop; returned.
pub data Worker : Type 0 where
  starting looking checked waiting : Worker
  working : List ℕ → Worker
  leaving ended : Worker

-- `listener_loop`: in the accept loop; with `shutting_down` set but not yet broadcast; waiting for
-- the workers; with "done" written; behind a failed accept.
pub data Listener : Type 0 where
  accepting raised draining answered broken : Listener

-- What `accept` and `read` bring: an interrupted call, an error, or the bytes of a message, which
-- are none where `read` fails.
pub data Arrival : Type 0 where
  interrupted failed : Arrival
  message : List ℕ → Arrival
  -- a message for whose job `calloc` gives no memory
  starved : List ℕ → Arrival

-- The globals, the threads, and a record of the jobs that were put into the queue, of those taken
-- out of it, and of how many of those are dealt with.
pub record Daemon : Type 0 where
  pub jobs : List (List ℕ)
  pub held : Bool
  pub active_workers : ℕ
  pub shutting_down : Bool
  pub workers : List Worker
  pub listener : Listener
  pub enqueued : List (List ℕ)
  pub taken : List (List ℕ)
  pub finished : ℕ

abbrev pub path_max : ℕ
path_max = 4096

abbrev pub terminate : List ℕ
terminate = 116 ∷ 101 ∷ 114 ∷ 109 ∷ 105 ∷ 110 ∷ 97 ∷ 116 ∷ 101 ∷ []

abbrev pub is_prefix : List ℕ → List ℕ → Bool
is_prefix [] ys = true
is_prefix (x ∷ xs) [] = false
is_prefix (x ∷ xs) (y ∷ ys) = (x == y) && is_prefix xs ys

-- What stands before the first NUL or newline.
abbrev pub until_end : List ℕ → List ℕ
until_end [] = []
until_end (c ∷ cs) =
    let rest = until_end cs in if c == 0 then [] else (if c == 10 then [] else c ∷ rest)

-- The job that a message stands for: `read` fills the buffer, and `enqueue` cuts to the field.
unfoldable pub job_name : List ℕ → List ℕ
job_name buf = take (path_max - 1) (until_end (take (path_max + 15) buf))

unfoldable pub enqueue : List ℕ → Daemon → Daemon
enqueue path d = record d { jobs = d.jobs ++ (path ∷ []); enqueued = d.enqueued ++ (path ∷ []) }

-- The head of the queue in the hands of worker `i`, or, where it is empty, the way out of the loop of
-- `dequeue`.
unfoldable pub dequeue : ℕ → Daemon → Daemon
dequeue i d = elim d.jobs [
  | [] ↦
      if d.shutting_down
      then record d { workers = set d.workers i leaving }
      else record d { workers = set d.workers i checked; held = true }
  | j ∷ js ↦ record d {
    jobs = js;
    taken = d.taken ++ (j ∷ []);
    workers = set d.workers i (working j);
  }
]

-- One step of worker `i`; a worker that has to wait for the mutex makes none.
unfoldable pub advance : ℕ → Daemon → Worker → Daemon
advance i d starting = record d {
  active_workers = d.active_workers + 1;
  workers = set d.workers i looking;
}
advance i d looking = if d.held then d else dequeue i d
advance i d checked = record d { held = false; workers = set d.workers i waiting }
advance i d waiting = record d { workers = set d.workers i looking }
advance i d (working j) = record d { finished = d.finished + 1; workers = set d.workers i looking }
advance i d leaving = record d {
  active_workers = d.active_workers - 1;
  workers = set d.workers i ended;
}
advance i d ended = d

unfoldable pub worker_fn : ℕ → Daemon → Daemon
worker_fn i d = elim (get_elem? d.workers i) [ none ↦ d | some w ↦ advance i d w ]

abbrev pub is_accepting : Listener → Bool
is_accepting accepting = true
is_accepting _ = false

-- A message in the accept loop. `enqueue` needs the mutex.
unfoldable pub receive : List ℕ → Daemon → Daemon
receive [] d = d
receive (c ∷ cs) d =
    if is_prefix terminate (c ∷ cs)
    then record d { shutting_down = true; listener = raised }
    else (if d.held then d else enqueue (job_name (c ∷ cs)) d)

-- A message without memory for its job: `enqueue` returns before it has the mutex, and the job is lost.
unfoldable pub refuse : List ℕ → Daemon → Daemon
refuse [] d = d
refuse (c ∷ cs) d =
    if is_prefix terminate (c ∷ cs) then record d { shutting_down = true; listener = raised } else d

unfoldable pub accept : Arrival → Daemon → Daemon
accept interrupted d = d
accept failed d = record d { listener = broken }
accept (message buf) d = receive buf d
accept (starved buf) d = refuse buf d

-- The listener: on an arrival in the accept loop, then the broadcast (whoever it wakes goes on by a
-- step of its own), then a look at `active_workers`, and "done" once it is 0.
unfoldable pub listen : Arrival → Daemon → Listener → Daemon
listen a d accepting = accept a d
listen a d raised = record d { listener = draining }
listen a d draining = if d.active_workers == 0 then record d { listener = answered } else d
listen a d answered = d
listen a d broken = d

unfoldable pub listener_loop : Arrival → Daemon → Daemon
listener_loop a d = listen a d d.listener

pub data Turn : Type 0 where
  listener : Arrival → Turn
  worker : ℕ → Turn

unfoldable pub turn : Turn → Daemon → Daemon
turn (listener a) d = listener_loop a d
turn (worker i) d = worker_fn i d

abbrev pub replicate : ℕ → Worker → List Worker
replicate zero w = []
replicate (suc n) w = w ∷ replicate n w

-- `main`, behind the creation of the threads.
unfoldable pub main : ℕ → Daemon
main nthreads = record {
  jobs = [];
  held = false;
  active_workers = 0;
  shutting_down = false;
  workers = replicate nthreads starting;
  listener = accepting;
  enqueued = [];
  taken = [];
  finished = 0;
}

-- The threads in the order of a schedule.
unfoldable pub run : List Turn → Daemon → Daemon
run [] d = d
run (t ∷ ts) d = run ts (turn t d)

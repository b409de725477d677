-- ===== src/Tests/Sockets.antt =====
-- The theorems on the start of the daemon and on the names it receives (bbviewd.c) at concrete inputs.
use bbview.Base.{
  ℕ, ◌+◌, ◌-◌, ◌^◌, ◌≡◌, ◌⊎◌, refl, List, [], ◌∷◌, true, false, none, some, arith, length,
}
use bbview.Component.{codes}
use bbview.Daemon.{
  Turn, main, run, listener, message, worker, enqueue, receive, dequeue, advance, worker_fn, turn,
  accept, listen, listener_loop,
}
use bbview.Daemon.Counts.{count}
use bbview.Daemon.Sent.{receive-local_filename}
use bbview.Daemon.Sockets.{
  System, create_socket, start_daemon, thread_count, start_threads, create_threads, open_frameworks,
  open_to,
}
use bbview.Daemon.Sockets.Started.{IsHeld, create_socket-held, start_daemon_drains}
use bbview.LocalName.{Config, local_filename}

-- The world is the number of open descriptors; the command line says -1.
abbrev quiet_system : System ℕ
quiet_system = record {
  unlink = λ w. w;
  socket = λ w. (some 3, w + 1);
  bind = λ fd w. (true, w);
  listen = λ fd w. (false, w);
  connect = λ fd w. (true, w);
  write = λ fd bs w. w;
  read = λ fd n w. ([], w);
  print = λ bs w. w;
  close = λ fd w. w - 1;
  mpi_init = λ w. w;
  framework_open = λ i w. (true, w);
  thread_create = λ i w. (true, w);
  atoi = λ arg. 2 ^ 32 - 1;
}

quiet_system-IsHeld : IsHeld quiet_system (λ w. w)
quiet_system-IsHeld = record {
  unlink = λ w. refl;
  opened = λ w fd e. refl;
  refused = λ w e. cc;
  bind = λ fd w. refl;
  listen = λ fd w. refl;
  connect = λ fd w. refl;
  write = λ fd bs w. refl;
  read = λ fd n w. refl;
  print = λ bs w. refl;
  close = λ fd w. refl;
}

sample_socket :
    ((fd : ℕ) × ((create_socket quiet_system 5).0 ≡ some fd)
      × ((create_socket quiet_system 5).1 ≡ 5 + 1))
    ⊎ (((create_socket quiet_system 5).0 ≡ none) × ((create_socket quiet_system 5).1 ≡ 5))
sample_socket = create_socket-held quiet_system (λ w. w) quiet_system-IsHeld 5

abbrev loud_system : System ℕ
loud_system = record quiet_system { listen = λ fd w. (true, w) }

-- The one worker is counted, and a job comes in and is dealt with.
abbrev busy : List Turn
busy =
    worker 0
    ∷ listener (message (codes "/a"))
    ∷ worker 0
    ∷ worker 0
    ∷ listener (message (codes "terminate"))
    ∷ worker 0
    ∷ worker 0
    ∷ []

start_daemon_drains_example :
    ((run busy (main 1)).taken ≡ (run busy (main 1)).enqueued)
    × ((run busy (main 1)).finished ≡ length (run busy (main 1)).enqueued)
unfolding start_daemon thread_count start_threads create_threads open_frameworks create_socket
    open_to run turn listener_loop listen accept receive worker_fn advance dequeue enqueue main
    count
start_daemon_drains_example =
    start_daemon_drains loud_system (codes "-1") 0 3 (main 1) refl busy refl refl

abbrev tmp_config : Config
tmp_config = record { tmp_dir = codes "/tmp"; path_max = 4096 }

sample_name :
    receive (local_filename tmp_config (codes "/data/a") 2 1) (main 1)
    ≡ enqueue (local_filename tmp_config (codes "/data/a") 2 1) (main 1)
unfolding main
sample_name =
    receive-local_filename tmp_config (codes "/data/a") 2 1 (codes "tmp") refl (omega arith)
      (main 1) (omega arith)
      (
        (λ e. cc),
        (λ e. cc),
        ((λ e. cc), (λ e. cc), ((λ e. cc), (λ e. cc), ((λ e. cc), (λ e. cc), tt))),
      )
      (
        (λ e. cc),
        (λ e. cc),
        (
          (λ e. cc),
          (λ e. cc),
          (
            (λ e. cc),
            (λ e. cc),
            (
              (λ e. cc),
              (λ e. cc),
              ((λ e. cc), (λ e. cc), ((λ e. cc), (λ e. cc), ((λ e. cc), (λ e. cc), tt))),
            ),
          ),
        ),
      )
      refl

-- ===== src/Tests/Endings.antt =====
-- The end of the daemon at concrete schedules.
use bbview.Base.{ℕ, Option, some, ◌≡◌, refl, List, [], ◌∷◌, true, false, length}
use bbview.Daemon.{
  Turn, listener, worker, message, failed, terminate, main, run, answered, turn, listener_loop,
  listen, accept, receive, enqueue, worker_fn, advance, dequeue,
}
use bbview.Daemon.Ending.{main_ends}
use bbview.Daemon.Ending.Failed.{failed_accept_hangs}
use bbview.Daemon.Ending.Possible.{shutdown_possible}
use bbview.Daemon.Ending.Woken.{shutdown_woken}
use bbview.Daemon.Wakeup.{
  Sleepers, wakeful_run, wakeful_turn, wakeful_main, listener_turn, worker_turn, woken_by,
}

-- A job, and an accept that fails.
abbrev failing : List Turn
failing = listener (message (47 ∷ 97 ∷ [])) ∷ listener failed ∷ []

failed_accept_hangs_example :
    main_ends (run (worker 0 ∷ worker 0 ∷ worker 0 ∷ worker 0 ∷ []) (run failing (main 1))) ≡ false
unfolding run turn listener_loop listen accept receive enqueue main
failed_accept_hangs_example =
    failed_accept_hangs 0 failing (worker 0 ∷ worker 0 ∷ worker 0 ∷ worker 0 ∷ []) refl

-- A job, and the request to terminate.
abbrev asked : List Turn
asked = listener (message (47 ∷ 97 ∷ [])) ∷ listener (message terminate) ∷ []

sample_shutdown :
    let d = run asked (main 2) in
    (us : List Turn) × (main_ends (run us d) ≡ true)
    × ((run us d).listener ≡ answered)
    × ((run us d).taken ≡ d.enqueued)
    × ((run us d).finished ≡ length d.enqueued)
unfolding run turn listener_loop listen accept receive enqueue main
sample_shutdown = shutdown_possible 1 asked refl

-- Two workers that go to sleep, and the request to terminate.
abbrev asleep_and_asked : List Turn
asleep_and_asked =
    worker 0
    ∷ worker 0
    ∷ worker 0
    ∷ worker 1
    ∷ worker 1
    ∷ worker 1
    ∷ listener (message terminate)
    ∷ []

abbrev wakes_first : Sleepers → Option ℕ
wakes_first s = some 0

shutdown_woken_example :
    let s = wakeful_run wakes_first asleep_and_asked (wakeful_main 2) in
    (us : List Turn) × let d = (wakeful_run wakes_first us s).daemon in
      (main_ends d ≡ true)
      × (d.listener ≡ answered)
      × (d.taken ≡ s.daemon.enqueued)
      × (d.finished ≡ length s.daemon.enqueued)
unfolding wakeful_run wakeful_turn listener_turn worker_turn woken_by listener_loop listen accept
    receive enqueue main worker_fn advance dequeue
shutdown_woken_example = shutdown_woken wakes_first 1 asleep_and_asked refl refl refl

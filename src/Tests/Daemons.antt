-- ===== src/Tests/Daemons.antt =====
-- The theorems on the daemon (bbviewd.c) at schedules of two workers.
use bbview.Base.{ℕ, ◌≡◌, refl, List, [], ◌∷◌, arith, length}
use bbview.Daemon.{
  Turn, listener, worker, message, terminate, main, run, turn, listener_loop, listen, accept,
  receive, enqueue, worker_fn, advance, dequeue, job_name, answered,
}
use bbview.Daemon.Counts.{count}
use bbview.Daemon.Draining.{IsSound, run-main-IsSound}
use bbview.Daemon.Done.{early, done_drained, done_before_start, job_name-IsPath}

abbrev sample_path : List ℕ
sample_path = 47 ∷ 97 ∷ []

-- Both workers start, a job comes in and is dealt with, and the daemon is asked to terminate.
abbrev sample_schedule : List Turn
sample_schedule =
    worker 0
    ∷ worker 1
    ∷ listener (message sample_path)
    ∷ worker 1
    ∷ worker 0
    ∷ worker 0
    ∷ worker 1
    ∷ listener (message terminate)
    ∷ listener (message terminate)
    ∷ worker 0
    ∷ worker 0
    ∷ worker 1
    ∷ worker 0
    ∷ worker 1
    ∷ worker 0
    ∷ worker 1
    ∷ worker 0
    ∷ worker 1
    ∷ []

run-main-IsSound_example : IsSound (run sample_schedule (main 2))
run-main-IsSound_example = run-main-IsSound 2 sample_schedule

sample_drained :
    ((run sample_schedule (main 2)).taken ≡ (run sample_schedule (main 2)).enqueued)
    × ((run sample_schedule (main 2)).finished ≡ length (run sample_schedule (main 2)).enqueued)
unfolding run turn listener_loop listen accept receive enqueue worker_fn advance dequeue main count
    job_name
sample_drained = done_drained 2 sample_schedule (omega arith) refl refl

done_before_start_example :
    let d = run (early sample_path) (main 2) in
    (d.listener ≡ answered) × (d.jobs ≡ job_name sample_path ∷ []) × (d.finished ≡ 0)
done_before_start_example = done_before_start 2 47 (97 ∷ []) refl

sample_job_name : job_name sample_path ≡ sample_path
sample_job_name =
    job_name-IsPath sample_path (omega arith) (
      (λ (e : 47 ≡ 0). cc),
      (λ (e : 47 ≡ 10). cc),
      ((λ (e : 97 ≡ 0). cc), (λ (e : 97 ≡ 10). cc), tt),
    )

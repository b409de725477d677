-- ===== src/Daemon/Done.antt =====
-- When the daemon (bbviewd.c) answers "done", and which job a message of the component stands for.
use mathlib.Core.List.{append-nil}
use bbview.Base.{
  Option-cases, get_elem?, inl, inr, ℕ, ◌+◌, ◌-◌, ◌<◌, ◌≡◌, ◌≢◌, refl, sym, ap, ◌∙◌, List, [], ◌∷◌,
  ◌++◌, false, arith, length, take_all, length-set,
}
use bbview.Daemon.{
  refuse, looking, checked, waiting, working, leaving, ended, Daemon, Worker, Turn, starting,
  answered, message, listener, terminate, is_prefix, until_end, path_max, job_name, enqueue,
  receive, accept, listen, listener_loop, turn, run, main, advance, dequeue, worker_fn, worker,
}
use bbview.Daemon.Counts.{is_starting, is_gone, count, count_all, count_working, length-replicate}
use bbview.Daemon.Draining.{run-main-IsSound}

-- The number of threads stays what `main` made it.
abbrev pub threads : Daemon → ℕ
threads d = length d.workers

dequeue-threads :
    (i : ℕ) (d : Daemon) (js : List (List ℕ)) → d.jobs ≡ js → threads (dequeue i d) ≡ threads d
unfolding dequeue
dequeue-threads i d [] e =
    let left = length-set d.workers i leaving in
    let waits = length-set d.workers i checked in rw (e, dequeue) (ground arith)
dequeue-threads i d (j ∷ js) e = rw (e, dequeue) (length-set _ _ _)

advance-threads : (i : ℕ) (d : Daemon) (w : Worker) → threads (advance i d w) ≡ threads d
unfolding advance
advance-threads i d starting = length-set _ _ _
advance-threads i d looking = let dequeued = dequeue-threads i d d.jobs refl in ground arith
advance-threads i d checked = length-set _ _ _
advance-threads i d waiting = length-set _ _ _
advance-threads i d (working j) = length-set _ _ _
advance-threads i d leaving = length-set _ _ _
advance-threads i d ended = refl

pub turn-threads : (t : Turn) (d : Daemon) → threads (turn t d) ≡ threads d
unfolding turn listener_loop listen accept receive refuse enqueue worker_fn
turn-threads (listener a) d = ground arith
turn-threads (worker i) d = elim (Option-cases (get_elem? d.workers i)) [
  | inl e ↦ rw (e, worker_fn) refl
  | inr (w, e) ↦ rw (e, worker_fn) (advance-threads i d w)
]

pub run-threads : (ts : List Turn) (d : Daemon) → threads (run ts d) ≡ threads d
unfolding run
run-threads [] d = refl
run-threads (t ∷ ts) d = run-threads ts (turn t d) ∙ turn-threads t d

pub main-threads : (n : ℕ) → threads (main n) ≡ n
unfolding main
main-threads n = length-replicate n starting

-- Under any schedule of one worker or more: once every worker has been counted, `active_workers` is 0 only
-- when every job that was put into the queue has been taken out of it and dealt with.
pub done_drained :
    (nthreads : ℕ) (schedule : List Turn)
    → 0 < nthreads
    → count is_starting (run schedule (main nthreads)).workers ≡ 0
    → (run schedule (main nthreads)).active_workers ≡ 0
    → ((run schedule (main nthreads)).taken ≡ (run schedule (main nthreads)).enqueued)
      × ((run schedule (main nthreads)).finished ≡ length (run schedule (main nthreads)).enqueued)
done_drained nthreads schedule some_thread started idle =
    let d = run schedule (main nthreads) in
    let s = run-main-IsSound nthreads schedule in
    let gone : 0 < count is_gone d.workers = omega (
      arith,
      count_all d.workers,
      run-threads schedule (main nthreads),
      main-threads nthreads,
      s.counted,
    ) in
    let all_taken : d.enqueued ≡ d.taken =
      s.fifo ∙ ap (λ q. d.taken ++ q) (s.drained gone).1 ∙ append-nil d.taken in
    (
      sym all_taken,
      omega (arith, s.in_hand, s.counted, count_working d.workers, ap length all_taken),
    )

-- The listener takes a job and then a request to terminate before any worker is counted.
abbrev pub early : List ℕ → List Turn
early buf =
    listener (message buf)
    ∷ listener (message terminate)
    ∷ listener (message terminate)
    ∷ listener (message terminate)
    ∷ []

-- For any number of workers and any message that is not empty and does not ask to terminate, there is a
-- schedule that brings the message, then the request, and after which the listener has answered
-- "done" while the job of the message is still in the queue and none is finished.
pub done_before_start :
    (nthreads : ℕ) (c : ℕ) (cs : List ℕ)
    → is_prefix terminate (c ∷ cs) ≡ false
    → let d = run (early (c ∷ cs)) (main nthreads) in
      (d.listener ≡ answered) × (d.jobs ≡ job_name (c ∷ cs) ∷ []) × (d.finished ≡ 0)
unfolding run turn listener_loop listen accept receive enqueue main
done_before_start nthreads c cs other = rw other (refl, refl, refl)

-- A path in a message: no NUL and no newline.
abbrev pub IsPath : List ℕ → Type 0
IsPath [] = Unit
IsPath (c ∷ cs) = (c ≢ 0) × (c ≢ 10) × IsPath cs

until_end-IsPath : (cs : List ℕ) → IsPath cs → until_end cs ≡ cs
until_end-IsPath [] h = refl
until_end-IsPath (c ∷ cs) h = let (a, b, k) = h in let rest = until_end-IsPath cs k in ground arith

-- The job of a message that is a path shorter than PATH_MAX, without a NUL or a newline, is the
-- path.
pub job_name-IsPath : (name : List ℕ) → length name < path_max → IsPath name → job_name name ≡ name
unfolding job_name
job_name-IsPath name short ok =
    rw (take_all (path_max + 15) name (omega arith), until_end-IsPath name ok)
      (take_all (path_max - 1) name (omega arith))

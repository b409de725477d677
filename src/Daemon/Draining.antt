-- ===== src/Daemon/Draining.antt =====
-- What holds of the queue, the workers and the listener (bbviewd.c) under every schedule.
use mathlib.Core.List.{append_assoc}
use bbview.Base.{
  ℕ, ◌+◌, ◌-◌, ◌<◌, ◌≡◌, refl, sym, ap, ◌∙◌, ◌⊎◌, inl, inr, List, [], ◌∷◌, ◌++◌, Bool, true, false,
  some, arith, ◌==◌, if◌then◌else◌, length, get_elem?, set, Option-cases, length-append,
}
use bbview.Daemon.{
  starved, refuse, listener, worker, Daemon, Worker, Listener, Arrival, Turn, starting, looking,
  checked, waiting, working, leaving, ended, accepting, raised, draining, answered, broken,
  interrupted, failed, message, terminate, is_prefix, job_name, is_accepting, enqueue, dequeue,
  advance, worker_fn, receive, accept, listen, listener_loop, turn, run, main,
}
use bbview.Daemon.Counts.{is_counted, is_gone, is_working, one, count, count-set, count-replicate}

-- The queue is first in, first out, and loses and doubles no job; `active_workers` counts the
-- workers in their loops; the jobs taken are dealt with or in hand; nothing is accepted once
-- `shutting_down` is set; a worker is out of its loop only when it is and the queue is empty.
pub record IsSound (d : Daemon) : Type 0 where
  pub fifo : d.enqueued ≡ d.taken ++ d.jobs
  pub counted : d.active_workers ≡ count is_counted d.workers
  pub in_hand : length d.taken ≡ d.finished + count is_working d.workers
  pub closed : d.shutting_down ≡ true → is_accepting d.listener ≡ false
  pub drained : 0 < count is_gone d.workers → (d.shutting_down ≡ true) × (d.jobs ≡ [])

if-IsSound :
    (b : Bool) {x y : Daemon}
    → (b ≡ true → IsSound x)
    → (b ≡ false → IsSound y)
    → IsSound (if b then x else y)
if-IsSound true s t = s refl
if-IsSound false s t = t refl

-- A step of the listener out of its accept loop.
relisten-IsSound :
    (d : Daemon) (l : Listener) (shut : Bool)
    → is_accepting l ≡ false
    → (d.shutting_down ≡ true → shut ≡ true)
    → IsSound d
    → IsSound (record d { shutting_down = shut; listener = l })
relisten-IsSound d l shut out later s =
    let drained = s.drained in
    record {
      fifo = s.fifo;
      counted = s.counted;
      in_hand = s.in_hand;
      closed = λ h. out;
      drained = λ h. (later (drained h).0, (drained h).1);
    }

-- A step of worker `i` that leaves the queue alone.
reassign-IsSound :
    (i : ℕ) (d : Daemon) (w v : Worker) (held' : Bool) (active' finished' : ℕ)
    → get_elem? d.workers i ≡ some w
    → active' + one (is_counted w) ≡ d.active_workers + one (is_counted v)
    → finished' + one (is_working v) ≡ d.finished + one (is_working w)
    → (is_gone v ≡ true → (is_gone w ≡ true) ⊎ ((d.shutting_down ≡ true) × (d.jobs ≡ [])))
    → IsSound d
    → IsSound (record d {
      held = held';
      active_workers = active';
      finished = finished';
      workers = set d.workers i v;
    })
reassign-IsSound i d w v held' active' finished' at a b g s =
    let c = count-set is_counted d.workers i w v at in
    let k = count-set is_working d.workers i w v at in
    let e = count-set is_gone d.workers i w v at in
    let kept = s.drained in
    record {
      fifo = s.fifo;
      counted = omega (arith, c, a, s.counted);
      in_hand = omega (arith, k, b, s.in_hand);
      closed = s.closed;
      drained = λ h. ground arith;
    }

dequeue-IsSound :
    (i : ℕ) (d : Daemon) (js : List (List ℕ))
    → d.jobs ≡ js
    → get_elem? d.workers i ≡ some looking
    → IsSound d
    → IsSound (dequeue i d)
unfolding dequeue
dequeue-IsSound i d [] e at s =
    rw (e, dequeue)
      (if-IsSound d.shutting_down
        (λ b.
          reassign-IsSound i d looking leaving d.held d.active_workers d.finished at refl refl
            (λ h. inr (b, e)) s)
        (λ b.
          reassign-IsSound i d looking checked true d.active_workers d.finished at refl refl
            (λ h. cc) s))
dequeue-IsSound i d (j ∷ js) e at s =
    let c = count-set is_counted d.workers i looking (working j) at in
    let k = count-set is_working d.workers i looking (working j) at in
    let g = count-set is_gone d.workers i looking (working j) at in
    let kept = s.drained in
    let sound : IsSound (record d {
      jobs = js;
      taken = d.taken ++ (j ∷ []);
      workers = set d.workers i (working j);
    }) =
      record {
        fifo = s.fifo ∙ ap (λ q. d.taken ++ q) e ∙ sym (append_assoc d.taken (j ∷ []) js);
        counted = omega (arith, c, s.counted);
        in_hand = omega (arith, k, s.in_hand, length-append d.taken (j ∷ []));
        closed = s.closed;
        drained = λ h. let none_left = (kept (omega (arith, g, h))).1 in cc;
      } in
    rw (e, dequeue) sound

advance-IsSound :
    (i : ℕ) (d : Daemon) (w : Worker)
    → get_elem? d.workers i ≡ some w
    → IsSound d
    → IsSound (advance i d w)
unfolding advance
advance-IsSound i d starting at s =
    reassign-IsSound i d starting looking d.held (d.active_workers + 1) d.finished at (omega arith)
      (omega arith) (λ h. cc) s
advance-IsSound i d looking at s =
    if-IsSound d.held (λ b. s) (λ b. dequeue-IsSound i d d.jobs refl at s)
advance-IsSound i d checked at s =
    reassign-IsSound i d checked waiting false d.active_workers d.finished at refl refl (λ h. cc) s
advance-IsSound i d waiting at s =
    reassign-IsSound i d waiting looking d.held d.active_workers d.finished at refl refl (λ h. cc) s
advance-IsSound i d (working j) at s =
    reassign-IsSound i d (working j) looking d.held d.active_workers (d.finished + 1) at refl
      (omega arith) (λ h. cc) s
advance-IsSound i d leaving at s =
    let c = count-set is_counted d.workers i leaving ended at in
    reassign-IsSound i d leaving ended d.held (d.active_workers - 1) d.finished at
      (omega (arith, c, s.counted)) refl (λ h. inl refl) s
advance-IsSound i d ended at s = s

receive-IsSound :
    (buf : List ℕ) (d : Daemon) → d.listener ≡ accepting → IsSound d → IsSound (receive buf d)
unfolding receive enqueue
receive-IsSound [] d l s = s
receive-IsSound (c ∷ cs) d l s =
    let drained = s.drained in
    let name = job_name (c ∷ cs) in
    let queued : IsSound (enqueue name d) = record {
      fifo = ap (λ q. q ++ (name ∷ [])) s.fifo ∙ append_assoc d.taken d.jobs (name ∷ []);
      counted = s.counted;
      in_hand = s.in_hand;
      closed = s.closed;
      drained = λ h. let shut = s.closed (drained h).0 in cc;
    } in
    if-IsSound (is_prefix terminate (c ∷ cs))
      (λ b. relisten-IsSound d raised true refl (λ h. refl) s)
      (λ b. if-IsSound d.held (λ b. s) (λ b. queued))

refuse-IsSound :
    (buf : List ℕ) (d : Daemon) → d.listener ≡ accepting → IsSound d → IsSound (refuse buf d)
unfolding refuse
refuse-IsSound [] d l s = s
refuse-IsSound (c ∷ cs) d l s =
    if-IsSound (is_prefix terminate (c ∷ cs))
      (λ b. relisten-IsSound d raised true refl (λ h. refl) s) (λ b. s)

accept-IsSound :
    (a : Arrival) (d : Daemon) → d.listener ≡ accepting → IsSound d → IsSound (accept a d)
unfolding accept
accept-IsSound interrupted d l s = s
accept-IsSound failed d l s = relisten-IsSound d broken d.shutting_down refl (λ h. h) s
accept-IsSound (message buf) d l s = receive-IsSound buf d l s
accept-IsSound (starved buf) d l s = refuse-IsSound buf d l s

listen-IsSound :
    (a : Arrival) (d : Daemon) (l : Listener) → d.listener ≡ l → IsSound d → IsSound (listen a d l)
unfolding listen
listen-IsSound a d accepting e s = accept-IsSound a d e s
listen-IsSound a d raised e s = relisten-IsSound d draining d.shutting_down refl (λ h. h) s
listen-IsSound a d draining e s =
    if-IsSound (d.active_workers == 0)
      (λ b. relisten-IsSound d answered d.shutting_down refl (λ h. h) s) (λ b. s)
listen-IsSound a d answered e s = s
listen-IsSound a d broken e s = s

pub turn-IsSound : (t : Turn) (d : Daemon) → IsSound d → IsSound (turn t d)
unfolding turn listener_loop worker_fn
turn-IsSound (listener a) d s = listen-IsSound a d d.listener refl s
turn-IsSound (worker i) d s = elim (Option-cases (get_elem? d.workers i)) [
  | inl e ↦ rw (e, worker_fn) s
  | inr (w, e) ↦ rw (e, worker_fn) (advance-IsSound i d w e s)
]

pub run-IsSound : (ts : List Turn) (d : Daemon) → IsSound d → IsSound (run ts d)
unfolding run
run-IsSound [] d s = s
run-IsSound (t ∷ ts) d s = run-IsSound ts (turn t d) (turn-IsSound t d s)

pub main-IsSound : (n : ℕ) → IsSound (main n)
unfolding main
main-IsSound n = record {
  fifo = refl;
  counted = sym (count-replicate is_counted n refl);
  in_hand = omega (arith, count-replicate is_working n refl);
  closed = λ h. cc;
  drained = λ h. absurd (omega (arith, h, count-replicate is_gone n refl));
}

-- Whatever the number of workers, the messages and the schedule: the queue is first in, first out,
-- and loses and doubles no job, `active_workers` is the number of workers in their loops, the jobs
-- taken are dealt with or in a worker's hands, no message is accepted once `shutting_down` is set,
-- and a worker has left its loop only when it is set and the queue is empty.
pub run-main-IsSound :
    (nthreads : ℕ) (schedule : List Turn) → IsSound (run schedule (main nthreads))
run-main-IsSound nthreads schedule = run-IsSound schedule (main nthreads) (main-IsSound nthreads)

-- ===== src/Daemon/Ending/Woken.antt =====
-- The daemon can end under the condition variable (bbviewd.c), where the broadcast finds no worker on its
-- way into pthread_cond_wait.
use bbview.Base.{
  ℕ, suc, ◌≡◌, refl, sym, ap, subst, ◌∙◌, inl, inr, List, [], ◌∷◌, ◌++◌, Bool, true, false, not,
  ◌&&◌, Bool-cases, Option, Option-cases, some, arith, ◌==◌, if◌then◌else◌, get_elem?, set, length,
}
use bbview.Daemon.{
  starved, Daemon, Worker, starting, looking, checked, waiting, working, leaving, ended, Turn,
  Listener, Arrival, accepting, raised, draining, answered, broken, interrupted, failed, message,
  is_accepting, listener, worker, listener_loop, listen, turn, run, main, worker_fn, advance,
  dequeue,
}
use bbview.Daemon.Counts.{one, count-positive}
use bbview.Daemon.Ending.{main_ends}
use bbview.Daemon.Ending.Possible.{shutdown_possible}
use bbview.Daemon.Ending.Together.{run-append, run-IsGuarded}
use bbview.Daemon.Wakeup.{
  Sleepers, is_asleep, is_waiting, worker_turn, listener_turn, wakeful_turn, wakeful_run,
  wakeful_main, woken_by,
}
use bbview.Daemon.Wakeup.Guarded.{is_checked, IsGuarded, main-IsGuarded, turn-IsGuarded}
use bbview.Daemon.Wakeup.Others.{worker_fn-Aside}
use bbview.Daemon.Wakeup.Refined.{wakeful_run_refines}
use bbview.Daemon.Wakeup.Stirring.{get_elem?-set_there}

-- The mutex is free behind the request to terminate, and worker `i` does not wait.
abbrev Goes : ℕ → Daemon → Type 0
Goes i d =
    (is_waiting (get_elem? d.workers i) ≡ false) × (d.held ≡ false) × (d.shutting_down ≡ true)

goes_there :
    (i : ℕ) (ws : List Worker) (w v : Worker)
    → get_elem? ws i ≡ some w
    → is_waiting (some v) ≡ false
    → is_waiting (get_elem? (set ws i v) i) ≡ false
goes_there i ws w v at up = ap is_waiting (get_elem?-set_there ws i w v at) ∙ up

if_true-Goes : (i : ℕ) (b : Bool) (x y : Daemon) → b ≡ true → Goes i x → Goes i (if b then x else y)
if_true-Goes i true x y e h = h
if_true-Goes i false x y e h = cc

if_false-Goes :
    (i : ℕ) (b : Bool) (x y : Daemon) → b ≡ false → Goes i y → Goes i (if b then x else y)
if_false-Goes i true x y e h = cc
if_false-Goes i false x y e h = h

dequeue-Goes :
    (i : ℕ) (d : Daemon) (js : List (List ℕ))
    → d.jobs ≡ js
    → get_elem? d.workers i ≡ some looking
    → d.held ≡ false
    → d.shutting_down ≡ true
    → Goes i (dequeue i d)
unfolding dequeue
dequeue-Goes i d [] e at free shut =
    let up = goes_there i d.workers looking leaving at refl in
    let left : Goes i (record d { workers = set d.workers i leaving }) = (up, free, shut) in
    rw (e, dequeue) (if_true-Goes i d.shutting_down _ _ shut left)
dequeue-Goes i d (x ∷ js) e at free shut =
    let up = goes_there i d.workers looking (working x) at refl in rw (e, dequeue) (up, free, shut)

advance-Goes :
    (i : ℕ) (d : Daemon) (w : Worker)
    → get_elem? d.workers i ≡ some w
    → IsGuarded d
    → d.held ≡ false
    → d.shutting_down ≡ true
    → Goes i (advance i d w)
unfolding advance
advance-Goes i d starting at g free shut =
    (goes_there i d.workers starting looking at refl, free, shut)
advance-Goes i d looking at g free shut =
    if_false-Goes i d.held d (dequeue i d) free (dequeue-Goes i d d.jobs refl at free shut)
advance-Goes i d checked at g free shut =
    let there = count-positive is_checked d.workers i checked at refl in
    absurd (omega (arith, there, g.mutex, ap one free))
advance-Goes i d waiting at g free shut =
    (goes_there i d.workers waiting looking at refl, free, shut)
advance-Goes i d (working x) at g free shut =
    (goes_there i d.workers (working x) looking at refl, free, shut)
advance-Goes i d leaving at g free shut = (goes_there i d.workers leaving ended at refl, free, shut)
advance-Goes i d ended at g free shut = (ap is_waiting at, free, shut)

worker_fn-Goes :
    (i : ℕ) (d : Daemon)
    → IsGuarded d
    → d.held ≡ false
    → d.shutting_down ≡ true
    → Goes i (worker_fn i d)
unfolding worker_fn
worker_fn-Goes i d g free shut = elim (Option-cases (get_elem? d.workers i)) [
  | inl e ↦ rw (e, worker_fn) (ap is_waiting e, free, shut)
  | inr (w, e) ↦ rw (e, worker_fn) (advance-Goes i d w e g free shut)
]

-- Behind the request to terminate, with the mutex free and nobody asleep.
record IsAwake (s : Sleepers) : Type 0 where
  up : (i : ℕ) → is_asleep i s ≡ false
  guarded : IsGuarded s.daemon
  free : s.daemon.held ≡ false
  shut : s.daemon.shutting_down ≡ true
  closed : is_accepting s.daemon.listener ≡ false

never_asleep : (b : Bool) → (b && not true) ≡ false
never_asleep true = refl
never_asleep false = refl

-- A worker's step does not move the listener.
worker_fn-heard : (i : ℕ) (d : Daemon) → (worker_fn i d).listener ≡ d.listener
worker_fn-heard i d = (worker_fn-Aside (suc i) i d (ground arith)).1

abbrev later : Listener → (ℕ → Bool) → ℕ → Bool
later raised woken = λ j. true
later l woken = woken

module _ (pick : Sleepers → Option ℕ) where
  -- Who is woken, once the listener is out of its accept loop.
  woken_by-later :
      (a : Arrival) (l : Listener) (s : Sleepers)
      → is_accepting l ≡ false
      → woken_by pick a l s ≡ later l s.woken
  unfolding woken_by
  woken_by-later a accepting s e = cc
  woken_by-later interrupted raised s e = refl
  woken_by-later failed raised s e = refl
  woken_by-later (message buf) raised s e = refl
  woken_by-later (starved buf) raised s e = refl
  woken_by-later interrupted draining s e = refl
  woken_by-later failed draining s e = refl
  woken_by-later (message buf) draining s e = refl
  woken_by-later (starved buf) draining s e = refl
  woken_by-later interrupted answered s e = refl
  woken_by-later failed answered s e = refl
  woken_by-later (message buf) answered s e = refl
  woken_by-later (starved buf) answered s e = refl
  woken_by-later interrupted broken s e = refl
  woken_by-later failed broken s e = refl
  woken_by-later (message buf) broken s e = refl
  woken_by-later (starved buf) broken s e = refl

  listener-IsAwake :
      (a : Arrival) (l : Listener) (s : Sleepers)
      → s.daemon.listener ≡ l
      → IsAwake s
      → IsAwake (record { daemon = listen a s.daemon l; woken = later l s.woken })
  unfolding listen
  listener-IsAwake a accepting s at k = let closed = k.closed in cc
  listener-IsAwake a raised s at k = record {
    up = λ i. never_asleep (is_waiting (get_elem? s.daemon.workers i));
    guarded = record { mutex = k.guarded.mutex; empty = k.guarded.empty };
    free = k.free;
    shut = k.shut;
    closed = refl;
  }
  listener-IsAwake a draining s at k =
      let idle = s.daemon.active_workers == 0 in
      elim (Bool-cases idle) [
        | inl b ↦ rw b (record {
          up = k.up;
          guarded = record { mutex = k.guarded.mutex; empty = k.guarded.empty };
          free = k.free;
          shut = k.shut;
          closed = refl;
        })
        | inr b ↦ rw b (record {
          up = k.up;
          guarded = k.guarded;
          free = k.free;
          shut = k.shut;
          closed = k.closed;
        })
      ]
  listener-IsAwake a answered s at k = record {
    up = k.up;
    guarded = k.guarded;
    free = k.free;
    shut = k.shut;
    closed = k.closed;
  }
  listener-IsAwake a broken s at k = record {
    up = k.up;
    guarded = k.guarded;
    free = k.free;
    shut = k.shut;
    closed = k.closed;
  }

  worker-IsAwake :
      (j : ℕ) (s : Sleepers)
      → IsAwake s
      → IsAwake (worker_turn j s) × ((worker_turn j s).daemon ≡ worker_fn j s.daemon)
  unfolding worker_turn turn
  worker-IsAwake j s k =
      let (mine, free, shut) = worker_fn-Goes j s.daemon k.guarded k.free k.shut in
      let others = λ (i : ℕ) (apart : (i == j) ≡ false). worker_fn-Aside i j s.daemon apart in
      rw (k.up j) (
        record {
          up = λ i. elim (Bool-cases (i == j)) [
            | inl same ↦
                let here : i ≡ j = ground (arith, same) in
                ap
                  (λ n.
                    is_waiting (get_elem? (worker_fn j s.daemon).workers n)
                    && not (if n == j then false else s.woken n))
                  here
                ∙ ap (λ b. b && not (if j == j then false else s.woken j)) mine
            | inr apart ↦
                ap (λ w. is_waiting w && not (if i == j then false else s.woken i))
                  (others i apart).0
                ∙ ap
                    (λ b.
                      is_waiting (get_elem? s.daemon.workers i)
                      && not (if b then false else s.woken i))
                    apart
                ∙ k.up i
          ];
          guarded = turn-IsGuarded (worker j) s.daemon k.guarded;
          free = free;
          shut = shut;
          closed = ap is_accepting (worker_fn-heard j s.daemon) ∙ k.closed;
        },
        refl,
      )

  wakeful_turn-IsAwake :
      (t : Turn) (s : Sleepers)
      → IsAwake s
      → IsAwake (wakeful_turn pick t s) × ((wakeful_turn pick t s).daemon ≡ turn t s.daemon)
  unfolding wakeful_turn listener_turn turn listener_loop
  wakeful_turn-IsAwake (listener a) s k = (
    subst (λ w. IsAwake (record { daemon = listen a s.daemon s.daemon.listener; woken = w }))
        (sym (woken_by-later a s.daemon.listener s k.closed))
        (listener-IsAwake a s.daemon.listener s refl k),
    refl,
  )
  wakeful_turn-IsAwake (worker j) s k = worker-IsAwake j s k

  wakeful_run-run :
      (ts : List Turn) (s : Sleepers) → IsAwake s → (wakeful_run pick ts s).daemon ≡ run ts s.daemon
  unfolding wakeful_run run
  wakeful_run-run [] s k = refl
  wakeful_run-run (t ∷ ts) s k =
      let (k', e) = wakeful_turn-IsAwake t s k in
      wakeful_run-run ts (wakeful_turn pick t s) k' ∙ ap (run ts) e

  broadcast-IsAwake :
      (s : Sleepers)
      → s.daemon.listener ≡ raised
      → s.daemon.held ≡ false
      → s.daemon.shutting_down ≡ true
      → IsGuarded s.daemon
      → IsAwake (wakeful_turn pick (listener interrupted) s)
        × ((wakeful_turn pick (listener interrupted) s).daemon
            ≡ record s.daemon { listener = draining })
        × (turn (listener interrupted) s.daemon
            ≡ (wakeful_turn pick (listener interrupted) s).daemon)
  unfolding wakeful_turn listener_turn turn listener_loop listen woken_by
  broadcast-IsAwake s at free shut g =
      let e : listen interrupted s.daemon s.daemon.listener
          ≡ record s.daemon { listener = draining } =
        ap (listen interrupted s.daemon) at in
      let k : IsAwake
          (record s { daemon = record s.daemon { listener = draining }; woken = λ j. true }) =
        record {
          up = λ i. never_asleep (is_waiting (get_elem? s.daemon.workers i));
          guarded = record { mutex = g.mutex; empty = g.empty };
          free = free;
          shut = shut;
          closed = refl;
        } in
      (
        subst
            (λ l. IsAwake (record {
              daemon = listen interrupted s.daemon l;
              woken = woken_by pick interrupted l s;
            }))
            (sym at) k,
        e,
        refl,
      )

  -- With one worker or more, and any way to choose the worker that a signal wakes: once the daemon has
  -- been asked to terminate, if nobody holds the mutex of the queue before the broadcast (no worker is between
  -- its test of the queue and pthread_cond_wait), the threads can go on, where a worker that waits goes on only
  -- after a signal or the broadcast, so that `main` gets to its end and "done" is answered, with every
  -- job that had been admitted taken and dealt with, and no other.
  pub shutdown_woken :
      (n : ℕ) (ts : List Turn)
      → let s = wakeful_run pick ts (wakeful_main (suc n)) in
        s.daemon.listener ≡ raised
        → s.daemon.held ≡ false
        → s.daemon.shutting_down ≡ true
        → (us : List Turn) × let d = (wakeful_run pick us s).daemon in
            (main_ends d ≡ true)
            × (d.listener ≡ answered)
            × (d.taken ≡ s.daemon.enqueued)
            × (d.finished ≡ length s.daemon.enqueued)
  unfolding wakeful_run run turn
  shutdown_woken n ts at free shut =
      let s = wakeful_run pick ts (wakeful_main (suc n)) in
      let (schedule, reached) = wakeful_run_refines pick (suc n) ts in
      let guarded : IsGuarded s.daemon =
        subst IsGuarded (sym reached)
          (run-IsGuarded schedule (main (suc n)) (main-IsGuarded (suc n))) in
      let s1 = wakeful_turn pick (listener interrupted) s in
      let (k, e, heard) = broadcast-IsAwake s at free shut guarded in
      let path : run (schedule ++ (listener interrupted ∷ [])) (main (suc n)) ≡ s1.daemon =
        run-append schedule (listener interrupted ∷ []) (main (suc n))
        ∙ ap (turn (listener interrupted)) (sym reached)
        ∙ heard in
      let asked = ap (λ (x : Daemon). x.shutting_down) (path ∙ e) ∙ shut in
      let (us, ends, said, took, done) =
        shutdown_possible n (schedule ++ (listener interrupted ∷ [])) asked in
      let there : run us (run (schedule ++ (listener interrupted ∷ [])) (main (suc n)))
          ≡ (wakeful_run pick us s1).daemon =
        ap (run us) path ∙ sym (wakeful_run-run us s1 k) in
      let admitted = ap (λ (x : Daemon). x.enqueued) (path ∙ e) in
      (
        listener interrupted ∷ us,
        (
          ap main_ends (sym there) ∙ ends,
          ap (λ (x : Daemon). x.listener) (sym there) ∙ said,
          ap (λ (x : Daemon). x.taken) (sym there) ∙ took ∙ admitted,
          ap (λ (x : Daemon). x.finished) (sym there) ∙ done ∙ ap length admitted,
        ),
      )

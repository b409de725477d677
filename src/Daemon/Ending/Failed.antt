-- ===== src/Daemon/Ending/Failed.antt =====
-- The end of the listener's loop at a failed accept (bbviewd.c).
use bbview.Base.{
  ℕ, suc, ◌≡◌, ◌<◌, refl, sym, ap, ◌∙◌, inl, inr, List, [], ◌∷◌, Bool, true, false, ◌&&◌,
  Bool-cases, Option-cases, arith, ◌==◌, if◌then◌else◌, get_elem?, length,
}
use bbview.Daemon.{
  starved, refuse, Daemon, Worker, starting, looking, checked, waiting, working, leaving, ended,
  Turn, Listener, Arrival, accepting, raised, draining, answered, broken, interrupted, failed,
  message, terminate, is_prefix, worker, listener, worker_fn, advance, dequeue, listener_loop,
  listen, accept, receive, enqueue, turn, run, main,
}
use bbview.Daemon.Counts.{count, is_gone}
use bbview.Daemon.Done.{run-threads, main-threads}
use bbview.Daemon.Draining.{IsSound, run-main-IsSound, run-IsSound, turn-IsSound, main-IsSound}
use bbview.Daemon.Ending.{joins_all, has_returned, main_ends}

-- A failed accept ends the loop before `shutting_down` is set.
abbrev pub StaysOpen : Daemon → Type 0
StaysOpen d = d.listener ≡ broken → d.shutting_down ≡ false

-- A worker leaves the listener alone.
abbrev SameListener : Daemon → Daemon → Type 0
SameListener d e = (e.listener ≡ d.listener) × (e.shutting_down ≡ d.shutting_down)

if-SameListener :
    (b : Bool) (d x y : Daemon)
    → SameListener d x
    → SameListener d y
    → SameListener d (if b then x else y)
if-SameListener true d x y p q = p
if-SameListener false d x y p q = q

dequeue-SameListener :
    (i : ℕ) (d : Daemon) (js : List (List ℕ)) → d.jobs ≡ js → SameListener d (dequeue i d)
unfolding dequeue
dequeue-SameListener i d [] e =
    rw (e, dequeue) (if-SameListener d.shutting_down d _ _ (refl, refl) (refl, refl))
dequeue-SameListener i d (x ∷ js) e = rw (e, dequeue) (refl, refl)

advance-SameListener : (i : ℕ) (d : Daemon) (w : Worker) → SameListener d (advance i d w)
unfolding advance
advance-SameListener i d starting = (refl, refl)
advance-SameListener i d looking =
    if-SameListener d.held d d (dequeue i d) (refl, refl) (dequeue-SameListener i d d.jobs refl)
advance-SameListener i d checked = (refl, refl)
advance-SameListener i d waiting = (refl, refl)
advance-SameListener i d (working x) = (refl, refl)
advance-SameListener i d leaving = (refl, refl)
advance-SameListener i d ended = (refl, refl)

worker_fn-SameListener : (i : ℕ) (d : Daemon) → SameListener d (worker_fn i d)
unfolding worker_fn
worker_fn-SameListener i d = elim (Option-cases (get_elem? d.workers i)) [
  | inl e ↦ rw (e, worker_fn) (refl, refl)
  | inr (w, e) ↦ rw (e, worker_fn) (advance-SameListener i d w)
]

if-StaysOpen :
    (b : Bool) (x y : Daemon) → StaysOpen x → StaysOpen y → StaysOpen (if b then x else y)
if-StaysOpen true x y p q = p
if-StaysOpen false x y p q = q

receive-StaysOpen : (buf : List ℕ) (d : Daemon) → StaysOpen d → StaysOpen (receive buf d)
unfolding receive enqueue
receive-StaysOpen [] d o = o
receive-StaysOpen (c ∷ cs) d o =
    if-StaysOpen (is_prefix terminate (c ∷ cs)) _ _ (λ e. cc) (if-StaysOpen d.held d _ o o)

refuse-StaysOpen : (buf : List ℕ) (d : Daemon) → StaysOpen d → StaysOpen (refuse buf d)
unfolding refuse
refuse-StaysOpen [] d o = o
refuse-StaysOpen (c ∷ cs) d o = if-StaysOpen (is_prefix terminate (c ∷ cs)) _ d (λ e. cc) o

listen-StaysOpen :
    (a : Arrival) (d : Daemon) (l : Listener)
    → d.listener ≡ l
    → IsSound d
    → StaysOpen d
    → StaysOpen (listen a d l)
unfolding listen accept
listen-StaysOpen interrupted d accepting at s o = o
listen-StaysOpen failed d accepting at s o = λ e. elim (Bool-cases d.shutting_down) [
  | inr clear ↦ clear
  | inl shut ↦ let behind = s.closed shut in cc
]
listen-StaysOpen (message buf) d accepting at s o = receive-StaysOpen buf d o
listen-StaysOpen (starved buf) d accepting at s o = refuse-StaysOpen buf d o
listen-StaysOpen a d raised at s o = λ e. cc
listen-StaysOpen a d draining at s o = if-StaysOpen (d.active_workers == 0) _ d (λ e. cc) o
listen-StaysOpen a d answered at s o = o
listen-StaysOpen a d broken at s o = o

turn-StaysOpen : (t : Turn) (d : Daemon) → IsSound d → StaysOpen d → StaysOpen (turn t d)
unfolding turn listener_loop
turn-StaysOpen (listener a) d s o = listen-StaysOpen a d d.listener refl s o
turn-StaysOpen (worker i) d s o =
    let (heard, shut) = worker_fn-SameListener i d in λ e. shut ∙ o (sym heard ∙ e)

pub run-StaysOpen : (ts : List Turn) (d : Daemon) → IsSound d → StaysOpen d → StaysOpen (run ts d)
unfolding run
run-StaysOpen [] d s o = o
run-StaysOpen (t ∷ ts) d s o =
    run-StaysOpen ts (turn t d) (turn-IsSound t d s) (turn-StaysOpen t d s o)

pub main-StaysOpen : (n : ℕ) → StaysOpen (main n)
unfolding main
main-StaysOpen n = λ e. refl

run-broken : (ts : List Turn) (d : Daemon) → d.listener ≡ broken → (run ts d).listener ≡ broken
unfolding run turn listener_loop listen
run-broken [] d e = e
run-broken (listener a ∷ ts) d e =
    let same : listen a d d.listener ≡ d = ap (listen a d) e in
    run-broken ts (listen a d d.listener) (ap (λ (x : Daemon). x.listener) same ∙ e)
run-broken (worker i ∷ ts) d e = run-broken ts (worker_fn i d) ((worker_fn-SameListener i d).0 ∙ e)

pub joins_all-gone : (ws : List Worker) → joins_all ws ≡ true → count is_gone ws ≡ length ws
unfolding joins_all count
joins_all-gone [] e = refl
joins_all-gone (ended ∷ ws) e = let rest = joins_all-gone ws e in omega (arith, rest)
joins_all-gone (starting ∷ ws) e = cc
joins_all-gone (looking ∷ ws) e = cc
joins_all-gone (checked ∷ ws) e = cc
joins_all-gone (waiting ∷ ws) e = cc
joins_all-gone (working x ∷ ws) e = cc
joins_all-gone (leaving ∷ ws) e = cc

never : (b : Bool) → (b && false) ≡ false
never true = refl
never false = refl

-- With one worker or more: once the listener's loop has ended at a failed accept, `main` never gets to its
-- end, however the threads go on. It waits for the workers, and nothing tells them to leave.
pub failed_accept_hangs :
    (n : ℕ) (ts us : List Turn)
    → (run ts (main (suc n))).listener ≡ broken
    → main_ends (run us (run ts (main (suc n)))) ≡ false
unfolding main_ends
failed_accept_hangs n ts us e =
    let d = run ts (main (suc n)) in
    let g = run us d in
    let s = run-main-IsSound (suc n) ts in
    let sound = run-IsSound us d s in
    let clear : g.shutting_down ≡ false =
      run-StaysOpen us d s
        (run-StaysOpen ts (main (suc n)) (main-IsSound (suc n)) (main-StaysOpen (suc n)))
        (run-broken us d e) in
    elim (Bool-cases (joins_all g.workers)) [
      | inr waits ↦ ap (λ b. has_returned g.listener && b) waits ∙ never (has_returned g.listener)
      | inl joined ↦
          let all_gone = joins_all-gone g.workers joined in
          let some_gone : 0 < count is_gone g.workers = omega (
            arith,
            all_gone,
            run-threads us d,
            run-threads ts (main (suc n)),
            main-threads (suc n),
          ) in
          let shut = (sound.drained some_gone).0 in cc
    ]

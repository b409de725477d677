-- ===== src/Daemon/Wakeup/Guarded.antt =====
-- The mutex `q_mtx` between `dequeue`'s test and pthread_cond_wait (bbviewd.c).
use bbview.Base.{
  ℕ, ◌+◌, ◌-◌, ◌≡◌, refl, ap, inl, inr, List, [], ◌∷◌, Bool, true, false, Bool-cases, Option-cases,
  some, arith, ◌==◌, if◌then◌else◌, get_elem?, set,
}
use bbview.Daemon.{
  starved, refuse, Daemon, Worker, starting, looking, checked, waiting, working, leaving, ended,
  Listener, accepting, raised, draining, answered, broken, Arrival, interrupted, failed, message,
  Turn, listener, worker, terminate, is_prefix, main, listener_loop, listen, accept, receive,
  enqueue, worker_fn, advance, dequeue, turn,
}
use bbview.Daemon.Counts.{one, count, count-set, count-replicate}

abbrev pub is_checked : Worker → Bool
is_checked checked = true
is_checked _ = false

-- The worker that has found the queue empty, and no other, holds the mutex, and the queue stays empty.
pub record IsGuarded (d : Daemon) : Type 0 where
  pub mutex : count is_checked d.workers ≡ one d.held
  pub empty : d.held ≡ true → d.jobs ≡ []

if-IsGuarded :
    (b : Bool) {x y : Daemon}
    → (b ≡ true → IsGuarded x)
    → (b ≡ false → IsGuarded y)
    → IsGuarded (if b then x else y)
if-IsGuarded true s t = s refl
if-IsGuarded false s t = t refl

-- A step of worker `i` that leaves the queue alone.
reassign-IsGuarded :
    (i : ℕ) (d : Daemon) (w v : Worker) (held' : Bool) (active' finished' : ℕ)
    → get_elem? d.workers i ≡ some w
    → one held' + one (is_checked w) ≡ one d.held + one (is_checked v)
    → (held' ≡ true → d.jobs ≡ [])
    → IsGuarded d
    → IsGuarded (record d {
      held = held';
      active_workers = active';
      finished = finished';
      workers = set d.workers i v;
    })
reassign-IsGuarded i d w v held' active' finished' at a e g =
    let c = count-set is_checked d.workers i w v at in
    record { mutex = omega (arith, c, a, g.mutex); empty = e }

dequeue-IsGuarded :
    (i : ℕ) (d : Daemon) (js : List (List ℕ))
    → d.jobs ≡ js
    → get_elem? d.workers i ≡ some looking
    → d.held ≡ false
    → IsGuarded d
    → IsGuarded (dequeue i d)
unfolding dequeue
dequeue-IsGuarded i d [] e at free g =
    let no : one d.held ≡ 0 = rw free refl in
    let c = count-set is_checked d.workers i looking checked at in
    let l = count-set is_checked d.workers i looking leaving at in
    rw (e, dequeue)
      (elim (Bool-cases d.shutting_down) [
        | inl b ↦ rw b (record { mutex = omega (arith, l, g.mutex); empty = g.empty })
        | inr b ↦ rw b (record { mutex = omega (arith, c, no, g.mutex); empty = λ h. e })
      ])
dequeue-IsGuarded i d (x ∷ js) e at free g =
    let c = count-set is_checked d.workers i looking (working x) at in
    rw (e, dequeue) (record { mutex = omega (arith, c, g.mutex); empty = λ h. cc })

advance-IsGuarded :
    (i : ℕ) (d : Daemon) (w : Worker)
    → get_elem? d.workers i ≡ some w
    → IsGuarded d
    → IsGuarded (advance i d w)
unfolding advance
advance-IsGuarded i d starting at g =
    reassign-IsGuarded i d starting looking d.held (d.active_workers + 1) d.finished at refl g.empty
      g
advance-IsGuarded i d looking at g =
    if-IsGuarded d.held (λ b. g) (λ b. dequeue-IsGuarded i d d.jobs refl at b g)
advance-IsGuarded i d checked at g =
    let c = count-set is_checked d.workers i checked waiting at in
    let taken : one d.held ≡ 1 = elim (Bool-cases d.held) [
      | inl b ↦ ap one b
      | inr b ↦ absurd (omega (arith, c, g.mutex, ap one b))
    ] in
    reassign-IsGuarded i d checked waiting false d.active_workers d.finished at
      (omega (arith, taken)) (λ h. cc) g
advance-IsGuarded i d waiting at g =
    reassign-IsGuarded i d waiting looking d.held d.active_workers d.finished at refl g.empty g
advance-IsGuarded i d (working x) at g =
    reassign-IsGuarded i d (working x) looking d.held d.active_workers (d.finished + 1) at refl
      g.empty g
advance-IsGuarded i d leaving at g =
    reassign-IsGuarded i d leaving ended d.held (d.active_workers - 1) d.finished at refl g.empty g
advance-IsGuarded i d ended at g = g

receive-IsGuarded : (buf : List ℕ) (d : Daemon) → IsGuarded d → IsGuarded (receive buf d)
unfolding receive enqueue
receive-IsGuarded [] d g = g
receive-IsGuarded (c ∷ cs) d g =
    if-IsGuarded (is_prefix terminate (c ∷ cs)) (λ b. record { mutex = g.mutex; empty = g.empty })
      (λ b. if-IsGuarded d.held (λ e. g) (λ e. record { mutex = g.mutex; empty = λ h. cc }))

refuse-IsGuarded : (buf : List ℕ) (d : Daemon) → IsGuarded d → IsGuarded (refuse buf d)
unfolding refuse
refuse-IsGuarded [] d g = g
refuse-IsGuarded (c ∷ cs) d g =
    if-IsGuarded (is_prefix terminate (c ∷ cs)) (λ b. record { mutex = g.mutex; empty = g.empty })
      (λ b. g)

listen-IsGuarded :
    (a : Arrival) (d : Daemon) (l : Listener) → IsGuarded d → IsGuarded (listen a d l)
unfolding listen accept
listen-IsGuarded interrupted d accepting g = g
listen-IsGuarded failed d accepting g = record { mutex = g.mutex; empty = g.empty }
listen-IsGuarded (message buf) d accepting g = receive-IsGuarded buf d g
listen-IsGuarded (starved buf) d accepting g = refuse-IsGuarded buf d g
listen-IsGuarded a d raised g = record { mutex = g.mutex; empty = g.empty }
listen-IsGuarded a d draining g =
    if-IsGuarded (d.active_workers == 0) (λ b. record { mutex = g.mutex; empty = g.empty }) (λ b. g)
listen-IsGuarded a d answered g = g
listen-IsGuarded a d broken g = g

pub turn-IsGuarded : (t : Turn) (d : Daemon) → IsGuarded d → IsGuarded (turn t d)
unfolding turn listener_loop worker_fn
turn-IsGuarded (listener a) d g = listen-IsGuarded a d d.listener g
turn-IsGuarded (worker i) d g = elim (Option-cases (get_elem? d.workers i)) [
  | inl e ↦ rw (e, worker_fn) g
  | inr (w, e) ↦ rw (e, worker_fn) (advance-IsGuarded i d w e g)
]

pub main-IsGuarded : (n : ℕ) → IsGuarded (main n)
unfolding main
main-IsGuarded n = record { mutex = count-replicate is_checked n refl; empty = λ h. cc }

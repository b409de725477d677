-- ===== src/Daemon/Wakeup/Stirring.antt =====
-- What a step of a worker does to the queue and to its own place (bbviewd.c).
use bbview.Base.{
  ℕ, zero, suc, ◌≡◌, ◌≢◌, refl, ap, ◌∙◌, inl, inr, List, [], ◌∷◌, Bool, true, false, Bool-cases,
  Option-cases, some, arith, if◌then◌else◌, get_elem?, set,
}
use bbview.Daemon.{
  Daemon, Worker, starting, looking, checked, waiting, working, leaving, ended, worker_fn, advance,
  dequeue,
}
use bbview.Daemon.Counts.{one, count-positive}
use bbview.Daemon.Wakeup.{is_waiting}
use bbview.Daemon.Wakeup.Guarded.{is_checked, IsGuarded}

pub get_elem?-set_there :
    (ws : List Worker) (i : ℕ) (w v : Worker)
    → get_elem? ws i ≡ some w
    → get_elem? (set ws i v) i ≡ some v
get_elem?-set_there [] i w v at = cc
get_elem?-set_there (x ∷ ws) zero w v at = refl
get_elem?-set_there (x ∷ ws) (suc i) w v at = get_elem?-set_there ws i w v at

-- Worker `i` after a step of its own: it does not wait.
abbrev pub Stirs : ℕ → Daemon → Type 0
Stirs i d =
    d.jobs ≢ [] → (v : Worker) × (get_elem? d.workers i ≡ some v) × (is_waiting (some v) ≡ false)

dequeue-Stirs :
    (i : ℕ) (d : Daemon) (js : List (List ℕ))
    → d.jobs ≡ js
    → get_elem? d.workers i ≡ some looking
    → Stirs i (dequeue i d)
unfolding dequeue
dequeue-Stirs i d [] e at =
    rw (e, dequeue)
      (elim (Bool-cases d.shutting_down) [
        | inl b ↦ rw b (λ some_job. absurd (some_job e))
        | inr b ↦ rw b (λ some_job. absurd (some_job e))
      ])
dequeue-Stirs i d (x ∷ js) e at =
    rw (e, dequeue)
      (λ some_job. (working x, get_elem?-set_there d.workers i looking (working x) at, refl))

if-Stirs :
    (i : ℕ) (b : Bool) (x y : Daemon)
    → (b ≡ true → Stirs i x)
    → (b ≡ false → Stirs i y)
    → Stirs i (if b then x else y)
if-Stirs i true x y s t = s refl
if-Stirs i false x y s t = t refl

advance-Stirs :
    (i : ℕ) (d : Daemon) (w : Worker)
    → get_elem? d.workers i ≡ some w
    → IsGuarded d
    → Stirs i (advance i d w)
unfolding advance
advance-Stirs i d starting at g =
    λ j. (looking, get_elem?-set_there d.workers i starting looking at, refl)
advance-Stirs i d looking at g =
    if-Stirs i d.held d (dequeue i d) (λ b j. (looking, at, refl))
      (λ b. dequeue-Stirs i d d.jobs refl at)
advance-Stirs i d checked at g =
    let there = count-positive is_checked d.workers i checked at refl in
    elim (Bool-cases d.held) [
      | inl b ↦ λ some_job. absurd (some_job (g.empty b))
      | inr b ↦ absurd (omega (arith, there, g.mutex, ap one b))
    ]
advance-Stirs i d waiting at g =
    λ j. (looking, get_elem?-set_there d.workers i waiting looking at, refl)
advance-Stirs i d (working x) at g =
    λ j. (looking, get_elem?-set_there d.workers i (working x) looking at, refl)
advance-Stirs i d leaving at g =
    λ j. (ended, get_elem?-set_there d.workers i leaving ended at, refl)
advance-Stirs i d ended at g = λ j. (ended, at, refl)

-- A worker's step puts nothing into the queue.
dequeue-empty :
    (i : ℕ) (d : Daemon) (js : List (List ℕ)) → d.jobs ≡ js → d.jobs ≡ [] → (dequeue i d).jobs ≡ []
unfolding dequeue
dequeue-empty i d [] e none_left =
    rw (e, dequeue) (elim (Bool-cases d.shutting_down) [ inl b ↦ rw b e | inr b ↦ rw b e ])
dequeue-empty i d (x ∷ js) e none_left = cc

advance-empty : (i : ℕ) (d : Daemon) (w : Worker) → d.jobs ≡ [] → (advance i d w).jobs ≡ []
unfolding advance
advance-empty i d looking e = elim (Bool-cases d.held) [
  | inl b ↦ ap (λ h. (if h then d else dequeue i d).jobs) b ∙ e
  | inr b ↦ ap (λ h. (if h then d else dequeue i d).jobs) b ∙ dequeue-empty i d d.jobs refl e
]
advance-empty i d starting e = e
advance-empty i d checked e = e
advance-empty i d waiting e = e
advance-empty i d (working x) e = e
advance-empty i d leaving e = e
advance-empty i d ended e = e

pub worker_fn-empty : (i : ℕ) (d : Daemon) → d.jobs ≡ [] → (worker_fn i d).jobs ≡ []
unfolding worker_fn
worker_fn-empty i d e = elim (Option-cases (get_elem? d.workers i)) [
  | inl gone ↦ rw (gone, worker_fn) e
  | inr (w, at) ↦ rw (at, worker_fn) (advance-empty i d w e)
]

pub worker_fn-Stirs :
    (i : ℕ) (d : Daemon) (w : Worker)
    → get_elem? d.workers i ≡ some w
    → IsGuarded d
    → Stirs i (worker_fn i d)
unfolding worker_fn
worker_fn-Stirs i d w at g = rw (at, worker_fn) (advance-Stirs i d w at g)

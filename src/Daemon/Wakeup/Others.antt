-- ===== src/Daemon/Wakeup/Others.antt =====
-- What a worker's step leaves alone (bbviewd.c): the other workers and the listener.
use bbview.Base.{
  ℕ, zero, suc, ◌≡◌, refl, inl, inr, List, [], ◌∷◌, false, Bool-cases, Option-cases, arith, ◌==◌,
  get_elem?, set,
}
use bbview.Daemon.{
  Daemon, Worker, starting, looking, checked, waiting, working, leaving, ended, worker_fn, advance,
  dequeue,
}

pub get_elem?-set_other :
    (ws : List Worker) (i j : ℕ) (w : Worker)
    → (i == j) ≡ false
    → get_elem? (set ws j w) i ≡ get_elem? ws i
get_elem?-set_other [] i j w e = refl
get_elem?-set_other (x ∷ ws) zero zero w e = cc
get_elem?-set_other (x ∷ ws) zero (suc j) w e = refl
get_elem?-set_other (x ∷ ws) (suc i) zero w e = refl
get_elem?-set_other (x ∷ ws) (suc i) (suc j) w e = get_elem?-set_other ws i j w (ground (arith, e))

-- Another worker's step.
abbrev pub Aside : ℕ → Daemon → Daemon → Type 0
Aside i d d' = (get_elem? d'.workers i ≡ get_elem? d.workers i) × (d'.listener ≡ d.listener)

dequeue-Aside :
    (i j : ℕ) (d : Daemon) (js : List (List ℕ))
    → d.jobs ≡ js
    → (i == j) ≡ false
    → Aside i d (dequeue j d)
unfolding dequeue
dequeue-Aside i j d [] e other =
    let left = get_elem?-set_other d.workers i j leaving other in
    let waits = get_elem?-set_other d.workers i j checked other in
    rw (e, dequeue)
      (elim (Bool-cases d.shutting_down) [ inl b ↦ rw b (left, refl) | inr b ↦ rw b (waits, refl) ])
dequeue-Aside i j d (x ∷ js) e other =
    rw (e, dequeue) (get_elem?-set_other d.workers i j (working x) other, refl)

advance-Aside : (i j : ℕ) (d : Daemon) (w : Worker) → (i == j) ≡ false → Aside i d (advance j d w)
unfolding advance
advance-Aside i j d starting e = (get_elem?-set_other d.workers i j looking e, refl)
advance-Aside i j d looking e =
    let other = dequeue-Aside i j d d.jobs refl e in ground (arith, other)
advance-Aside i j d checked e = (get_elem?-set_other d.workers i j waiting e, refl)
advance-Aside i j d waiting e = (get_elem?-set_other d.workers i j looking e, refl)
advance-Aside i j d (working x) e = (get_elem?-set_other d.workers i j looking e, refl)
advance-Aside i j d leaving e = (get_elem?-set_other d.workers i j ended e, refl)
advance-Aside i j d ended e = (refl, refl)

pub worker_fn-Aside : (i j : ℕ) (d : Daemon) → (i == j) ≡ false → Aside i d (worker_fn j d)
unfolding worker_fn
worker_fn-Aside i j d e = elim (Option-cases (get_elem? d.workers j)) [
  | inl none_there ↦ rw (none_there, worker_fn) (refl, refl)
  | inr (w, at) ↦ rw (at, worker_fn) (advance-Aside i j d w e)
]

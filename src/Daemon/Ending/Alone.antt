-- ===== src/Daemon/Ending/Alone.antt =====
-- One worker alone, once the request to terminate is there (bbviewd.c).
use bbview.Base.{
  ℕ, suc, ◌+◌, ◌-◌, ◌≡◌, refl, sym, ap, subst, ◌∙◌, List, [], ◌∷◌, ◌++◌, Bool, true, false, some,
  ◌==◌, if◌then◌else◌, get_elem?, set,
}
use bbview.Daemon.{
  Daemon, Worker, starting, looking, checked, waiting, working, leaving, ended, advance, dequeue,
  turn, run,
}
use bbview.Daemon.Wakeup.Drains.{alone, worker_fn-at, looking-takes}
use bbview.Daemon.Wakeup.Others.{get_elem?-set_other}
use bbview.Daemon.Wakeup.Stirring.{get_elem?-set_there}

-- The mutex is free and the daemon is to end.
pub record IsClosing (d : Daemon) : Type 0 where
  pub free : d.held ≡ false
  pub shut : d.shutting_down ≡ true

-- What the turns of worker `i` leave alone.
pub record Spares (i : ℕ) (d d' : Daemon) : Type 0 where
  pub closing : IsClosing d'
  pub others : (j : ℕ) → (j == i) ≡ false → get_elem? d'.workers j ≡ get_elem? d.workers j
  pub heard : d'.listener ≡ d.listener
  pub admitted : d'.enqueued ≡ d.enqueued

Spares-trans : (i : ℕ) (a b c : Daemon) → Spares i a b → Spares i b c → Spares i a c
Spares-trans i a b c p q = record {
  closing = q.closing;
  others = λ j apart. q.others j apart ∙ p.others j apart;
  heard = q.heard ∙ p.heard;
  admitted = q.admitted ∙ p.admitted;
}

-- A step to another place.
moved-Spares :
    (i : ℕ) (d : Daemon) (v : Worker) (active finished : ℕ) (held : Bool)
    → held ≡ false
    → IsClosing d
    → Spares i d (record d {
      held = held;
      active_workers = active;
      finished = finished;
      workers = set d.workers i v;
    })
moved-Spares i d v active finished held free c = record {
  closing = record { free = free; shut = c.shut };
  others = λ j apart. get_elem?-set_other d.workers j i v apart;
  heard = refl;
  admitted = refl;
}

-- A worker at its end.
abbrev pub Ends : ℕ → Daemon → Daemon → Type 0
Ends i d d' = Spares i d d' × (get_elem? d'.workers i ≡ some ended)

-- It takes the turns that follow one of them.
then-Ends :
    (i : ℕ) (d d1 : Daemon) (w : Worker)
    → get_elem? d.workers i ≡ some w
    → advance i d w ≡ d1
    → Spares i d d1
    → (k : ℕ) × Ends i d1 (run (alone i k) d1)
    → (k : ℕ) × Ends i d (run (alone i k) d)
unfolding run turn
then-Ends i d d1 w at e spares (k, (rest, gone)) =
    let first = worker_fn-at i d w at ∙ e in
    (
      suc k,
      subst (λ x. Ends i d (run (alone i k) x)) (sym first)
          (Spares-trans i d d1 _ spares rest, gone),
    )

ended-Ends :
    (i : ℕ) (d : Daemon)
    → get_elem? d.workers i ≡ some ended
    → IsClosing d
    → (k : ℕ) × Ends i d (run (alone i k) d)
unfolding run
ended-Ends i d at c =
    (0, (record { closing = c; others = λ j apart. refl; heard = refl; admitted = refl }, at))

leaving-Ends :
    (i : ℕ) (d : Daemon)
    → get_elem? d.workers i ≡ some leaving
    → IsClosing d
    → (k : ℕ) × Ends i d (run (alone i k) d)
unfolding advance
leaving-Ends i d at c =
    let spares = moved-Spares i d ended (d.active_workers - 1) d.finished d.held c.free c in
    let d1 = advance i d leaving in
    then-Ends i d d1 leaving at refl spares
      (ended-Ends i d1 (get_elem?-set_there d.workers i leaving ended at) spares.closing)

dequeue-leaves :
    (i : ℕ) (d : Daemon)
    → d.jobs ≡ []
    → IsClosing d
    → advance i d looking ≡ record d { workers = set d.workers i leaving }
unfolding advance dequeue
dequeue-leaves i d e c =
    let out = record d { workers = set d.workers i leaving } in
    let waits = record d { workers = set d.workers i checked; held = true } in
    ap (λ h. if h then d else dequeue i d) c.free
    ∙ ap
        (λ q. elim q [
          | [] ↦ if d.shutting_down then out else waits
          | j ∷ js ↦ record d {
            jobs = js;
            taken = d.taken ++ (j ∷ []);
            workers = set d.workers i (working j);
          }
        ])
        e
    ∙ ap (λ b. if b then out else waits) c.shut

-- It takes the jobs one after the other, and leaves.
looking-Ends :
    (i : ℕ) (js : List (List ℕ)) (d : Daemon)
    → d.jobs ≡ js
    → get_elem? d.workers i ≡ some looking
    → IsClosing d
    → (k : ℕ) × Ends i d (run (alone i k) d)
unfolding advance
looking-Ends i [] d e at c =
    let d1 = record d { workers = set d.workers i leaving } in
    let spares = moved-Spares i d leaving d.active_workers d.finished d.held c.free c in
    then-Ends i d d1 looking at (dequeue-leaves i d e c) spares
      (leaving-Ends i d1 (get_elem?-set_there d.workers i looking leaving at) spares.closing)
looking-Ends i (x ∷ js) d e at c =
    let d1 = record d {
      jobs = js;
      taken = d.taken ++ (x ∷ []);
      workers = set d.workers i (working x);
    } in
    let at1 = get_elem?-set_there d.workers i looking (working x) at in
    let spares : Spares i d d1 = record {
      closing = record { free = c.free; shut = c.shut };
      others = λ j apart. get_elem?-set_other d.workers j i (working x) apart;
      heard = refl;
      admitted = refl;
    } in
    let d2 = advance i d1 (working x) in
    let spares' =
      moved-Spares i d1 looking d1.active_workers (d1.finished + 1) d1.held c.free spares.closing in
    then-Ends i d d1 looking at (looking-takes i d x js e c.free) spares (
      then-Ends i d1 d2 (working x) at1 refl spares' (
        looking-Ends i js d2 refl (get_elem?-set_there d1.workers i (working x) looking at1)
          spares'.closing))

waiting-Ends :
    (i : ℕ) (d : Daemon)
    → get_elem? d.workers i ≡ some waiting
    → IsClosing d
    → (k : ℕ) × Ends i d (run (alone i k) d)
unfolding advance
waiting-Ends i d at c =
    let spares = moved-Spares i d looking d.active_workers d.finished d.held c.free c in
    let d1 = advance i d waiting in
    then-Ends i d d1 waiting at refl spares (
      looking-Ends i d1.jobs d1 refl (get_elem?-set_there d.workers i waiting looking at)
        spares.closing)

-- Wherever worker `i` is, by its own turns it comes to its end.
pub worker-Ends :
    (i : ℕ) (d : Daemon) (w : Worker)
    → get_elem? d.workers i ≡ some w
    → IsClosing d
    → (k : ℕ) × Ends i d (run (alone i k) d)
unfolding advance
worker-Ends i d starting at c =
    let spares = moved-Spares i d looking (d.active_workers + 1) d.finished d.held c.free c in
    let d1 = advance i d starting in
    then-Ends i d d1 starting at refl spares (
      looking-Ends i d1.jobs d1 refl (get_elem?-set_there d.workers i starting looking at)
        spares.closing)
worker-Ends i d looking at c = looking-Ends i d.jobs d refl at c
worker-Ends i d checked at c =
    let spares = moved-Spares i d waiting d.active_workers d.finished false refl c in
    let d1 = advance i d checked in
    then-Ends i d d1 checked at refl spares
      (waiting-Ends i d1 (get_elem?-set_there d.workers i checked waiting at) spares.closing)
worker-Ends i d waiting at c = waiting-Ends i d at c
worker-Ends i d (working x) at c =
    let spares = moved-Spares i d looking d.active_workers (d.finished + 1) d.held c.free c in
    let d1 = advance i d (working x) in
    then-Ends i d d1 (working x) at refl spares (
      looking-Ends i d1.jobs d1 refl (get_elem?-set_there d.workers i (working x) looking at)
        spares.closing)
worker-Ends i d leaving at c = leaving-Ends i d at c
worker-Ends i d ended at c = ended-Ends i d at c

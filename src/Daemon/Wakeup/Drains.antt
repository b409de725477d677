-- ===== src/Daemon/Wakeup/Drains.antt =====
-- How a worker that is awake empties the queue (bbviewd.c).
use mathlib.Core.List.{append-nil}
use bbview.Base.{
  ℕ, zero, suc, ◌+◌, ◌≡◌, ◌≢◌, ◌≤◌, ◌*◌, refl, sym, ap, ◌∙◌, inl, inr, List, [], ◌∷◌, ◌++◌, false,
  not, ◌&&◌, Bool-cases, Option, some, arith, if◌then◌else◌, get_elem?, set, length,
}
use bbview.Daemon.{
  Daemon, Worker, starting, looking, checked, waiting, working, leaving, ended, Turn, worker,
  worker_fn, advance, dequeue,
}
use bbview.Daemon.Counts.{is_gone, one, count-positive}
use bbview.Daemon.Wakeup.{
  Sleepers, is_asleep, is_waiting, worker_turn, wakeful_turn, wakeful_run, wakeful_main,
}
use bbview.Daemon.Wakeup.Guarded.{is_checked}
use bbview.Daemon.Wakeup.Stirring.{get_elem?-set_there}
use bbview.Daemon.Wakeup.Awake.{IsSignal}
use bbview.Daemon.Wakeup.Served.{IsManned, run-IsManned, main-IsManned}

worker_turn-awake :
    (i : ℕ) (s : Sleepers) → is_asleep i s ≡ false → (worker_turn i s).daemon ≡ worker_fn i s.daemon
unfolding worker_turn
worker_turn-awake i s up = rw up refl

pub worker_fn-at :
    (i : ℕ) (d : Daemon) (w : Worker)
    → get_elem? d.workers i ≡ some w
    → worker_fn i d ≡ advance i d w
unfolding worker_fn
worker_fn-at i d w at = rw (at, worker_fn) refl

-- A worker that does not wait is awake.
busy-awake :
    (i : ℕ) (s : Sleepers) (w : Worker)
    → get_elem? s.daemon.workers i ≡ some w
    → is_waiting (some w) ≡ false
    → is_asleep i s ≡ false
busy-awake i s w at busy = ap (λ x. is_waiting x && not (s.woken i)) at ∙ rw busy refl

pub looking-takes :
    (i : ℕ) (d : Daemon) (x : List ℕ) (js : List (List ℕ))
    → d.jobs ≡ x ∷ js
    → d.held ≡ false
    → advance i d looking
      ≡ record d { jobs = js; taken = d.taken ++ (x ∷ []); workers = set d.workers i (working x) }
unfolding advance dequeue
looking-takes i d x js jobs free =
    ap (λ h. if h then d else dequeue i d) free ∙ (rw (jobs, dequeue) refl)

-- `k` turns of worker `i`.
abbrev pub alone : ℕ → ℕ → List Turn
alone i zero = []
alone i (suc k) = worker i ∷ alone i k

module _ (pick : Sleepers → Option ℕ) (signal : IsSignal pick) where
  awake_turn :
      (i : ℕ) (s : Sleepers) (w : Worker)
      → get_elem? s.daemon.workers i ≡ some w
      → is_asleep i s ≡ false
      → (wakeful_turn pick (worker i) s).daemon ≡ advance i s.daemon w
  unfolding wakeful_turn
  awake_turn i s w at up = worker_turn-awake i s up ∙ worker_fn-at i s.daemon w at

  -- Two turns of a worker that looks at the queue: one job less.
  two_turns :
      (i : ℕ) (s : Sleepers) (x : List ℕ) (js : List (List ℕ))
      → s.daemon.jobs ≡ x ∷ js
      → get_elem? s.daemon.workers i ≡ some looking
      → s.daemon.held ≡ false
      → let d = (wakeful_turn pick (worker i) (wakeful_turn pick (worker i) s)).daemon in
        (d.jobs ≡ js) × (get_elem? d.workers i ≡ some looking) × (d.held ≡ false)
  unfolding advance
  two_turns i s x js jobs at free =
      let d = s.daemon in
      let s1 = wakeful_turn pick (worker i) s in
      let e1 =
        awake_turn i s looking at (busy-awake i s looking at refl)
        ∙ looking-takes i d x js jobs free in
      let there = get_elem?-set_there d.workers i looking (working x) at in
      let at1 : get_elem? s1.daemon.workers i ≡ some (working x) =
        ap (λ (e : Daemon). get_elem? e.workers i) e1 ∙ there in
      let e2 = awake_turn i s1 (working x) at1 (busy-awake i s1 (working x) at1 refl) in
      (
        ap (λ (e : Daemon). e.jobs) e2 ∙ ap (λ (e : Daemon). e.jobs) e1,
        ap (λ (e : Daemon). get_elem? e.workers i) e2
            ∙ get_elem?-set_there s1.daemon.workers i (working x) looking at1,
        ap (λ (e : Daemon). e.held) e2 ∙ ap (λ (e : Daemon). e.held) e1 ∙ free,
      )

  looking_drains :
      (i : ℕ) (js : List (List ℕ)) (s : Sleepers)
      → s.daemon.jobs ≡ js
      → get_elem? s.daemon.workers i ≡ some looking
      → s.daemon.held ≡ false
      → (k : ℕ) × (k ≤ 2 * length js) × ((wakeful_run pick (alone i k) s).daemon.jobs ≡ [])
  unfolding wakeful_run
  looking_drains i [] s jobs at free = (0, omega arith, jobs)
  looking_drains i (x ∷ js) s jobs at free =
      let (jobs', at', free') = two_turns i s x js jobs at free in
      let s' = wakeful_turn pick (worker i) (wakeful_turn pick (worker i) s) in
      let (k, few, drained) = looking_drains i js s' jobs' at' free' in
      (suc (suc k), omega (arith, few), drained)

  -- A turn that brings worker `i` to the queue, which it then empties.
  joins :
      (i : ℕ) (s : Sleepers) (w : Worker)
      → get_elem? s.daemon.workers i ≡ some w
      → is_asleep i s ≡ false
      → s.daemon.held ≡ false
      → (advance i s.daemon w).jobs ≡ s.daemon.jobs
      → get_elem? (advance i s.daemon w).workers i ≡ some looking
      → (advance i s.daemon w).held ≡ s.daemon.held
      → (k : ℕ) × (k ≤ 2 * length s.daemon.jobs + 1)
        × ((wakeful_run pick (alone i k) s).daemon.jobs ≡ [])
  unfolding wakeful_run
  joins i s w at up free jobs comes keeps =
      let e = awake_turn i s w at up in
      let s1 = wakeful_turn pick (worker i) s in
      let (k, few, drained) =
        looking_drains i s.daemon.jobs s1 (ap (λ (d : Daemon). d.jobs) e ∙ jobs)
          (ap (λ (d : Daemon). get_elem? d.workers i) e ∙ comes)
          (ap (λ (d : Daemon). d.held) e ∙ keeps ∙ free) in
      (suc k, omega (arith, few), drained)

  up_drains :
      (i : ℕ) (s : Sleepers) (w : Worker)
      → get_elem? s.daemon.workers i ≡ some w
      → is_asleep i s ≡ false
      → s.daemon.held ≡ false
      → s.daemon.jobs ≢ []
      → IsManned s
      → (k : ℕ) × (k ≤ 2 * length s.daemon.jobs + 1)
        × ((wakeful_run pick (alone i k) s).daemon.jobs ≡ [])
  unfolding advance
  up_drains i s starting at up free some_job m =
      joins i s starting at up free refl
        (get_elem?-set_there s.daemon.workers i starting looking at) refl
  up_drains i s looking at up free some_job m =
      let (k, few, drained) = looking_drains i s.daemon.jobs s refl at free in
      (k, omega (arith, few), drained)
  up_drains i s checked at up free some_job m =
      let there = count-positive is_checked s.daemon.workers i checked at refl in
      absurd (omega (arith, there, m.guarded.mutex, ap one free))
  up_drains i s waiting at up free some_job m =
      joins i s waiting at up free refl (get_elem?-set_there s.daemon.workers i waiting looking at)
        refl
  up_drains i s (working x) at up free some_job m =
      joins i s (working x) at up free refl
        (get_elem?-set_there s.daemon.workers i (working x) looking at) refl
  up_drains i s leaving at up free some_job m =
      absurd
        (some_job (m.sound.drained (count-positive is_gone s.daemon.workers i leaving at refl)).1)
  up_drains i s ended at up free some_job m =
      absurd
        (some_job (m.sound.drained (count-positive is_gone s.daemon.workers i ended at refl)).1)

  manned_drains :
      (js : List (List ℕ)) (s : Sleepers)
      → s.daemon.jobs ≡ js
      → IsManned s
      → (i : ℕ) × (k : ℕ) × (k ≤ 2 * length s.daemon.jobs + 1)
        × ((wakeful_run pick (alone i k) s).daemon.jobs ≡ [])
  unfolding wakeful_run
  manned_drains [] s e m = (0, 0, omega arith, e)
  manned_drains (x ∷ js) s e m =
      let some_job : s.daemon.jobs ≢ [] = λ none_left. let clash = sym e ∙ none_left in cc in
      let free : s.daemon.held ≡ false = elim (Bool-cases s.daemon.held) [
        | inl b ↦ absurd (some_job (m.guarded.empty b))
        | inr b ↦ b
      ] in
      let (i, (w, at, up)) = m.served some_job in
      let (k, few, drained) = up_drains i s w at up free some_job m in (i, k, few, drained)

  -- With one worker or more, and a signal that wakes one of the workers that wait, if any do: whatever
  -- the threads have done and whatever has arrived, some one worker empties the queue by its own turns, of
  -- which it needs two for each job and one more at most, and all jobs are then taken in their order.
  pub queue_drains :
      (n : ℕ) (ts : List Turn)
      → let s = wakeful_run pick ts (wakeful_main (suc n)) in
        (i : ℕ) × (k : ℕ) × (k ≤ 2 * length s.daemon.jobs + 1)
        × ((wakeful_run pick (alone i k) s).daemon.jobs ≡ [])
        × ((wakeful_run pick (alone i k) s).daemon.taken
            ≡ (wakeful_run pick (alone i k) s).daemon.enqueued)
  queue_drains n ts =
      let s = wakeful_run pick ts (wakeful_main (suc n)) in
      let m = run-IsManned pick signal ts (wakeful_main (suc n)) (main-IsManned pick signal n) in
      let (i, k, few, drained) = manned_drains s.daemon.jobs s refl m in
      let d = (wakeful_run pick (alone i k) s).daemon in
      let fifo = (run-IsManned pick signal (alone i k) s m).sound.fifo in
      (i, k, few, drained, sym (fifo ∙ ap (λ q. d.taken ++ q) drained ∙ append-nil d.taken))

-- ===== src/Tests/Wakeups.antt =====
-- The theorems on the condition variable at concrete schedules.
use bbview.Base.{
  refl, sym, ap, ◌∙◌, ℕ, zero, suc, ◌+◌, ◌*◌, ◌<◌, ◌≤◌, ◌==◌, inl, inr, true, arith, Bool-cases,
  if◌then◌else◌, length, ◌≡◌, List, [], ◌∷◌, false, Option, none, some, get_elem?,
}
use bbview.Daemon.{Worker, Turn, listener, worker, message, terminate, waiting, draining}
use bbview.Daemon.Wakeup.Awake.{IsSignal, asleep-there}
use bbview.Daemon.Wakeup.Drains.{alone, queue_drains}
use bbview.Daemon.Wakeup.{Sleepers, is_asleep, wakeful_run, wakeful_main}
use bbview.Daemon.Wakeup.Lost.{too_late, wakeup_lost}

-- A signal that wakes the first worker.
abbrev the_first : Sleepers → Option ℕ
the_first s = some 0

-- Another worker, a job and a second request do not help.
wakeup_lost_example :
    let s =
      wakeful_run the_first
        (worker 1
          ∷ listener (message (47 ∷ 97 ∷ []))
          ∷ worker 0
          ∷ listener (message terminate)
          ∷ [])
        (wakeful_run the_first (too_late the_first) (wakeful_main 2)) in
    (s.daemon.listener ≡ draining)
    × (get_elem? s.daemon.workers 0 ≡ some waiting)
    × (s.woken 0 ≡ false)
wakeup_lost_example =
    wakeup_lost the_first 1
      (worker 1 ∷ listener (message (47 ∷ 97 ∷ [])) ∷ worker 0 ∷ listener (message terminate) ∷ [])

-- A signal that wakes the last of the workers that wait.
abbrev last_asleep : Sleepers → ℕ → Option ℕ
last_asleep s zero = none
last_asleep s (suc n) = let rest = last_asleep s n in if is_asleep n s then some n else rest

last_asleep-finds :
    (s : Sleepers) (n i : ℕ)
    → i < n
    → is_asleep i s ≡ true
    → (j : ℕ) × (last_asleep s n ≡ some j) × (is_asleep j s ≡ true)
last_asleep-finds s zero i h e = absurd (omega (arith, h))
last_asleep-finds s (suc n) i h e = elim (Bool-cases (is_asleep n s)) [
  | inl b ↦ (n, rw b refl, b)
  | inr b ↦
      let other : (i == n) ≡ false = elim (Bool-cases (i == n)) [
        | inl same ↦
            let here : i ≡ n = ground (arith, same) in
            let clash = sym (ap (λ k. is_asleep k s) here ∙ b) ∙ e in cc
        | inr apart ↦ apart
      ] in
      let (j, found, down) = last_asleep-finds s n i (ground (arith, h, other)) e in
      (j, rw b found, down)
]

abbrev the_last : Sleepers → Option ℕ
the_last s = last_asleep s (length s.daemon.workers)

within : (ws : List Worker) (i : ℕ) (w : Worker) → get_elem? ws i ≡ some w → i < length ws
within [] i w e = cc
within (x ∷ ws) zero w e = omega arith
within (x ∷ ws) (suc i) w e = let rest = within ws i w e in omega (arith, rest)

the_last-IsSignal : IsSignal the_last
the_last-IsSignal s i down =
    let (w, there) = asleep-there i s down in
    last_asleep-finds s (length s.daemon.workers) i (within s.daemon.workers i w there) down

-- Two workers asleep, and two jobs.
abbrev two_jobs : List Turn
two_jobs =
    worker 0
    ∷ worker 0
    ∷ worker 0
    ∷ worker 1
    ∷ worker 1
    ∷ worker 1
    ∷ listener (message (47 ∷ 97 ∷ []))
    ∷ listener (message (47 ∷ 98 ∷ []))
    ∷ []

queue_drains_example :
    let s = wakeful_run the_last two_jobs (wakeful_main 2) in
    (i : ℕ) × (k : ℕ) × (k ≤ 2 * length s.daemon.jobs + 1)
    × ((wakeful_run the_last (alone i k) s).daemon.jobs ≡ [])
    × ((wakeful_run the_last (alone i k) s).daemon.taken
        ≡ (wakeful_run the_last (alone i k) s).daemon.enqueued)
queue_drains_example = queue_drains the_last the_last-IsSignal 1 two_jobs

-- ===== src/Daemon/Wakeup/Awake.antt =====
-- Who takes the jobs (bbviewd.c): `enqueue` signals under the mutex.
use bbview.Base.{
  ℕ, ◌≡◌, ◌≢◌, refl, sym, ap, ◌∙◌, inl, inr, List, [], ◌∷◌, Bool, true, false, not, ◌&&◌,
  Bool-cases, Option, Option-cases, none, some, arith, ◌==◌, if◌then◌else◌, get_elem?,
}
use bbview.Daemon.{
  starved, refuse, Daemon, Worker, Listener, accepting, raised, draining, answered, broken,
  is_accepting, Arrival, interrupted, failed, message, terminate, is_prefix, job_name, listen,
  accept, receive, enqueue, worker_fn,
}
use bbview.Daemon.Wakeup.{Sleepers, is_asleep, is_waiting, is_job, wake, worker_turn, woken_by}
use bbview.Daemon.Wakeup.Guarded.{IsGuarded}
use bbview.Daemon.Wakeup.Others.{worker_fn-Aside}
use bbview.Daemon.Wakeup.Stirring.{worker_fn-empty, worker_fn-Stirs}

-- A signal wakes one of those that wait, if any do.
abbrev pub IsSignal : (Sleepers → Option ℕ) → Type 0
IsSignal pick =
    (s : Sleepers) (i : ℕ)
    → is_asleep i s ≡ true
    → (j : ℕ) × (pick s ≡ some j) × (is_asleep j s ≡ true)

-- Worker `i` is there and does not sleep.
abbrev pub IsUp : ℕ → Sleepers → Type 0
IsUp i s = (w : Worker) × (get_elem? s.daemon.workers i ≡ some w) × (is_asleep i s ≡ false)

abbrev pub IsServed : Sleepers → Type 0
IsServed s = s.daemon.jobs ≢ [] → (i : ℕ) × IsUp i s

-- Worker 0 is there.
abbrev pub IsStaffed : Sleepers → Type 0
IsStaffed s = (w : Worker) × (get_elem? s.daemon.workers 0 ≡ some w)

still_up : (a b c : Bool) → (a && not b) ≡ false → (b ≡ true → c ≡ true) → (a && not c) ≡ false
still_up false b c e later = refl
still_up true true c e later = rw (later refl) refl
still_up true false c e later = cc

-- The same worker is up where its place is the same and it is as awake as before.
IsUp-kept :
    (i : ℕ) (s : Sleepers) (d : Daemon) (woken : ℕ → Bool)
    → get_elem? d.workers i ≡ get_elem? s.daemon.workers i
    → (s.woken i ≡ true → woken i ≡ true)
    → IsUp i s
    → IsUp i (record { daemon = d; woken = woken })
IsUp-kept i s d woken same later (w, at, up) = (
  w,
  same ∙ at,
  ap (λ x. is_waiting x && not (woken i)) same ∙ still_up _ (s.woken i) (woken i) up later,
)

pub worker-IsServed :
    (j : ℕ) (s : Sleepers) → IsGuarded s.daemon → IsServed s → IsServed (worker_turn j s)
unfolding worker_turn
worker-IsServed j s g served = elim (Bool-cases (is_asleep j s)) [
  | inl e ↦ rw e served
  | inr e ↦ rw e (λ some_job.
      let (i, (w, at, up)) =
        served (λ none_left. some_job (worker_fn-empty j s.daemon none_left)) in
      elim (Bool-cases (i == j)) [
        | inr apart ↦ (
          i,
          IsUp-kept i s (worker_fn j s.daemon) (λ k. if k == j then false else s.woken k)
              (worker_fn-Aside i j s.daemon apart).0 (λ h. rw apart h) (w, at, up),
        )
        | inl same ↦
            let here : i ≡ j = ground (arith, same) in
            let (v, at', stirs) =
              worker_fn-Stirs j s.daemon w (ap (λ k. get_elem? s.daemon.workers k) (sym here) ∙ at)
                g some_job in
            (
              j,
              (
                v,
                at',
                ap (λ x. is_waiting x && not (if j == j then false else s.woken j)) at'
                    ∙ rw stirs refl,
              ),
            )
      ])
]

roused : (a c : Bool) → c ≡ true → (a && not c) ≡ false
roused false c e = refl
roused true c e = rw e refl

wake-picked : (j : ℕ) (woken : ℕ → Bool) → wake (some j) woken j ≡ true
wake-picked j woken = let same : (j == j) ≡ true = ground arith in rw same refl

wake-stays :
    (pick : Option ℕ) (woken : ℕ → Bool) (i : ℕ) → woken i ≡ true → wake pick woken i ≡ true
wake-stays none woken i e = e
wake-stays (some j) woken i e = elim (Bool-cases (i == j)) [ inl b ↦ rw b refl | inr b ↦ rw b e ]

pub asleep-there :
    (j : ℕ) (s : Sleepers)
    → is_asleep j s ≡ true
    → (v : Worker) × (get_elem? s.daemon.workers j ≡ some v)
asleep-there j s e = elim (Option-cases (get_elem? s.daemon.workers j)) [
  | inl gone ↦ (let clash = sym (ap (λ x. is_waiting x && not (s.woken j)) gone) ∙ e in cc)
  | inr there ↦ there
]

if-IsServed :
    (b : Bool) (x y : Daemon) (u v : ℕ → Bool)
    → IsServed (record { daemon = x; woken = u })
    → IsServed (record { daemon = y; woken = v })
    → IsServed (record { daemon = if b then x else y; woken = if not b then v else u })
if-IsServed true x y u v p q = p
if-IsServed false x y u v p q = q

answer_kept :
    (b : Bool) (d : Daemon)
    → ((if b then record d { listener = answered } else d).workers ≡ d.workers)
      × ((if b then record d { listener = answered } else d).jobs ≡ d.jobs)
answer_kept true d = (refl, refl)
answer_kept false d = (refl, refl)

-- A last look at `active_workers` changes neither the workers nor the queue.
draining-kept :
    (a : Arrival) (d : Daemon)
    → ((listen a d draining).workers ≡ d.workers) × ((listen a d draining).jobs ≡ d.jobs)
unfolding listen
draining-kept a d = answer_kept (d.active_workers == 0) d

module _ (pick : Sleepers → Option ℕ) (signal : IsSignal pick) where
  job-IsServed :
      (s : Sleepers) (path : List ℕ)
      → IsStaffed s
      → (i : ℕ) × IsUp i (record { daemon = enqueue path s.daemon; woken = wake (pick s) s.woken })
  unfolding enqueue
  job-IsServed s path (w, at) =
      let d = enqueue path s.daemon in
      elim (Bool-cases (is_asleep 0 s)) [
        | inr up ↦ (
          0,
          IsUp-kept 0 s d (wake (pick s) s.woken) refl (wake-stays (pick s) s.woken 0) (w, at, up),
        )
        | inl down ↦
            let (j, picked, asleep) = signal s 0 down in
            let (v, there) = asleep-there j s asleep in
            (
              j,
              (
                v,
                there,
                roused _ (wake (pick s) s.woken j)
                    (ap (λ p. wake p s.woken j) picked ∙ wake-picked j s.woken),
              ),
            )
      ]

  -- A turn of the listener that leaves the workers and the queue alone.
  listened-IsServed :
      (s : Sleepers) (d : Daemon) (woken : ℕ → Bool)
      → d.workers ≡ s.daemon.workers
      → d.jobs ≡ s.daemon.jobs
      → ((i : ℕ) → s.woken i ≡ true → woken i ≡ true)
      → IsServed s
      → IsServed (record { daemon = d; woken = woken })
  listened-IsServed s d woken same kept later served some_job =
      let (i, up) = served (λ none_left. some_job (kept ∙ none_left)) in
      (i, IsUp-kept i s d woken (ap (λ ws. get_elem? ws i) same) (later i) up)

  receive-IsServed :
      (buf : List ℕ) (s : Sleepers)
      → IsStaffed s
      → IsServed s
      → IsServed (record {
        daemon = receive buf s.daemon;
        woken = if is_job buf s.daemon.held then wake (pick s) s.woken else s.woken;
      })
  unfolding receive
  receive-IsServed [] s staffed served = served
  receive-IsServed (c ∷ cs) s staffed served = elim (Bool-cases (is_prefix terminate (c ∷ cs))) [
    | inl b ↦ rw b (
        listened-IsServed s (record s.daemon { shutting_down = true; listener = raised }) s.woken
          refl refl (λ i h. h) served)
    | inr b ↦ rw b (
        if-IsServed s.daemon.held s.daemon (enqueue (job_name (c ∷ cs)) s.daemon) s.woken
          (wake (pick s) s.woken) served (λ some_job. job-IsServed s (job_name (c ∷ cs)) staffed))
  ]

  refuse-IsServed :
      (buf : List ℕ) (s : Sleepers)
      → IsServed s
      → IsServed (record { daemon = refuse buf s.daemon; woken = s.woken })
  unfolding refuse
  refuse-IsServed [] s served = served
  refuse-IsServed (c ∷ cs) s served = elim (Bool-cases (is_prefix terminate (c ∷ cs))) [
    | inl b ↦ rw b (
        listened-IsServed s (record s.daemon { shutting_down = true; listener = raised }) s.woken
          refl refl (λ i h. h) served)
    | inr b ↦ rw b served
  ]

  -- Behind its accept loop the listener puts nobody to sleep.
  woken_by-stays :
      (a : Arrival) (l : Listener) (s : Sleepers) (i : ℕ)
      → is_accepting l ≡ false
      → s.woken i ≡ true
      → woken_by pick a l s i ≡ true
  unfolding woken_by
  woken_by-stays a l s i behind h = ground (arith, behind, h)

  pub listen-IsServed :
      (a : Arrival) (l : Listener) (s : Sleepers)
      → IsStaffed s
      → IsServed s
      → IsServed (record { daemon = listen a s.daemon l; woken = woken_by pick a l s })
  unfolding listen accept woken_by
  listen-IsServed (message buf) accepting s staffed served = receive-IsServed buf s staffed served
  listen-IsServed (starved buf) accepting s staffed served = refuse-IsServed buf s served
  listen-IsServed interrupted accepting s staffed served = served
  listen-IsServed failed accepting s staffed served =
      listened-IsServed s (record s.daemon { listener = broken }) s.woken refl refl (λ i h. h)
        served
  listen-IsServed a raised s staffed served =
      listened-IsServed s (record s.daemon { listener = draining }) (woken_by pick a raised s) refl
        refl (λ i. woken_by-stays a raised s i refl) served
  listen-IsServed a draining s staffed served =
      listened-IsServed s (listen a s.daemon draining) (woken_by pick a draining s)
        (draining-kept a s.daemon).0 (draining-kept a s.daemon).1
        (λ i. woken_by-stays a draining s i refl) served
  listen-IsServed a answered s staffed served =
      listened-IsServed s s.daemon (woken_by pick a answered s) refl refl
        (λ i. woken_by-stays a answered s i refl) served
  listen-IsServed a broken s staffed served =
      listened-IsServed s s.daemon (woken_by pick a broken s) refl refl
        (λ i. woken_by-stays a broken s i refl) served

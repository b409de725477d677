-- ===== src/Daemon/Wakeup/Lost.antt =====
-- The wake-up that is lost (bbviewd.c): `shutting_down` is set, and `q_cv` broadcast, without `q_mtx`.
use bbview.Base.{
  ℕ, suc, ◌<◌, ◌≡◌, refl, ap, ◌∙◌, inl, inr, List, [], ◌∷◌, Bool, true, false, Bool-cases, Option,
  some, arith, ◌==◌, get_elem?,
}
use bbview.Daemon.{
  starved, Daemon, waiting, draining, Arrival, interrupted, failed, message, Turn, listener, worker,
  terminate, main, listener_loop, listen, accept, receive, worker_fn, advance, dequeue,
}
use bbview.Daemon.Counts.{is_counted, count-positive}
use bbview.Daemon.Draining.{IsSound, main-IsSound}
use bbview.Daemon.Wakeup.{
  Sleepers, is_asleep, worker_turn, woken_by, listener_turn, wakeful_turn, wakeful_run,
  wakeful_main,
}
use bbview.Daemon.Wakeup.Others.{worker_fn-Aside}
use bbview.Daemon.Wakeup.Refined.{wakeful_turn-IsSound, wakeful_run-IsSound}

-- Worker `i` sleeps while the listener waits for it.
pub record IsLost (i : ℕ) (s : Sleepers) : Type 0 where
  pub sleeps : get_elem? s.daemon.workers i ≡ some waiting
  pub unwoken : s.woken i ≡ false
  pub awaited : s.daemon.listener ≡ draining
  pub sound : IsSound s.daemon

-- The listener goes on waiting while a worker is counted.
draining-waits :
    (a : Arrival) (d : Daemon)
    → d.listener ≡ draining
    → 0 < d.active_workers
    → listener_loop a d ≡ d
unfolding listener_loop listen
draining-waits a d waits busy =
    let more : (d.active_workers == 0) ≡ false = ground (arith, busy) in
    ap (listen a d) waits ∙ (rw more refl)

module _ (pick : Sleepers → Option ℕ) where
  woken_by-draining : (a : Arrival) (s : Sleepers) → woken_by pick a draining s ≡ s.woken
  unfolding woken_by
  woken_by-draining interrupted s = refl
  woken_by-draining failed s = refl
  woken_by-draining (message buf) s = refl
  woken_by-draining (starved buf) s = refl

  listener-IsLost :
      (i : ℕ) (a : Arrival) (s : Sleepers) → IsLost i s → IsLost i (listener_turn pick a s)
  unfolding listener_turn
  listener-IsLost i a s lost =
      let busy : 0 < s.daemon.active_workers = omega (
        arith,
        count-positive is_counted s.daemon.workers i waiting lost.sleeps refl,
        lost.sound.counted,
      ) in
      let stays = draining-waits a s.daemon lost.awaited busy in
      let same : woken_by pick a s.daemon.listener s i ≡ s.woken i =
        ap (λ l. woken_by pick a l s i) lost.awaited
        ∙ ap (λ (woken : ℕ → Bool). woken i) (woken_by-draining a s) in
      record {
        sleeps = ap (λ (d : Daemon). get_elem? d.workers i) stays ∙ lost.sleeps;
        unwoken = same ∙ lost.unwoken;
        awaited = ap (λ (d : Daemon). d.listener) stays ∙ lost.awaited;
        sound = rw stays lost.sound;
      }

  worker-IsLost :
      (i j : ℕ) (s : Sleepers)
      → IsLost i s
      → IsSound (worker_turn j s).daemon
      → IsLost i (worker_turn j s)
  unfolding worker_turn
  worker-IsLost i j s lost sound = elim (Bool-cases (is_asleep j s)) [
    | inl e ↦ rw e lost
    | inr e ↦
        let apart : (i == j) ≡ false = elim (Bool-cases (i == j)) [
          | inr other ↦ other
          | inl same ↦
              let here : i ≡ j = ground (arith, same) in
              let asleep : is_asleep i s ≡ true = rw (lost.sleeps, lost.unwoken) refl in
              let clash : is_asleep i s ≡ false = ap (λ k. is_asleep k s) here ∙ e in cc
        ] in
        let (kept, heard) = worker_fn-Aside i j s.daemon apart in
        let woken_sound : IsSound (worker_fn j s.daemon) = rw e at sound in
        rw e (record {
          sleeps = kept ∙ lost.sleeps;
          unwoken = rw apart lost.unwoken;
          awaited = heard ∙ lost.awaited;
          sound = woken_sound;
        })
  ]

  run-IsLost :
      (i : ℕ) (ts : List Turn) (s : Sleepers) → IsLost i s → IsLost i (wakeful_run pick ts s)
  unfolding wakeful_run wakeful_turn
  run-IsLost i [] s lost = lost
  run-IsLost i (listener a ∷ ts) s lost =
      run-IsLost i ts (listener_turn pick a s) (listener-IsLost i a s lost)
  run-IsLost i (worker j ∷ ts) s lost =
      run-IsLost i ts (worker_turn j s)
        (worker-IsLost i j s lost (wakeful_turn-IsSound pick (worker j) s lost.sound))

  -- A worker tests the empty queue, the listener takes the request to terminate and broadcasts, and only
  -- then the worker goes to sleep.
  abbrev pub too_late : List Turn
  too_late =
      worker 0 ∷ worker 0 ∷ listener (message terminate) ∷ listener interrupted ∷ worker 0 ∷ []

  abbrev after : ℕ → Sleepers
  after n = wakeful_run pick too_late (wakeful_main (suc n))

  after-IsSound : (n : ℕ) → IsSound (after n).daemon
  after-IsSound n = wakeful_run-IsSound pick too_late (wakeful_main (suc n)) (main-IsSound (suc n))

  after-IsLost : (n : ℕ) → IsLost 0 (after n)
  unfolding wakeful_run wakeful_turn worker_turn listener_turn woken_by worker_fn advance dequeue
      listener_loop listen accept receive main
  after-IsLost n = record { sleeps = refl; unwoken = refl; awaited = refl; sound = after-IsSound n }

  -- With one worker or more, and whatever worker a signal wakes, there is a schedule after which the
  -- daemon never answers: a worker sleeps, and however the threads and the messages go on, it is not woken
  -- and the listener waits for it.
  pub wakeup_lost :
      (n : ℕ) (ts : List Turn)
      → let s = wakeful_run pick ts (wakeful_run pick too_late (wakeful_main (suc n))) in
        (s.daemon.listener ≡ draining)
        × (get_elem? s.daemon.workers 0 ≡ some waiting)
        × (s.woken 0 ≡ false)
  wakeup_lost n ts =
      let lost = run-IsLost 0 ts (after n) (after-IsLost n) in
      (lost.awaited, lost.sleeps, lost.unwoken)

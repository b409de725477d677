-- ===== src/Daemon/Ending/Possible.antt =====
-- The daemon can end once it is asked to (bbviewd.c).
use mathlib.Core.List.{append-nil}
use bbview.Base.{
  ℕ, suc, ◌≡◌, ◌≢◌, ◌<◌, refl, sym, ap, subst, ◌∙◌, List, [], ◌∷◌, ◌++◌, true, false, some, arith,
  ◌==◌, if◌then◌else◌, get_elem?, length,
}
use bbview.Daemon.{
  Daemon, Worker, ended, Turn, Listener, Arrival, accepting, raised, draining, answered, broken,
  interrupted, is_accepting, listener, listener_loop, listen, turn, run, main,
}
use bbview.Daemon.Counts.{count, is_counted, is_gone, is_working}
use bbview.Daemon.Done.{threads, run-threads, main-threads}
use bbview.Daemon.Draining.{IsSound, run-main-IsSound, run-IsSound, main-IsSound}
use bbview.Daemon.Ending.{joins_all, main_ends}
use bbview.Daemon.Ending.Failed.{joins_all-gone, run-StaysOpen, main-StaysOpen}
use bbview.Daemon.Wakeup.Guarded.{IsGuarded, main-IsGuarded}
use bbview.Daemon.Ending.Together.{run-append, run-IsGuarded, Leads, frees, all_end}

-- Every worker at its end: they are joined, and none is counted or has a job.
ended_joins :
    (ws : List Worker)
    → ((j : ℕ) → j < length ws → get_elem? ws j ≡ some ended)
    → (joins_all ws ≡ true) × (count is_counted ws ≡ 0) × (count is_working ws ≡ 0)
unfolding joins_all count
ended_joins [] h = (refl, refl, refl)
ended_joins (w ∷ ws) h =
    let here : w ≡ ended = let first = h 0 (omega arith) in cc in
    let (joined, uncounted, idle) = ended_joins ws (λ j below. h (suc j) (omega (arith, below))) in
    rw here (joined, omega (arith, uncounted), omega (arith, idle))

-- The broadcast, a look at `active_workers`, and the answer.
abbrev to_answer : List Turn
to_answer = listener interrupted ∷ listener interrupted ∷ []

draining_answers :
    (a : Arrival) (d : Daemon)
    → d.active_workers ≡ 0
    → listen a d draining ≡ record d { listener = answered }
unfolding listen
draining_answers a d idle =
    let none_active : (d.active_workers == 0) ≡ true = ground (arith, idle) in
    ap (λ b. if b then record d { listener = answered } else d) none_active

answers :
    (d : Daemon) (l : Listener)
    → d.listener ≡ l
    → is_accepting l ≡ false
    → l ≢ broken
    → d.active_workers ≡ 0
    → run to_answer d ≡ record d { listener = answered }
unfolding run turn listener_loop listen
answers d accepting at a b idle = cc
answers d broken at a b idle = absurd (b refl)
answers d raised at a b idle =
    ap (listener_loop interrupted) (ap (listen interrupted d) at)
    ∙ draining_answers interrupted (record d { listener = draining }) idle
answers d draining at a b idle =
    ap (listener_loop interrupted)
      (ap (listen interrupted d) at ∙ draining_answers interrupted d idle)
answers d answered at a b idle =
    ap (listener_loop interrupted) (ap (listen interrupted d) at)
    ∙ ap (listen interrupted d) at
    ∙ ap (λ l. record d { listener = l }) at

-- The workers come to their ends.
all_joined :
    (d : Daemon)
    → IsGuarded d
    → d.shutting_down ≡ true
    → (e : Daemon) × Leads d e
      × (threads e ≡ threads d)
      × (joins_all e.workers ≡ true)
      × (count is_counted e.workers ≡ 0)
      × (count is_working e.workers ≡ 0)
all_joined d g shut =
    let (d1, ((ts1, led1), closing, heard1, admitted1)) = frees d g shut in
    let (d2, ((ts2, led2), closing2, heard2, admitted2), gone) =
      all_end (threads d1) d1 closing (omega arith) in
    let kept : threads d1 ≡ threads d = sym (ap threads led1) ∙ run-threads ts1 d in
    let same : threads d2 ≡ threads d1 = sym (ap threads led2) ∙ run-threads ts2 d1 in
    let (joined, uncounted, idle) =
      ended_joins d2.workers (λ j below. gone j (omega (arith, below, same))) in
    (
      d2,
      (
        (ts1 ++ ts2, run-append ts1 ts2 d ∙ ap (run ts2) led1 ∙ led2),
        closing2,
        heard2 ∙ heard1,
        admitted2 ∙ admitted1,
      ),
      same ∙ kept,
      joined,
      uncounted,
      idle,
    )

-- With one worker or more, from every state in which the daemon has been asked to terminate, the threads can go
-- on so that `main` gets to its end and "done" is answered, with every job that had been admitted taken and
-- dealt with, and no other.
pub shutdown_possible :
    (n : ℕ) (ts : List Turn)
    → (run ts (main (suc n))).shutting_down ≡ true
    → let d = run ts (main (suc n)) in
      (us : List Turn) × (main_ends (run us d) ≡ true)
      × ((run us d).listener ≡ answered)
      × ((run us d).taken ≡ d.enqueued)
      × ((run us d).finished ≡ length d.enqueued)
unfolding main_ends
shutdown_possible n ts shut =
    let d = run ts (main (suc n)) in
    let s = run-main-IsSound (suc n) ts in
    let (e, ((us, led), closing, heard, admitted), same, joined, uncounted, idle) =
      all_joined d (run-IsGuarded ts (main (suc n)) (main-IsGuarded (suc n))) shut in
    let sound : IsSound e = subst IsSound led (run-IsSound us d s) in
    let not_broken : d.listener ≢ broken = λ b.
      let clear =
        run-StaysOpen ts (main (suc n)) (main-IsSound (suc n)) (main-StaysOpen (suc n)) b in
      cc in
    let said = answers e d.listener heard (s.closed shut) not_broken (sound.counted ∙ uncounted) in
    let last : run (us ++ to_answer) d ≡ record e { listener = answered } =
      run-append us to_answer d ∙ ap (run to_answer) led ∙ said in
    let some_gone : 0 < count is_gone e.workers = omega (
      arith,
      joins_all-gone e.workers joined,
      same,
      run-threads ts (main (suc n)),
      main-threads (suc n),
    ) in
    let all_taken : e.taken ≡ d.enqueued =
      sym (sound.fifo ∙ ap (λ q. e.taken ++ q) (sound.drained some_gone).1 ∙ append-nil e.taken)
      ∙ admitted in
    (
      us ++ to_answer,
      ap main_ends last ∙ joined,
      ap (λ (x : Daemon). x.listener) last,
      ap (λ (x : Daemon). x.taken) last ∙ all_taken,
      ap (λ (x : Daemon). x.finished) last
          ∙ (omega (arith, sound.in_hand, idle, ap length all_taken)),
    )

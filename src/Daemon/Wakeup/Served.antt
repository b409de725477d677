-- ===== src/Daemon/Wakeup/Served.antt =====
-- No job stays in the queue for want of a worker that is awake (bbviewd.c).
use bbview.Base.{
  ℕ, suc, ◌≡◌, ◌<◌, refl, inl, inr, List, [], ◌∷◌, Option, some, arith, get_elem?, length,
}
use bbview.Daemon.{Worker, Turn, listener, worker, main, listener_loop}
use bbview.Daemon.Draining.{IsSound, main-IsSound}
use bbview.Daemon.Wakeup.{Sleepers, listener_turn, wakeful_turn, wakeful_run, wakeful_main}
use bbview.Daemon.Wakeup.Guarded.{IsGuarded, turn-IsGuarded, main-IsGuarded}
use bbview.Daemon.Wakeup.Refined.{turn_refines, wakeful_turn-IsSound}
use bbview.Daemon.Done.{threads, turn-threads, main-threads}
use bbview.Daemon.Wakeup.Awake.{IsSignal, IsServed, worker-IsServed, listen-IsServed}

-- A daemon with a worker, and a worker awake for the jobs in the queue.
pub record IsManned (s : Sleepers) : Type 0 where
  pub sound : IsSound s.daemon
  pub guarded : IsGuarded s.daemon
  pub manned : 0 < threads s.daemon
  pub served : IsServed s

first_there : (ws : List Worker) → 0 < length ws → (w : Worker) × (get_elem? ws 0 ≡ some w)
first_there [] h = absurd (omega (arith, h))
first_there (w ∷ ws) h = (w, refl)

module _ (pick : Sleepers → Option ℕ) (signal : IsSignal pick) where
  turn-IsServed : (t : Turn) (s : Sleepers) → IsManned s → IsServed (wakeful_turn pick t s)
  unfolding wakeful_turn listener_turn listener_loop
  turn-IsServed (worker i) s m = worker-IsServed i s m.guarded m.served
  turn-IsServed (listener a) s m =
      listen-IsServed pick signal a s.daemon.listener s (first_there s.daemon.workers m.manned)
        m.served

  turn-IsManned : (t : Turn) (s : Sleepers) → IsManned s → IsManned (wakeful_turn pick t s)
  turn-IsManned t s m = record {
    sound = wakeful_turn-IsSound pick t s m.sound;
    guarded = elim (turn_refines pick t s) [
      | inl same ↦ rw same m.guarded
      | inr moved ↦ rw moved (turn-IsGuarded t s.daemon m.guarded)
    ];
    manned = elim (turn_refines pick t s) [
      | inl same ↦ rw same m.manned
      | inr moved ↦ rw moved (rw (turn-threads t s.daemon) m.manned)
    ];
    served = turn-IsServed t s m;
  }

  pub run-IsManned : (ts : List Turn) (s : Sleepers) → IsManned s → IsManned (wakeful_run pick ts s)
  unfolding wakeful_run
  run-IsManned [] s m = m
  run-IsManned (t ∷ ts) s m = run-IsManned ts (wakeful_turn pick t s) (turn-IsManned t s m)

  pub main-IsManned : (n : ℕ) → IsManned (wakeful_main (suc n))
  unfolding main
  main-IsManned n = record {
    sound = main-IsSound (suc n);
    guarded = main-IsGuarded (suc n);
    manned = omega (arith, main-threads (suc n));
    served = λ some_job. absurd (some_job refl);
  }

-- ===== src/Daemon/Wakeup/Refined.antt =====
-- A run with the condition variable (bbviewd.c) is a run of the threads without it, where the turns of the
-- workers that sleep are left out.
use bbview.Base.{ℕ, ◌≡◌, refl, ap, ◌∙◌, ◌⊎◌, Option, List, [], ◌∷◌, Bool-cases, inl, inr}
use bbview.Daemon.{Turn, listener, worker, main, run, turn}
use bbview.Daemon.Draining.{IsSound, turn-IsSound}
use bbview.Daemon.Wakeup.{
  Sleepers, is_asleep, worker_turn, listener_turn, wakeful_turn, wakeful_run, wakeful_main,
}

module _ (pick : Sleepers → Option ℕ) where
  pub turn_refines :
      (t : Turn) (s : Sleepers)
      → ((wakeful_turn pick t s).daemon ≡ s.daemon)
        ⊎ ((wakeful_turn pick t s).daemon ≡ turn t s.daemon)
  unfolding wakeful_turn listener_turn worker_turn turn
  turn_refines (listener a) s = inr refl
  turn_refines (worker i) s = elim (Bool-cases (is_asleep i s)) [
    | inl e ↦ inl (rw e refl)
    | inr e ↦ inr (rw e refl)
  ]

  run_refines :
      (ts : List Turn) (s : Sleepers)
      → (schedule : List Turn) × ((wakeful_run pick ts s).daemon ≡ run schedule s.daemon)
  unfolding wakeful_run run
  run_refines [] s = ([], refl)
  run_refines (t ∷ ts) s =
      let (schedule, e) = run_refines ts (wakeful_turn pick t s) in
      elim (turn_refines t s) [
        | inl same ↦ (schedule, e ∙ ap (run schedule) same)
        | inr moved ↦ (t ∷ schedule, e ∙ ap (run schedule) moved)
      ]

  -- Whatever worker a signal wakes: what the threads bring about under the condition variable, in any order,
  -- they bring about without it, in some order.
  pub wakeful_run_refines :
      (nthreads : ℕ) (ts : List Turn)
      → (schedule : List Turn) × ((wakeful_run pick ts (wakeful_main nthreads)).daemon
          ≡ run schedule (main nthreads))
  wakeful_run_refines nthreads ts = run_refines ts (wakeful_main nthreads)

  pub wakeful_turn-IsSound :
      (t : Turn) (s : Sleepers) → IsSound s.daemon → IsSound (wakeful_turn pick t s).daemon
  wakeful_turn-IsSound t s sound = elim (turn_refines t s) [
    | inl same ↦ rw same sound
    | inr moved ↦ rw moved (turn-IsSound t s.daemon sound)
  ]

  pub wakeful_run-IsSound :
      (ts : List Turn) (s : Sleepers) → IsSound s.daemon → IsSound (wakeful_run pick ts s).daemon
  unfolding wakeful_run
  wakeful_run-IsSound [] s sound = sound
  wakeful_run-IsSound (t ∷ ts) s sound =
      wakeful_run-IsSound ts (wakeful_turn pick t s) (wakeful_turn-IsSound t s sound)

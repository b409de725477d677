-- ===== src/Daemon/Ending/Together.antt =====
-- All workers, one after the other, once the request to terminate is there (bbviewd.c).
use bbview.Base.{
  ℕ, zero, suc, ◌≡◌, ◌<◌, ◌≤◌, refl, sym, ap, ◌∙◌, inl, inr, List, [], ◌∷◌, ◌++◌, Bool, true,
  Bool-cases, some, arith, ◌==◌, get_elem?, length,
}
use bbview.Daemon.{
  Daemon, Worker, starting, looking, checked, waiting, working, leaving, ended, Turn, worker,
  advance, turn, run,
}
use bbview.Daemon.Counts.{count, one}
use bbview.Daemon.Done.{threads, run-threads}
use bbview.Daemon.Ending.Alone.{IsClosing, worker-Ends}
use bbview.Daemon.Wakeup.Drains.{alone, worker_fn-at}
use bbview.Daemon.Wakeup.Guarded.{is_checked, IsGuarded, turn-IsGuarded}

pub run-append : (ts us : List Turn) (d : Daemon) → run (ts ++ us) d ≡ run us (run ts d)
unfolding run
run-append [] us d = refl
run-append (t ∷ ts) us d = run-append ts us (turn t d)

pub run-IsGuarded : (ts : List Turn) (d : Daemon) → IsGuarded d → IsGuarded (run ts d)
unfolding run
run-IsGuarded [] d g = g
run-IsGuarded (t ∷ ts) d g = run-IsGuarded ts (turn t d) (turn-IsGuarded t d g)

counted_there :
    (p : Worker → Bool) (ws : List Worker)
    → 0 < count p ws
    → (i : ℕ) × (w : Worker) × (get_elem? ws i ≡ some w) × (p w ≡ true)
unfolding count
counted_there p [] h = absurd (omega (arith, h))
counted_there p (x ∷ ws) h = elim (Bool-cases (p x)) [
  | inl here ↦ (0, x, refl, here)
  | inr e ↦
      let none_here : one (p x) ≡ 0 = rw e refl in
      let (i, w, at, found) = counted_there p ws (omega (arith, h, none_here)) in
      (suc i, w, at, found)
]

within : (ws : List Worker) (i : ℕ) → i < length ws → (w : Worker) × (get_elem? ws i ≡ some w)
within [] i h = absurd (omega (arith, h))
within (x ∷ ws) zero h = (x, refl)
within (x ∷ ws) (suc i) h = within ws i (omega (arith, h))

only_checked : (w : Worker) → is_checked w ≡ true → w ≡ checked
only_checked checked e = refl
only_checked starting e = cc
only_checked looking e = cc
only_checked waiting e = cc
only_checked (working x) e = cc
only_checked leaving e = cc
only_checked ended e = cc

-- A schedule of the workers that leads from `d` to `e`.
abbrev pub Leads : Daemon → Daemon → Type 0
Leads d e =
    ((ts : List Turn) × (run ts d ≡ e))
    × IsClosing e
    × (e.listener ≡ d.listener)
    × (e.enqueued ≡ d.enqueued)

-- The mutex is released.
pub frees : (d : Daemon) → IsGuarded d → d.shutting_down ≡ true → (e : Daemon) × Leads d e
unfolding run turn advance
frees d g shut = elim (Bool-cases d.held) [
  | inr free ↦ (d, (([], refl), record { free = free; shut = shut }, refl, refl))
  | inl taken ↦
      let (i, w, at, here) =
        counted_there is_checked d.workers (omega (arith, g.mutex, ap one taken)) in
      let at_checked : get_elem? d.workers i ≡ some checked = at ∙ ap some (only_checked w here) in
      (
        advance i d checked,
        (
          (worker i ∷ [], worker_fn-at i d checked at_checked),
          record { free = refl; shut = shut },
          refl,
          refl,
        ),
      )
]

-- The first `m` workers come to their end.
pub all_end :
    (m : ℕ) (d : Daemon)
    → IsClosing d
    → m ≤ threads d
    → (e : Daemon) × Leads d e × ((j : ℕ) → j < m → get_elem? e.workers j ≡ some ended)
unfolding run
all_end zero d c h = (d, (([], refl), c, refl, refl), λ j below. absurd (omega (arith, below)))
all_end (suc m) d c h =
    let (e, ((ts, led), closing, heard, admitted), gone) = all_end m d c (omega (arith, h)) in
    let same : threads e ≡ threads d = sym (ap threads led) ∙ run-threads ts d in
    let (w, at) = within e.workers m (omega (arith, same, h)) in
    let (k, (spares, mine)) = worker-Ends m e w at closing in
    (
      run (alone m k) e,
      (
        (ts ++ alone m k, run-append ts (alone m k) d ∙ ap (run (alone m k)) led),
        spares.closing,
        spares.heard ∙ heard,
        spares.admitted ∙ admitted,
      ),
      λ j below. elim (Bool-cases (j == m)) [
        | inl same ↦
            let here : j ≡ m = ground (arith, same) in
            ap (λ i. get_elem? (run (alone m k) e).workers i) here ∙ mine
        | inr apart ↦ spares.others j apart ∙ gone j (ground (arith, below, apart))
      ],
    )

-- ===== src/Daemon/Counts.antt =====
-- How many workers are at a place of `worker_fn` (bbviewd.c), and how a step of one changes it.
use bbview.Base.{
  ℕ, zero, suc, ◌+◌, ◌≤◌, ◌<◌, ◌≡◌, refl, ap, length, List, [], ◌∷◌, Bool, true, false, some, arith,
  get_elem?, set, if◌then◌else◌,
}
use bbview.Daemon.{Worker, starting, looking, checked, waiting, working, leaving, ended, replicate}

-- Counted in `active_workers`; yet to be counted; out of the loop; with a job.
abbrev pub is_counted : Worker → Bool
is_counted starting = false
is_counted ended = false
is_counted _ = true

abbrev pub is_starting : Worker → Bool
is_starting starting = true
is_starting _ = false

abbrev pub is_gone : Worker → Bool
is_gone leaving = true
is_gone ended = true
is_gone _ = false

abbrev pub is_working : Worker → Bool
is_working (working j) = true
is_working _ = false

abbrev pub one : Bool → ℕ
one b = if b then 1 else 0

unfoldable pub count : (Worker → Bool) → List Worker → ℕ
count p [] = 0
count p (w ∷ ws) = one (p w) + count p ws

pub count-set :
    (p : Worker → Bool) (ws : List Worker) (i : ℕ) (w v : Worker)
    → get_elem? ws i ≡ some w
    → count p (set ws i v) + one (p w) ≡ count p ws + one (p v)
unfolding count
count-set p [] i w v h = cc
count-set p (x ∷ xs) zero w v h = ground arith
count-set p (x ∷ xs) (suc i) w v h = omega (arith, count-set p xs i w v h)

pub count-replicate :
    (p : Worker → Bool) (n : ℕ) → p starting ≡ false → count p (replicate n starting) ≡ 0
unfolding count
count-replicate p zero h = refl
count-replicate p (suc n) h = rw h (omega (arith, count-replicate p n h))

-- Every worker is at one of these places, and one with a job is counted.
pub count_all :
    (ws : List Worker) → length ws ≤ count is_starting ws + count is_counted ws + count is_gone ws
unfolding count
count_all [] = omega arith
count_all (starting ∷ ws) = omega (arith, count_all ws)
count_all (looking ∷ ws) = omega (arith, count_all ws)
count_all (checked ∷ ws) = omega (arith, count_all ws)
count_all (waiting ∷ ws) = omega (arith, count_all ws)
count_all (working j ∷ ws) = omega (arith, count_all ws)
count_all (leaving ∷ ws) = omega (arith, count_all ws)
count_all (ended ∷ ws) = omega (arith, count_all ws)

pub count_working : (ws : List Worker) → count is_working ws ≤ count is_counted ws
unfolding count
count_working [] = omega arith
count_working (starting ∷ ws) = omega (arith, count_working ws)
count_working (looking ∷ ws) = omega (arith, count_working ws)
count_working (checked ∷ ws) = omega (arith, count_working ws)
count_working (waiting ∷ ws) = omega (arith, count_working ws)
count_working (working j ∷ ws) = omega (arith, count_working ws)
count_working (leaving ∷ ws) = omega (arith, count_working ws)
count_working (ended ∷ ws) = omega (arith, count_working ws)

pub length-replicate : (n : ℕ) (w : Worker) → length (replicate n w) ≡ n
length-replicate zero w = refl
length-replicate (suc n) w = ap suc (length-replicate n w)

pub count-positive :
    (p : Worker → Bool) (ws : List Worker) (i : ℕ) (w : Worker)
    → get_elem? ws i ≡ some w
    → p w ≡ true
    → 0 < count p ws
unfolding count
count-positive p [] i w e h = cc
count-positive p (x ∷ ws) zero w e h = ground (arith, e, h)
count-positive p (x ∷ ws) (suc i) w e h =
    let rest = count-positive p ws i w e h in omega (arith, rest)

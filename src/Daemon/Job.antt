-- ===== src/Daemon/Job.antt =====
-- What a worker (`worker_fn` of bbviewd.c) does with the path that it has taken out of the queue. The
-- texts of the log are left out.
use bbview.Base.{ℕ, ◌-◌, List, [], ◌∷◌, Bool, Option, none, some, ◌==◌, if◌then◌else◌}
use bbview.Daemon.{path_max}
use bbview.Daemon.Copy.{Copier, Copied, as_text, execute}
use bbview.Session.{Attr, AttrValue, dest_path}

pub record JobCalls (D W : Type 0) : Type 0 where
  pub copier : Copier D W
  pub getxattr : List ℕ → Attr → ℕ → W → Option AttrValue
  pub stat : List ℕ → W → Bool

-- A job is left out, or ends as `execute` does.
pub data Handled (W : Type 0) : Type 0 where
  skipped : W → Handled W
  executed : Copied W → Handled W

-- The text in a `char` array, which ends at the first NUL.
abbrev pub c_string : List ℕ → List ℕ
c_string [] = []
c_string (c ∷ cs) = let rest = c_string cs in if c == 0 then [] else c ∷ rest

module _ {D W : Type 0} (calls : JobCalls D W) where
  unfoldable pub handle_to : ℕ → List ℕ → List ℕ → W → Handled W
  handle_to fuel path dst w =
      if calls.stat dst w then executed (execute calls.copier fuel path dst w) else skipped w

  -- One round of the loop in worker_fn, behind `dequeue`.
  unfoldable pub handle_job : ℕ → List ℕ → W → Handled W
  handle_job fuel path w = elim (as_text (calls.getxattr path dest_path (path_max - 1) w)) [
    | none ↦ skipped w
    | some dst ↦ handle_to fuel path (c_string dst) w
  ]

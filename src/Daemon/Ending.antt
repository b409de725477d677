-- ===== src/Daemon/Ending.antt =====
-- The end of `main` (bbviewd.c): behind `listener_loop` it joins the workers.
pub mod Alone
pub mod Failed
pub mod Possible
pub mod Together
pub mod Woken
use bbview.Base.{List, [], ◌∷◌, Bool, true, false, ◌&&◌}
use bbview.Daemon.{Daemon, Worker, Listener, ended, answered, broken}

abbrev pub is_ended : Worker → Bool
is_ended ended = true
is_ended _ = false

-- `pthread_join` of every worker.
unfoldable pub joins_all : List Worker → Bool
joins_all [] = true
joins_all (w ∷ ws) = is_ended w && joins_all ws

-- `listener_loop` has returned.
abbrev pub has_returned : Listener → Bool
has_returned answered = true
has_returned broken = true
has_returned _ = false

-- `main` gets to its end.
unfoldable pub main_ends : Daemon → Bool
main_ends d = has_returned d.listener && joins_all d.workers

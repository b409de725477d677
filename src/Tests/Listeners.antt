-- ===== src/Tests/Listeners.antt =====
-- The listener of the daemon with three clients.
use bbview.Base.{
  false, sym, ap, ◌∙◌, ℕ, ◌+◌, ◌-◌, ◌<◌, ◌≤◌, ◌≡◌, refl, ◌⊎◌, List, [], ◌∷◌, ◌++◌, Option, none,
  some, arith, length,
}
use bbview.Base.Handles.{Table, adding, removing}
use bbview.Daemon.{terminate}
use bbview.Daemon.Listening.{Accepted, eintr, error, client, Server, done_line, listen_on}
use bbview.Daemon.Listening.Ends.{listen_on-ends}
use bbview.Daemon.Listening.Laws.{IsServing}
use bbview.Tests.Fds.{is_open, fresh, shut, fresh-free, is_open-cons, is_open-shut}

-- What is to come: interruptions, and messages; how often the workers are still found active.
record Wire : Type 0 where
  arrivals : List (Option (List ℕ))
  message : List ℕ
  busy : ℕ
  held : List ℕ
  replies : List (ℕ × List ℕ)
  jobs : List (List ℕ)

abbrev accept_from : List (Option (List ℕ)) → Wire → Accepted × Wire
accept_from [] w = (error, w)
accept_from (none ∷ rest) w = (eintr, record w { arrivals = rest })
accept_from (some buf ∷ rest) w = (
  client (fresh w.held),
  record w { arrivals = rest; message = buf; held = fresh w.held ∷ w.held },
)

abbrev wire_server : Server Wire
wire_server = record {
  accept = λ fd w. accept_from w.arrivals w;
  read = λ fd n w. (some w.message, w);
  write = λ fd bs w. record w { replies = w.replies ++ ((fd, bs) ∷ []) };
  close = λ fd w. record w { held = shut fd w.held };
  enqueue = λ path w. record w { jobs = w.jobs ++ (path ∷ []) };
  shut_down = λ w. w;
  active_workers = λ w. w.busy;
  usleep = λ w. record w { busy = w.busy - 1 };
}

abbrev table : Wire → Table
table w = is_open w.held

abbrev ahead : Wire → ℕ
ahead w = length w.arrivals + w.busy

eintr_from :
    (todo : List (Option (List ℕ))) (w : Wire)
    → w.arrivals ≡ todo
    → (accept_from todo w).0 ≡ eintr
    → ((accept_from todo w).1.held ≡ w.held) × (ahead (accept_from todo w).1 < ahead w)
eintr_from [] w e h = absurd (let clash = h in cc)
eintr_from (none ∷ rest) w e h = (refl, rw e (omega arith))
eintr_from (some buf ∷ rest) w e h = absurd (let clash = h in cc)

error_from :
    (todo : List (Option (List ℕ))) (w : Wire)
    → (accept_from todo w).0 ≡ error
    → ((accept_from todo w).1.held ≡ w.held) × (ahead (accept_from todo w).1 ≤ ahead w)
error_from [] w h = (refl, omega arith)
error_from (none ∷ rest) w h = absurd (let clash = h in cc)
error_from (some buf ∷ rest) w h = absurd (let clash = h in cc)

client_from :
    (todo : List (Option (List ℕ))) (w : Wire) (cfd : ℕ)
    → w.arrivals ≡ todo
    → (accept_from todo w).0 ≡ client cfd
    → (is_open (accept_from todo w).1.held ≡ adding cfd (is_open w.held))
      × (ahead (accept_from todo w).1 < ahead w)
client_from [] w cfd e h = absurd (let clash = h in cc)
client_from (none ∷ rest) w cfd e h = absurd (let clash = h in cc)
client_from (some buf ∷ rest) w cfd e h =
    let same : fresh w.held ≡ cfd = let q = h in cc in
    (
      is_open-cons (fresh w.held) w.held ∙ ap (λ n. adding n (is_open w.held)) same,
      rw e (omega arith),
    )

new_client :
    (todo : List (Option (List ℕ))) (w : Wire) (cfd : ℕ)
    → (accept_from todo w).0 ≡ client cfd
    → is_open w.held cfd ≡ false
new_client [] w cfd h = cc
new_client (none ∷ rest) w cfd h = cc
new_client (some buf ∷ rest) w cfd h =
    let same : fresh w.held ≡ cfd = let q = h in cc in
    ap (is_open w.held) (sym same) ∙ fresh-free w.held

silent_from :
    (todo : List (Option (List ℕ))) (w : Wire) → (accept_from todo w).1.replies ≡ w.replies
silent_from [] w = refl
silent_from (none ∷ rest) w = refl
silent_from (some buf ∷ rest) w = refl

wire-IsServing : IsServing wire_server table ahead Wire.replies
wire-IsServing = record {
  interrupted =
      λ fd w e. let (same, less) = eintr_from w.arrivals w refl e in (ap is_open same, less);
  fails = λ fd w e. let (same, less) = error_from w.arrivals w e in (ap is_open same, less);
  new_client = λ fd w cfd e. new_client w.arrivals w cfd e;
  accepts = λ fd w cfd e. client_from w.arrivals w cfd refl e;
  accept_writes = λ fd w. silent_from w.arrivals w;
  reads = λ fd n w. (refl, omega arith, refl);
  enqueues = λ path w. (refl, omega arith, refl);
  shuts = λ w. (refl, omega arith, refl);
  closes = λ fd w. (is_open-shut fd w.held, omega arith, refl);
  sleeps = λ w e. (refl, ground (arith, e), refl);
  writes = λ fd bs w. (refl, refl);
}

-- An interruption, a job, a message that cannot be read, and the request to terminate.
abbrev wire : Wire
wire = record {
  arrivals = none ∷ some (47 ∷ 97 ∷ []) ∷ some [] ∷ some terminate ∷ [];
  message = [];
  busy = 2;
  held = 3 ∷ 1 ∷ [];
  replies = [];
  jobs = [];
}

listen_on-ends_example :
    (v : Wire) × (listen_on wire_server 7 3 wire ≡ some v)
    × (is_open v.held ≡ removing 3 (is_open (3 ∷ 1 ∷ [])))
    × ((v.replies ≡ [])
        ⊎ ((cfd : ℕ) × (u : Wire) × (u.busy ≡ 0)
            × (v ≡ wire_server.close 3 (wire_server.close cfd (wire_server.write cfd done_line u)))
            × (v.replies ≡ [] ++ ((cfd, done_line) ∷ []))))
listen_on-ends_example =
    listen_on-ends wire_server table ahead Wire.replies wire-IsServing 7 3 wire (omega arith)

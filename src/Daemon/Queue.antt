-- ===== src/Daemon/Queue.antt =====
-- The queue of the daemon (bbviewd.c) as it lies in memory: nodes that are linked from `q_head` on, with
-- `q_tail` at the last. An access to a node that is not allocated is `none`.
pub mod Chain
pub mod Refined
use bbview.Base.{
  ℕ, ◌-◌, List, [], ◌∷◌, ◌++◌, Bool, true, false, Option, none, some, ◌==◌, if◌then◌else◌, take,
}
use bbview.Base.Options.{◌>>=◌}
use bbview.Daemon.{Daemon, path_max, enqueue, dequeue}

-- `struct job`
pub record Job : Type 0 where
  pub src : List ℕ
  pub next : Option ℕ

-- What is allocated at each address.
abbrev pub Store : Type 0
Store = ℕ → Option Job

abbrev pub put : Store → ℕ → Option Job → Store
put s a v = λ b. if b == a then v else s b

pub record Queue : Type 0 where
  pub store : Store
  pub q_head : Option ℕ
  pub q_tail : Option ℕ

abbrev pub empty_queue : Store → Queue
empty_queue s = record { store = s; q_head = none; q_tail = none }

-- `strncpy` into the field that calloc has zeroed.
abbrev pub copied : List ℕ → List ℕ
copied path = take (path_max - 1) path

-- `if (!q_tail) …; else …;`
unfoldable pub append_node : ℕ → Store → Option ℕ → Queue → Option Queue
append_node j s none q = some (record { store = s; q_head = some j; q_tail = some j })
append_node j s (some t) q = s t >>= λ last. some (record {
  store = put s t (some (record last { next = some j }));
  q_head = q.q_head;
  q_tail = some j;
})

-- enqueue; the address is what calloc returns. Without memory the path is dropped.
unfoldable pub enqueue_node : Option ℕ → List ℕ → Queue → Option Queue
enqueue_node none path q = some q
enqueue_node (some j) path q =
    append_node j (put q.store j (some (record { src = copied path; next = none }))) q.q_tail q

-- dequeue, once the loop has been left: the path of the head, or none of an empty queue.
unfoldable pub dequeue_node : Queue → Option (Option (List ℕ) × Queue)
dequeue_node q = elim q.q_head [
  | none ↦ some (none, q)
  | some a ↦ q.store a >>= λ j. some (
    some j.src,
    record {
      store = put q.store a none;
      q_head = j.next;
      q_tail = elim j.next [ none ↦ none | some b ↦ q.q_tail ];
    },
  )
]

-- What the threads do with the queue, one after the other, since each does it under `q_mtx`.
pub data Access : Type 0 where
  enter : List ℕ → Access
  take_by : ℕ → Access

abbrev pub taken_out : Option (List ℕ) → List (List ℕ)
taken_out none = []
taken_out (some x) = x ∷ []

-- The accesses in order, with the paths that are taken out; `calloc` finds an address.
unfoldable pub on_nodes : (Store → Option ℕ) → List Access → Queue → Option (List (List ℕ) × Queue)
on_nodes calloc [] q = some ([], q)
on_nodes calloc (enter path ∷ ops) q = enqueue_node (calloc q.store) path q >>= on_nodes calloc ops
on_nodes calloc (take_by i ∷ ops) q = dequeue_node q >>= λ r.
    on_nodes calloc ops r.1 >>= λ rest. some (taken_out r.0 ++ rest.0, rest.1)

-- The same on the list of jobs.
unfoldable pub on_list : List Access → Daemon → Daemon
on_list [] d = d
on_list (enter path ∷ ops) d = on_list ops (enqueue (copied path) d)
on_list (take_by i ∷ ops) d = on_list ops (dequeue i d)

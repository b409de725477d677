-- ===== src/Daemon/Queue/Refined.antt =====
-- The linked queue of the daemon (bbviewd.c) does what the list of jobs does.
use mathlib.Core.List.{append_assoc, append-nil}
use bbview.Base.{
  ℕ, ◌≡◌, refl, sym, ap, ◌∙◌, List, [], ◌∷◌, ◌++◌, Option, Option-cases, inl, inr, none, some,
  arith,
}
use bbview.Daemon.{Daemon, enqueue, dequeue}
use bbview.Daemon.Queue.{
  Job, Store, put, Queue, copied, append_node, enqueue_node, dequeue_node, Access, enter, take_by,
  taken_out, on_nodes, on_list,
}
use bbview.Daemon.Queue.Chain.{
  IsChain, last, put_other, put_self, IsChain-put, free-NotIn, NotIn-last, IsChain-append,
}

-- The nodes from `q_head` on hold the paths, and `q_tail` is the last of them.
pub record Represents (q : Queue) (xs : List (List ℕ)) : Type 0 where
  pub nodes : List ℕ
  pub chain : IsChain q.store q.q_head nodes xs
  pub tail : q.q_tail ≡ last nodes

last-append : (ns : List ℕ) (a : ℕ) → last (ns ++ (a ∷ [])) ≡ some a
last-append [] a = refl
last-append (b ∷ []) a = refl
last-append (b ∷ c ∷ ns) a = last-append (c ∷ ns) a

last-some : (a : ℕ) (ns : List ℕ) → (t : ℕ) × (last (a ∷ ns) ≡ some t)
last-some a [] = (a, refl)
last-some a (b ∷ ns) = last-some b ns

-- A node at a free address goes behind the last.
enqueue_refines :
    (q : Queue) (xs : List (List ℕ)) (j : ℕ) (path : List ℕ)
    → q.store j ≡ none
    → (ns : List ℕ) → IsChain q.store q.q_head ns xs
    → q.q_tail ≡ last ns
    → (q' : Queue) × (enqueue_node (some j) path q ≡ some q')
      × Represents q' (xs ++ (copied path ∷ []))
unfolding enqueue_node append_node
enqueue_refines q [] j path fresh [] c e =
    let added : Job = record { src = copied path; next = none } in
    let q' : Queue = record {
      store = put q.store j (some added);
      q_head = some j;
      q_tail = some j;
    } in
    (
      q',
      rw e refl,
      record {
        nodes = j ∷ [];
        chain = (refl, tt, (added, put_self q.store j (some added), refl, refl));
        tail = refl;
      },
    )
enqueue_refines q (x ∷ xs) j path fresh [] c e = absurd c
enqueue_refines q xs j path fresh (a ∷ ns) c e =
    let (t, behind) = last-some a ns in
    let (n, found, chain) =
      IsChain-append q.store j t (copied path) q.q_head (a ∷ ns) xs fresh c behind in
    let apart =
      NotIn-last j t (a ∷ ns) behind (free-NotIn q.store j q.q_head (a ∷ ns) xs fresh c) in
    let kept =
      put_other q.store j t (some (record { src = copied path; next = none }))
        (ground (arith, apart)) in
    let added : Job = record { src = copied path; next = none } in
    let q' : Queue = record {
      store = put (put q.store j (some added)) t (some (record n { next = some j }));
      q_head = q.q_head;
      q_tail = some j;
    } in
    (
      q',
      rw (e ∙ behind) (rw (kept ∙ found) refl),
      record { nodes = (a ∷ ns) ++ (j ∷ []); chain = chain; tail = sym (last-append (a ∷ ns) j) },
    )

abbrev head_of : List (List ℕ) → Option (List ℕ)
head_of [] = none
head_of (x ∷ xs) = some x

abbrev tail_of : List (List ℕ) → List (List ℕ)
tail_of [] = []
tail_of (x ∷ xs) = xs

dequeue_refines :
    (q : Queue) (xs : List (List ℕ)) (ns : List ℕ)
    → IsChain q.store q.q_head ns xs
    → q.q_tail ≡ last ns
    → (q' : Queue) × (dequeue_node q ≡ some (head_of xs, q')) × Represents q' (tail_of xs)
unfolding dequeue_node
dequeue_refines q [] [] c e = (q, rw c refl, record { nodes = []; chain = c; tail = e })
dequeue_refines q (x ∷ xs) [] c e = absurd c
dequeue_refines q [] (a ∷ ns) c e = absurd c
dequeue_refines q (x ∷ []) (a ∷ []) (start, own, (j, at, text, rest)) e =
    let q' : Queue = record { store = put q.store a none; q_head = none; q_tail = none } in
    (q', rw start (rw at (rw (text, rest) refl)), record { nodes = []; chain = refl; tail = refl })
dequeue_refines q (x ∷ []) (a ∷ b ∷ ns) (start, own, (j, at, text, rest)) e = absurd rest
dequeue_refines q (x ∷ y ∷ xs) (a ∷ []) (start, own, (j, at, text, rest)) e = absurd rest
dequeue_refines q (x ∷ y ∷ xs) (a ∷ b ∷ ns) (start, own, (j, at, text, rest)) e =
    let next : j.next ≡ some b = rest.0 in
    let q' : Queue = record { store = put q.store a none; q_head = some b; q_tail = q.q_tail } in
    (
      q',
      rw start (rw at (rw (text, next) refl)),
      record {
        nodes = b ∷ ns;
        chain = IsChain-put q.store a none (some b) (b ∷ ns) (y ∷ xs) own (refl, rest.1, rest.2);
        tail = e;
      },
    )

-- The job that is handed out is the head of the list, and is recorded as taken.
dequeue-list :
    (i : ℕ) (d : Daemon)
    → ((dequeue i d).jobs ≡ tail_of d.jobs)
      × ((dequeue i d).taken ≡ d.taken ++ taken_out (head_of d.jobs))
unfolding dequeue
dequeue-list i d = ground (arith, append-nil d.taken)

-- The accesses of a run, less the entries that calloc has no memory for.
unfoldable pub admitted : (Store → Option ℕ) → List Access → Queue → List Access
admitted calloc [] q = []
admitted calloc (enter path ∷ ops) q = elim (enqueue_node (calloc q.store) path q) [
  | none ↦ []
  | some q' ↦ elim (calloc q.store) [
    | none ↦ admitted calloc ops q'
    | some j ↦ enter path ∷ admitted calloc ops q'
  ]
]
admitted calloc (take_by i ∷ ops) q = elim (dequeue_node q) [
  | none ↦ []
  | some r ↦ take_by i ∷ admitted calloc ops r.1
]

module _ (calloc : Store → Option ℕ) (ops : List Access) (q : Queue) where
  admitted-full :
      (path : List ℕ)
      → calloc q.store ≡ none
      → (enqueue_node (calloc q.store) path q ≡ some q)
        × (admitted calloc (enter path ∷ ops) q ≡ admitted calloc ops q)
  unfolding admitted enqueue_node
  admitted-full path full = (rw full refl, rw (full, admitted) (rw full refl))

  admitted-enter :
      (path : List ℕ) (a : ℕ) (q' : Queue)
      → calloc q.store ≡ some a
      → enqueue_node (some a) path q ≡ some q'
      → admitted calloc (enter path ∷ ops) q ≡ enter path ∷ admitted calloc ops q'
  unfolding admitted
  admitted-enter path a q' got ran = rw (got, admitted) (rw (ran, admitted) (rw got refl))

  admitted-take_by :
      (i : ℕ) (r : Option (List ℕ) × Queue)
      → dequeue_node q ≡ some r
      → admitted calloc (take_by i ∷ ops) q ≡ take_by i ∷ admitted calloc ops r.1
  unfolding admitted
  admitted-take_by i r ran = rw (ran, admitted) refl

module _ (calloc : Store → Option ℕ)
    (fresh : (s : Store) (a : ℕ) → calloc s ≡ some a → s a ≡ none) where
  -- Where calloc returns no memory that is in use, any sequence of accesses to the linked queue, from one
  -- that holds the jobs of the daemon on, touches no node that is not allocated, hands out the
  -- paths that the list of jobs does, in the same order, and holds the jobs of the list in the end, where
  -- the paths that there is no memory for are left out.
  pub on_nodes_refines :
      (ops : List Access) (q : Queue) (d : Daemon)
      → Represents q d.jobs
      → (out : List (List ℕ)) × (q' : Queue) × (on_nodes calloc ops q ≡ some (out, q'))
        × ((on_list (admitted calloc ops q) d).taken ≡ d.taken ++ out)
        × Represents q' (on_list (admitted calloc ops q) d).jobs
  unfolding on_nodes on_list enqueue admitted
  on_nodes_refines [] q d r = ([], q, refl, sym (append-nil d.taken), r)
  on_nodes_refines (enter path ∷ ops) q d r = elim (Option-cases (calloc q.store)) [
    | inl full ↦
        let (dropped, left_out) = admitted-full calloc ops q path full in
        let (out, q', rest, same, r') = on_nodes_refines ops q d r in
        (out, q', rw dropped rest, rw left_out same, rw left_out r')
    | inr (a, got) ↦
        let (q1, ran, r1) =
          enqueue_refines q d.jobs a path (fresh q.store a got) r.nodes r.chain r.tail in
        let entered = admitted-enter calloc ops q path a q1 got ran in
        let (out, q', rest, same, r') = on_nodes_refines ops q1 (enqueue (copied path) d) r1 in
        (out, q', rw got (rw ran rest), rw entered same, rw entered r')
  ]
  on_nodes_refines (take_by i ∷ ops) q d r =
      let (q1, ran, r1) = dequeue_refines q d.jobs r.nodes r.chain r.tail in
      let (left, took) = dequeue-list i d in
      let taken = admitted-take_by calloc ops q i (head_of d.jobs, q1) ran in
      let (out, q', rest, same, r') = on_nodes_refines ops q1 (dequeue i d) (rw left r1) in
      (
        taken_out (head_of d.jobs) ++ out,
        q',
        rw ran (rw rest refl),
        rw taken (
            same ∙ ap (λ x. x ++ out) took ∙ append_assoc d.taken (taken_out (head_of d.jobs)) out),
        rw taken r',
      )

-- ===== src/Component/Queried.antt =====
-- The life of a file from the query of the component (io_bbview_component.c) on.
use bbview.Base.{◌≡◌, ◌∙◌, subst, arith, Bool, true, false, some}
use bbview.Component.{Globals, file_query}
use bbview.Manage.{Manager, file_open, file_close}
use bbview.Manage.Closing.{Closed, file_close-Closed}
use bbview.Manage.Reach.{Operation, operate, always_returns, Reach, Reach-IsKept}
use bbview.Session.{Code, Env, File, fresh_data}
use bbview.Session.Run.{ok, Post}
use bbview.SetView.{ViewArgs, direct_flag}
use bbview.SetView.Outcome.{IsReady}

-- An open keeps the lock free and the private data.
file_open-kept :
    {D I W : Type 0} (env : Env D I W) (io : Manager W) (f : File D W)
    → f.locked ≡ false
    → Post (λ c g. (g.locked ≡ false) × (g.view ≡ f.view)) (file_open env io true f)
unfolding file_open
file_open-kept env io f free = ground arith

-- A file whose private data is what the query allocates, whose lock is free, and that has been opened: after
-- any sequence of views, transfers, settings, syncs, preallocations, seeks and questions, each of which has
-- returned, a buffered view has its data representation and both types, and the lock is free. Any
-- next operation returns, but for seeks, `get_view` and the shared position, of which this is not said. And a close ends, with
-- the lock free, the private data freed only if no view is set or its flush has succeeded, and otherwise
-- an error and the view unchanged. The answer about O_DIRECT has to be known for every view.
pub queried-Reach :
    {D I W : Type 0} (env : Env D I W) (io : Manager W)
    → ((a : ViewArgs D I) → (direct : Bool) × (direct_flag env a ≡ some direct))
    → (globals : Globals) (f o g : File D W) (c : Code) → (file_query true globals).1 ≡ some f.view
    → f.locked ≡ false
    → file_open env io true f ≡ ok c o
    → Reach env io o g
    → IsReady g
      × (g.locked ≡ false)
      × ((op : Operation env io)
          → always_returns env io op ≡ true
          → (c : Code) × (h : File D W) × (operate env io op g ≡ ok c h))
      × Post (Closed env g) (file_close env io true g)
unfolding file_query
queried-Reach env io known globals f o g c queried free opened r =
    let (unlocked, same) =
      subst (Post (λ c g. (g.locked ≡ false) × (g.view ≡ f.view))) opened
        (file_open-kept env io f free) in
    let (kept, returns) = Reach-IsKept env io known o g unlocked r in
    let fresh : o.view ≡ fresh_data = same ∙ (let new = queried in cc) in
    (kept.ready (rw fresh (λ e. cc)), kept.free, returns, file_close-Closed env io g kept.free)

-- ===== src/Manage/Reach.antt =====
-- An open file under any sequence of the component's operations on it (io_bbview_module.c): views, transfers,
-- settings and questions, each of them a call that has returned. Only the returned code is kept.
use bbview.Base.{
  ℕ, ◌≡◌, refl, ap, subst, Bool, Bool-cases, inl, inr, true, false, arith, Option, some,
}
use bbview.Session.{Code, File, Env, Transfer, success}
use bbview.Session.Run.{Run, M, ok, stuck, pure, ◌>>=◌, Post, Post-map}
use bbview.SetView.{ViewArgs, direct_flag, file_set_view, file_get_view}
use bbview.SetView.Outcome.{file_set_view-Outcome}
use bbview.Transfers.{Slot, dispatch}
use bbview.Transfers.Locking.{dispatch-specified}
use bbview.Manage.{
  Manager, Buffer, file_get_size, file_get_position, file_get_atomicity, file_get_position_shared,
  file_set_atomicity, file_set_size, file_sync, file_seek_shared,
}
use bbview.Manage.Seek.{Whence, file_seek}
use bbview.Manage.Kept.{
  IsKept, IsKept-self, IsKept-view, Unless, specified-IsKept, atomicity-kept, set_size-kept,
  sync-kept, seek_shared-kept, get_size-kept, get_position-kept, get_atomicity-kept, get_view-kept,
  get_position_shared-kept, seek-kept, answered-IsKept, answered-IsKept', returned-IsKept,
  Post-Unless,
}
use bbview.Manage.Preallocate.{file_preallocate}
use bbview.Manage.Preallocate.Outcome.{file_preallocate_outcome}

module _ {D I W : Type 0} (env : Env D I W) (io : Manager W) where
  pub data Operation : Type 0 where
    view : ViewArgs D I → Operation
    transfer : Slot → Transfer D → Operation
    atomicity : Bool → Operation
    set_size : ℕ → Operation
    preallocate : Option Buffer → ℕ → Operation
    sync : Operation
    seek_shared : ℕ → ℕ → Operation
    get_size get_position get_atomicity get_view : Operation
    seek : ℕ → Whence → Operation
    get_position_shared : ℕ → Operation

  -- The code of an operation that has another result as well.
  abbrev code_of : {A : Type 0} → M D W (Code × A) → M D W Code
  code_of m = m >>= λ r. pure r.0

  unfoldable pub operate : Operation → M D W Code
  operate (view a) = file_set_view env a
  operate (transfer s t) = dispatch env.ompio s t
  operate (atomicity flag) = file_set_atomicity io flag
  operate (set_size size) = file_set_size io size
  operate (preallocate buffer size) = file_preallocate io buffer size
  operate sync = file_sync io
  operate (seek_shared offset whence) = file_seek_shared io offset whence
  operate get_size = code_of (file_get_size io)
  operate get_position = code_of (file_get_position io)
  operate get_atomicity = file_get_atomicity io >>= λ flag. pure success
  operate get_view = file_get_view env >>= λ v. pure success
  operate (seek off whence) = file_seek io off whence
  operate (get_position_shared offset) = code_of (file_get_position_shared io offset)

  -- The others follow a pointer that may be NULL, divide by the size of an element, or read the blocks of
  -- the view.
  abbrev pub always_returns : Operation → Bool
  always_returns get_view = false
  always_returns (seek off whence) = false
  always_returns (get_position_shared offset) = false
  always_returns op = true

  pub data Reach (f : File D W) : File D W → Type 0 where
    start : Reach f f
    next :
        (op : Operation) (c : Code) (g h : File D W) → Reach f g → operate op g ≡ ok c h → Reach f h

module _ {D I W : Type 0} (env : Env D I W) (io : Manager W)
    (known : (a : ViewArgs D I) → (direct : Bool) × (direct_flag env a ≡ some direct)) where
  operate-IsKept :
      (op : Operation env io) (f : File D W)
      → f.locked ≡ false
      → always_returns env io op ≡ true
      → Post (λ c g. IsKept f g) (operate env io op f)
  unfolding operate
  operate-IsKept (view a) f free always =
      let (direct, e) = known a in
      Post-map (file_set_view env a f) (file_set_view-Outcome env a direct e f free) λ c g o.
        let same = o.absorbing in
        record { free = o.free; ready = o.ready; absorbing = λ h. ground (arith, same h) }
  operate-IsKept (transfer s t) f free always =
      rw (dispatch-specified env.ompio s t f free) (specified-IsKept env.ompio s t f free)
  operate-IsKept (atomicity flag) f free always =
      Post-map (file_set_atomicity io flag f) (atomicity-kept io flag f free)
        λ c g kept. ground arith
  operate-IsKept (set_size size) f free always =
      Post-map (file_set_size io size f) (set_size-kept io size f free)
        (λ c g p. IsKept-view f g p.0 p.1)
  operate-IsKept (preallocate buffer size) f free always =
      Post-map (file_preallocate io buffer size f) (file_preallocate_outcome io f buffer size free)
        (λ c g p. IsKept-view f g (ap (λ x. x.locked) p.0) (ap (λ x. x.view) p.0))
  operate-IsKept sync f free always =
      Post-map (file_sync io f) (sync-kept io f free) (λ c g p. IsKept-view f g p.0 p.1)
  operate-IsKept (seek_shared offset whence) f free always =
      Post-map (file_seek_shared io offset whence f) (seek_shared-kept io offset whence f free)
        (λ c g p. IsKept-view f g p.0 p.1)
  operate-IsKept get_size f free always =
      answered-IsKept f (file_get_size io f) (λ r. r.0) (get_size-kept io f free)
  operate-IsKept get_position f free always =
      answered-IsKept f (file_get_position io f) (λ r. r.0) (get_position-kept io f free)
  operate-IsKept get_atomicity f free always =
      answered-IsKept f (file_get_atomicity io f) (λ flag. success) (get_atomicity-kept io f free)
  operate-IsKept get_view f free always = absurd (let clash = always in cc)
  operate-IsKept (seek off whence) f free always = absurd (let clash = always in cc)
  operate-IsKept (get_position_shared offset) f free always = absurd (let clash = always in cc)

  partly-IsKept :
      (op : Operation env io) (f : File D W)
      → f.locked ≡ false
      → always_returns env io op ≡ false
      → Unless (λ c g. IsKept f g) (operate env io op f)
  unfolding operate
  partly-IsKept get_view f free e =
      answered-IsKept' f (file_get_view env f) (λ v. success) (get_view-kept env f free)
  partly-IsKept (seek off whence) f free e =
      returned-IsKept f (file_seek io off whence f) (seek-kept io off whence f free)
  partly-IsKept (get_position_shared offset) f free e =
      answered-IsKept' f (file_get_position_shared io offset f) (λ r. r.0)
        (get_position_shared-kept io offset f free)
  partly-IsKept op f free e = absurd (let clash = e in cc)

  operate-IsKept' :
      (op : Operation env io) (f : File D W)
      → f.locked ≡ false
      → Unless (λ c g. IsKept f g) (operate env io op f)
  operate-IsKept' op f free = elim (Bool-cases (always_returns env io op)) [
    | inl always ↦
        Post-Unless f (λ c g. IsKept f g) (operate env io op f) (operate-IsKept op f free always)
    | inr e ↦ partly-IsKept op f free e
  ]

  IsKept-trans : {f g h : File D W} → IsKept f g → IsKept g h → IsKept f h
  IsKept-trans a b = record {
    free = b.free;
    ready = λ r. b.ready (a.ready r);
    absorbing = λ r. b.absorbing (a.absorbing r);
  }

  returns :
      (f : File D W) (r : Run (File D W) Code)
      → Post (λ c g. IsKept f g) r
      → (c : Code) × (h : File D W) × (r ≡ ok c h)
  returns f (ok c h) p = (c, h, refl)
  returns f stuck p = absurd p

  reached : (f g : File D W) → f.locked ≡ false → Reach env io f g → IsKept f g
  reached f g free start = IsKept-self f free
  reached f k free (next op c g h r e) =
      let kept = reached f g free r in
      IsKept-trans kept (subst (Unless (λ c k. IsKept g k)) e (operate-IsKept' op g kept.free))

  -- A file whose lock is free, after any sequence of operations that have returned: the lock is free, a
  -- buffered view is whole if it was at first, and a file that was in fallback still is. And the next
  -- operation returns, if it is not a seek, `get_view` or a question for the shared position, of which this is not
  -- said. The answer about O_DIRECT has to be known for every view.
  pub Reach-IsKept :
      (f g : File D W)
      → f.locked ≡ false
      → Reach env io f g
      → IsKept f g
        × ((op : Operation env io)
            → always_returns env io op ≡ true
            → (c : Code) × (h : File D W) × (operate env io op g ≡ ok c h))
  Reach-IsKept f g free r =
      let kept = reached f g free r in
      (kept, λ op always. returns g (operate env io op g) (operate-IsKept op g kept.free always))

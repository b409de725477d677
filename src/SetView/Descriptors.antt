-- ===== src/SetView/Descriptors.antt =====
-- The descriptor of the file (io_bbview_file_set_view.c): the file itself, or the local file.
use bbview.Base.{
  ℕ, ◌≡◌, refl, sym, ap, subst, ◌∙◌, inl, inr, List, Bool, true, false, not, ◌&&◌, ◌==◌, Bool-cases,
  Option, Option-cases, none, some,
}
use bbview.Base.Handles.{Table, adding, removing, removing-adding}
use bbview.Flush.{local_name}
use bbview.Flush.Descriptors.{IsHeld, file_flush-Even}
use bbview.Flush.Total.{file_flush_ends}
use bbview.Session.{
  Code, Env, File, Call, OmpioFile, ViewData, success, ompi_error, is_success, is_active,
  is_fallback,
}
use bbview.Session.Run.{Run, M, ok, stuck, pure, Post, Post-map, Post-and_then, lock}
use bbview.SetView.{
  ViewArgs, direct_flag, open_local, open_fh, close_fh, leave, ompio_set_view, save_types,
  save_etype, new_view, byte_view, flush_previous, is_byte_view, is_native, locked_set_view,
  file_set_view,
}

-- What the process has open, if it has `base` open beside the descriptor of a handle.
abbrev pub with_fd : Table → Option ℕ → Table
with_fd base none = base
with_fd base (some fd) = adding fd base

-- The descriptor is not one of `base`.
abbrev pub IsOwn : Table → Option ℕ → Type 0
IsOwn base none = Unit
IsOwn base (some fd) = base fd ≡ false

-- ompio's own view keeps the descriptor, and opens none.
abbrev pub IsApart : {D I W : Type 0} → Env D I W → (W → Table) → Type 0
IsApart {D} {I} {W} env held =
    (disp : ℕ) (et ft : D) (datarep : List ℕ) (info : Option I) (o : OmpioFile) (w : W)
    → let r = env.ompio.set_view disp et ft datarep info o w in
      (r.1.fd ≡ o.fd) × (held r.2 ≡ held w)

module _ {D I W : Type 0} (env : Env D I W) (held : W → Table) (laws : IsHeld env.posix held)
    (apart : IsApart env held) (base : Table) where
  -- All that the process has open, but `base`, is the file's descriptor.
  abbrev pub IsBalanced : File D W → Type 0
  IsBalanced f = IsOwn base f.ompio.fd × (held f.world ≡ with_fd base f.ompio.fd)

  abbrev Balances : {A : Type 0} → Run (File D W) A → Type 0
  Balances r = Post (λ a g. IsBalanced g) r

  leave-Balances : (c : Code) (f : File D W) → f.locked ≡ true → IsBalanced f → Balances (leave c f)
  leave-Balances c f taken b = rw taken b

  closed :
      (fd : Option ℕ) (w : W)
      → IsOwn base fd
      → held w ≡ with_fd base fd
      → held (env.posix.close fd w) ≡ base
  closed none w own b = laws.closes_none w ∙ b
  closed (some fd) w own b = laws.closes fd w ∙ ap (removing fd) b ∙ removing-adding fd base own

  opened :
      (fd : Option ℕ) (before after : Table)
      → before ≡ base
      → ((n : ℕ) → fd ≡ some n → (before n ≡ false) × (after ≡ adding n before))
      → (fd ≡ none → after ≡ before)
      → IsOwn base fd × (after ≡ with_fd base fd)
  opened none before after e s n = (tt, n refl ∙ e)
  opened (some fd) before after e s n =
      let (free, more) = s fd refl in
      (sym (ap (λ (t : Table). t fd) e) ∙ free, more ∙ ap (adding fd) e)

  set-Balances :
      (disp : ℕ) (et ft : D) (a : ViewArgs D I) (f : File D W)
      → f.locked ≡ true
      → IsBalanced f
      → Balances (bbview.Session.Run.◌>>=◌ (ompio_set_view env disp et ft a) leave f)
  unfolding ompio_set_view
  set-Balances disp et ft a f taken b =
      let (fd, kept) = apart disp et ft a.datarep a.info f.ompio f.world in
      rw taken (subst (IsOwn base) (sym fd) b.0, kept ∙ b.1 ∙ ap (with_fd base) (sym fd))

  open_local-Balances :
      (a : ViewArgs D I) (direct : Bool) (known : direct_flag env a ≡ some direct) (f : File D W)
      → f.locked ≡ true
      → IsBalanced f
      → Balances (open_local env a f)
  unfolding open_local close_fh open_fh
  open_local-Balances a direct known f taken b =
      let w = env.posix.close f.ompio.fd f.world in
      let r = env.posix.open_local (local_name env f) direct w in
      let shut = closed f.ompio.fd f.world b.0 b.1 in
      elim (Option-cases r.0) [
        | inl e ↦
            rw (known, e, open_local)
              (rw taken (
                opened none (held w) (held r.1) shut (λ n clash. cc)
                  (λ same. laws.opens_none (local_name env f) direct w e)))
        | inr (fd, e) ↦
            rw (known, e, open_local)
              (set-Balances 0 a.etype a.etype a
                (record f { ompio = record f.ompio { fd = some fd }; world = r.1 }) taken
                (opened (some fd) (held w) (held r.1) shut
                  (λ n same. laws.opens (local_name env f) direct w n (e ∙ same)) (λ clash. cc)))
      ]

  save_etype-Balances :
      (a : ViewArgs D I) (next : M D W Code) (f : File D W)
      → ((v : ViewData D) → Balances (next (record f { view = v })))
      → f.locked ≡ true
      → IsBalanced f
      → Balances (save_etype env a next f)
  unfolding save_etype
  save_etype-Balances a next f rest taken b =
      elim (Bool-cases (is_success (env.ompio.get_pack_description a.etype).0)) [
        | inr bad ↦ rw (bad, taken) b
        | inl good ↦ elim (Bool-cases (is_success (env.ompio.type_extent a.filetype).0)) [
          | inr bad ↦ rw (good, bad, taken) b
          | inl sized ↦ rw (good, sized) (rest _)
        ]
      ]

  save_types-Balances :
      (a : ViewArgs D I) (next : M D W Code) (f : File D W)
      → ((v : ViewData D) → Balances (next (record f { view = v })))
      → f.locked ≡ true
      → IsBalanced f
      → Balances (save_types env a next f)
  unfolding save_types
  save_types-Balances a next f rest taken b =
      elim (Bool-cases (is_success (env.ompio.get_pack_description a.filetype).0)) [
        | inr bad ↦ rw (bad, taken) b
        | inl good ↦ rw good (save_etype-Balances a next _ (λ v. rest v) taken b)
      ]

  flush_previous-Balances :
      (next : M D W Code) (f : File D W)
      → ((g : File D W) → g.locked ≡ true → IsBalanced g → Balances (next g))
      → f.locked ≡ true
      → IsBalanced f
      → Balances (flush_previous env next f)
  unfolding flush_previous
  flush_previous-Balances next f rest taken b =
      let (c, w, e) = file_flush_ends env f in
      let even : held w ≡ with_fd base f.ompio.fd =
        subst (Post (λ c g. held g.world ≡ with_fd base f.ompio.fd)) e
          (file_flush-Even env held laws (with_fd base f.ompio.fd) f b.1) in
      elim (Bool-cases (is_active f.view.state)) [
        | inr idle ↦ rw idle (rest f taken b)
        | inl buffered ↦
            rw (buffered, e)
              (elim (Bool-cases (is_success c)) [
                | inr bad ↦ rw bad (leave-Balances c (record f { world = w }) taken (b.0, even))
                | inl good ↦ rw good (rest _ taken (b.0, even))
              ])
      ]

  reopen-Balances :
      (path : List ℕ) (f : File D W)
      → IsBalanced f
      → let r = env.posix.reopen path (env.posix.close f.ompio.fd f.world) in
        IsOwn base r.0 × (held r.1 ≡ with_fd base r.0)
  reopen-Balances path f b =
      let w = env.posix.close f.ompio.fd f.world in
      let r = env.posix.reopen path w in
      opened r.0 (held w) (held r.1) (closed f.ompio.fd f.world b.0 b.1)
        (λ n e. laws.reopens path w n e) (laws.reopens_none path w)

  byte_view-Balances :
      (a : ViewArgs D I) (f : File D W)
      → f.locked ≡ true
      → IsBalanced f
      → Balances (byte_view env a f)
  unfolding byte_view close_fh open_fh
  byte_view-Balances a f taken b =
      flush_previous-Balances _ f
        (λ g taken b. elim (Bool-cases (is_active f.view.state)) [
          | inl buffered ↦
              rw buffered
                (set-Balances a.disp a.etype a.filetype a _ taken (reopen-Balances f.filename g b))
          | inr idle ↦ rw idle (set-Balances a.disp a.etype a.filetype a _ taken b)
        ])
        taken b

  locked-Balances :
      (a : ViewArgs D I) (direct : Bool) (known : direct_flag env a ≡ some direct) (f : File D W)
      → f.locked ≡ true
      → IsBalanced f
      → Balances (locked_set_view env a f)
  unfolding locked_set_view new_view
  locked-Balances a direct known f taken b = elim (Bool-cases (is_byte_view env a)) [
    | inl bytes ↦ rw bytes (byte_view-Balances a f taken b)
    | inr other ↦ rw other (elim (Bool-cases (is_fallback f.view.state)) [
      | inl fell ↦ rw fell (set-Balances a.disp a.etype a.filetype a f taken b)
      | inr stays ↦ rw stays (
          flush_previous-Balances _ f
            (λ g taken b.
              save_types-Balances a _ _ (λ v. open_local-Balances a direct known _ taken b) taken b)
            taken b)
    ])
  ]

-- As the system calls and ompio document what they open, close and keep, and with the lock free and
-- the O_DIRECT answer known: `set_view` ends on every path, and beside the file's own descriptor, which it
-- has or has lost, the process has the same descriptors open as before.
pub file_set_view-IsBalanced :
    {D I W : Type 0} (env : Env D I W) (held : W → Table) (laws : IsHeld env.posix held)
    (apart : IsApart env held) (base : Table) (a : ViewArgs D I) (direct : Bool)
    → direct_flag env a ≡ some direct
    → (f : File D W) → f.locked ≡ false
    → IsBalanced env held laws apart base f
    → Post (λ c g. IsBalanced env held laws apart base g) (file_set_view env a f)
unfolding file_set_view
file_set_view-IsBalanced env held laws apart base a direct known f free b =
    elim (Bool-cases (is_native a.datarep)) [
      | inr other ↦ rw other b
      | inl native ↦
          rw native
            (elim (Bool-cases (a.disp == env.displacement_current && not f.ompio.sequential)) [
              | inl refused ↦ rw refused b
              | inr admitted ↦
                  rw (admitted, free)
                    (locked-Balances env held laws apart base a direct known
                      (record f { locked = true }) refl b)
            ])
    ]

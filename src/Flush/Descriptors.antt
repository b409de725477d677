-- ===== src/Flush/Descriptors.antt =====
-- What the flush (io_bbview_file_flush.c) opens, it closes.
use bbview.Base.{
  ℕ, zero, suc, ◌+◌, ◌-◌, ◌<◌, ◌≡◌, ◌∙◌, ap, inl, inr, List, Bool, true, false, Bool-cases,
  Option-cases, none, some, arith, ltb, if◌then◌else◌,
}
use bbview.Base.Handles.{Table, adding, removing, removing-adding}
use bbview.Flush.{
  chunk_size, set_attr, set_datatype, set_xattrs_for_bbview, send_name, local_name, file_flush,
}
use bbview.Session.{
  Env, File, Posix, Attr, AttrValue, dest_path, disp, etype, datatype, ompi_error, is_active,
}
use bbview.Session.Run.{Run, M, and_then, pure, Post, Post-and_then}

-- Which descriptors the process has open: what the system calls document of it. A new one is none of
-- those open before, and a close ends the one that it names.
pub record IsHeld {W : Type 0} (posix : Posix W) (held : W → Table) : Type 0 where
  pub stores :
      (path : List ℕ) (at : Attr) (v : AttrValue) (w : W)
      → held (posix.setxattr path at v w).1 ≡ held w
  pub socket :
      (w : W) (fd : ℕ)
      → (posix.socket w).0 ≡ some fd
      → (held w fd ≡ false) × (held (posix.socket w).1 ≡ adding fd (held w))
  pub no_socket : (w : W) → (posix.socket w).0 ≡ none → held (posix.socket w).1 ≡ held w
  pub connects : (fd : ℕ) (w : W) → held (posix.connect fd w).1 ≡ held w
  pub writes : (fd : ℕ) (bs : List ℕ) (w : W) → held (posix.write fd bs w).1 ≡ held w
  pub closes : (fd : ℕ) (w : W) → held (posix.close (some fd) w) ≡ removing fd (held w)
  pub closes_none : (w : W) → held (posix.close none w) ≡ held w
  pub opens :
      (path : List ℕ) (direct : Bool) (w : W) (fd : ℕ)
      → (posix.open_local path direct w).0 ≡ some fd
      → (held w fd ≡ false) × (held (posix.open_local path direct w).1 ≡ adding fd (held w))
  pub opens_none :
      (path : List ℕ) (direct : Bool) (w : W)
      → (posix.open_local path direct w).0 ≡ none
      → held (posix.open_local path direct w).1 ≡ held w
  pub reopens :
      (path : List ℕ) (w : W) (fd : ℕ)
      → (posix.reopen path w).0 ≡ some fd
      → (held w fd ≡ false) × (held (posix.reopen path w).1 ≡ adding fd (held w))
  pub reopens_none :
      (path : List ℕ) (w : W)
      → (posix.reopen path w).0 ≡ none
      → held (posix.reopen path w).1 ≡ held w

module _ {D W : Type 0} (posix : Posix W) (held : W → Table) (laws : IsHeld posix held)
    (n : Table) where
  -- It ends with the descriptors `n` open.
  abbrev Even : {A : Type 0} → Run (File D W) A → Type 0
  Even r = Post (λ a g. held g.world ≡ n) r

  -- What follows a run that ends evenly.
  bind-Even :
      {A B : Type 0} (r : Run (File D W) A) (k : A → M D W B)
      → Even r
      → ((a : A) (g : File D W) → held g.world ≡ n → Even (k a g))
      → Even (and_then r k)
  bind-Even r k even next = Post-and_then (λ b h. held h.world ≡ n) r k even next

  set_attr-Even :
      (path : List ℕ) (at : Attr) (v : AttrValue) (next : M D W Bool) (f : File D W)
      → held f.world ≡ n
      → ((w : W) → held w ≡ n → Even (next (record f { world = w })))
      → Even (set_attr posix path at v next f)
  set_attr-Even path at v next f same rest =
      let r = posix.setxattr path at v f.world in
      let kept = laws.stores path at v f.world ∙ same in
      elim (Bool-cases r.0) [ inl e ↦ rw e (rest r.1 kept) | inr e ↦ rw e kept ]

  set_datatype-Even :
      (path : List ℕ) (len : ℕ) (buf : List ℕ) (fuel offset index : ℕ) (f : File D W)
      → held f.world ≡ n
      → len - offset < fuel
      → Even (set_datatype posix path len buf fuel offset index f)
  unfolding set_datatype
  set_datatype-Even path len buf zero offset index f same h = absurd (omega (arith, h))
  set_datatype-Even path len buf (suc fuel) offset index f same h =
      elim (Bool-cases (ltb offset len)) [
        | inr e ↦ rw e same
        | inl e ↦ rw e (
            set_attr-Even path (datatype index) _
              (set_datatype posix path len buf fuel (offset + chunk_size len offset) (index + 1)) f
              same
              λ w kept.
                set_datatype-Even path len buf fuel (offset + chunk_size len offset) (index + 1)
                  (record f { world = w }) kept (ground arith))
      ]

  etype-Even :
      (path : List ℕ) (v : AttrValue) (done : Bool) (f : File D W)
      → held f.world ≡ n
      → Even ((if done then set_attr posix path etype v (pure true) else pure false) f)
  etype-Even path v true f same = set_attr-Even path etype v (pure true) f same λ w kept. kept
  etype-Even path v false f same = same

  set_xattrs-Even :
      (path : List ℕ) (f : File D W) → held f.world ≡ n → Even (set_xattrs_for_bbview posix path f)
  unfolding set_xattrs_for_bbview
  set_xattrs-Even path f same = elim (Option-cases (posix.realpath f.ompio.filename f.world)) [
    | inl e ↦ rw (e, set_xattrs_for_bbview) same
    | inr (dest, e) ↦
        rw (e, set_xattrs_for_bbview)
          (set_attr-Even path dest_path _ _ f same λ w kept.
            set_attr-Even path disp _ _ _ kept λ w kept.
              bind-Even _ _
                (set_datatype-Even path f.view.saved_dt_len f.view.saved_dt_buf
                  (f.view.saved_dt_len + 1) 0 0 _ kept (omega arith))
                λ done g kept. etype-Even path _ done g kept)
  ]

  send_name-Even : (name : List ℕ) (f : File D W) → held f.world ≡ n → Even (send_name posix name f)
  unfolding send_name
  send_name-Even name f same =
      let s = posix.socket f.world in
      elim (Option-cases s.0) [
        | inl e ↦ rw (e, send_name) (laws.no_socket f.world e ∙ same)
        | inr (fd, e) ↦
            let c = posix.connect fd s.1 in
            let w = posix.write fd name c.1 in
            let (free, one) = laws.socket f.world fd e in
            let joined_one = laws.connects fd s.1 ∙ one in
            let shut = removing-adding fd (held f.world) free ∙ same in
            elim (Bool-cases c.0) [
              | inr refused ↦
                  rw (e, refused) (laws.closes fd c.1 ∙ ap (removing fd) joined_one ∙ shut)
              | inl joined ↦
                  rw (e, joined)
                    (laws.closes fd w.1
                      ∙ ap (removing fd) (laws.writes fd name c.1 ∙ joined_one)
                      ∙ shut)
            ]
      ]

  sent-Even :
      (name : List ℕ) (done : Bool) (f : File D W)
      → held f.world ≡ n
      → Even ((if done then send_name posix name else pure ompi_error) f)
  sent-Even name true f same = send_name-Even name f same
  sent-Even name false f same = same

-- The flush ends on every path with the same descriptors open as before.
pub file_flush-Even :
    {D I W : Type 0} (env : Env D I W) (held : W → Table) (laws : IsHeld env.posix held) (n : Table)
    (f : File D W)
    → held f.world ≡ n
    → Post (λ c g. held g.world ≡ n) (file_flush env f)
unfolding file_flush
file_flush-Even env held laws n f same = elim (Bool-cases (is_active f.view.state)) [
  | inr e ↦ rw e same
  | inl e ↦ rw e (
      bind-Even env.posix held laws n _ _
        (set_xattrs-Even env.posix held laws n (local_name env f) f same)
        λ done g kept. sent-Even env.posix held laws n (local_name env f) done g kept)
]

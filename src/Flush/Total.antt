-- ===== src/Flush/Total.antt =====
-- The flush (io_bbview_file_flush.c) always comes to an end, and changes nothing of the open file
-- but the world that its system calls act on.
use bbview.Base.{
  ℕ, zero, suc, ◌+◌, ◌-◌, ◌<◌, ◌≡◌, refl, inl, inr, List, Bool, true, false, arith, ltb,
  if◌then◌else◌, Bool-cases, Option-cases,
}
use bbview.Session.{
  Code, File, Env, Posix, Attr, AttrValue, dest_path, disp, etype, datatype, success, ompi_error,
  is_active,
}
use bbview.Session.Run.{Run, M, ok, and_then, pure}
use bbview.Flush.{
  chunk_size, set_attr, set_datatype, set_xattrs_for_bbview, send_name, local_name, file_flush,
}

-- A run that ends, with the world alone changed.
pub data OnlyWorld {D W A : Type 0} (f : File D W) : Run (File D W) A → Type 0 where
  ends : (a : A) (w : W) → OnlyWorld f (ok a (record f { world = w }))

rebase :
    {D W A : Type 0} {f : File D W} {r : Run (File D W) A} (w : W)
    → OnlyWorld (record f { world = w }) r
    → OnlyWorld f r
rebase w (ends a w') = ends a w'

module _ {D W : Type 0} (posix : Posix W) where
  set_attr-OnlyWorld :
      (path : List ℕ) (attr : Attr) (v : AttrValue) (next : M D W Bool) (f : File D W)
      → ((w : W) → OnlyWorld (record f { world = w }) (next (record f { world = w })))
      → OnlyWorld f (set_attr posix path attr v next f)
  set_attr-OnlyWorld path attr v next f rest =
      elim (Bool-cases (posix.setxattr path attr v f.world).0) [
        | inl e ↦ rw e (rebase _ (rest _))
        | inr e ↦ rw e (ends false _)
      ]

  set_datatype-OnlyWorld :
      (path : List ℕ) (len : ℕ) (buf : List ℕ) (fuel offset index : ℕ) (f : File D W)
      → len - offset < fuel
      → OnlyWorld f (set_datatype posix path len buf fuel offset index f)
  unfolding set_datatype
  set_datatype-OnlyWorld path len buf zero offset index f h = absurd (omega arith)
  set_datatype-OnlyWorld path len buf (suc fuel) offset index f h =
      elim (Bool-cases (ltb offset len)) [
        | inr e ↦ rw e (ends true f.world)
        | inl e ↦ rw e (
            set_attr-OnlyWorld path (datatype index) _
              (set_datatype posix path len buf fuel (offset + chunk_size len offset) (index + 1)) f
              λ w.
                set_datatype-OnlyWorld path len buf fuel (offset + chunk_size len offset)
                  (index + 1) (record f { world = w }) (ground arith))
      ]

  -- What follows a run that leaves all but the world alone.
  bind-OnlyWorld :
      {A B : Type 0} (f : File D W) (r : Run (File D W) A) (k : A → M D W B)
      → OnlyWorld f r
      → ((a : A) (w : W) → OnlyWorld (record f { world = w }) (k a (record f { world = w })))
      → OnlyWorld f (and_then r k)
  bind-OnlyWorld f r k (ends a w) next = rebase w (next a w)

  -- The last attribute, once the file type is stored.
  etype-OnlyWorld :
      (path : List ℕ) (v : AttrValue) (done : Bool) (f : File D W)
      → OnlyWorld f ((if done then set_attr posix path etype v (pure true) else pure false) f)
  etype-OnlyWorld path v true f = set_attr-OnlyWorld path etype v (pure true) f λ w. ends true w
  etype-OnlyWorld path v false f = ends false f.world

  set_xattrs-OnlyWorld :
      (path : List ℕ) (f : File D W) → OnlyWorld f (set_xattrs_for_bbview posix path f)
  unfolding set_xattrs_for_bbview
  set_xattrs-OnlyWorld path f = elim (Option-cases (posix.realpath f.ompio.filename f.world)) [
    | inl e ↦ rw (e, set_xattrs_for_bbview) (ends false f.world)
    | inr (dest, e) ↦
        rw (e, set_xattrs_for_bbview)
          (set_attr-OnlyWorld path dest_path _ _ f λ w. set_attr-OnlyWorld path disp _ _ _ λ w.
            bind-OnlyWorld _ _ _
              (set_datatype-OnlyWorld path f.view.saved_dt_len f.view.saved_dt_buf _ 0 0 _
                (omega arith))
              λ done w. etype-OnlyWorld path _ done _)
  ]

  send_name-OnlyWorld : (name : List ℕ) (f : File D W) → OnlyWorld f (send_name posix name f)
  unfolding send_name
  send_name-OnlyWorld name f = elim (Option-cases (posix.socket f.world).0) [
    | inl e ↦ rw (e, send_name) (ends ompi_error _)
    | inr (fd, e) ↦
        rw (e, send_name)
          (elim (Bool-cases (posix.connect fd (posix.socket f.world).1).0) [
            | inr c ↦ rw c (ends ompi_error _)
            | inl c ↦ rw c (ends _ _)
          ])
  ]

module _ {D I W : Type 0} (env : Env D I W) where
  sent-OnlyWorld :
      (name : List ℕ) (done : Bool) (f : File D W)
      → OnlyWorld f ((if done then send_name env.posix name else pure ompi_error) f)
  sent-OnlyWorld name true f = send_name-OnlyWorld env.posix name f
  sent-OnlyWorld name false f = ends ompi_error f.world

  file_flush-OnlyWorld : (f : File D W) → OnlyWorld f (file_flush env f)
  unfolding file_flush
  file_flush-OnlyWorld f = elim (Bool-cases (is_active f.view.state)) [
    | inr e ↦ rw e (ends success f.world)
    | inl e ↦ rw e (
        bind-OnlyWorld env.posix f _ _ (set_xattrs-OnlyWorld env.posix (local_name env f) f)
          λ done w. sent-OnlyWorld (local_name env f) done (record f { world = w }))
  ]

  flushed :
      {f : File D W} {r : Run (File D W) Code}
      → OnlyWorld f r
      → (c : Code) × (w : W) × (r ≡ ok c (record f { world = w }))
  flushed (ends c w) = (c, w, refl)

  -- The flush ends, with a return code, and changes nothing of the open file but the world that its
  -- system calls act on.
  pub file_flush_ends :
      (f : File D W) → (c : Code) × (w : W) × (file_flush env f ≡ ok c (record f { world = w }))
  file_flush_ends f = flushed (file_flush-OnlyWorld f)

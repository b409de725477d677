-- ===== src/Manage/Preallocate/Outcome.antt =====
-- What mca_io_bbview_file_preallocate (io_bbview_file_open.c) leaves behind on every path.
use bbview.Base.{
  ℕ, zero, suc, ◌+◌, ◌-◌, ◌≡◌, ◌<◌, refl, ap, sym, subst, ◌∙◌, true, false, ◌&&◌, Option, none,
  some, arith, ltb, ◌==◌, if◌then◌else◌,
}
use bbview.Manage.{Manager, Buffer}
use bbview.Manage.Preallocate.{
  piece, write_back, write_zeros, extend, write_all, root_part, finish, allocate, file_preallocate,
  cycles_of,
}
use bbview.Session.{Code, File, OmpioFile, is_success, success, ompi_error}
use bbview.Session.Run.{Run, Post, Post-map, Post-and_then}

-- Only ompio's handle and the world have changed.
abbrev pub IsCalled : {D W : Type 0} → File D W → File D W → Type 0
IsCalled f g = g ≡ record f { ompio = g.ompio; world = g.world }

module _ {D W : Type 0} (io : Manager W) where
  write_back-IsCalled :
      (rounds size : ℕ) (buf : Buffer) (written : ℕ) (f : File D W)
      → Post (λ _ g. IsCalled f g) (write_back io rounds size buf written f)
  unfolding write_back
  write_back-IsCalled zero size buf written f = refl
  write_back-IsCalled (suc rounds) size buf written f =
      let len = piece (size - written) in
      let read = io.file_read buf len f.ompio f.world in
      let wrote = io.file_write read.0.1 len read.1 read.2 in
      let rest =
        write_back-IsCalled rounds size read.0.1 (written + len)
          (record f { ompio = wrote.1; world = wrote.2 }) in
      ground (arith, rest)

  write_zeros-IsCalled :
      (rounds diskspace : ℕ) (buf : Buffer) (written : ℕ) (f : File D W)
      → Post (λ _ g. IsCalled f g) (write_zeros io rounds diskspace buf written f)
  unfolding write_zeros
  write_zeros-IsCalled zero diskspace buf written f = refl
  write_zeros-IsCalled (suc rounds) diskspace buf written f =
      let wrote = io.file_write buf (piece (diskspace - written)) f.ompio f.world in
      let rest =
        write_zeros-IsCalled rounds diskspace buf (written + piece (diskspace - written))
          (record f { ompio = wrote.1; world = wrote.2 }) in
      ground (arith, rest)

  extend-IsCalled :
      (diskspace current written : ℕ) (f : File D W)
      → Post (λ _ g. IsCalled f g) (extend io diskspace current written f)
  unfolding extend
  extend-IsCalled diskspace current written f =
      let zeros =
        write_zeros-IsCalled (cycles_of (diskspace - current)) diskspace (λ i. 0) written f in
      ground (arith, zeros)

  after-IsCalled :
      {A : Type 0} (f g : File D W) (r : Run (File D W) A)
      → IsCalled f g
      → Post (λ _ h. IsCalled g h) r
      → Post (λ _ h. IsCalled f h) r
  after-IsCalled f g r e p =
      Post-map r p
        (λ _ h e'. e' ∙ ap {A = File D W} (λ x. record x { ompio = h.ompio; world = h.world }) e)

  write_all-IsCalled :
      (diskspace current : ℕ) (buf : Buffer) (f : File D W)
      → Post (λ _ g. IsCalled f g) (write_all io diskspace current buf f)
  unfolding write_all
  write_all-IsCalled diskspace current buf f =
      let size = if ltb current diskspace then current else diskspace in
      Post-and_then (λ _ h. IsCalled f h) (write_back io (cycles_of size) size buf 0 f) _
        (write_back-IsCalled (cycles_of size) size buf 0 f)
        (λ r g e. ground (
          arith,
          e,
          after-IsCalled f g (extend io diskspace current r.2 g) e
              (extend-IsCalled diskspace current r.2 g),
        ))

  root_part-IsCalled :
      (buffer : Option Buffer) (diskspace current : ℕ) (f : File D W)
      → Post (λ _ g. IsCalled f g) (root_part io buffer diskspace current f)
  unfolding root_part
  root_part-IsCalled none diskspace current f = refl
  root_part-IsCalled (some buf) diskspace current f =
      let asked = io.get_position f.ompio f.world in
      let f' : File D W = record f { ompio = asked.1; world = asked.2 } in
      let body = write_all io diskspace current buf f' in
      Post-and_then (λ _ h. IsCalled f h) body _
        (after-IsCalled f f' body refl (write_all-IsCalled diskspace current buf f'))
        (λ ret g e. ground (arith, e))

  finish_held :
      (f : File D W) (diskspace current : ℕ) (at_root : Code) (o : OmpioFile) (w : W)
      → Post
          (λ _ h. h ≡ record f { ompio = h.ompio; world = h.world; locked = false })
          (finish io diskspace current at_root (record f { ompio = o; world = w; locked = true }))
  unfolding finish
  finish_held f diskspace current at_root o w = ground arith

  finish_lem :
      (f : File D W) (diskspace current : ℕ) (at_root : Code) (g : File D W)
      → IsCalled (record f { locked = true }) g
      → Post
          (λ _ h. h ≡ record f { ompio = h.ompio; world = h.world; locked = false })
          (finish io diskspace current at_root g)
  finish_lem f diskspace current at_root g e =
      subst
        (λ x.
          Post (λ _ h. h ≡ record f { ompio = h.ompio; world = h.world; locked = false })
            (finish io diskspace current at_root x))
        (sym e) (finish_held f diskspace current at_root g.ompio g.world)

  allocate_lem :
      (f : File D W) (buffer : Option Buffer) (diskspace current : ℕ) (o : OmpioFile) (w : W)
      → Post
          (λ _ h. h ≡ record f { ompio = h.ompio; world = h.world; locked = false })
          (allocate io buffer diskspace current (record f { ompio = o; world = w; locked = true }))
  unfolding allocate
  allocate_lem f buffer diskspace current o w =
      let g : File D W = record f { ompio = o; world = w; locked = true } in
      let root =
        Post-and_then (λ _ h. h ≡ record f { ompio = h.ompio; world = h.world; locked = false })
          (root_part io buffer diskspace current g) (finish io diskspace current)
          (after-IsCalled (record f { locked = true }) g (root_part io buffer diskspace current g)
            refl (root_part-IsCalled buffer diskspace current g))
          (λ c h e. finish_lem f diskspace current c h e) in
      let others = finish_lem f diskspace current success g refl in ground (arith, root, others)

  -- An allocation of a file whose lock is free ends, whatever the calls return, with the lock free and
  -- nothing but ompio's handle and the world changed. Where the broadcast fails or the
  -- processes disagree, it is an ompi_error, and ompio's handle is left alone; where the size cannot be
  -- had, an ompi_error, and where the file is larger already, a success, with no other call on the handle.
  pub file_preallocate_outcome :
      (f : File D W) (buffer : Option Buffer) (diskspace : ℕ)
      → f.locked ≡ false
      → let told = io.bcast diskspace f.world in
        let asked = io.fs_get_size f.ompio told.1 in
        Post
          (λ c g.
            (g ≡ record f { ompio = g.ompio; world = g.world; locked = false })
            × ((is_success told.0.0 && told.0.1 == diskspace) ≡ false
                → (c ≡ ompi_error) × (g.ompio ≡ f.ompio))
            × ((is_success told.0.0 && told.0.1 == diskspace) ≡ true
                → is_success asked.0.0 ≡ false
                → (c ≡ ompi_error) × (g.ompio ≡ asked.1))
            × ((is_success told.0.0 && told.0.1 == diskspace) ≡ true
                → is_success asked.0.0 ≡ true
                → diskspace < asked.0.1
                → (c ≡ success) × (g.ompio ≡ asked.1)))
          (file_preallocate io buffer diskspace f)
  unfolding file_preallocate
  file_preallocate_outcome f buffer diskspace free =
      let told = io.bcast diskspace f.world in
      let asked = io.fs_get_size f.ompio told.1 in
      let allocated = allocate_lem f buffer diskspace asked.0.1 asked.1 asked.2 in
      ground (arith, allocated)

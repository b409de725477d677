-- ===== src/Daemon/Descriptors.antt =====
-- What the daemon's `execute` (bbviewd.c) opens, it closes.
use bbview.Base.{
  ap, sym, ◌/◌, ℕ, zero, suc, ◌<◌, ◌≡◌, ◌≢◌, subst, ◌∙◌, inl, inr, List, [], ◌∷◌, false, none, some,
  arith, ◌==◌, length, Bool-cases, Option-cases,
}
use bbview.Base.Handles.{Table, adding, removing, removing-adding}
use bbview.Session.{etype, disp}
use bbview.Flush.{max_xattr_value_size}
use bbview.Daemon.Copy.{
  buffer_size, as_text, as_number, read_chunks, target_buffer_size, Copier, Copied, finished,
  crashed, out_of_fuel, whole_part, copy_loop, closing, copy_to, with_types, execute,
}

-- The descriptors, and the handles of ompio.
abbrev pub Tables : Type 0
Tables = Table × Table

-- Which descriptors, and which handles of ompio, are open, and how much of the local file is left to
-- read: what the system calls and ompio document of them. What is opened was not open before, and a
-- close ends the one that it names, and no other.
pub record IsCounted {D W : Type 0} (io : Copier D W) (held : W → Tables) (remaining : W → ℕ)
    : Type 0 where
  pub opens :
      (path : List ℕ) (w : W) (fd : ℕ)
      → (io.open_read path w).0 ≡ some fd
      → ((held w).0 fd ≡ false)
        × (held (io.open_read path w).1 ≡ (adding fd (held w).0, (held w).1))
  pub opens_none :
      (path : List ℕ) (w : W)
      → (io.open_read path w).0 ≡ none
      → held (io.open_read path w).1 ≡ held w
  pub file_opens :
      (path : List ℕ) (w : W) (fh : ℕ)
      → (io.file_open path w).0 ≡ some fh
      → ((held w).1 fh ≡ false)
        × (held (io.file_open path w).1 ≡ ((held w).0, adding fh (held w).1))
  pub file_opens_none :
      (path : List ℕ) (w : W)
      → (io.file_open path w).0 ≡ none
      → held (io.file_open path w).1 ≡ held w
  pub views : (fh from : ℕ) (et dt : D) (w : W) → held (io.set_view fh from et dt w).1 ≡ held w
  pub reads : (fd n : ℕ) (w : W) → held (io.read fd n w).1 ≡ held w
  pub shrinks :
      (fd n : ℕ) (w : W) (c : ℕ) (cs : List ℕ)
      → (io.read fd n w).0 ≡ some (c ∷ cs)
      → remaining (io.read fd n w).1 < remaining w
  pub writes : (fh : ℕ) (et : D) (bs : List ℕ) (w : W) → held (io.file_write fh et bs w).1 ≡ held w
  pub writes_only :
      (fh : ℕ) (et : D) (bs : List ℕ) (w : W) → remaining (io.file_write fh et bs w).1 ≡ remaining w
  pub closes : (fd : ℕ) (w : W) → held (io.close fd w) ≡ (removing fd (held w).0, (held w).1)
  pub file_closes :
      (fh : ℕ) (w : W) → held (io.file_close fh w) ≡ ((held w).0, removing fh (held w).1)

-- The copy ends, with the descriptors and handles `n` open.
abbrev pub EndsWith : {W : Type 0} → (W → Tables) → Tables → Copied W → Type 0
EndsWith held n (finished good w) = held w ≡ n
EndsWith held n crashed = ⊥
EndsWith held n out_of_fuel = ⊥

module _ {D W : Type 0} (io : Copier D W) (held : W → Tables) (remaining : W → ℕ)
    (laws : IsCounted io held remaining) where
  copy_loop-EndsWith :
      (fuel fd fh : ℕ) (et : D) (etype_size buf_size : ℕ) (w : W)
      → remaining w < fuel
      → EndsWith held (held w) (copy_loop io fuel fd fh et etype_size buf_size w)
  unfolding copy_loop
  copy_loop-EndsWith zero fd fh et etype_size buf_size w h = absurd (omega (arith, h))
  copy_loop-EndsWith (suc fuel) fd fh et etype_size buf_size w h =
      let r = io.read fd buf_size w in
      let same = laws.reads fd buf_size w in
      elim (Option-cases r.0) [
        | inl e ↦ rw (e, copy_loop) same
        | inr ([], e) ↦ rw (e, copy_loop) same
        | inr (c ∷ cs, e) ↦
            let whole = whole_part io etype_size (c ∷ cs) in
            let p = io.file_write fh et whole r.1 in
            let less = laws.shrinks fd buf_size w c cs e in
            let kept = laws.writes fh et whole r.1 in
            let only = laws.writes_only fh et whole r.1 in
            let skipped =
              copy_loop-EndsWith fuel fd fh et etype_size buf_size r.1 (omega (arith, less, h)) in
            let gone_on =
              copy_loop-EndsWith fuel fd fh et etype_size buf_size p.1
                (omega (arith, less, h, only)) in
            rw (e, copy_loop)
              (elim (Bool-cases (length whole == 0)) [
                | inl z ↦ rw z (
                    subst
                      (λ n. EndsWith held n (copy_loop io fuel fd fh et etype_size buf_size r.1))
                      same skipped)
                | inr z ↦ rw z (elim (Bool-cases p.0) [
                  | inl good ↦ rw good (
                      subst
                        (λ n. EndsWith held n (copy_loop io fuel fd fh et etype_size buf_size p.1))
                        (kept ∙ same) gone_on)
                  | inr bad ↦ rw bad (kept ∙ same)
                ])
              ])
      ]

  closing-EndsWith :
      (fd fh : ℕ) (n : Tables) (r : Copied W)
      → n.0 fd ≡ false
      → n.1 fh ≡ false
      → EndsWith held (adding fd n.0, adding fh n.1) r
      → EndsWith held n (closing io fd fh r)
  closing-EndsWith fd fh n (finished good w) free free' h =
      let v = io.file_close fh w in
      let one : held v ≡ (adding fd n.0, n.1) =
        laws.file_closes fh w
        ∙ ap (λ (t : Tables). (t.0, removing fh t.1)) h
        ∙ ap (λ (t : Table). (adding fd n.0, t)) (removing-adding fh n.1 free') in
      laws.closes fd v
      ∙ ap (λ (t : Tables). (removing fd t.0, t.1)) one
      ∙ ap (λ (t : Table). (t, n.1)) (removing-adding fd n.0 free)
  closing-EndsWith fd fh n crashed free free' h = h
  closing-EndsWith fd fh n out_of_fuel free free' h = h

  fail-EndsWith :
      (fd : ℕ) (w : W) (n : Tables)
      → n.0 fd ≡ false
      → held w ≡ (adding fd n.0, n.1)
      → EndsWith held n (finished false (io.close fd w))
  fail-EndsWith fd w n free h =
      laws.closes fd w
      ∙ ap (λ (t : Tables). (removing fd t.0, t.1)) h
      ∙ ap (λ (t : Table). (t, n.1)) (removing-adding fd n.0 free)

  module _ (fuel : ℕ) (enough : (w : W) → remaining w < fuel) where
    copy_to-EndsWith :
        (fd : ℕ) (dst : List ℕ) (from : ℕ) (et dt : D) (etype_size : ℕ) (w : W) (n : Tables)
        → n.0 fd ≡ false
        → held w ≡ (adding fd n.0, n.1)
        → EndsWith held n (copy_to io fuel fd dst from et dt etype_size w)
    unfolding copy_to
    copy_to-EndsWith fd dst from et dt etype_size w n free h =
        let opened = io.file_open dst w in
        elim (Option-cases opened.0) [
          | inl e ↦
              rw (e, copy_to) (fail-EndsWith fd opened.1 n free (laws.file_opens_none dst w e ∙ h))
          | inr (fh, e) ↦
              let viewed = io.set_view fh from et dt opened.1 in
              let (free', more) = laws.file_opens dst w fh e in
              let two : held viewed.1 ≡ (adding fd n.0, adding fh n.1) =
                laws.views fh from et dt opened.1
                ∙ more
                ∙ ap (λ (t : Tables). (t.0, adding fh t.1)) h in
              let mine : n.1 fh ≡ false = sym (ap (λ (t : Tables). t.1 fh) h) ∙ free' in
              rw (e, copy_to)
                (closing-EndsWith fd fh n _ free mine (elim (Bool-cases viewed.0) [
                  | inl good ↦ rw good (
                      subst
                        (λ m. EndsWith held m (
                          copy_loop io fuel fd fh et etype_size (buffer_size io etype_size)
                            viewed.1))
                        two
                        (copy_loop-EndsWith fuel fd fh et etype_size (buffer_size io etype_size)
                          viewed.1 (enough viewed.1)))
                  | inr bad ↦ rw bad two
                ]))
        ]

    module _ (nonempty : (et : D) → io.type_size et ≢ some 0) where
      with_types-EndsWith :
          (fd : ℕ) (dst : List ℕ) (from : ℕ) (et_buf dt_buf : List ℕ) (w : W) (n : Tables)
          → n.0 fd ≡ false
          → held w ≡ (adding fd n.0, n.1)
          → EndsWith held n (with_types io fuel fd dst from et_buf dt_buf w)
      unfolding with_types
      with_types-EndsWith fd dst from et_buf dt_buf w n free h =
          let failed = fail-EndsWith fd w n free h in
          elim (Option-cases (io.unpack et_buf)) [
            | inl e ↦ rw (e, with_types) failed
            | inr (et, e) ↦
                rw (e, with_types)
                  (elim (Option-cases (io.unpack dt_buf)) [
                    | inl e' ↦ rw (e', with_types) failed
                    | inr (dt, e') ↦
                        rw (e', with_types)
                          (elim (Option-cases (io.type_size et)) [
                            | inl t ↦ rw (t, with_types) failed
                            | inr (zero, t) ↦ absurd (nonempty et t)
                            | inr (suc m, t) ↦
                                rw (t, with_types)
                                  (elim (Bool-cases (io.malloc (buffer_size io (suc m)))) [
                                    | inl b ↦
                                        rw b (copy_to-EndsWith fd dst from et dt (suc m) w n free h)
                                    | inr b ↦ rw b failed
                                  ])
                          ])
                  ])
          ]

      -- On every path, errors included, `execute` comes to an end and leaves just those descriptors and
      -- handles open that it found open: where no element type is empty and the fuel exceeds the length of
      -- any local file, and as the calls document what they open, close and read.
      pub execute-EndsWith :
          (src dst : List ℕ) (w : W) → EndsWith held (held w) (execute io fuel src dst w)
      unfolding execute
      execute-EndsWith src dst w =
          let opened = io.open_read src w in
          elim (Option-cases opened.0) [
            | inl e ↦ rw (e, execute) (laws.opens_none src w e)
            | inr (fd, e) ↦
                let (free, one) = laws.opens src w fd e in
                let failed = fail-EndsWith fd opened.1 (held w) free one in
                rw (e, execute)
                  (elim (Option-cases
                    (as_text (io.fgetxattr fd etype max_xattr_value_size opened.1))) [
                      | inl a ↦ rw (a, execute) failed
                      | inr (et_buf, a) ↦
                          rw (a, execute)
                            (elim (Option-cases (
                              read_chunks io fd opened.1 (target_buffer_size / max_xattr_value_size)
                                0 [])) [
                                  | inl b ↦ rw (b, execute) failed
                                  | inr (dt_buf, b) ↦
                                      rw (b, execute)
                                        (elim (Option-cases
                                          (as_number (io.fgetxattr fd disp 8 opened.1))) [
                                            | inl c ↦ rw (c, execute) failed
                                            | inr (from, c) ↦
                                                rw (c, execute)
                                                  (with_types-EndsWith fd dst from et_buf dt_buf
                                                    opened.1 (held w) free one)
                                          ])
                                ])
                    ])
          ]

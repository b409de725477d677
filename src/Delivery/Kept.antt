-- ===== src/Delivery/Kept.antt =====
-- What the flush (io_bbview_file_flush.c) leaves alone.
use bbview.Base.{
  ℕ, zero, suc, ◌+◌, ◌-◌, ◌<◌, ◌≡◌, refl, ap, ◌∙◌, ◌++◌, [], ◌∷◌, Option, none, length, ◌==◌,
  if◌then◌else◌, inl, inr, List, Bool, true, Bool-cases, Option-cases, some, arith, ltb, take, drop,
}
use bbview.Delivery.{IsQuiet, IsSending}
use bbview.Flush.{sent, chunk_size, set_attr, set_datatype, set_xattrs_for_bbview, send_name}
use bbview.Session.{
  File, Posix, Attr, AttrValue, text, number, dest_path, disp, etype, datatype, success, ompi_error,
}
use bbview.Session.Run.{M, Post, Post-map, Post-and_then}

module _ {W A : Type 0} (posix : Posix W) (seen : W → A) (path : List ℕ) where
  -- Storing attribute `at` leaves it alone.
  abbrev pub Keeps : Attr → Type 0
  Keeps at =
      (v : AttrValue) (w : W)
      → (posix.setxattr path at v w).0 ≡ true
      → seen (posix.setxattr path at v w).1 ≡ seen w

  -- The chunks leave it alone.
  pub set_datatype-kept :
      {D : Type 0}
      → ((i : ℕ) → Keeps (datatype i))
      → (len : ℕ) (buf : List ℕ) (fuel offset index : ℕ) (f : File D W) → len - offset < fuel
      → Post
          (λ done g. done ≡ true → seen g.world ≡ seen f.world)
          (set_datatype posix path len buf fuel offset index f)
  unfolding set_datatype
  set_datatype-kept keeps len buf zero offset index f room = absurd (omega (arith, room))
  set_datatype-kept keeps len buf (suc fuel) offset index f room =
      elim (Bool-cases (ltb offset len)) [
        | inr e ↦ rw e (λ done. refl)
        | inl e ↦
            let v : AttrValue = text (take (chunk_size len offset) (drop offset buf)) in
            let w = (posix.setxattr path (datatype index) v f.world).1 in
            elim (Bool-cases (posix.setxattr path (datatype index) v f.world).0) [
              | inr lost ↦ rw (e, lost) (λ done. cc)
              | inl stored ↦
                  rw (e, stored)
                    (Post-map
                      (set_datatype posix path len buf fuel (offset + chunk_size len offset)
                        (index + 1) (record f { world = w }))
                      (set_datatype-kept keeps len buf fuel (offset + chunk_size len offset)
                        (index + 1) (record f { world = w }) (ground arith))
                      (λ done g same good. same good ∙ keeps index v f.world stored))
            ]
      ]

  -- So does the message, if the sockets do.
  pub send_name-kept :
      {D : Type 0} (quiet : IsQuiet posix seen) (name : List ℕ) (f : File D W)
      → Post (λ c g. seen g.world ≡ seen f.world) (send_name posix name f)
  unfolding send_name
  send_name-kept quiet name f =
      let s = posix.socket f.world in
      elim (Option-cases s.0) [
        | inl e ↦ rw e (quiet.socket f.world)
        | inr (fd, e) ↦
            let c = posix.connect fd s.1 in
            let w = posix.write fd name c.1 in
            let one = quiet.connect fd s.1 ∙ quiet.socket f.world in
            elim (Bool-cases c.0) [
              | inl joined ↦
                  rw (e, joined) (quiet.close (some fd) w.1 ∙ quiet.write fd name c.1 ∙ one)
              | inr refused ↦ rw (e, refused) (quiet.close (some fd) c.1 ∙ one)
            ]
      ]

sent-whole : (n : ℕ) (r : Option ℕ) → sent n r ≡ success → r ≡ some n
sent-whole n none e = cc
sent-whole n (some k) e = elim (Bool-cases (k == n)) [
  | inl same ↦ ground (arith, same)
  | inr other ↦
      let failed : ompi_error ≡ (if k == n then success else ompi_error) = rw other refl in
      let wrong : ompi_error ≡ success = failed ∙ e in absurd (cc)
]

-- A message that has gone out with success is one more that has been sent.
pub send_name-sends :
    {D W : Type 0} (posix : Posix W) (messages : W → List (List ℕ))
    (sending : IsSending posix messages)
    → (name : List ℕ) (f : File D W)
    → Post
        (λ c g. c ≡ success → messages g.world ≡ messages f.world ++ (name ∷ []))
        (send_name posix name f)
unfolding send_name
send_name-sends posix messages sending name f =
    let s = posix.socket f.world in
    elim (Option-cases s.0) [
      | inl e ↦ rw e (λ c. cc)
      | inr (fd, e) ↦
          let c = posix.connect fd s.1 in
          let w = posix.write fd name c.1 in
          elim (Bool-cases c.0) [
            | inl joined ↦
                rw (e, joined)
                  (λ good.
                    sending.close (some fd) w.1
                    ∙ sending.write fd name c.1 (sent-whole (length name) w.0 good)
                    ∙ ap (λ l. l ++ (name ∷ [])) (sending.connect fd s.1 ∙ sending.socket f.world))
            | inr refused ↦ rw (e, refused) (λ c. cc)
          ]
    ]

module _ {D W : Type 0} (posix : Posix W) (path : List ℕ) (R : File D W → Type 0) where
  -- A rule for one setxattr, and what follows it.
  pub set_attr-Post :
      (at : Attr) (v : AttrValue) (next : M D W Bool) (f : File D W)
      → ((posix.setxattr path at v f.world).0 ≡ true
          → Post
              (λ done g. done ≡ true → R g)
              (next (record f { world = (posix.setxattr path at v f.world).1 })))
      → Post (λ done g. done ≡ true → R g) (set_attr posix path at v next f)
  set_attr-Post at v next f h = elim (Bool-cases (posix.setxattr path at v f.world).0) [
    | inl stored ↦ rw stored (h stored)
    | inr lost ↦ rw lost (λ done. cc)
  ]

  -- A rule for all of them: what holds behind the chunks and one more attribute.
  pub set_xattrs-Post :
      (f : File D W) (dest : List ℕ)
      → posix.realpath f.ompio.filename f.world ≡ some dest
      → let v = f.view in
        let r1 = posix.setxattr path dest_path (text dest) f.world in
        let r2 = posix.setxattr path disp (number v.saved_disp) r1.1 in
        let last : AttrValue = text (take v.saved_et_len v.saved_et_buf) in
        (r1.0 ≡ true
          → r2.0 ≡ true
          → Post
              (λ done g.
                done ≡ true
                → (posix.setxattr path etype last g.world).0 ≡ true
                → R (record g { world = (posix.setxattr path etype last g.world).1 }))
              (set_datatype posix path v.saved_dt_len v.saved_dt_buf
                (v.saved_dt_len + 1)
                0
                0
                (record f { world = r2.1 })))
        → Post (λ done g. done ≡ true → R g) (set_xattrs_for_bbview posix path f)
  unfolding set_xattrs_for_bbview
  set_xattrs-Post f dest real h =
      let v = f.view in
      let r1 = posix.setxattr path dest_path (text dest) f.world in
      let r2 = posix.setxattr path disp (number v.saved_disp) r1.1 in
      let last : AttrValue = text (take v.saved_et_len v.saved_et_buf) in
      rw (real, set_xattrs_for_bbview)
        (set_attr-Post dest_path (text dest) _ f (λ first.
          set_attr-Post disp (number v.saved_disp) _ (record f { world = r1.1 })
            (λ second.
              Post-and_then (λ done g. done ≡ true → R g)
                (set_datatype posix path v.saved_dt_len v.saved_dt_buf (v.saved_dt_len + 1) 0 0
                  (record f { world = r2.1 }))
                _ (h first second)
                (λ done g p. elim (Bool-cases done) [
                  | inl good ↦
                      rw good (set_attr-Post etype last _ g (λ stored. λ done. p good stored))
                  | inr bad ↦ rw bad (λ done. cc)
                ]))))

-- The whole flush of the attributes, by what each of them keeps.
pub set_xattrs-kept :
    {D W A : Type 0} (posix : Posix W) (seen : W → A) (path : List ℕ)
    → ((at : Attr) → Keeps posix seen path at)
    → (f : File D W) (dest : List ℕ) → posix.realpath f.ompio.filename f.world ≡ some dest
    → Post
        (λ done g. done ≡ true → seen g.world ≡ seen f.world)
        (set_xattrs_for_bbview posix path f)
set_xattrs-kept posix seen path keeps f dest real =
    let v = f.view in
    let r1 = posix.setxattr path dest_path (text dest) f.world in
    let r2 = posix.setxattr path disp (number v.saved_disp) r1.1 in
    set_xattrs-Post posix path (λ g. seen g.world ≡ seen f.world) f dest real
      (λ first second.
        Post-map
          (set_datatype posix path v.saved_dt_len v.saved_dt_buf (v.saved_dt_len + 1) 0 0
            (record f { world = r2.1 }))
          (set_datatype-kept posix seen path (λ i. keeps (datatype i)) v.saved_dt_len v.saved_dt_buf
            (v.saved_dt_len + 1) 0 0 (record f { world = r2.1 }) (omega arith))
          (λ done g same good stored.
            keeps etype (text (take v.saved_et_len v.saved_et_buf)) g.world stored
            ∙ same good
            ∙ keeps disp (number v.saved_disp) r1.1 second
            ∙ keeps dest_path (text dest) f.world first))

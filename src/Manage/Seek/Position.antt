-- ===== src/Manage/Seek/Position.antt =====
-- Where mca_io_bbview_file_seek (io_bbview_file_open.c) puts the file pointer.
use native.Mathlib.Nat.{add-mul, mul-div_cancel, mul_right_comm, div-add-mod'}
use bbview.Base.{
  ℕ, ◌+◌, ◌-◌, ◌*◌, ◌/◌, ◌%◌, ◌^◌, ◌≤◌, ◌<◌, ◌≡◌, ◌≢◌, refl, ap, sym, ◌∙◌, [], ◌∷◌, Bool, true,
  false, ◌||◌, arith,
}
use bbview.Base.Words.{word, add64}
use bbview.Manage.{Manager}
use bbview.Manage.Seek.{
  is_negative, seek_set, seek_cur, seek_end, seek_to, seek_if, seek_from_end, seek_by, file_seek,
}
use bbview.Manage.Seek.Eof.{get_eof_offset_contiguous}
use bbview.Session.{Code, File, OmpioFile, success}
use bbview.Session.Run.{Run, ok}

-- The product of a sum that wraps around.
scaled :
    (off p t es : ℕ)
    → (off + p) % word ≡ t
    → t * es < word
    → add64 (off * es % word) (p * es) ≡ t * es
scaled off p t es e small =
    let q = (off + p) / word in
    let split : (off + p) ≡ q * word + t = omega (arith, div-add-mod' (off + p) word, e) in
    let product : off * es + p * es ≡ q * es * word + t * es =
      sym (add-mul off p es)
      ∙ ap (λ k. k * es) split
      ∙ add-mul (q * word) t es
      ∙ ap (λ k. k + t * es) (mul_right_comm q word es) in
    omega (arith, product, small)

module _ {D W : Type 0} (io : Manager W) where
  -- ompio is asked to go to element `t`, and the lock is free again.
  abbrev pub moved : ℕ → OmpioFile → W → File D W → Run (File D W) Code
  moved t o w f =
      let r = io.set_explicit_offset t o w in
      ok r.0 (record f { ompio = r.1; world = r.2; locked = false })

  seek_if-moved :
      (at t es : ℕ) (f : File D W)
      → f.locked ≡ true
      → f.ompio.fview.etype_size ≡ es
      → 0 < es
      → at ≡ t * es
      → t * es < 2 ^ 63
      → (b : Bool) → b ≡ is_negative at
      → seek_if io b at f ≡ moved t f.ompio f.world f
  unfolding seek_if seek_to
  seek_if-moved at t es f held size pos target small b e =
      let quotient : at / f.ompio.fview.etype_size ≡ t =
        ap (λ k. at / k) size ∙ ap (λ k. k / es) target ∙ mul-div_cancel t pos in
      let ahead : b ≡ false = ground (arith, e, target, small) in
      rw ahead (ground (arith, quotient, size, pos))

  module _ (f : File D W) (free : f.locked ≡ false) (pos : 0 < f.ompio.fview.etype_size) where
    abbrev size_of : ℕ
    size_of = f.ompio.fview.etype_size

    -- From the current position by `off` elements, forwards or backwards, to an element whose place
    -- is a file offset: where the question for the position leaves the handle alone, the
    -- pointer is moved there once, and the lock is free again.
    pub file_seek_cur :
        (off p t : ℕ) (ret : Code) (w : W)
        → io.get_position f.ompio f.world ≡ ((ret, p), f.ompio, w)
        → (off + p) % word ≡ t
        → t * size_of < 2 ^ 63
        → file_seek io off seek_cur f ≡ moved t f.ompio w f
    unfolding file_seek seek_by
    file_seek_cur off p t ret w asked target small =
        let at = add64 (off * size_of % word) (p * size_of) in
        rw free (
          rw asked (
            seek_if-moved at t size_of (record f { locked = true; world = w }) refl refl pos
              (scaled off p t size_of target (omega (arith, small))) small (is_negative at) refl))

    -- To element `off`, where its place is a file offset: the pointer is moved there once, and the lock is
    -- free again.
    pub file_seek_set :
        (off : ℕ)
        → off * size_of < 2 ^ 63
        → file_seek io off seek_set f ≡ moved off f.ompio f.world f
    unfolding file_seek seek_by
    file_seek_set off small =
        let at = off * size_of % word in
        rw free (
          seek_if-moved at off size_of (record f { locked = true }) refl refl pos
            (omega (arith, small)) small (is_negative at) refl)

    -- From the end of the file by `off` elements, forwards or backwards, under a view without gaps whose
    -- one block holds `elements` elements, in a file that reaches to the view's displacement or beyond, to an
    -- element whose place is a file offset: where the file's size is to be had, and the question for it leaves
    -- the handle alone, the pointer is moved there once, counted from the last whole element in the file,
    -- and the lock is free again.
    pub file_seek_end :
        (elements size off t : ℕ) (w : W)
        → io.fs_get_size f.ompio f.world ≡ ((success, size), f.ompio, w)
        → f.ompio.fview.decoded_iov ≡ record { iov_base = 0; iov_len = elements * size_of } ∷ []
        → f.ompio.fview.iov_count ≡ 1
        → f.ompio.fview.view_extent ≡ elements * size_of
        → f.ompio.fview.view_size ≢ 0
        → 0 < elements
        → f.ompio.fview.disp ≤ size
        → (off + (size - f.ompio.fview.disp) / size_of) % word ≡ t
        → t * size_of < 2 ^ 63
        → file_seek io off seek_end f ≡ moved t f.ompio w f
    unfolding file_seek seek_by seek_from_end
    file_seek_end elements size off t w asked iov count extent some_bytes many reached target
          small =
        let p = (size - f.ompio.fview.disp) / size_of in
        let at = add64 (off * size_of % word) (p * size_of) in
        rw free (
          rw asked (
            rw
              (get_eof_offset_contiguous f.ompio.fview elements size iov count extent some_bytes pos
                many reached)
              (seek_if-moved at t size_of (record f { locked = true; world = w }) refl refl pos
                (scaled off p t size_of target (omega (arith, small))) small
                (is_negative at || false) (ground arith))))

-- ===== src/Daemon/Copied.antt =====
-- What the copying loop of the daemon (`execute` of bbviewd.c) writes to the destination.
use mathlib.Core.List.{append_assoc, append-nil}
use native.Mathlib.Nat.{mul-add-mod_self_right, mul-mod_left, mod-le, mod-lt, div-add-mod'}
use bbview.Base.{
  ℕ, zero, suc, ◌+◌, ◌-◌, ◌*◌, ◌%◌, ◌≤◌, ◌<◌, ◌≡◌, refl, sym, ap, ap₂, ◌∙◌, inl, inr, List, [], ◌∷◌,
  ◌++◌, true, some, arith, ltb, ◌==◌, length, length-take, length-drop, take, drop, take_all,
  drop_all, take-nil, take-append-take-drop, ◌/◌, Bool-cases,
}
use bbview.Daemon.Copy.{Copier, finished, whole_part, copy_loop, buffer_size, target_buffer_size}

-- A local file that can be read, with full reads up to its end, and a destination that can be
-- written: what is left to be read, and what has been written.
pub record IsOpen {D W : Type 0} (io : Copier D W) (fd fh : ℕ) (rest written : W → List ℕ)
    : Type 0 where
  pub reads :
      (n : ℕ) (w : W)
      → ((io.read fd n w).0 ≡ some (take n (rest w)))
        × (rest (io.read fd n w).1 ≡ drop n (rest w))
        × (written (io.read fd n w).1 ≡ written w)
  pub writes :
      (et : D) (bs : List ℕ) (w : W)
      → ((io.file_write fh et bs w).0 ≡ true)
        × (rest (io.file_write fh et bs w).1 ≡ rest w)
        × (written (io.file_write fh et bs w).1 ≡ written w ++ bs)

-- The same, as long as the destination is in a condition that reads and writes leave it in.
pub record IsOpenWhile {D W : Type 0} (io : Copier D W) (fd fh : ℕ) (rest written : W → List ℕ)
    (Ready : W → Type 0) : Type 0 where
  pub reads :
      (n : ℕ) (w : W)
      → Ready w
      → ((io.read fd n w).0 ≡ some (take n (rest w)))
        × (rest (io.read fd n w).1 ≡ drop n (rest w))
        × (written (io.read fd n w).1 ≡ written w)
        × Ready (io.read fd n w).1
  pub writes :
      (et : D) (bs : List ℕ) (w : W)
      → Ready w
      → ((io.file_write fh et bs w).0 ≡ true)
        × (rest (io.file_write fh et bs w).1 ≡ rest w)
        × (written (io.file_write fh et bs w).1 ≡ written w ++ bs)
        × Ready (io.file_write fh et bs w).1

length_zero : (xs : List ℕ) → (length xs == 0) ≡ true → xs ≡ []
length_zero [] h = refl
length_zero (x ∷ xs) h = ground arith

-- One round that is not the last: what it writes, and what is left.
module _ {D W : Type 0} (io : Copier D W) (fd fh : ℕ) (rest written : W → List ℕ)
    (Ready : W → Type 0) (file : IsOpenWhile io fd fh rest written Ready) (et : D)
    (etype_size buf_size : ℕ) where
  round_writes :
      (fuel : ℕ) (w : W) (c : ℕ) (cs : List ℕ)
      → Ready w
      → take buf_size (rest w) ≡ c ∷ cs
      → (w' : W) × (copy_loop io (suc fuel) fd fh et etype_size buf_size w
          ≡ copy_loop io fuel fd fh et etype_size buf_size w')
        × (rest w' ≡ drop buf_size (rest w))
        × (written w' ≡ written w ++ whole_part io etype_size (c ∷ cs))
        × Ready w'
  unfolding copy_loop
  round_writes fuel w c cs ready e =
      let (result, left, same, after) = file.reads buf_size w ready in
      let whole = whole_part io etype_size (c ∷ cs) in
      let (good, left', more, after') = file.writes et whole (io.read fd buf_size w).1 after in
      elim (Bool-cases (length whole == 0)) [
        | inl z ↦ (
          (io.read fd buf_size w).1,
          rw (result ∙ ap some e, copy_loop) (rw z refl),
          left,
          same
              ∙ sym (append-nil (written w))
              ∙ ap (λ r. written w ++ r) (sym (length_zero whole z)),
          after,
        )
        | inr z ↦ (
          (io.file_write fh et whole (io.read fd buf_size w).1).1,
          rw (result ∙ ap some e, copy_loop) (rw (z, good) refl),
          left' ∙ left,
          more ∙ ap (λ r. r ++ whole) same,
          after',
        )
      ]

  -- The last read brings nothing.
  round_ends :
      (fuel : ℕ) (w : W)
      → Ready w
      → rest w ≡ []
      → (w' : W) × (copy_loop io (suc fuel) fd fh et etype_size buf_size w ≡ finished true w')
        × (written w' ≡ written w)
  unfolding copy_loop
  round_ends fuel w ready e =
      let (result, left, same, _) = file.reads buf_size w ready in
      (
        (io.read fd buf_size w).1,
        rw (result ∙ ap some (ap (take buf_size) e ∙ take_all buf_size [] (omega arith)), copy_loop)
            refl,
        same,
      )

-- The elements of `size` bytes that a list begins with.
abbrev pub whole_elements : ℕ → List ℕ → List ℕ
whole_elements size xs = take (length xs / size * size) xs

-- The code's way to say it.
abbrev rounded : ℕ → List ℕ → List ℕ
rounded size xs = take (length xs - length xs % size) xs

rounded-whole_elements : (size : ℕ) (xs : List ℕ) → rounded size xs ≡ whole_elements size xs
rounded-whole_elements size xs = ap (λ n. take n xs) (omega (arith, div-add-mod' (length xs) size))

rounded-nil : (size : ℕ) → rounded size [] ≡ []
rounded-nil size = take-nil _

-- A full buffer of whole elements, and the whole elements of what is left.
full_buffer :
    (size k : ℕ) (xs : List ℕ)
    → k * size ≤ length xs
    → rounded size (take (k * size) xs) ++ rounded size (drop (k * size) xs) ≡ rounded size xs
full_buffer size k xs h =
    let left = length xs - k * size in
    let all : k * size + left ≡ length xs = omega (arith, h) in
    let over : length xs % size ≡ left % size =
      ap (λ n. n % size) (sym all) ∙ mul-add-mod_self_right k size left in
    let full : length (take (k * size) xs) ≡ k * size =
      omega (arith, length-take (k * size) xs, h) in
    let none_over : k * size % size ≡ 0 = mul-mod_left k size in
    let first : rounded size (take (k * size) xs) ≡ take (k * size) xs =
      take_all _ (take (k * size) xs) (rw (full, none_over) (omega arith)) in
    rw (first, length-drop (k * size) xs)
      (take-append-take-drop (k * size) (left - left % size) xs
        ∙ ap (λ n. take n xs) (omega (arith, over, all, mod-le left size)))

last_buffer :
    (size k : ℕ) (xs : List ℕ)
    → length xs ≤ k * size
    → rounded size (take (k * size) xs) ++ rounded size (drop (k * size) xs) ≡ rounded size xs
last_buffer size k xs h =
    rw (take_all (k * size) xs h, drop_all (k * size) xs h)
      (ap (λ r. rounded size xs ++ r) (rounded-nil size) ∙ append-nil (rounded size xs))

buffers :
    (size k : ℕ) (xs : List ℕ)
    → rounded size (take (k * size) xs) ++ rounded size (drop (k * size) xs) ≡ rounded size xs
buffers size k xs = elim (Bool-cases (ltb (length xs) (k * size))) [
  | inl e ↦ last_buffer size k xs (ground arith)
  | inr e ↦ full_buffer size k xs (ground arith)
]

module _ {D W : Type 0} (io : Copier D W) (fd fh : ℕ) (rest written : W → List ℕ)
    (Ready : W → Type 0) (file : IsOpenWhile io fd fh rest written Ready) (et : D)
    (etype_size k : ℕ) (pos : 0 < k * etype_size) where
  -- Where the copy ends.
  abbrev Ends : ℕ → W → Type 0
  Ends fuel w =
      (w' : W) × (copy_loop io fuel fd fh et etype_size (k * etype_size) w ≡ finished true w')
      × (written w' ≡ written w ++ rounded etype_size (rest w))

  after_read :
      (fuel : ℕ) (w : W) (xs : List ℕ)
      → take (k * etype_size) (rest w) ≡ xs
      → Ready w
      → ((w' : W) → Ready w' → length (rest w') < length (rest w) → Ends fuel w')
      → Ends (suc fuel) w
  after_read fuel w [] e ready next =
      let size = length-take (k * etype_size) (rest w) in
      let none_left : length (rest w) ≡ 0 = omega (arith, size, pos, ap length e) in
      let empty : rest w ≡ [] = length_zero (rest w) (ground arith) in
      let (w', run, same) =
        round_ends io fd fh rest written Ready file et etype_size (k * etype_size) fuel w ready
          empty in
      (
        w',
        run,
        same
            ∙ sym (append-nil (written w))
            ∙ ap (λ r. written w ++ r)
                (sym (ap (rounded etype_size) empty ∙ rounded-nil etype_size)),
      )
  after_read fuel w (c ∷ cs) e ready next =
      let size = length-take (k * etype_size) (rest w) in
      let some_left : 0 < length (rest w) = omega (arith, size, ap length e) in
      let (w', run, left, wrote, after) =
        round_writes io fd fh rest written Ready file et etype_size (k * etype_size) fuel w c cs
          ready e in
      let shorter : length (rest w') < length (rest w) =
        omega (arith, ap length left, length-drop (k * etype_size) (rest w), some_left, pos) in
      let (w'', run', wrote') = next w' after shorter in
      (
        w'',
        run ∙ run',
        wrote'
            ∙ ap₂ (λ a b. a ++ rounded etype_size b) wrote left
            ∙ append_assoc (written w) (rounded etype_size (c ∷ cs))
                (rounded etype_size (drop (k * etype_size) (rest w)))
            ∙ ap (λ r. written w ++ r)
                (ap
                    (λ b.
                      rounded etype_size b ++ rounded etype_size (drop (k * etype_size) (rest w)))
                    (sym e)
                  ∙ buffers etype_size k (rest w)),
      )

  copy_loop-Ends : (fuel : ℕ) (w : W) → Ready w → length (rest w) < fuel → Ends fuel w
  copy_loop-Ends zero w ready h = absurd (omega (arith, h))
  copy_loop-Ends (suc fuel) w ready h =
      after_read fuel w (take (k * etype_size) (rest w)) refl ready
        λ w' after shorter. copy_loop-Ends fuel w' after (omega (arith, h, shorter))

-- The buffer is not empty.
buffer_pos :
    (etype_size : ℕ)
    → 0 < etype_size
    → 0 < (target_buffer_size + etype_size - 1) / etype_size * etype_size
buffer_pos etype_size pos = omega (
  arith,
  div-add-mod' (target_buffer_size + etype_size - 1) etype_size,
  mod-lt (target_buffer_size + etype_size - 1) pos,
)

module _ {D W : Type 0} (io : Copier D W) (fd fh : ℕ) (rest written : W → List ℕ)
    (Ready : W → Type 0) (file : IsOpenWhile io fd fh rest written Ready) (et : D) (etype_size : ℕ)
    (pos : 0 < etype_size) where
  pub copy_loop_while :
      (fuel : ℕ) (w : W)
      → Ready w
      → length (rest w) < fuel
      → (w' : W) × (copy_loop io fuel fd fh et etype_size (buffer_size io etype_size) w
          ≡ finished true w')
        × (written w' ≡ written w ++ whole_elements etype_size (rest w))
  unfolding buffer_size
  copy_loop_while fuel w ready h =
      let k = (target_buffer_size + etype_size - 1) / etype_size in
      let (w', run, wrote) =
        copy_loop-Ends io fd fh rest written Ready file et etype_size k (buffer_pos etype_size pos)
          fuel w ready h in
      (w', run, wrote ∙ ap (λ r. written w ++ r) (rounded-whole_elements etype_size (rest w)))

module _ {D W : Type 0} (io : Copier D W) (fd fh : ℕ) (rest written : W → List ℕ)
    (file : IsOpen io fd fh rest written) (et : D) (etype_size : ℕ) (pos : 0 < etype_size) where
  -- With full reads and writes that succeed, and elements that are not empty, the loop comes to an
  -- end, as soon as the fuel exceeds what is left to read, and reports success. What it has written is
  -- the whole elements that the rest of the local file begins with, in order; a part of an element at
  -- the end is lost.
  pub copy_loop_exact :
      (fuel : ℕ) (w : W)
      → length (rest w) < fuel
      → (w' : W) × (copy_loop io fuel fd fh et etype_size (buffer_size io etype_size) w
          ≡ finished true w')
        × (written w' ≡ written w ++ whole_elements etype_size (rest w))
  copy_loop_exact fuel w h =
      copy_loop_while io fd fh rest written (λ w. Unit)
        (record {
          reads = λ n w ready. let (a, b, c) = file.reads n w in (a, b, c, tt);
          writes = λ et bs w ready. let (a, b, c) = file.writes et bs w in (a, b, c, tt);
        })
        et etype_size pos fuel w tt h

-- ===== src/Manage/Seek/Eof.antt =====
-- Where mca_io_bbview_file_get_eof_offset (io_bbview_file_open.c) puts the end of a file.
use native.Mathlib.Nat.{
  div-add-mod', mod-lt, suc-mul, mul-pos, mul_assoc, add-mul, mul-add-div_right, div-le_self,
  div-eq_of_lt, zero-mul,
}
use bbview.Base.{
  ℕ, zero, suc, ◌+◌, ◌-◌, ◌*◌, ◌/◌, ◌%◌, ◌≤◌, ◌<◌, ◌≡◌, ◌≢◌, refl, ap, sym, ◌∙◌, List, [], ◌∷◌,
  true, false, some, arith, leb, le→leb,
}
use bbview.FileView.{Block, FileView}
use bbview.Manage.Seek.{scan_blocks, step_etypes, block_before, eof_from, get_eof_offset}

-- The loop over the elements stops at the last of `r` whole ones, where less than one more is left.
step_etypes_lem :
    (in_offset blocklen size rem : ℕ)
    → rem < size
    → (r fuel offset prev k : ℕ) → r + 1 < fuel
    → offset + r * size + rem ≡ in_offset
    → k + r * size ≤ blocklen
    → step_etypes fuel in_offset blocklen size offset prev k ≡ some (offset + r * size)
unfolding step_etypes
step_etypes_lem n l size rem h r zero offset prev k f e b = absurd (omega (arith, f))
step_etypes_lem n l size rem h zero (suc zero) offset prev k f e b = absurd (omega (arith, f))
step_etypes_lem n l size rem h zero (suc (suc fuel)) offset prev k f e b =
    let here : leb offset n ≡ true = le→leb offset n (omega (arith, e)) in
    let within : leb k l ≡ true = le→leb k l (omega (arith, b)) in
    let past : leb (offset + size) n ≡ false = ground (arith, e, h) in
    rw (here, step_etypes)
      (rw (within, step_etypes) (rw (past, step_etypes) (ap some (omega arith))))
step_etypes_lem n l size rem h (suc r) (suc fuel) offset prev k f e b =
    let more : suc r * size ≡ size + r * size = simp suc-mul (omega arith) in
    let here : leb offset n ≡ true = le→leb offset n (omega (arith, e)) in
    let within : leb k l ≡ true = le→leb k l (omega (arith, b)) in
    rw (here, step_etypes)
      (rw (within, step_etypes)
        (step_etypes_lem n l size rem h r fuel (offset + size) offset (k + size) (omega (arith, f))
            (omega (arith, e, more)) (omega (arith, b, more))
          ∙ ap some (omega (arith, more))))

eof_runs :
    (v : FileView) (size n : ℕ)
    → v.view_size ≢ 0
    → v.view_extent ≢ 0
    → size ≡ v.disp + n
    → get_eof_offset v size ≡ eof_from v n
unfolding get_eof_offset
eof_runs v size n some_bytes some_extent reached =
    let e : size - v.disp ≡ n = omega (arith, reached) in ground (arith, e, ap (eof_from v) e)

eof_steps :
    (v : FileView) (n index prev blocklen : ℕ)
    → scan_blocks v.decoded_iov (n / v.view_extent * v.view_extent) n v.iov_count 0 0 0
      ≡ some (index, prev)
    → block_before v.decoded_iov index ≡ some blocklen
    → eof_from v n ≡ step_etypes (n + 2) n blocklen v.etype_size prev prev 0
unfolding eof_from
eof_steps v n index prev blocklen scanned before = rw scanned (rw before)

scan_one :
    (iov : List Block) (count start n len : ℕ)
    → iov ≡ record { iov_base = 0; iov_len = len } ∷ []
    → count ≡ 1
    → start ≤ n
    → scan_blocks iov start n count 0 0 0 ≡ some (1, start)
unfolding scan_blocks
scan_one iov count start n len e f le = rw (e, f) (ground arith)

scan_two :
    (iov : List Block) (count n first second gap : ℕ)
    → iov
      ≡ record { iov_base = 0; iov_len = first } ∷ record { iov_base = gap; iov_len = second } ∷ []
    → count ≡ 2
    → n < gap
    → scan_blocks iov 0 n count 0 0 0 ≡ some (2, 0)
unfolding scan_blocks
scan_two iov count n first second gap e f lt = rw (e, f) (ground arith)

-- A view without gaps, of elements that fill its one block: the end of the file is its size behind the
-- displacement, less what is over behind the last whole element.
pub get_eof_offset_contiguous :
    (v : FileView) (elements size : ℕ)
    → v.decoded_iov ≡ record { iov_base = 0; iov_len = elements * v.etype_size } ∷ []
    → v.iov_count ≡ 1
    → v.view_extent ≡ elements * v.etype_size
    → v.view_size ≢ 0
    → 0 < v.etype_size
    → 0 < elements
    → v.disp ≤ size
    → get_eof_offset v size ≡ some ((size - v.disp) / v.etype_size * v.etype_size)
unfolding get_eof_offset eof_from scan_blocks block_before
get_eof_offset_contiguous v elements size iov count extent some_bytes pos many reached =
    let n = size - v.disp in
    let es = v.etype_size in
    let len = elements * es in
    let start = n / v.view_extent * v.view_extent in
    let some_extent : 0 < len = mul-pos many pos in
    let split = div-add-mod' n v.view_extent in
    let below : n % v.view_extent < v.view_extent = mod-lt n (rw extent some_extent) in
    let r = (n - start) / es in
    let less = div-le_self (n - start) es in
    let parts = div-add-mod' (n - start) es in
    let x = n / v.view_extent * elements in
    let copies : start ≡ x * es =
      ap (λ k. n / v.view_extent * k) extent ∙ sym (mul_assoc (n / v.view_extent) elements es) in
    let whole : n ≡ x * es + (n - start) = omega (arith, split, copies) in
    let last : start + r * es ≡ n / es * es = omega (
      arith,
      copies,
      add-mul x r es,
      ap (λ k. k * es) (ap (λ k. k / es) whole ∙ mul-add-div_right pos x (n - start)),
    ) in
    eof_runs v size n some_bytes (λ z. omega (arith, z, extent, some_extent))
      (omega (arith, reached))
    ∙ eof_steps v n 1 start len
        (scan_one v.decoded_iov v.iov_count start n len iov count (omega (arith, split)))
        (rw iov refl)
    ∙ step_etypes_lem n len es ((n - start) % es) (mod-lt (n - start) pos) r (n + 2) start start 0
        (omega (arith, less)) (omega (arith, parts, split))
        (omega (arith, parts, split, below, extent))
    ∙ ap some last

-- A file that ends in a gap of the view: where the second of two blocks is at least as long as the way
-- into the gap, and elements are single bytes, the offset returned is the end of the file itself, in the gap.
pub get_eof_offset_in_gap :
    (v : FileView) (first second gap n : ℕ)
    → v.decoded_iov
      ≡ record { iov_base = 0; iov_len = first } ∷ record { iov_base = gap; iov_len = second } ∷ []
    → v.iov_count ≡ 2
    → n < v.view_extent
    → v.view_size ≢ 0
    → v.etype_size ≡ 1
    → first < n
    → n < gap
    → n ≤ second
    → get_eof_offset v (v.disp + n) ≡ some n
unfolding get_eof_offset eof_from scan_blocks block_before
get_eof_offset_in_gap v first second gap n iov count extent some_bytes single lt in_gap long =
    let none_before : n / v.view_extent * v.view_extent ≡ 0 =
      ap (λ k. k * v.view_extent) (div-eq_of_lt extent) ∙ zero-mul v.view_extent in
    let all : 0 + n * 1 ≡ n = omega arith in
    eof_runs v (v.disp + n) n some_bytes (λ z. omega (arith, z, extent)) refl
    ∙ eof_steps v n 2 0 second
        (ap (λ start. scan_blocks v.decoded_iov start n v.iov_count 0 0 0) none_before
          ∙ scan_two v.decoded_iov v.iov_count n first second gap iov count in_gap)
        (rw iov refl)
    ∙ ap (λ size. step_etypes (n + 2) n second size 0 0 0) single
    ∙ step_etypes_lem n second 1 0 (omega arith) n (n + 2) 0 0 0 (omega arith) (omega arith)
        (omega (arith, long))
    ∙ ap some all

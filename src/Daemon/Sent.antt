-- ===== src/Daemon/Sent.antt =====
-- The name that the component sends (io_bbview_file_flush.c), as the daemon (bbviewd.c) takes it.
use bbview.Base.{
  ℕ, zero, suc, ◌+◌, ◌-◌, ◌≤◌, ◌<◌, ◌≡◌, refl, ap, List, [], ◌∷◌, ◌++◌, false, arith, length, take,
  length-take,
}
use bbview.Base.Words.{word}
use bbview.Daemon.{Daemon, path_max, job_name, enqueue, receive, refuse}
use bbview.Daemon.Done.{IsPath, job_name-IsPath}
use bbview.LocalName.{Config, print_long, full_name, flatten_from, local_filename}
use bbview.LocalName.Decimal.{decimal, IsDigits, decimal-IsDigits}

IsPath-append : (xs ys : List ℕ) → IsPath xs → IsPath ys → IsPath (xs ++ ys)
IsPath-append [] ys h k = k
IsPath-append (x ∷ xs) ys (a, b, h) k = (a, b, IsPath-append xs ys h k)

IsPath-take : (n : ℕ) (xs : List ℕ) → IsPath xs → IsPath (take n xs)
IsPath-take zero xs h = tt
IsPath-take (suc n) [] h = tt
IsPath-take (suc n) (x ∷ xs) (a, b, h) = (a, b, IsPath-take n xs h)

flatten_from-IsPath : (k : ℕ) (xs : List ℕ) → IsPath xs → IsPath (flatten_from k xs)
unfolding flatten_from
flatten_from-IsPath k [] h = tt
flatten_from-IsPath zero (x ∷ xs) (a, b, h) =
    (ground (arith, a), ground (arith, b), flatten_from-IsPath zero xs h)
flatten_from-IsPath (suc k) (x ∷ xs) (a, b, h) = (a, b, flatten_from-IsPath k xs h)

length-flatten_from : (k : ℕ) (xs : List ℕ) → length (flatten_from k xs) ≡ length xs
unfolding flatten_from
length-flatten_from k [] = refl
length-flatten_from zero (x ∷ xs) = ap suc (length-flatten_from zero xs)
length-flatten_from (suc k) (x ∷ xs) = ap suc (length-flatten_from k xs)

IsDigits-IsPath : (xs : List ℕ) → IsDigits xs → IsPath xs
IsDigits-IsPath [] h = tt
IsDigits-IsPath (x ∷ xs) (low, high, h) =
    ((λ e. omega (arith, e, low)), (λ e. omega (arith, e, low)), IsDigits-IsPath xs h)

print_long-IsPath : (n : ℕ) → IsPath (print_long n)
unfolding print_long
print_long-IsPath n =
    let plain = IsDigits-IsPath (decimal n) (decimal-IsDigits n) in
    let signed = IsDigits-IsPath (decimal (word - n)) (decimal-IsDigits (word - n)) in
    ground (arith, plain, signed)

full_name-IsPath :
    (c : Config) (filename : List ℕ) (rank index : ℕ)
    → IsPath c.tmp_dir
    → IsPath filename
    → IsPath (full_name c filename rank index)
unfolding full_name
full_name-IsPath c filename rank index dir name =
    let numbers =
      IsPath-append (decimal rank) (b'-' ∷ print_long index)
        (IsDigits-IsPath (decimal rank) (decimal-IsDigits rank))
        ((λ e. cc), (λ e. cc), print_long-IsPath index) in
    IsPath-append c.tmp_dir _ dir
      ((λ e. cc), (λ e. cc), IsPath-append filename _ name ((λ e. cc), (λ e. cc), numbers))

module _ (c : Config) (filename : List ℕ) (rank index : ℕ) (t : List ℕ)
    (absolute : c.tmp_dir ≡ b'/' ∷ t) (some_room : 1 < c.path_max) where
  local_filename-absolute : (rest : List ℕ) × (local_filename c filename rank index ≡ b'/' ∷ rest)
  unfolding local_filename flatten_from full_name
  local_filename-absolute =
      let room : c.path_max - 1 ≡ suc (c.path_max - 2) = omega (arith, some_room) in
      let behind : List ℕ =
        t ++ (b'/' ∷ filename ++ (b'-' ∷ decimal rank ++ (b'-' ∷ print_long index))) in
      let next : length (b'/' ∷ t) + 2 ≡ suc (length t + 2) = omega arith in
      (
        flatten_from (length t + 2) (take (c.path_max - 2) behind),
        rw absolute (rw (room, next) refl),
      )

  -- A directory for local files that is an absolute path, and a name of the file, without NUL and
  -- newline, and a PATH_MAX of 2 to 4096: with the queue's mutex free and memory for the job, the name of the local file
  -- is put into the queue as it is, byte for byte, and is not taken for the request to terminate.
  pub receive-local_filename :
      (d : Daemon)
      → c.path_max ≤ path_max
      → IsPath c.tmp_dir
      → IsPath filename
      → d.held ≡ false
      → receive (local_filename c filename rank index) d
        ≡ enqueue (local_filename c filename rank index) d
  unfolding receive local_filename
  receive-local_filename d fits dir name free =
      let (rest, starts) = local_filename-absolute in
      let whole = full_name c filename rank index in
      let path : IsPath (local_filename c filename rank index) =
        flatten_from-IsPath (length c.tmp_dir + 2) (take (c.path_max - 1) whole)
          (IsPath-take (c.path_max - 1) whole (full_name-IsPath c filename rank index dir name)) in
      let short : length (local_filename c filename rank index) < path_max = omega (
        arith,
        length-flatten_from (length c.tmp_dir + 2) (take (c.path_max - 1) whole),
        length-take (c.path_max - 1) whole,
        fits,
        some_room,
      ) in
      let kept : job_name (b'/' ∷ rest) ≡ b'/' ∷ rest =
        rw (← starts) (job_name-IsPath (local_filename c filename rank index) short path) in
      rw starts (rw (free, kept) refl)

  -- Without memory for its job, the name changes nothing.
  pub refuse-local_filename : (d : Daemon) → refuse (local_filename c filename rank index) d ≡ d
  unfolding refuse
  refuse-local_filename d = let (rest, starts) = local_filename-absolute in rw starts refl

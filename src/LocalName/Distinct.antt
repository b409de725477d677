-- ===== src/LocalName/Distinct.antt =====
-- Which local names (io_bbview_file_set_view.c, io_bbview_file_flush.c) are different.
use mathlib.Core.List.{append_assoc}
use bbview.Base.{
  ℕ, zero, suc, ◌+◌, ◌-◌, ◌≤◌, ◌<◌, ◌≡◌, refl, ap, ap₂, ◌∙◌, sym, List, [], ◌∷◌, ◌++◌, false, arith,
  ◌==◌, if◌then◌else◌, length, take, ◌^◌, lt→ltb, length-append,
}
use bbview.LocalName.{Config, print_long, full_name, dash, flatten_from, local_filename}
use bbview.LocalName.Decimal.{decimal, decimal_injective, IsDigits, decimal-IsDigits}

take-all {ℓ} : {A : Type ℓ} (n : ℕ) (xs : List A) → length xs ≤ n → take n xs ≡ xs
take-all zero [] h = refl
take-all zero (x ∷ xs) h = absurd (omega arith)
take-all (suc n) [] h = refl
take-all (suc n) (x ∷ xs) h = ap (λ r. x ∷ r) (take-all n xs (omega arith))

append-cancel {ℓ} : {A : Type ℓ} (xs : List A) {ys zs : List A} → xs ++ ys ≡ xs ++ zs → ys ≡ zs
append-cancel [] e = e
append-cancel (x ∷ xs) e = append-cancel xs (cc)

-- The text up to the first dash, and behind it.
before_dash : List ℕ → List ℕ
before_dash [] = []
before_dash (x ∷ xs) = if x == b'-' then [] else x ∷ before_dash xs

after_dash : List ℕ → List ℕ
after_dash [] = []
after_dash (x ∷ xs) = if x == b'-' then xs else after_dash xs

module _ (ys : List ℕ) where
  before_dash-digits : (xs : List ℕ) → IsDigits xs → before_dash (xs ++ b'-' ∷ ys) ≡ xs
  unfolding before_dash
  before_dash-digits [] h = refl
  before_dash-digits (x ∷ xs) h = ground (arith, before_dash-digits xs h.2)

  after_dash-digits : (xs : List ℕ) → IsDigits xs → after_dash (xs ++ b'-' ∷ ys) ≡ ys
  unfolding after_dash
  after_dash-digits [] h = refl
  after_dash-digits (x ∷ xs) h = ground (arith, after_dash-digits xs h.2)

-- Text without a slash stays as it is.
abbrev NoSlash : List ℕ → Type 0
NoSlash [] = Unit
NoSlash (x ∷ xs) = ((x == b'/') ≡ false) × NoSlash xs

IsDigits-NoSlash : (xs : List ℕ) → IsDigits xs → NoSlash xs
IsDigits-NoSlash [] h = tt
IsDigits-NoSlash (x ∷ xs) h = (ground arith, IsDigits-NoSlash xs h.2)

NoSlash-append : (xs ys : List ℕ) → NoSlash xs → NoSlash ys → NoSlash (xs ++ ys)
NoSlash-append [] ys hx hy = hy
NoSlash-append (x ∷ xs) ys hx hy = (hx.0, NoSlash-append xs ys hx.1 hy)

flatten_from-NoSlash : (k : ℕ) (xs : List ℕ) → NoSlash xs → flatten_from k xs ≡ xs
unfolding flatten_from
flatten_from-NoSlash zero [] h = refl
flatten_from-NoSlash (suc k) [] h = refl
flatten_from-NoSlash zero (x ∷ xs) h = ap₂ ◌∷◌ (ground arith) (flatten_from-NoSlash zero xs h.1)
flatten_from-NoSlash (suc k) (x ∷ xs) h = ap (λ r. x ∷ r) (flatten_from-NoSlash k xs h.1)

flatten_from-append :
    (k : ℕ) (xs ys : List ℕ) → NoSlash ys → flatten_from k (xs ++ ys) ≡ flatten_from k xs ++ ys
unfolding flatten_from
flatten_from-append zero [] ys h = flatten_from-NoSlash zero ys h
flatten_from-append (suc k) [] ys h = flatten_from-NoSlash (suc k) ys h
flatten_from-append zero (x ∷ xs) ys h = ap (λ r. dash x ∷ r) (flatten_from-append zero xs ys h)
flatten_from-append (suc k) (x ∷ xs) ys h = ap (λ r. x ∷ r) (flatten_from-append k xs ys h)

-- The end of the name, which tells ranks and views apart.
suffix : ℕ → ℕ → List ℕ
suffix rank index = b'-' ∷ decimal rank ++ (b'-' ∷ decimal index)

suffix-NoSlash : (rank index : ℕ) → NoSlash (suffix rank index)
unfolding suffix
suffix-NoSlash rank index = (
  refl,
  NoSlash-append (decimal rank) (b'-' ∷ decimal index) (IsDigits-NoSlash _ (decimal-IsDigits rank))
      (refl, IsDigits-NoSlash _ (decimal-IsDigits index)),
)

local_filename-suffix :
    (c : Config) (filename : List ℕ) (rank index : ℕ)
    → index < 2 ^ 63
    → length (full_name c filename rank index) < c.path_max
    → local_filename c filename rank index
      ≡ flatten_from (length c.tmp_dir + 2) (c.tmp_dir ++ b'/' ∷ filename) ++ suffix rank index
unfolding local_filename full_name suffix print_long
local_filename-suffix c filename rank index small fits =
    ap (flatten_from (length c.tmp_dir + 2)) (take-all (c.path_max - 1) _ (omega (arith, fits)))
    ∙ ap (flatten_from (length c.tmp_dir + 2)) (
        rw (lt→ltb index (2 ^ 63) small)
          (sym (append_assoc c.tmp_dir (b'/' ∷ filename) (suffix rank index))))
    ∙ flatten_from-append _ (c.tmp_dir ++ b'/' ∷ filename) (suffix rank index)
        (suffix-NoSlash rank index)

-- Two views of one file get different local files unless their rank and their index are the same,
-- as long as no name is cut off at PATH_MAX and the indices are below 2^63.
pub local_filename_injective :
    (c : Config) (filename : List ℕ) (rank index rank' index' : ℕ)
    → index < 2 ^ 63
    → index' < 2 ^ 63
    → length (full_name c filename rank index) < c.path_max
    → length (full_name c filename rank' index') < c.path_max
    → local_filename c filename rank index ≡ local_filename c filename rank' index'
    → (rank ≡ rank') × (index ≡ index')
unfolding suffix after_dash
local_filename_injective c filename rank index rank' index' small small' fits fits' e =
    let same = append-cancel (flatten_from (length c.tmp_dir + 2) (c.tmp_dir ++ b'/' ∷ filename)) (
      sym (local_filename-suffix c filename rank index small fits)
      ∙ e
      ∙ local_filename-suffix c filename rank' index' small' fits') in
    let tails : decimal rank ++ (b'-' ∷ decimal index) ≡ decimal rank' ++ (b'-' ∷ decimal index') =
      ap after_dash same in
    let ranks =
      sym (before_dash-digits (decimal index) (decimal rank) (decimal-IsDigits rank))
      ∙ ap before_dash tails
      ∙ before_dash-digits (decimal index') (decimal rank') (decimal-IsDigits rank') in
    let indices =
      sym (after_dash-digits (decimal index) (decimal rank) (decimal-IsDigits rank))
      ∙ ap after_dash tails
      ∙ after_dash-digits (decimal index') (decimal rank') (decimal-IsDigits rank') in
    (decimal_injective rank rank' ranks, decimal_injective index index' indices)

flatten_from-slash :
    (k n : ℕ) (xs ys : List ℕ)
    → k ≤ length xs
    → flatten_from k (take n (xs ++ b'/' ∷ ys)) ≡ flatten_from k (take n (xs ++ b'-' ∷ ys))
unfolding flatten_from
flatten_from-slash k zero xs ys h = refl
flatten_from-slash zero (suc n) [] ys h = refl
flatten_from-slash (suc k) (suc n) [] ys h = absurd (omega arith)
flatten_from-slash zero (suc n) (x ∷ xs) ys h =
    ap (λ r. dash x ∷ r) (flatten_from-slash zero n xs ys (omega arith))
flatten_from-slash (suc k) (suc n) (x ∷ xs) ys h =
    ap (λ r. x ∷ r) (flatten_from-slash k n xs ys (omega arith))

regroup :
    (t p q s : List ℕ) (x d : ℕ)
    → t ++ (b'/' ∷ (x ∷ (p ++ d ∷ q)) ++ s) ≡ (t ++ b'/' ∷ x ∷ p) ++ d ∷ (q ++ s)
regroup t p q s x d = simp append_assoc

-- Two files whose names differ only in that one has '/' where the other has '-', behind the first
-- character, get the same local file for the same rank and index.
pub local_filename_collides :
    (c : Config) (x : ℕ) (p q : List ℕ) (rank index : ℕ)
    → local_filename c (x ∷ p ++ b'/' ∷ q) rank index
      ≡ local_filename c (x ∷ p ++ b'-' ∷ q) rank index
unfolding local_filename full_name
local_filename_collides c x p q rank index =
    let end = b'-' ∷ decimal rank ++ (b'-' ∷ print_long index) in
    let k = length c.tmp_dir + 2 in
    let n = c.path_max - 1 in
    ap (λ l. flatten_from k (take n l)) (regroup c.tmp_dir p q end x b'/')
    ∙ flatten_from-slash k n (c.tmp_dir ++ b'/' ∷ x ∷ p) (q ++ end)
        (omega (arith, length-append c.tmp_dir (b'/' ∷ x ∷ p)))
    ∙ ap (λ l. flatten_from k (take n l)) (sym (regroup c.tmp_dir p q end x b'-'))

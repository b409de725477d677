-- ===== src/Base/Arrays.antt =====
-- Lists as arrays: what a read finds after a write, and exchanges as permutations.
use mathlib.Core.List.Perm
use bbview.Base.{
  ℕ, zero, suc, ◌<◌, ◌≡◌, refl, ap, ap₂, ◌∙◌, List, [], ◌∷◌, some, arith, ◌==◌, if◌then◌else◌,
  length, get_elem?, get_or, set, take, drop, length-set,
}
pub use mathlib.Core.List.{Perm}

module _ {ℓ} {A : Type ℓ} where
  pub get_elem?-get_or :
      (xs : List A) (i : ℕ) (d : A) → i < length xs → get_elem? xs i ≡ some (get_or xs i d)
  get_elem?-get_or [] i d h = absurd (omega (arith, h))
  get_elem?-get_or (x ∷ xs) zero d h = refl
  get_elem?-get_or (x ∷ xs) (suc i) d h = get_elem?-get_or xs i d (omega (arith, h))

  pub get_or-set :
      (xs : List A) (i j : ℕ) (v d : A)
      → i < length xs
      → get_or (set xs i v) j d ≡ (if i == j then v else get_or xs j d)
  get_or-set [] i j v d h = absurd (omega (arith, h))
  get_or-set (x ∷ xs) zero zero v d h = refl
  get_or-set (x ∷ xs) zero (suc j) v d h = ground arith
  get_or-set (x ∷ xs) (suc i) zero v d h = ground arith
  get_or-set (x ∷ xs) (suc i) (suc j) v d h = ground (arith, get_or-set xs i j v d)

  pub get_or-ext :
      (xs ys : List A) (d : A)
      → length xs ≡ length ys
      → ((i : ℕ) → i < length xs → get_or xs i d ≡ get_or ys i d)
      → xs ≡ ys
  get_or-ext [] [] d e h = refl
  get_or-ext [] (y ∷ ys) d e h = absurd (omega (arith, e))
  get_or-ext (x ∷ xs) [] d e h = absurd (omega (arith, e))
  get_or-ext (x ∷ xs) (y ∷ ys) d e h =
      ap₂ ◌∷◌ (h 0 (omega arith))
        (get_or-ext xs ys d (omega (arith, e)) λ i lt. h (suc i) (omega (arith, lt)))

  pub get_or-take :
      (n : ℕ) (xs : List A) (i : ℕ) (d : A) → i < n → get_or (take n xs) i d ≡ get_or xs i d
  get_or-take zero xs i d h = absurd (omega (arith, h))
  get_or-take (suc n) [] i d h = refl
  get_or-take (suc n) (x ∷ xs) zero d h = refl
  get_or-take (suc n) (x ∷ xs) (suc i) d h = get_or-take n xs i d (omega (arith, h))

  pub drop-set : (n : ℕ) (xs : List A) (i : ℕ) (v : A) → i < n → drop n (set xs i v) ≡ drop n xs
  drop-set zero xs i v h = absurd (omega (arith, h))
  drop-set (suc n) [] i v h = refl
  drop-set (suc n) (x ∷ xs) zero v h = refl
  drop-set (suc n) (x ∷ xs) (suc i) v h = drop-set n xs i v (omega (arith, h))

  -- The written value takes the place of the old one.
  Perm-set :
      (xs : List A) (i : ℕ) (v d : A) → i < length xs → Perm (get_or xs i d ∷ set xs i v) (v ∷ xs)
  Perm-set [] i v d h = absurd (omega (arith, h))
  Perm-set (x ∷ xs) zero v d h = Perm.swap v x xs
  Perm-set (x ∷ xs) (suc i) v d h =
      Perm.trans (Perm.swap x (get_or xs i d) (set xs i v))
        (Perm.trans (Perm.cons x (Perm-set xs i v d (omega (arith, h)))) (Perm.swap v x xs))

  -- `t = a[i]; a[i] = a[j]; a[j] = t`
  unfoldable pub exchange : List A → ℕ → ℕ → A → List A
  exchange xs i j d = set (set xs i (get_or xs j d)) j (get_or xs i d)

  pub length-exchange : (xs : List A) (i j : ℕ) (d : A) → length (exchange xs i j d) ≡ length xs
  unfolding exchange
  length-exchange xs i j d = length-set _ j _ ∙ length-set xs i _

  module _ (xs : List A) (i j : ℕ) (d : A) (hi : i < length xs) (hj : j < length xs) where
    pub get_or-exchange :
        (c : ℕ)
        → get_or (exchange xs i j d) c d
          ≡ (if j == c then get_or xs i d else if i == c then get_or xs j d else get_or xs c d)
    unfolding exchange
    get_or-exchange c =
        get_or-set (set xs i (get_or xs j d)) j c (get_or xs i d) d
          (omega (arith, hj, length-set xs i (get_or xs j d)))
        ∙ ap (λ r. if j == c then get_or xs i d else r) (get_or-set xs i c (get_or xs j d) d hi)

    pub exchange-perm : Perm (exchange xs i j d) xs
    unfolding exchange
    exchange-perm =
        let ys = set xs i (get_or xs j d) in
        let same : get_or ys j d ≡ get_or xs j d =
          ground (arith, get_or-set xs i j (get_or xs j d) d) in
        let second : Perm (get_or ys j d ∷ set ys j (get_or xs i d)) (get_or xs i d ∷ ys) =
          Perm-set ys j (get_or xs i d) d (omega (arith, hj, length-set xs i (get_or xs j d))) in
        Perm.cons_inv (Perm.trans (rw same at second) (Perm-set xs i (get_or xs j d) d hi))

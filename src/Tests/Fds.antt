-- ===== src/Tests/Fds.antt =====
-- Descriptors as the list of those that are open; a new one is above all of them.
use bbview.Base.{
  ℕ, suc, ◌+◌, ◌≤◌, ◌≡◌, refl, inl, inr, List, [], ◌∷◌, true, false, Bool-cases, arith, ◌==◌,
  if◌then◌else◌,
}
use bbview.Base.Handles.{Table, adding, removing}

abbrev pub is_open : List ℕ → Table
is_open [] k = false
is_open (x ∷ xs) k = let rest = is_open xs k in if k == x then true else rest

abbrev pub fresh : List ℕ → ℕ
fresh [] = 0
fresh (x ∷ xs) = suc (x + fresh xs)

abbrev pub shut : ℕ → List ℕ → List ℕ
shut n [] = []
shut n (x ∷ xs) = let rest = shut n xs in if x == n then rest else x ∷ rest

above : (xs : List ℕ) (k : ℕ) → fresh xs ≤ k → is_open xs k ≡ false
above [] k h = refl
above (x ∷ xs) k h = let rest = above xs k (omega (arith, h)) in ground (arith, h, rest)

pub fresh-free : (xs : List ℕ) → is_open xs (fresh xs) ≡ false
fresh-free xs = above xs (fresh xs) (omega arith)

pub is_open-cons : (x : ℕ) (xs : List ℕ) → is_open (x ∷ xs) ≡ adding x (is_open xs)
unfolding adding
is_open-cons x xs = refl

shut_at : (n : ℕ) (xs : List ℕ) (k : ℕ) → is_open (shut n xs) k ≡ removing n (is_open xs) k
unfolding removing
shut_at n [] k = elim (Bool-cases (k == n)) [ inl e ↦ rw e refl | inr e ↦ rw e refl ]
shut_at n (x ∷ xs) k = let rest = shut_at n xs k in ground (arith, rest)

pub is_open-shut : (n : ℕ) (xs : List ℕ) → is_open (shut n xs) ≡ removing n (is_open xs)
is_open-shut n xs = λ i k. shut_at n xs k i

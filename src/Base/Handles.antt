-- ===== src/Base/Handles.antt =====
-- Tables of what is open: descriptors and handles, by their numbers.
use bbview.Base.{
  ℕ, ◌≡◌, refl, ◌∙◌, ap, sym, inl, inr, Bool, true, false, Bool-cases, arith, ◌==◌, if◌then◌else◌,
}

abbrev pub Table : Type 0
Table = ℕ → Bool

-- One entry more, and one less.
unfoldable pub adding : ℕ → Table → Table
adding n t k = if k == n then true else t k

unfoldable pub removing : ℕ → Table → Table
removing n t k = if k == n then false else t k

removed : (n k : ℕ) (t : Table) → t n ≡ false → removing n (adding n t) k ≡ t k
unfolding adding removing
removed n k t free = elim (Bool-cases (k == n)) [
  | inl same ↦ let here : k ≡ n = ground (arith, same) in rw same (sym (ap t here ∙ free))
  | inr other ↦ rw other refl
]

-- What is opened at a free number and closed again is gone.
pub removing-adding : (n : ℕ) (t : Table) → t n ≡ false → removing n (adding n t) ≡ t
removing-adding n t free = λ i k. removed n k t free i

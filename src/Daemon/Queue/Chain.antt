-- ===== src/Daemon/Queue/Chain.antt =====
-- A chain of nodes (bbviewd.c) that holds a list of paths.
use bbview.Base.{
  ℕ, ◌≡◌, refl, sym, ap, ◌∙◌, inl, inr, List, [], ◌∷◌, ◌++◌, false, Bool-cases, Option, none, some,
  arith, ◌==◌,
}
use bbview.Daemon.Queue.{Job, Store, put}

abbrev pub NotIn : ℕ → List ℕ → Type 0
NotIn b [] = Unit
NotIn b (a ∷ ns) = ((b == a) ≡ false) × NotIn b ns

-- From `h` on, the nodes at the addresses `ns` hold `xs`, no address occurs twice, and the last one links
-- nowhere.
abbrev pub IsChain : Store → Option ℕ → List ℕ → List (List ℕ) → Type 0
IsChain s h [] [] = h ≡ none
IsChain s h [] (x ∷ xs) = ⊥
IsChain s h (a ∷ ns) [] = ⊥
IsChain s h (a ∷ ns) (x ∷ xs) =
    (h ≡ some a) × NotIn a ns × ((j : Job) × (s a ≡ some j) × (j.src ≡ x) × IsChain s j.next ns xs)

abbrev pub last : List ℕ → Option ℕ
last [] = none
last (a ∷ []) = some a
last (a ∷ b ∷ ns) = last (b ∷ ns)

pub put_other : (s : Store) (a b : ℕ) (v : Option Job) → (b == a) ≡ false → put s a v b ≡ s b
put_other s a b v e = rw e refl

pub put_self : (s : Store) (a : ℕ) (v : Option Job) → put s a v a ≡ v
put_self s a v = ground arith

-- A change elsewhere keeps a chain.
pub IsChain-put :
    (s : Store) (b : ℕ) (v : Option Job) (h : Option ℕ) (ns : List ℕ) (xs : List (List ℕ))
    → NotIn b ns
    → IsChain s h ns xs
    → IsChain (put s b v) h ns xs
IsChain-put s b v h [] [] n c = c
IsChain-put s b v h [] (x ∷ xs) n c = c
IsChain-put s b v h (a ∷ ns) [] n c = c
IsChain-put s b v h (a ∷ ns) (x ∷ xs) (ne, n) (e, own, (j, at, text, rest)) = (
  e,
  own,
  (j, put_other s b a v (ground (arith, ne)) ∙ at, text, IsChain-put s b v j.next ns xs n rest),
)

-- A new address is none of a chain's.
pub free-NotIn :
    (s : Store) (b : ℕ) (h : Option ℕ) (ns : List ℕ) (xs : List (List ℕ))
    → s b ≡ none
    → IsChain s h ns xs
    → NotIn b ns
free-NotIn s b h [] xs e c = tt
free-NotIn s b h (a ∷ ns) [] e c = absurd c
free-NotIn s b h (a ∷ ns) (x ∷ xs) e (_, own, (j, at, text, rest)) = (
  elim (Bool-cases (b == a)) [
    | inl q ↦ absurd (
        let same : b ≡ a = ground (arith, q) in
        (let clash : none ≡ some j = sym e ∙ ap s same ∙ at in cc))
    | inr q ↦ q
  ],
  free-NotIn s b j.next ns xs e rest,
)

pub NotIn-last : (b t : ℕ) (ns : List ℕ) → last ns ≡ some t → NotIn b ns → (b == t) ≡ false
NotIn-last b t [] e n = cc
NotIn-last b t (a ∷ []) e (ne, _) = let same : a ≡ t = cc in rw (← same) ne
NotIn-last b t (a ∷ c ∷ ns) e (_, n) = NotIn-last b t (c ∷ ns) e n

pub NotIn-append :
    (b a : ℕ) (ns : List ℕ) → NotIn b ns → (b == a) ≡ false → NotIn b (ns ++ (a ∷ []))
NotIn-append b a [] n e = (e, tt)
NotIn-append b a (c ∷ ns) (ne, n) e = (ne, NotIn-append b a ns n e)

-- A new node behind the last one.
pub IsChain-append :
    (s : Store) (new t : ℕ) (x' : List ℕ) (h : Option ℕ) (ns : List ℕ) (xs : List (List ℕ))
    → s new ≡ none
    → IsChain s h ns xs
    → last ns ≡ some t
    → (n : Job) × (s t ≡ some n)
      × IsChain
          (put
            (put s new (some (record { src = x'; next = none })))
            t
            (some (record n { next = some new })))
          h
          (ns ++ (new ∷ []))
          (xs ++ (x' ∷ []))
IsChain-append s new t x' h [] xs fresh c e = cc
IsChain-append s new t x' h (a ∷ ns) [] fresh c e = absurd c
IsChain-append s new t x' h (a ∷ []) (x ∷ []) fresh (start, own, (j, at, text, rest)) e =
    let same : a ≡ t = cc in
    let (other, _) = free-NotIn s new h (a ∷ []) (x ∷ []) fresh (start, own, (j, at, text, rest)) in
    let added : Job = record { src = x'; next = none } in
    let linked : Job = record j { next = some new } in
    let here : put (put s new (some added)) t (some linked) a ≡ some linked =
      ground (arith, same) in
    let behind : put (put s new (some added)) t (some linked) new ≡ some added =
      ground (arith, same, other) in
    (
      j,
      ap s (sym same) ∙ at,
      (
        start,
        (ground (arith, other), tt),
        (linked, here, text, (refl, tt, (added, behind, refl, refl))),
      ),
    )
IsChain-append s new t x' h (a ∷ []) (x ∷ y ∷ xs) fresh (start, own, (j, at, text, rest)) e =
    absurd rest
IsChain-append s new t x' h (a ∷ b ∷ ns) (x ∷ xs) fresh (start, own, (j, at, text, rest)) e =
    let (n, found, chain) = IsChain-append s new t x' j.next (b ∷ ns) xs fresh rest e in
    let (other, _) =
      free-NotIn s new h (a ∷ b ∷ ns) (x ∷ xs) fresh (start, own, (j, at, text, rest)) in
    let apart : (a == t) ≡ false = NotIn-last a t (b ∷ ns) e own in
    let apart' : (a == new) ≡ false = ground (arith, other) in
    (
      n,
      found,
      (start, NotIn-append a new (b ∷ ns) own apart', (j, rw (apart, apart') at, text, chain)),
    )

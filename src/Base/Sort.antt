-- ===== src/Base/Sort.antt =====
-- `sort.Slice` by a test that orders all elements of the slice: its result is then the only sorted
-- arrangement, whatever the algorithm.
use harness_loop_agent.Base.{
  ℕ, zero, suc, ◌≤◌, ◌≡◌, refl, subst, inl, inr, Bool, List, [], ◌∷◌, if◌then◌else◌, length, arith,
  All, Bool-cases,
}

-- A relation between each element and each later one.
abbrev pub Pairwise : {A : Type 0} → (A → A → Type 0) → List A → Type 0
Pairwise R [] = Unit
Pairwise R (x ∷ xs) = All (R x) xs × Pairwise R xs

module _ {A : Type 0} (before : A → A → Bool) where
  unfoldable pub sort_insert : A → List A → List A
  sort_insert x [] = x ∷ []
  sort_insert x (y ∷ ys) =
      let later = sort_insert x ys in if before y x then y ∷ later else x ∷ y ∷ ys

  unfoldable pub sort : List A → List A
  unfolding sort_insert
  sort [] = []
  sort (x ∷ xs) = sort_insert x (sort xs)

  sort_insert-All :
      (P : A → Type 0) (x : A) (xs : List A) → P x → All P xs → All P (sort_insert x xs)
  unfolding sort_insert
  sort_insert-All P x [] p h = (p, tt)
  sort_insert-All P x (y ∷ ys) p h = elim (Bool-cases (before y x)) [
    | inl e ↦ rw e (h.0, sort_insert-All P x ys p h.1)
    | inr e ↦ rw e (p, h)
  ]

  -- What holds of every element holds of every element of the sorted list.
  pub sort-All : (P : A → Type 0) (xs : List A) → All P xs → All P (sort xs)
  unfolding sort
  sort-All P [] h = tt
  sort-All P (x ∷ xs) h = sort_insert-All P x (sort xs) h.0 (sort-All P xs h.1)

  sort_insert-Pairwise :
      (R : A → A → Type 0)
      → ((x y : A) → R x y → R y x)
      → (x : A) (xs : List A) → All (R x) xs
      → Pairwise R xs
      → Pairwise R (sort_insert x xs)
  unfolding sort_insert
  sort_insert-Pairwise R flip x [] h p = (tt, tt)
  sort_insert-Pairwise R flip x (y ∷ ys) h p = elim (Bool-cases (before y x)) [
    | inl e ↦
        rw e
          (sort_insert-All (R y) x ys (flip x y h.0) p.0, sort_insert-Pairwise R flip x ys h.1 p.1)
    | inr e ↦ rw e (h, p)
  ]

  pub sort-Pairwise :
      (R : A → A → Type 0)
      → ((x y : A) → R x y → R y x)
      → (xs : List A) → Pairwise R xs
      → Pairwise R (sort xs)
  unfolding sort
  sort-Pairwise R flip [] p = tt
  sort-Pairwise R flip (x ∷ xs) p =
      sort_insert-Pairwise R flip x (sort xs) (sort-All (R x) xs p.0) (sort-Pairwise R flip xs p.1)

module _ {A : Type 0} (before : A → A → Bool) where
  All-sort_insert :
      (P : A → Type 0) (x : A) (xs : List A) → All P (sort_insert before x xs) → P x × All P xs
  unfolding sort_insert
  All-sort_insert P x [] h = (h.0, tt)
  All-sort_insert P x (y ∷ ys) h = elim (Bool-cases (before y x)) [
    | inl e ↦
        let (hy, more) : P y × All P (sort_insert before x ys) =
          subst (λ b. All P (if b then y ∷ sort_insert before x ys else x ∷ y ∷ ys)) e h in
        let (hx, hys) = All-sort_insert P x ys more in (hx, (hy, hys))
    | inr e ↦ subst (λ b. All P (if b then y ∷ sort_insert before x ys else x ∷ y ∷ ys)) e h
  ]

  -- Sorting loses no element.
  pub All-sort : (P : A → Type 0) (xs : List A) → All P (sort before xs) → All P xs
  unfolding sort
  All-sort P [] h = tt
  All-sort P (x ∷ xs) h =
      let (hx, more) = All-sort_insert P x (sort before xs) h in (hx, All-sort P xs more)

  length-sort_insert : (x : A) (xs : List A) → length (sort_insert before x xs) ≡ suc (length xs)
  unfolding sort_insert
  length-sort_insert x [] = refl
  length-sort_insert x (y ∷ ys) = ground (arith, length-sort_insert x ys)

  pub length-sort : (xs : List A) → length (sort before xs) ≡ length xs
  unfolding sort
  length-sort [] = refl
  length-sort (x ∷ xs) = ground (arith, length-sort_insert x (sort before xs), length-sort xs)

-- `xs[:n]` where the list is longer.
abbrev pub take {ℓ} : {A : Type ℓ} → ℕ → List A → List A
take zero xs = []
take (suc n) [] = []
take (suc n) (x ∷ xs) = x ∷ take n xs

pub take-All : {A : Type 0} (P : A → Type 0) (n : ℕ) (xs : List A) → All P xs → All P (take n xs)
take-All P zero xs h = tt
take-All P (suc n) [] h = tt
take-All P (suc n) (x ∷ xs) h = (h.0, take-All P n xs h.1)

pub length-take : {A : Type 0} (n : ℕ) (xs : List A) → length (take n xs) ≤ n
length-take zero xs = omega arith
length-take (suc n) [] = omega arith
length-take (suc n) (x ∷ xs) = omega (arith, length-take n xs)

pub take-Pairwise :
    {A : Type 0} (R : A → A → Type 0) (n : ℕ) (xs : List A) → Pairwise R xs → Pairwise R (take n xs)
take-Pairwise R zero xs h = tt
take-Pairwise R (suc n) [] h = tt
take-Pairwise R (suc n) (x ∷ xs) h = (take-All (R x) n xs h.0, take-Pairwise R n xs h.1)

-- A list that is no longer than the limit is taken whole.
pub All-take :
    {A : Type 0} (P : A → Type 0) (n : ℕ) (xs : List A)
    → length xs ≤ n
    → All P (take n xs)
    → All P xs
All-take P zero [] few h = tt
All-take P zero (x ∷ xs) few h = ground arith
All-take P (suc n) [] few h = tt
All-take P (suc n) (x ∷ xs) few h = (h.0, All-take P n xs (omega arith) h.1)

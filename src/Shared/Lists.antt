-- ===== src/Shared/Lists.antt =====
-- Lists read by Boolean tests. `select` is a query's filter, `find` its first row.
use Prim.Native.Nat.{ℕ, zero, suc, ◌+◌, ◌≤◌, ◌<◌}
use mathlib.Core.Path.{◌≡◌, refl, ap}
use mathlib.Core.Bool.{Bool, true, false, ◌&&◌, ◌||◌}
use mathlib.Core.Option.{Option, none, some}
use mathlib.Core.List.{List, [], ◌∷◌, ◌++◌}
use native.Mathlib.Omega.{arith}
use power_adapter_blogs.Shared.Tests.{if◌then◌else◌, Bool-cases}
use mathlib.Core.Logic.{◌⊎◌, inl, inr}

module _ {ℓ} {A : Type ℓ} where
  abbrev pub length : List A → ℕ
  length [] = 0
  length (x ∷ xs) = suc (length xs)

  unfoldable pub select : (A → Bool) → List A → List A
  select p [] = []
  select p (x ∷ xs) = let rest = select p xs in if p x then x ∷ rest else rest

  unfoldable pub find : (A → Bool) → List A → Option A
  find p [] = none
  find p (x ∷ xs) = if p x then some x else find p xs

  unfoldable pub any : (A → Bool) → List A → Bool
  any p [] = false
  any p (x ∷ xs) = p x || any p xs

  -- How many rows pass the test.
  unfoldable pub count : (A → Bool) → List A → ℕ
  count p [] = 0
  count p (x ∷ xs) = if p x then suc (count p xs) else count p xs

  -- `xs[:n]`
  unfoldable pub take : ℕ → List A → List A
  take (suc n) (x ∷ xs) = x ∷ take n xs
  take _ _ = []

  -- Every row that passes `p` replaced by `f` of it.
  unfoldable pub update : (A → Bool) → (A → A) → List A → List A
  update p f [] = []
  update p f (x ∷ xs) = (if p x then f x else x) ∷ update p f xs

  abbrev pub All {κ} : (A → Type κ) → List A → Type κ
  All P [] = Unit
  All P (x ∷ xs) = P x × All P xs

  pub length-select : (p : A → Bool) (xs : List A) → length (select p xs) ≡ count p xs
  unfolding select count
  length-select p [] = refl
  length-select p (x ∷ xs) = ground (arith, length-select p xs)

  pub take-all : (n : ℕ) (xs : List A) → length xs ≤ n → take n xs ≡ xs
  unfolding take
  take-all zero [] h = refl
  take-all (suc n) [] h = refl
  take-all zero (x ∷ xs) h = absurd (omega arith)
  take-all (suc n) (x ∷ xs) h = ap (λ ys. x ∷ ys) (take-all n xs (omega arith))

  pub any-append : (p : A → Bool) (xs ys : List A) → any p (xs ++ ys) ≡ (any p xs || any p ys)
  unfolding any
  any-append p [] ys = refl
  any-append p (x ∷ xs) ys = ground (arith, any-append p xs ys)

  pub count-append : (p : A → Bool) (xs ys : List A) → count p (xs ++ ys) ≡ count p xs + count p ys
  unfolding count
  count-append p [] ys = omega arith
  count-append p (x ∷ xs) ys = ground (arith, count-append p xs ys)

  pub any-eq-false : (p : A → Bool) (xs : List A) → count p xs ≡ 0 → any p xs ≡ false
  unfolding any count
  any-eq-false p [] h = refl
  any-eq-false p (x ∷ xs) h = ground (arith, any-eq-false p xs)

-- Rows mapped to optional values, the absent ones left out.
unfoldable pub filter_map {ℓ κ} : {A : Type ℓ} {B : Type κ} → (A → Option B) → List A → List B
filter_map f [] = []
filter_map f (x ∷ xs) = let rest = filter_map f xs in elim (f x) [ none ↦ rest | some y ↦ y ∷ rest ]

abbrev pub holds {ℓ} : {A : Type ℓ} → (A → Bool) → Option A → Bool
holds p none = false
holds p (some a) = p a

pub any-filter_map {ℓ κ} :
    {A : Type ℓ} {B : Type κ} (p : B → Bool) (f : A → Option B) (xs : List A)
    → any p (filter_map f xs) ≡ any (λ x. holds p (f x)) xs
unfolding any filter_map
any-filter_map p f [] = refl
any-filter_map p f (x ∷ xs) = ground (arith, any-filter_map p f xs)

module _ {ℓ} {A : Type ℓ} where
  -- Two tests that agree give the same rows.
  pub select-congr :
      (p q : A → Bool) (xs : List A) → ((x : A) → p x ≡ q x) → select p xs ≡ select q xs
  unfolding select
  select-congr p q [] h = refl
  select-congr p q (x ∷ xs) h = ground (arith, h x, select-congr p q xs h)

  pub any-congr : (p q : A → Bool) (xs : List A) → ((x : A) → p x ≡ q x) → any p xs ≡ any q xs
  unfolding any
  any-congr p q [] h = refl
  any-congr p q (x ∷ xs) h = ground (arith, h x, any-congr p q xs h)

  pub any-const : (p : A → Bool) (k : Bool) (xs : List A) → any (λ x. p x && k) xs ≡ (any p xs && k)
  unfolding any
  any-const p k [] = refl
  any-const p k (x ∷ xs) = ground (arith, any-const p k xs)

  pub any-eq-true : (p : A → Bool) (xs : List A) → 0 < count p xs → any p xs ≡ true
  unfolding any count
  any-eq-true p [] h = absurd (omega arith)
  any-eq-true p (x ∷ xs) h = ground (arith, any-eq-true p xs)

  pub any-none : (p : A → Bool) (xs : List A) → ((x : A) → p x ≡ false) → any p xs ≡ false
  unfolding any
  any-none p [] h = refl
  any-none p (x ∷ xs) h = ground (arith, h x, any-none p xs h)

  -- The row that `find` returns passes the test.
  pub find-passes : (p : A → Bool) (xs : List A) {y : A} → find p xs ≡ some y → p y ≡ true
  unfolding find
  find-passes p [] h = cc
  find-passes p (x ∷ xs) {y} h = elim (Bool-cases (p x)) [
    | inl t ↦ ground arith
    | inr f ↦ find-passes p xs (ground arith)
  ]

  pub count-pos_of_find : (p : A → Bool) (xs : List A) {y : A} → find p xs ≡ some y → 0 < count p xs
  unfolding find count
  count-pos_of_find p [] h = cc
  count-pos_of_find p (x ∷ xs) {y} h = elim (Bool-cases (p x)) [
    | inl t ↦ ground arith
    | inr f ↦ ground (arith, count-pos_of_find p xs {y = y})
  ]

  pub select-all : (p : A → Bool) (xs : List A) → ((x : A) → p x ≡ true) → select p xs ≡ xs
  unfolding select
  select-all p [] h = refl
  select-all p (x ∷ xs) h = ground (arith, h x, select-all p xs h)

  pub select-none : (p : A → Bool) (xs : List A) → ((x : A) → p x ≡ false) → select p xs ≡ []
  unfolding select
  select-none p [] h = refl
  select-none p (x ∷ xs) h = ground (arith, h x, select-none p xs h)

-- A row of the list.
abbrev pub In : {A : Type 0} → A → List A → Type 0
In x [] = ⊥
In x (y ∷ ys) = (x ≡ y) ⊎ In x ys

module _ {A : Type 0} where
  pub In-select : (p : A → Bool) (xs : List A) (x : A) → In x (select p xs) → In x xs × (p x ≡ true)
  unfolding select
  In-select p [] x h = absurd h
  In-select p (y ∷ ys) x h = elim (Bool-cases (p y)) [
    | inl t ↦ at_head t (λ k. In-select p ys x k) (rw t at h)
    | inr f ↦ let (later, q) = In-select p ys x (rw f at h) in (inr later, q)
  ]
    where
      at_head :
          p y ≡ true
          → (In x (select p ys) → In x ys × (p x ≡ true))
          → In x (y ∷ select p ys)
          → In x (y ∷ ys) × (p x ≡ true)
      at_head t rest (inl e) = (inl e, rw e t)
      at_head t rest (inr later) = let (there, q) = rest later in (inr there, q)

  pub count-In : (q : A → Bool) (xs : List A) (x : A) → In x xs → q x ≡ true → 0 < count q xs
  unfolding count
  count-In q [] x h t = absurd h
  count-In q (y ∷ ys) x (inl e) t = let t' : q y ≡ true = rw (← e) t in ground arith
  count-In q (y ∷ ys) x (inr h) t = ground (arith, count-In q ys x h t)

  -- A row is the one that a test finds which no other row passes.
  pub find-In :
      (q : A → Bool) (xs : List A) (x : A)
      → In x xs
      → q x ≡ true
      → count q xs ≤ 1
      → find q xs ≡ some x
  unfolding count find
  find-In q [] x h t u = absurd h
  find-In q (y ∷ ys) x (inl e) t u = let t' : q y ≡ true = rw (← e) t in rw (t', e) refl
  find-In q (y ∷ ys) x (inr h) t u = elim (Bool-cases (q y)) [
    | inl k ↦ absurd (ground (arith, count-In q ys x h t))
    | inr k ↦ ground (arith, find-In q ys x h t)
  ]

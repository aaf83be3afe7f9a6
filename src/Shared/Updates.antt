-- ===== src/Shared/Updates.antt =====
-- What a table keeps when the row with one key is changed, or a row is appended.
use Prim.Native.Nat.{ℕ, ◌+◌, ◌≤◌, ◌<◌}
use mathlib.Core.Path.{◌≡◌, refl}
use mathlib.Core.Logic.{inl, inr}
use mathlib.Core.Bool.{Bool, true, false}
use mathlib.Core.Option.{Option, none, some}
use mathlib.Core.Option
use mathlib.Core.List.{List, [], ◌∷◌, ◌++◌}
use native.Mathlib.Omega.{arith}
use power_adapter_blogs.Shared.Tests.{◌==◌, if◌then◌else◌, Bool-cases}
use power_adapter_blogs.Shared.Lists.{find, any, count, update}

abbrev pub bit : Bool → ℕ
bit true = 1
bit false = 0

module _ {ℓ} {A : Type ℓ} (p : A → Bool) (f : A → A) where
  -- A test that the change does not see counts the same rows.
  pub count-update_same :
      (q : A → Bool) (xs : List A)
      → ((x : A) → q (f x) ≡ q x)
      → count q (update p f xs) ≡ count q xs
  unfolding count update
  count-update_same q [] h = refl
  count-update_same q (x ∷ xs) h = ground (arith, h x, count-update_same q xs h)

  -- No row has the key.
  pub update-absent : (xs : List A) → count p xs ≡ 0 → update p f xs ≡ xs
  unfolding count update
  update-absent [] h = refl
  update-absent (x ∷ xs) h = ground (arith, update-absent xs)

  -- One row has the key: a count changes by what that row adds.
  pub count-update_one :
      (q : A → Bool) (xs : List A) (m : A)
      → count p xs ≤ 1
      → find p xs ≡ some m
      → count q (update p f xs) + bit (q m) ≡ count q xs + bit (q (f m))
  unfolding count update find
  count-update_one q [] m u e = cc
  count-update_one q (x ∷ xs) m u e = elim (Bool-cases (p x)) [
    | inl t ↦ ground (arith, update-absent xs)
    | inr t ↦ ground (arith, count-update_one q xs m)
  ]

  abbrev pub changed : A → A
  changed x = if p x then f x else x

  -- A test that the change does not see finds the same row, changed.
  pub find-update :
      (q : A → Bool) (xs : List A)
      → ((x : A) → q (f x) ≡ q x)
      → find q (update p f xs) ≡ Option.map changed (find q xs)
  unfolding find update
  find-update q [] h = refl
  find-update q (x ∷ xs) h = ground (arith, h x, find-update q xs h)

module _ {ℓ} {A : Type ℓ} (key : A → ℕ) where
  count_key-pos :
      (q : A → Bool) (xs : List A) (m : A) → find q xs ≡ some m → 0 < count (λ y. key y == key m) xs
  unfolding find count
  count_key-pos q [] m e = cc
  count_key-pos q (x ∷ xs) m e = elim (Bool-cases (q x)) [
    | inl t ↦ ground arith
    | inr t ↦ ground (arith, count_key-pos q xs m)
  ]

  -- A row that is found is found by its key, where keys are unique.
  pub find-by_key :
      (q : A → Bool) (xs : List A) (m : A)
      → find q xs ≡ some m
      → count (λ y. key y == key m) xs ≤ 1
      → find (λ y. key y == key m) xs ≡ some m
  unfolding find count
  find-by_key q [] m e u = cc
  find-by_key q (x ∷ xs) m e u = elim (Bool-cases (q x)) [
    | inl t ↦ ground arith
    | inr t ↦ elim (Bool-cases (key x == key m)) [
      | inl k ↦
          let e' : find q xs ≡ some m = ground arith in
          absurd (ground (arith, count_key-pos q xs m e'))
      | inr k ↦ ground (arith, find-by_key q xs m)
    ]
  ]

module _ {ℓ} {A : Type ℓ} where
  pub find-append :
      (q : A → Bool) (xs : List A) (y : A)
      → find q (xs ++ y ∷ [])
        ≡ (elim (find q xs) [ none ↦ if q y then some y else none | some x ↦ some x ])
  unfolding find
  find-append q [] y = refl
  find-append q (x ∷ xs) y = ground (arith, find-append q xs y)

  pub count-of_any : (q : A → Bool) (xs : List A) → any q xs ≡ false → count q xs ≡ 0
  unfolding any count
  count-of_any q [] h = refl
  count-of_any q (x ∷ xs) h = ground (arith, count-of_any q xs)

  pub find-of_count : (q : A → Bool) (xs : List A) → count q xs ≡ 0 → find q xs ≡ none
  unfolding find count
  find-of_count q [] h = refl
  find-of_count q (x ∷ xs) h = ground (arith, find-of_count q xs)

  pub count-of_find-none : (q : A → Bool) (xs : List A) → find q xs ≡ none → count q xs ≡ 0
  unfolding find count
  count-of_find-none q [] h = refl
  count-of_find-none q (x ∷ xs) h = ground (arith, count-of_find-none q xs)

  counted-of_find :
      (p q : A → Bool) (xs : List A) (m : A) → find p xs ≡ some m → q m ≡ true → 0 < count q xs
  unfolding find count
  counted-of_find p q [] m e h = cc
  counted-of_find p q (x ∷ xs) m e h = elim (Bool-cases (p x)) [
    | inl t ↦ ground arith
    | inr t ↦ ground (arith, counted-of_find p q xs m)
  ]

  -- The row that one test finds is the row that a test which is unique to it finds.
  pub find_unique :
      (p q : A → Bool) (xs : List A) (m : A)
      → find p xs ≡ some m
      → q m ≡ true
      → count q xs ≤ 1
      → find q xs ≡ some m
  unfolding find count
  find_unique p q [] m e h u = cc
  find_unique p q (x ∷ xs) m e h u = elim (Bool-cases (p x)) [
    | inl t ↦ ground arith
    | inr t ↦ ground (arith, counted-of_find p q xs m, find_unique p q xs m)
  ]

-- ===== src/Common/Lists.antt =====
-- Lists measured by native numbers, Boolean filters and predicates on every element.
use Prim.Native.Nat.{ℕ, zero, suc, ◌+◌, ◌≤◌, min}
use mathlib.Core.Path.{◌≡◌, refl}
use mathlib.Core.Bool.{Bool, true, false, ◌||◌}
use mathlib.Core.List.{List, [], ◌∷◌, ◌++◌, map}
use mathlib.Core.Option.{Option, none, some}
use native.Mathlib.Omega.{arith}
use uni_mail.Common.Tests.{if◌then◌else◌}

module _ {ℓ} {A : Type ℓ} where
  abbrev pub length : List A → ℕ
  length [] = 0
  length (x ∷ xs) = suc (length xs)

  pub length-append : (xs ys : List A) → length (xs ++ ys) ≡ length xs + length ys
  length-append [] ys = omega arith
  length-append (x ∷ xs) ys = omega (arith, length-append xs ys)

  abbrev pub take : ℕ → List A → List A
  take zero xs = []
  take (suc n) [] = []
  take (suc n) (x ∷ xs) = x ∷ take n xs

  abbrev pub drop : ℕ → List A → List A
  drop zero xs = xs
  drop (suc n) [] = []
  drop (suc n) (x ∷ xs) = drop n xs

  pub length-take : (n : ℕ) (xs : List A) → length (take n xs) ≡ min n (length xs)
  length-take zero xs = omega arith
  length-take (suc n) [] = omega arith
  length-take (suc n) (x ∷ xs) = omega (arith, length-take n xs)

  -- The first element that passes a test: `rows.next()`, `into_iter().next()`.
  unfoldable pub find : (A → Bool) → List A → Option A
  find p [] = none
  find p (x ∷ xs) = if p x then some x else find p xs

  -- The elements that pass a test, in their order.
  unfoldable pub select : (A → Bool) → List A → List A
  select p [] = []
  select p (x ∷ xs) = if p x then x ∷ select p xs else select p xs

  unfoldable pub any : (A → Bool) → List A → Bool
  any p [] = false
  any p (x ∷ xs) = p x || any p xs

  pub length-select-le : (p : A → Bool) (xs : List A) → length (select p xs) ≤ length xs
  unfolding select
  length-select-le p [] = omega arith
  length-select-le p (x ∷ xs) = ground (arith, length-select-le p xs)

  -- A found element passes the test.
  pub find_sound : (p : A → Bool) (xs : List A) {x : A} → find p xs ≡ some x → p x ≡ true
  unfolding find
  find_sound p [] h = ground arith
  find_sound p (y ∷ xs) {x} h = ground (arith, find_sound p xs {x = x})

  -- Filtering by a test that refuses all that `p` accepts leaves nothing for `p` to find.
  pub find-select-none :
      (p q : A → Bool) (xs : List A)
      → ((x : A) → p x ≡ true → q x ≡ false)
      → find p (select q xs) ≡ none
  unfolding find select
  find-select-none p q [] h = refl
  find-select-none p q (x ∷ xs) h = ground (arith, find-select-none p q xs h, h x)

  -- Filtering by a test that keeps all that `p` accepts changes nothing that `p` finds.
  pub find-select-keep :
      (p q : A → Bool) (xs : List A)
      → ((x : A) → p x ≡ true → q x ≡ true)
      → find p (select q xs) ≡ find p xs
  unfolding find select
  find-select-keep p q [] h = refl
  find-select-keep p q (x ∷ xs) h = ground (arith, find-select-keep p q xs h, h x)

  -- What is not found in a list does not occur in a part of it.
  pub any-select_of_find-none :
      (p q : A → Bool) (xs : List A) → find p xs ≡ none → any p (select q xs) ≡ false
  unfolding find select any
  any-select_of_find-none p q [] h = refl
  any-select_of_find-none p q (x ∷ xs) h = ground (arith, any-select_of_find-none p q xs)

  -- `Vec::push`, and a row that SQLite gives the next rowid
  abbrev pub push : List A → A → List A
  push xs x = xs ++ (x ∷ [])

  pub any-append : (p : A → Bool) (xs ys : List A) → any p (xs ++ ys) ≡ (any p xs || any p ys)
  unfolding any
  any-append p [] ys = refl
  any-append p (x ∷ xs) ys = ground (arith, any-append p xs ys)

  pub find-append_none :
      (p : A → Bool) (xs ys : List A) → find p xs ≡ none → find p (xs ++ ys) ≡ find p ys
  unfolding find
  find-append_none p [] ys h = refl
  find-append_none p (x ∷ xs) ys h = ground (arith, find-append_none p xs ys)

  pub find-append_some :
      (p : A → Bool) (xs ys : List A) {x : A} → find p xs ≡ some x → find p (xs ++ ys) ≡ some x
  unfolding find
  find-append_some p [] ys h = ground arith
  find-append_some p (y ∷ xs) ys {x} h = ground (arith, find-append_some p xs ys {x = x})

-- Every entry has the property.
abbrev pub All {ℓ κ} : {A : Type ℓ} → (A → Type κ) → List A → Type κ
All holds [] = Unit
All holds (first ∷ rest) = holds first × All holds rest

pub All-append {ℓ κ} :
    {A : Type ℓ} (P : A → Type κ) (front back : List A)
    → All P front × All P back
    → All P (front ++ back)
All-append P [] back (_, h) = h
All-append P (a ∷ front) back ((here, more), h) = (here, All-append P front back (more, h))

pub All-take {ℓ κ} :
    {A : Type ℓ} (P : A → Type κ) (n : ℕ) (whole : List A) → All P whole → All P (take n whole)
All-take P zero whole h = tt
All-take P (suc n) [] h = tt
All-take P (suc n) (a ∷ rest) (here, more) = (here, All-take P n rest more)

pub All-select {ℓ} : {A : Type ℓ} (p : A → Bool) (xs : List A) → All (λ x. p x ≡ true) (select p xs)
unfolding select
All-select p [] = tt
All-select p (x ∷ xs) = ground (arith, All-select p xs)

pub All-weaken {ℓ κ μ} :
    {A : Type ℓ} (P : A → Type κ) (Q : A → Type μ)
    → ((a : A) → P a → Q a)
    → (xs : List A) → All P xs
    → All Q xs
All-weaken P Q f [] h = tt
All-weaken P Q f (a ∷ rest) (here, more) = (f a here, All-weaken P Q f rest more)

pub All-map {ℓ κ μ} :
    {A : Type ℓ} {B : Type κ} (P : B → Type μ) (f : A → B) (xs : List A)
    → All (λ a. P (f a)) xs
    → All P (map f xs)
All-map P f [] h = tt
All-map P f (a ∷ rest) (here, more) = (here, All-map P f rest more)

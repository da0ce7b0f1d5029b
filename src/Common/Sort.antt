-- ===== src/Common/Sort.antt =====
-- Rust's `sort_by`, a stable sort by a comparison: its result is determined by the comparison, and
-- insertion computes it.
use Prim.Native.Nat.{◌+◌, Ordering}
use mathlib.Core.Path.{◌≡◌, refl}
use mathlib.Core.Logic.{inl, inr}
use mathlib.Core.Bool.{Bool, true, false}
use mathlib.Core.List.{List, [], ◌∷◌}
use native.Mathlib.Omega.{arith}
use uni_mail.Common.Tests.{if◌then◌else◌, Bool-cases}
use uni_mail.Common.Lists.{All, length, select}

abbrev pub is_greater : Ordering → Bool
is_greater Ordering.gt = true
is_greater _ = false

module _ {ℓ} {A : Type ℓ} (cmp : A → A → Ordering) where
  -- An entry is put before the first one that it does not exceed.
  unfoldable pub insert_by : A → List A → List A
  insert_by x [] = x ∷ []
  insert_by x (y ∷ ys) =
      let rest = insert_by x ys in if is_greater (cmp x y) then y ∷ rest else x ∷ y ∷ ys

  -- `slice::sort_by`
  unfoldable pub sort_by : List A → List A
  unfolding insert_by
  sort_by [] = []
  sort_by (x ∷ xs) = insert_by x (sort_by xs)

  abbrev pub IsNotAfter : A → A → Type 0
  IsNotAfter x y = is_greater (cmp x y) ≡ false

  -- No entry exceeds a later one.
  abbrev pub IsSorted : List A → Type ℓ
  IsSorted [] = Unit
  IsSorted (x ∷ xs) = All (IsNotAfter x) xs × IsSorted xs

  pub length-insert_by : (x : A) (ys : List A) → length (insert_by x ys) ≡ 1 + length ys
  unfolding insert_by
  length-insert_by x [] = refl
  length-insert_by x (y ∷ ys) = ground (arith, length-insert_by x ys)

  pub length-sort_by : (xs : List A) → length (sort_by xs) ≡ length xs
  unfolding sort_by
  length-sort_by [] = refl
  length-sort_by (x ∷ xs) = omega (arith, length-insert_by x (sort_by xs), length-sort_by xs)

  count-insert_by :
      (p : A → Bool) (x : A) (ys : List A)
      → length (select p (insert_by x ys)) ≡ length (select p (x ∷ ys))
  unfolding insert_by select
  count-insert_by p x [] = refl
  count-insert_by p x (y ∷ ys) = ground (arith, count-insert_by p x ys)

  -- A sorted list holds as many entries of each kind as the list did.
  pub count-sort_by :
      (p : A → Bool) (xs : List A) → length (select p (sort_by xs)) ≡ length (select p xs)
  unfolding sort_by select
  count-sort_by p [] = refl
  count-sort_by p (x ∷ xs) = ground (arith, count-insert_by p x (sort_by xs), count-sort_by p xs)

  insert_by_keeps : (P : A → Type 0) (x : A) (ys : List A) → P x → All P ys → All P (insert_by x ys)
  unfolding insert_by
  insert_by_keeps P x [] h hs = (h, tt)
  insert_by_keeps P x (y ∷ ys) h (here, more) = elim (Bool-cases (is_greater (cmp x y))) [
    | inl after ↦ rw after (here, insert_by_keeps P x ys h more)
    | inr before ↦ rw before (h, (here, more))
  ]

  -- What holds of every entry of a list holds of every entry of the sorted list.
  pub sort_by_keeps : (P : A → Type 0) (xs : List A) → All P xs → All P (sort_by xs)
  unfolding sort_by
  sort_by_keeps P [] h = tt
  sort_by_keeps P (x ∷ xs) (here, more) =
      insert_by_keeps P x (sort_by xs) here (sort_by_keeps P xs more)

  module _ (total : (x y : A) → is_greater (cmp x y) ≡ true → IsNotAfter y x)
      (trans : (x y z : A) → IsNotAfter x y → IsNotAfter y z → IsNotAfter x z) where
    All-trans :
        (x y : A) (zs : List A) → IsNotAfter x y → All (IsNotAfter y) zs → All (IsNotAfter x) zs
    All-trans x y [] h hs = tt
    All-trans x y (z ∷ zs) h (here, more) = (trans x y z h here, All-trans x y zs h more)

    insert_by-IsSorted : (x : A) (ys : List A) → IsSorted ys → IsSorted (insert_by x ys)
    unfolding insert_by
    insert_by-IsSorted x [] h = (tt, tt)
    insert_by-IsSorted x (y ∷ ys) (least, h) = elim (Bool-cases (is_greater (cmp x y))) [
      | inl after ↦
          rw after
            (insert_by_keeps (IsNotAfter y) x ys (total x y after) least, insert_by-IsSorted x ys h)
      | inr before ↦ rw before ((before, All-trans x y ys before least), (least, h))
    ]

    pub sort_by-IsSorted : (xs : List A) → IsSorted (sort_by xs)
    unfolding sort_by
    sort_by-IsSorted [] = tt
    sort_by-IsSorted (x ∷ xs) = insert_by-IsSorted x (sort_by xs) (sort_by-IsSorted xs)

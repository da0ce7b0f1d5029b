-- ===== src/Storage/Accounts/Represents.antt =====
-- The rows of src/storage/accounts.rs that hold a directory of accounts.
use uni_mail.Common.{
  ◌≡◌, ap, push, refl, ℕ, zero, suc, String, Bool, false, List, [], ◌∷◌, map, arith, length,
  Bool-cases, inl, inr, select, find, any, if◌then◌else◌,
}
use uni_mail.Exec.{pure, fail}
use uni_mail.Storage.Models.{Account, AccountRow, parse_status-as_str}
use uni_mail.Storage.Accounts.{to_row, of_row, first, update_rows, positive, found_rows, missing}
use uni_mail.Storage.Accounts.Spec.{change}

pub of_row-to_row : (a : Account) → of_row (to_row a) ≡ a
unfolding of_row to_row
of_row-to_row a = rw (parse_status-as_str a.status) refl

pub of_row-rows : (d : List Account) → map of_row (map to_row d) ≡ d
of_row-rows [] = refl
of_row-rows (a ∷ d) = rw (of_row-to_row a, of_row-rows d) refl

pub push-rows :
    (d : List Account) (a : Account) → push (map to_row d) (to_row a) ≡ map to_row (push d a)
push-rows [] a = refl
push-rows (b ∷ d) a = ap (λ rows. to_row b ∷ rows) (push-rows d a)

-- A test of rows is one of accounts.
module _ (p : AccountRow → Bool) (q : Account → Bool)
    (same : (a : Account) → p (to_row a) ≡ q a) where
  pub select-rows : (d : List Account) → select p (map to_row d) ≡ map to_row (select q d)
  unfolding select
  select-rows [] = refl
  select-rows (a ∷ d) = elim (Bool-cases (q a)) [
    | inl hit ↦ rw (same a, hit, select-rows d) refl
    | inr miss ↦ rw (same a, miss, select-rows d) refl
  ]

  pub any-rows : (d : List Account) → any p (map to_row d) ≡ any q d
  unfolding any
  any-rows [] = refl
  any-rows (a ∷ d) = rw (same a, any-rows d) refl

  pub first-rows : (d : List Account) → first (map of_row (select p (map to_row d))) ≡ find q d
  unfolding select find first
  first-rows [] = refl
  first-rows (a ∷ d) = elim (Bool-cases (q a)) [
    | inl hit ↦ rw (same a, hit, of_row-to_row a) refl
    | inr miss ↦ rw (same a, miss) (first-rows d)
  ]

  pub update-rows :
      (f : AccountRow → AccountRow) (g : Account → Account)
      → ((a : Account) → f (to_row a) ≡ to_row (g a))
      → (d : List Account) → update_rows p f (map to_row d) ≡ map to_row (change q g d)
  unfolding update_rows change
  update-rows f g step [] = refl
  update-rows f g step (a ∷ d) = elim (Bool-cases (q a)) [
    | inl hit ↦ rw (same a, hit, step a, update-rows f g step d) refl
    | inr miss ↦ rw (same a, miss, update-rows f g step d) refl
  ]

-- The number of the rows that are hit, and whether there is one.
pub positive-length :
    (p : AccountRow → Bool) (rows : List AccountRow)
    → (positive (length (select p rows)) ≡ any p rows)
unfolding select any
positive-length p [] = refl
positive-length p (r ∷ rows) = elim (Bool-cases (p r)) [
  | inl hit ↦ rw (hit) refl
  | inr miss ↦ rw (miss) (positive-length p rows)
]

pub found_rows-positive :
    (n : ℕ) (id : String) → found_rows n id ≡ (if positive n then pure tt else fail (missing id))
found_rows-positive zero id = refl
found_rows-positive (suc n) id = refl

-- A change that hits no account.
pub change-none :
    (q : Account → Bool) (g : Account → Account) (d : List Account)
    → any q d ≡ false
    → change q g d ≡ d
unfolding change any
change-none q g [] h = refl
change-none q g (a ∷ d) h = ground (arith, change-none q g d)

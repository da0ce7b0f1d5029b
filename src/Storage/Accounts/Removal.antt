-- ===== src/Storage/Accounts/Removal.antt =====
-- Deleting an account that was found (`delete` of src/storage/accounts.rs), with its token.
use uni_mail.Common.{
  ◌≡◌, ◌⊎◌, refl, String, Bool, true, List, [], ◌∷◌, some, none, map, not, ◌&&◌, ◌==◌, arith,
  eq_iff, eq_refl, Bool-cases, inl, inr, select, any, find, find-select-none,
}
use uni_mail.Error.{ok}
use uni_mail.Exec.{World, lock}
use uni_mail.Host.{Host}
use uni_mail.Storage.Models.{Account, AccountRow}
use uni_mail.Storage.Tokens.{owned_by}
use uni_mail.Storage.Accounts.{
  of_row, query_accounts, first, has_id, has_email, get, get_by_email, delete, delete_rows, cascade,
}

-- The account is that of a row of the table.
abbrev pub IsInTable : Account → List AccountRow → Type 0
IsInTable a [] = ⊥
IsInTable a (r ∷ rows) = (of_row r ≡ a) ⊎ IsInTable a rows

-- An account that a query returned is in the table.
first-IsInTable :
    (p : AccountRow → Bool) (rows : List AccountRow) (a : Account)
    → first (map of_row (select p rows)) ≡ some a
    → IsInTable a rows
unfolding first select
first-IsInTable p [] a h = cc
first-IsInTable p (r ∷ rows) a h = elim (Bool-cases (p r)) [
  | inl hit ↦ inl (ground arith)
  | inr miss ↦ inr (first-IsInTable p rows a (ground arith))
]

pub any_of-IsInTable :
    (a : Account) (rows : List AccountRow)
    → IsInTable a rows
    → any (has_id a.tenant_id a.id) rows ≡ true
unfolding any of_row
any_of-IsInTable a [] h = absurd h
any_of-IsInTable a (r ∷ rows) (inl same) = ground (arith, eq_refl a.tenant_id, eq_refl a.id)
any_of-IsInTable a (r ∷ rows) (inr h) = ground (arith, any_of-IsInTable a rows h)

-- A token of the account falls with it.
any-cascade :
    (tenant id owner : String) (rows : List AccountRow)
    → any (has_id tenant id) rows ≡ true
    → (owner == id) ≡ true
    → any (λ r. has_id tenant id r && (r.id == owner)) rows ≡ true
unfolding any
any-cascade tenant id owner [] h same = h
any-cascade tenant id owner (r ∷ rows) h same =
    ground
      (arith, eq_iff r.id id, eq_iff owner id, eq_iff r.id owner, any-cascade tenant id owner rows)

module _ (host : Host) where
  pub get-IsInTable :
      (tenant id : String) (a : Account) (w : World)
      → (get host tenant id w).0 ≡ ok a
      → IsInTable a w.accounts
  unfolding get query_accounts lock
  get-IsInTable tenant id a w h = first-IsInTable (has_id tenant id) w.accounts a (ground arith)

  pub get_by_email-IsInTable :
      (tenant email : String) (a : Account) (w : World)
      → (get_by_email host tenant email w).0 ≡ ok a
      → IsInTable a w.accounts
  unfolding get_by_email query_accounts lock
  get_by_email-IsInTable tenant email a w h =
      first-IsInTable (has_email host tenant email) w.accounts a (ground arith)

  delete_state :
      (tenant id : String) (gone : Bool) (w : World)
      → (delete host tenant id w).0 ≡ ok gone
      → ((delete host tenant id w).1.accounts ≡ select (λ r. not (has_id tenant id r)) w.accounts)
        × ((delete host tenant id w).1.tokens ≡ cascade (has_id tenant id) w.accounts w.tokens)
  unfolding delete delete_rows lock
  delete_state tenant id gone w h = (ground arith, ground arith)

  -- A delete that returned leaves no row of that tenant and id, and if there was one, no token.
  pub delete_lem :
      (tenant id : String) (gone : Bool) (w : World)
      → (delete host tenant id w).0 ≡ ok gone
      → any (has_id tenant id) w.accounts ≡ true
      → (find (has_id tenant id) (delete host tenant id w).1.accounts ≡ none)
        × (find (owned_by id) (delete host tenant id w).1.tokens ≡ none)
  unfolding cascade
  delete_lem tenant id gone w h there =
      let (accounts, tokens) = delete_state tenant id gone w h in
      rw (accounts, tokens)
        (
          find-select-none (has_id tenant id) (λ r. not (has_id tenant id r)) w.accounts
              (λ r hit. rw hit refl),
          find-select-none (owned_by id) _ w.tokens
              (λ t hit. rw (any-cascade tenant id t.account_id w.accounts there hit) refl),
        )

-- ===== src/Storage/Consistency.antt =====
-- The constraints that the schema of src/storage/db.rs declares, as an invariant of the tables.
pub mod Stores
use uni_mail.Common.{
  any-append, push, ◌≡◌, refl, String, Bool, true, false, List, [], ◌∷◌, not, ◌&&◌, ◌||◌, ◌==◌,
  arith, eq_iff, Bool-cases, inl, inr, select, any, All, if◌then◌else◌,
}
use uni_mail.Exec.{Database}
use uni_mail.Storage.Models.{AccountRow, TokenRow, FlowRow}
use uni_mail.Storage.Tokens.{has_account, owned_by, put_row}
use uni_mail.Storage.Accounts.{conflicts, update_rows, cascade}
use uni_mail.Storage.Flows.{has_state}

-- No row clashes with a later one.
abbrev pub IsDistinct {ℓ} : {A : Type ℓ} → (A → A → Bool) → List A → Type 0
IsDistinct clash [] = Unit
IsDistinct clash (r ∷ rows) = (any (clash r) rows ≡ false) × IsDistinct clash rows

abbrev pub same_account : TokenRow → TokenRow → Bool
same_account t = owned_by t.account_id

abbrev pub same_state : FlowRow → FlowRow → Bool
same_state f = has_state f.state

-- The owner of a token is in the table.
abbrev pub IsOwned : List AccountRow → TokenRow → Type 0
IsOwned accounts t = has_account t.account_id accounts ≡ true

-- Account ids are unique, and so is each email within its tenant; an account has at most one token,
-- and a token an account; states of flows are unique.
pub record IsConsistent (db : Database) : Type 0 where
  pub accounts_distinct : IsDistinct conflicts db.accounts
  pub tokens_distinct : IsDistinct same_account db.tokens
  pub tokens_owned : All (IsOwned db.accounts) db.tokens
  pub flows_distinct : IsDistinct same_state db.flows

any-select-false {ℓ} :
    {A : Type ℓ} (p q : A → Bool) (xs : List A) → any p xs ≡ false → any p (select q xs) ≡ false
unfolding any select
any-select-false p q [] h = refl
any-select-false p q (x ∷ xs) h = ground (arith, any-select-false p q xs)

pub select-IsDistinct {ℓ} :
    {A : Type ℓ} (clash : A → A → Bool) (q : A → Bool) (rows : List A)
    → IsDistinct clash rows
    → IsDistinct clash (select q rows)
unfolding select
select-IsDistinct clash q [] h = tt
select-IsDistinct clash q (r ∷ rows) (alone, h) = elim (Bool-cases (q r)) [
  | inl kept ↦ rw kept (any-select-false (clash r) q rows alone, select-IsDistinct clash q rows h)
  | inr dropped ↦ rw dropped (select-IsDistinct clash q rows h)
]

pub select-All {ℓ κ} :
    {A : Type ℓ} (P : A → Type κ) (q : A → Bool) (rows : List A)
    → All P rows
    → All P (select q rows)
unfolding select
select-All P q [] h = tt
select-All P q (r ∷ rows) (here, more) = elim (Bool-cases (q r)) [
  | inl kept ↦ rw kept (here, select-All P q rows more)
  | inr dropped ↦ rw dropped (select-All P q rows more)
]

-- The accounts under an update that keeps keys.

abbrev pub KeepsKey : (AccountRow → AccountRow) → Type 0
KeepsKey f =
    (r : AccountRow)
    → ((f r).id ≡ r.id) × ((f r).tenant_id ≡ r.tenant_id) × ((f r).email_address ≡ r.email_address)

module _ (p : AccountRow → Bool) (f : AccountRow → AccountRow) (same : KeepsKey f) where
  any-conflicts-update :
      (a b : AccountRow) (rows : List AccountRow)
      → a.id ≡ b.id
      → a.tenant_id ≡ b.tenant_id
      → a.email_address ≡ b.email_address
      → any (conflicts a) (update_rows p f rows) ≡ any (conflicts b) rows
  unfolding any update_rows conflicts
  any-conflicts-update a b [] i t e = refl
  any-conflicts-update a b (r ∷ rows) i t e =
      ground (arith, same r, any-conflicts-update a b rows i t e)

  pub update-IsDistinct :
      (rows : List AccountRow)
      → IsDistinct conflicts rows
      → IsDistinct conflicts (update_rows p f rows)
  unfolding update_rows
  update-IsDistinct [] h = tt
  update-IsDistinct (r ∷ rows) (alone, h) =
      let (i, t, e) = same r in
      elim (Bool-cases (p r)) [
        | inl hit ↦
            rw hit (rw (any-conflicts-update (f r) r rows i t e) alone, update-IsDistinct rows h)
        | inr miss ↦
            rw miss
              (rw (any-conflicts-update r r rows refl refl refl) alone, update-IsDistinct rows h)
      ]

  pub has_account-update :
      (id : String) (rows : List AccountRow)
      → has_account id (update_rows p f rows) ≡ has_account id rows
  unfolding any update_rows
  has_account-update id [] = refl
  has_account-update id (r ∷ rows) = ground (arith, same r, has_account-update id rows)

  pub update-IsOwned :
      (accounts : List AccountRow) (tokens : List TokenRow)
      → All (IsOwned accounts) tokens
      → All (IsOwned (update_rows p f accounts)) tokens
  update-IsOwned accounts [] h = tt
  update-IsOwned accounts (t ∷ tokens) (here, more) =
      (rw (has_account-update t.account_id accounts) here, update-IsOwned accounts tokens more)

-- A token keeps its owner when an account is added.
clash_sym : (a b : AccountRow) → conflicts a b ≡ false → any (conflicts b) (a ∷ []) ≡ false
unfolding conflicts any
clash_sym a b h = ground (
  arith,
  eq_iff a.id b.id,
  eq_iff b.id a.id,
  eq_iff a.tenant_id b.tenant_id,
  eq_iff b.tenant_id a.tenant_id,
  eq_iff a.email_address b.email_address,
  eq_iff b.email_address a.email_address,
)

pub IsOwned-push :
    (a : AccountRow) (accounts : List AccountRow) (tokens : List TokenRow)
    → All (IsOwned accounts) tokens
    → All (IsOwned (push accounts a)) tokens
IsOwned-push a accounts [] h = tt
IsOwned-push a accounts (t ∷ tokens) (here, more) = (
  rw (any-append (λ (r : AccountRow). r.id == t.account_id) accounts (a ∷ []), here) refl,
  IsOwned-push a accounts tokens more,
)

-- A row that clashes with no row may come after them.
pub push-IsDistinct :
    (row : AccountRow) (rows : List AccountRow)
    → any (conflicts row) rows ≡ false
    → IsDistinct conflicts rows
    → IsDistinct conflicts (push rows row)
unfolding any
push-IsDistinct row [] free h = (refl, tt)
push-IsDistinct row (r ∷ rows) free (alone, h) = (
  rw (any-append (conflicts r) rows (row ∷ []), alone) (clash_sym row r (ground arith)),
  push-IsDistinct row rows (ground arith) h,
)

-- The tokens that a deletion leaves keep their owners.

has_account-select :
    (p : AccountRow → Bool) (id : String) (rows : List AccountRow)
    → has_account id rows ≡ true
    → any (λ a. p a && (a.id == id)) rows ≡ false
    → has_account id (select (λ r. not (p r)) rows) ≡ true
unfolding any select
has_account-select p id [] h k = h
has_account-select p id (r ∷ rows) h k = ground (arith, has_account-select p id rows)

pub cascade-IsOwned :
    (p : AccountRow → Bool) (accounts : List AccountRow) (tokens : List TokenRow)
    → All (IsOwned accounts) tokens
    → All (IsOwned (select (λ r. not (p r)) accounts)) (cascade p accounts tokens)
unfolding cascade select
cascade-IsOwned p accounts [] h = tt
cascade-IsOwned p accounts (t ∷ tokens) (here, more) =
    elim (Bool-cases (any (λ a. p a && (a.id == t.account_id)) accounts)) [
      | inl falls ↦ rw falls (cascade-IsOwned p accounts tokens more)
      | inr stays ↦ rw stays (
        has_account-select p t.account_id accounts here stays,
        cascade-IsOwned p accounts tokens more,
      )
    ]

-- The tokens under an insert or update.

any-put_row :
    (id : String) (row : TokenRow) (rows : List TokenRow)
    → any (owned_by id) rows ≡ false
    → (row.account_id == id) ≡ false
    → any (owned_by id) (put_row row rows) ≡ false
unfolding any put_row
any-put_row id row [] h k = ground arith
any-put_row id row (r ∷ rows) h k = ground (arith, any-put_row id row rows)

pub put_row-IsDistinct :
    (row : TokenRow) (rows : List TokenRow)
    → IsDistinct same_account rows
    → IsDistinct same_account (put_row row rows)
unfolding put_row any
put_row-IsDistinct row [] h = (refl, tt)
put_row-IsDistinct row (r ∷ rows) (alone, h) = elim (Bool-cases (owned_by row.account_id r)) [
  | inl replaced ↦
      let e = (eq_iff r.account_id row.account_id).0 replaced in rw replaced (rw (← e) alone, h)
  | inr kept ↦ rw kept (
    any-put_row r.account_id row rows alone
        (ground (arith, eq_iff row.account_id r.account_id, eq_iff r.account_id row.account_id)),
    put_row-IsDistinct row rows h,
  )
]

pub put_row-All {κ} :
    (P : TokenRow → Type κ) (row : TokenRow) (rows : List TokenRow)
    → P row
    → All P rows
    → All P (put_row row rows)
unfolding put_row
put_row-All P row [] h k = (h, tt)
put_row-All P row (r ∷ rows) h (here, more) = elim (Bool-cases (owned_by row.account_id r)) [
  | inl replaced ↦ rw replaced (h, more)
  | inr kept ↦ rw kept (here, put_row-All P row rows h more)
]

-- ===== src/Storage/Accounts/Laws.antt =====
-- The account store (src/storage/accounts.rs) and its tenants.
use uni_mail.Common.{
  suc, ap, ◌≡◌, refl, String, Bool, true, List, [], ◌∷◌, some, map, not, arith, eq_iff, eq_refl,
  Bool-cases, inl, inr, select, push, length, All,
}
use uni_mail.Error.{ok}
use uni_mail.Exec.{World, lock}
use uni_mail.Host.{Host}
use uni_mail.Storage.Models.{Account, AccountRow, AccountStatus, as_str}
use uni_mail.Storage.Accounts.{
  to_row, of_row, query_accounts, first, of_tenant, has_email, has_id, get, get_by_email, create,
  insert_row, now, set_status, delete, update, update_rows, delete_rows,
}

-- The rows of all tenants but one.
abbrev pub of_others : String → List AccountRow → List AccountRow
of_others tenant_id = select (λ r. not (of_tenant tenant_id r))

-- What `set_status` does to a row that it hits.
abbrev pub with_status : AccountStatus → String → AccountRow → AccountRow
with_status status time r = record r { status = as_str status; updated_at = time }

-- Every row that a status change hits has that status afterwards.
pub select-update_rows :
    (tenant_id id time : String) (status : AccountStatus) (rows : List AccountRow)
    → All
        (λ r. r.status ≡ as_str status)
        (select
          (has_id tenant_id id)
          (update_rows (has_id tenant_id id) (with_status status time) rows))
unfolding select update_rows
select-update_rows tenant_id id time status [] = tt
select-update_rows tenant_id id time status (r ∷ rs) =
    ground (arith, select-update_rows tenant_id id time status rs)

pub length-update_rows :
    (p : AccountRow → Bool) (f : AccountRow → AccountRow) (rows : List AccountRow)
    → length (update_rows p f rows) ≡ length rows
unfolding update_rows
length-update_rows p f [] = refl
length-update_rows p f (r ∷ rs) = ap suc (length-update_rows p f rs)

pub others-update_rows :
    (tenant_id id time : String) (status : AccountStatus) (rows : List AccountRow)
    → of_others tenant_id (update_rows (has_id tenant_id id) (with_status status time) rows)
      ≡ of_others tenant_id rows
unfolding select update_rows
others-update_rows tenant_id id time status [] = refl
others-update_rows tenant_id id time status (r ∷ rs) =
    ground (arith, others-update_rows tenant_id id time status rs)

pub others-delete :
    (tenant_id id : String) (rows : List AccountRow)
    → of_others tenant_id (select (λ r. not (has_id tenant_id id r)) rows)
      ≡ of_others tenant_id rows
unfolding select
others-delete tenant_id id [] = refl
others-delete tenant_id id (r ∷ rs) = ground (arith, others-delete tenant_id id rs)

others-push :
    (row : AccountRow) (rows : List AccountRow)
    → of_others row.tenant_id (push rows row) ≡ of_others row.tenant_id rows
unfolding select
others-push row [] = ground (arith, eq_refl row.tenant_id)
others-push row (r ∷ rows) = ground (arith, others-push row rows)

module _ (host : Host) where
  -- The database behind a status change that returned.
  pub set_status_state :
      (tenant_id id : String) (status : AccountStatus) (w : World)
      → (set_status host tenant_id id status w).0 ≡ ok tt
      → ((set_status host tenant_id id status w).1.accounts
          ≡ update_rows
              (has_id tenant_id id)
              (with_status status (host.to_rfc3339 (host.utc_now w.answers)))
              w.accounts)
        × ((set_status host tenant_id id status w).1.tokens ≡ w.tokens)
  unfolding set_status now lock update
  set_status_state tenant_id id status w done = (ground arith, ground arith)

  -- Tenant isolation: whether they succeed or fail, creating an account, changing a status and
  -- deleting an account for one tenant leave the rows of all other tenants as they are.
  pub writes_isolate :
      (a : Account) (id : String) (status : AccountStatus) (w : World)
      → (of_others a.tenant_id (create host a w).1.accounts ≡ of_others a.tenant_id w.accounts)
        × (of_others a.tenant_id (set_status host a.tenant_id id status w).1.accounts
            ≡ of_others a.tenant_id w.accounts)
        × (of_others a.tenant_id (delete host a.tenant_id id w).1.accounts
            ≡ of_others a.tenant_id w.accounts)
  unfolding create insert_row to_row set_status now lock update delete delete_rows select
  writes_isolate a id status w = (
    ground (arith, others-push (to_row a) w.accounts),
    ground (
      arith,
      others-update_rows a.tenant_id id (host.to_rfc3339 (host.utc_now w.answers)) status
          w.accounts,
    ),
    ground (arith, others-delete a.tenant_id id w.accounts),
  )

  first-select :
      (p : AccountRow → Bool) (rows : List AccountRow) (a : Account)
      → first (map of_row (select p rows)) ≡ some a
      → (r : AccountRow) × (p r ≡ true) × (of_row r ≡ a)
  unfolding first select
  first-select p [] a h = cc
  first-select p (r ∷ rs) a h = elim (Bool-cases (p r)) [
    | inl hit ↦ (r, hit, ground arith)
    | inr miss ↦ first-select p rs a (ground arith)
  ]

  get_row :
      (tenant_id id : String) (a : Account) (w : World)
      → (get host tenant_id id w).0 ≡ ok a
      → (r : AccountRow) × (has_id tenant_id id r ≡ true) × (of_row r ≡ a)
  unfolding get query_accounts lock
  get_row tenant_id id a w h = first-select (has_id tenant_id id) w.accounts a (ground arith)

  get_by_email_row :
      (tenant_id email : String) (a : Account) (w : World)
      → (get_by_email host tenant_id email w).0 ≡ ok a
      → (r : AccountRow) × (has_email host tenant_id email r ≡ true) × (of_row r ≡ a)
  unfolding get_by_email query_accounts lock
  get_by_email_row tenant_id email a w h =
      first-select (has_email host tenant_id email) w.accounts a (ground arith)

  -- An account that is found by id belongs to the tenant that asked and has that id.
  pub get_sound :
      (tenant_id id : String) (a : Account) (w : World)
      → (get host tenant_id id w).0 ≡ ok a
      → (a.tenant_id ≡ tenant_id) × (a.id ≡ id)
  unfolding of_row
  get_sound tenant_id id a w h =
      let (r, hit, same) = get_row tenant_id id a w h in
      ground (arith, eq_iff r.tenant_id tenant_id, eq_iff r.id id)

  -- An account that is found by email belongs to the tenant that asked and has that email up to
  -- letter case, as SQLite's `lower` sees it.
  pub get_by_email_sound :
      (tenant_id email : String) (a : Account) (w : World)
      → (get_by_email host tenant_id email w).0 ≡ ok a
      → (a.tenant_id ≡ tenant_id) × (host.sql_lower a.email_address ≡ host.sql_lower email)
  unfolding of_row
  get_by_email_sound tenant_id email a w h =
      let (r, hit, same) = get_by_email_row tenant_id email a w h in
      ground (
        arith,
        eq_iff r.tenant_id tenant_id,
        eq_iff (host.sql_lower r.email_address) (host.sql_lower email),
      )

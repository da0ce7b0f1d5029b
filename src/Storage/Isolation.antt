-- ===== src/Storage/Isolation.antt =====
-- What a tenant's writes leave alone in the tables of src/storage: the rows of all other tenants, and
-- the tokens of their accounts.
pub mod Owners
use uni_mail.Common.{
  ◌≡◌, ◌≢◌, refl, sym, ap, ◌∙◌, ℕ, zero, suc, String, Bool, false, true, false, false≢true, List,
  [], ◌∷◌, arith, ◌==◌, eq_iff, eq_refl, find, find-select-keep, ◌&&◌, not, select, any, not, All,
  All-map, All-weaken, map, Bool-cases, inl, inr, Option, some,
}
use uni_mail.Error.{AppError, ok}
use uni_mail.Exec.{World, Database, Exec, writes, lock, ◌>>=◌}
use uni_mail.Exec.Keeps.{Keeps, keeps_rules}
use uni_mail.Host.{Host}
use uni_mail.Storage.Models.{Account, AccountRow, AccountStatus, as_str, TokenRow, FlowRow}
use uni_mail.Storage.Tokens
use uni_mail.Storage.Tokens.{StoredToken, owned_by, has_account}
use uni_mail.Storage.Tokens.Laws.{upsert_frame, delete_frame, delete-accounts}
use uni_mail.Storage.Accounts
use uni_mail.Storage.Accounts.{
  conflicts, has_id, of_tenant, now, found_rows, of_row, query_accounts,
}
use uni_mail.Storage.Accounts.Frame.{upsert-accounts}
use uni_mail.Storage.Accounts.Laws.{
  writes_isolate, of_others, with_status, others-update_rows, others-delete, get_sound,
}
use uni_mail.Storage.Flows
use uni_mail.Storage.Reads.{encrypt-Keeps, now-Keeps, unix_now-Keeps, open_flow-Keeps}
use uni_mail.Storage.Consistency.{IsDistinct}

-- Between two databases, the accounts of all tenants but one are the same, row by row, and so is
-- the token of each of these accounts.
pub record SameElsewhere (tenant : String) (before after : Database) : Type 0 where
  pub accounts : of_others tenant after.accounts ≡ of_others tenant before.accounts
  pub tokens :
      (j : String)
      → has_account j (of_others tenant before.accounts) ≡ true
      → find (owned_by j) after.tokens ≡ find (owned_by j) before.tokens

pub SameElsewhere-refl : (tenant : String) (db : Database) → SameElsewhere tenant db db
SameElsewhere-refl tenant db = record { accounts = refl; tokens = λ j h. refl }

pub SameElsewhere-trans :
    (tenant : String) (a b c : Database)
    → SameElsewhere tenant a b
    → SameElsewhere tenant b c
    → SameElsewhere tenant a c
SameElsewhere-trans tenant a b c h k = record {
  accounts = k.accounts ∙ h.accounts;
  tokens = λ j there. k.tokens j (ap (has_account j) h.accounts ∙ there) ∙ h.tokens j there;
}

-- No account of another tenant has this id.
abbrev pub IsForeignTo : String → Database → String → Type 0
IsForeignTo tenant db id = has_account id (of_others tenant db.accounts) ≡ false

-- A token of another tenant's account is not the token of this one.
elsewhere :
    (t id j : String) (rows : List AccountRow)
    → has_account id (of_others t rows) ≡ false
    → has_account j (of_others t rows) ≡ true
    → id ≢ j
elsewhere t id j rows foreign there same =
    false≢true (sym foreign ∙ ap (λ s. has_account s (of_others t rows)) same ∙ there)

-- The writes for an account of the tenant.
module _ (host : Host) (tenant id : String) (before : Database)
    (foreign : IsForeignTo tenant before id) where
  pub upsert-SameElsewhere :
      (key : List ℕ) (token : StoredToken)
      → Keeps (SameElsewhere tenant before) (Tokens.upsert host key id token)
  upsert-SameElsewhere key token = record {
    at = λ w h. record {
      accounts = ap (of_others tenant) (upsert-accounts host key id token w) ∙ h.accounts;
      tokens = λ j there.
          upsert_frame host key id j token w (elsewhere tenant id j before.accounts foreign there)
          ∙ h.tokens j there;
    };
  }

  pub delete-SameElsewhere : Keeps (SameElsewhere tenant before) (Tokens.delete host id)
  delete-SameElsewhere = record {
    at = λ w h. record {
      accounts = ap (of_others tenant) (delete-accounts host [] id w) ∙ h.accounts;
      tokens = λ j there.
          (delete_frame host [] id j w (elsewhere tenant id j before.accounts foreign there)).0
          ∙ h.tokens j there;
    };
  }

module _ (host : Host) (tenant : String) (before : Database) where
  restate-SameElsewhere :
      (id : String) (status : AccountStatus) (time : String)
      → Keeps (SameElsewhere tenant before) (
          Accounts.update
            (has_id tenant id)
            (λ r. record r { status = as_str status; updated_at = time }))
  unfolding Accounts.update
  restate-SameElsewhere id status time = record {
    at = λ w h. record {
      accounts = others-update_rows tenant id time status w.accounts ∙ h.accounts;
      tokens = h.tokens;
    };
  }

  found_rows-SameElsewhere :
      (n : ℕ) (id : String) → Keeps (SameElsewhere tenant before) (found_rows n id)
  found_rows-SameElsewhere zero id = search keeps_rules
  found_rows-SameElsewhere (suc n) id = search keeps_rules

  pub set_status-SameElsewhere :
      (id : String) (status : AccountStatus)
      → Keeps (SameElsewhere tenant before) (Accounts.set_status host tenant id status)
  unfolding Accounts.set_status
  set_status-SameElsewhere id status =
      search (keeps_rules, now-Keeps, found_rows-SameElsewhere, restate-SameElsewhere) depth 20

  -- Flows are no part of the comparison.
  select_flows-SameElsewhere :
      (E : Type 0) (q : FlowRow → Bool)
      → Keeps
          (SameElsewhere tenant before)
          (writes {E = E} (λ db. record db { flows = select q db.flows }))
  select_flows-SameElsewhere E q = record {
    at = λ w h. record { accounts = h.accounts; tokens = h.tokens };
  }

  add_flow-SameElsewhere :
      (E : Type 0) (row : FlowRow)
      → Keeps
          (SameElsewhere tenant before)
          (writes {E = E} (λ db. record db { flows = row ∷ db.flows }))
  add_flow-SameElsewhere E row = record {
    at = λ w h. record { accounts = h.accounts; tokens = h.tokens };
  }

  flows_insert_row-SameElsewhere :
      (row : FlowRow) → Keeps (SameElsewhere tenant before) (Flows.insert_row row)
  unfolding Flows.insert_row
  flows_insert_row-SameElsewhere row = search (keeps_rules, add_flow-SameElsewhere) depth 20

  pub flows_insert-SameElsewhere :
      (key : List ℕ) (verifier owner state : String)
      → Keeps (SameElsewhere tenant before) (Flows.insert host key verifier owner state)
  unfolding Flows.insert
  flows_insert-SameElsewhere key verifier owner state =
      search
        (
          keeps_rules, unix_now-Keeps, encrypt-Keeps, flows_insert_row-SameElsewhere,
          select_flows-SameElsewhere,
        )
        depth 20

  remove_row-SameElsewhere :
      (state : String) → Keeps (SameElsewhere tenant before) (Flows.remove_row host state)
  unfolding Flows.remove_row
  remove_row-SameElsewhere state = search (keeps_rules, select_flows-SameElsewhere) depth 20

  pub take-SameElsewhere :
      (key : List ℕ) (state : String)
      → Keeps (SameElsewhere tenant before) (Flows.take host key state)
  unfolding Flows.take
  take-SameElsewhere key state =
      search (keeps_rules, remove_row-SameElsewhere, unix_now-Keeps, open_flow-Keeps) depth 20

  create_tokens : (a : Account) (w : World) → (Accounts.create host a w).1.tokens ≡ w.tokens
  unfolding Accounts.create Accounts.insert_row lock
  create_tokens a w = ground arith

  pub create-SameElsewhere :
      (a : Account)
      → a.tenant_id ≡ tenant
      → Keeps (SameElsewhere tenant before) (Accounts.create host a)
  create-SameElsewhere a owner = record {
    at = λ w h. record {
      accounts = (rw (← owner) (writes_isolate host a a.id a.status w).0) ∙ h.accounts;
      tokens = λ j there. ap (find (owned_by j)) (create_tokens a w) ∙ h.tokens j there;
    };
  }

-- A token of another account does not fall with the account.
stays :
    (t id owner : String) (rows : List AccountRow)
    → id ≢ owner
    → any (λ (a : AccountRow). has_id t id a && (a.id == owner)) rows ≡ false
unfolding any
stays t id owner [] other = refl
stays t id owner (r ∷ rows) other =
    ground (arith, stays t id owner rows other, eq_iff r.id id, eq_iff r.id owner)

module _ (host : Host) (tenant id : String) (before : Database)
    (foreign : IsForeignTo tenant before id) where
  delete_rows-SameElsewhere :
      Keeps (SameElsewhere tenant before) (Accounts.delete_rows (has_id tenant id))
  unfolding Accounts.delete_rows Accounts.cascade
  delete_rows-SameElsewhere = record {
    at = λ w h. record {
      accounts = others-delete tenant id w.accounts ∙ h.accounts;
      tokens = λ j there.
          let other = elsewhere tenant id j before.accounts foreign there in
          find-select-keep (owned_by j) _ w.tokens (λ x hit.
            let same = (eq_iff x.account_id j).0 hit in
            rw (same, stays tenant id j w.accounts other) refl)
          ∙ h.tokens j there;
    };
  }

  pub accounts_delete-SameElsewhere :
      Keeps (SameElsewhere tenant before) (Accounts.delete host tenant id)
  unfolding Accounts.delete
  accounts_delete-SameElsewhere = search (keeps_rules, delete_rows-SameElsewhere) depth 20

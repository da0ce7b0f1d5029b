-- ===== src/Storage/Consistency/Stores.antt =====
-- The schema's constraints under each operation of the three stores.
use uni_mail.Common.{ℕ, zero, suc, refl, String, Bool, List, Bool-cases, inl, inr, any, select}
use uni_mail.Exec.{writes}
use uni_mail.Exec.Keeps.{Keeps, keeps_rules}
use uni_mail.Host.{Host}
use uni_mail.Storage.Models.{Account, AccountRow, AccountStatus, TokenRow, FlowRow}
use uni_mail.Storage.Tokens
use uni_mail.Storage.Tokens.{StoredToken, time_or_now, decode_row, decode_found, has_account}
use uni_mail.Storage.Accounts
use uni_mail.Storage.Accounts.{to_row, conflicts, now, query_accounts, found_rows}
use uni_mail.Storage.Flows
use uni_mail.Storage.Flows.{unix_now, open_flow, remove_row, flow_ttl_secs}
use uni_mail.Storage.Consistency.{
  IsConsistent, KeepsKey, select-IsDistinct, select-All, update-IsDistinct, update-IsOwned,
  IsOwned-push, push-IsDistinct, cascade-IsOwned, put_row-IsDistinct, put_row-All, IsOwned,
}
use uni_mail.Storage.Keeping.{KeepsStores}
use uni_mail.Storage.Reads.{encrypt-Keeps, now-Keeps, unix_now-Keeps, open_flow-Keeps}

-- The writes.

tokens_insert_row-Keeps :
    (host : Host) (row : TokenRow) → Keeps IsConsistent (Tokens.insert_row host row)
unfolding Tokens.insert_row
tokens_insert_row-Keeps host row = record {
  at = λ w h. elim (Bool-cases (has_account row.account_id w.accounts)) [
    | inl parent ↦ rw parent (record {
      accounts_distinct = h.accounts_distinct;
      tokens_distinct = put_row-IsDistinct row w.tokens h.tokens_distinct;
      tokens_owned = put_row-All (IsOwned w.accounts) row w.tokens parent h.tokens_owned;
      flows_distinct = h.flows_distinct;
    })
    | inr orphan ↦ rw orphan h
  ];
}

accounts_insert_row-Keeps : (row : AccountRow) → Keeps IsConsistent (Accounts.insert_row row)
unfolding Accounts.insert_row
accounts_insert_row-Keeps row = record {
  at = λ w h. elim (Bool-cases (any (conflicts row) w.accounts)) [
    | inl taken ↦ rw taken h
    | inr free ↦ rw free (record {
      accounts_distinct = push-IsDistinct row w.accounts free h.accounts_distinct;
      tokens_distinct = h.tokens_distinct;
      tokens_owned = IsOwned-push row w.accounts w.tokens h.tokens_owned;
      flows_distinct = h.flows_distinct;
    })
  ];
}

flows_insert_row-Keeps : (row : FlowRow) → Keeps IsConsistent (Flows.insert_row row)
unfolding Flows.insert_row
flows_insert_row-Keeps row = record {
  at = λ w h. elim (Bool-cases (any (Flows.has_state row.state) w.flows)) [
    | inl taken ↦ rw taken h
    | inr free ↦ rw free (record {
      accounts_distinct = h.accounts_distinct;
      tokens_distinct = h.tokens_distinct;
      tokens_owned = h.tokens_owned;
      flows_distinct = (free, h.flows_distinct);
    })
  ];
}

update-Keeps :
    (p : AccountRow → Bool) (f : AccountRow → AccountRow)
    → KeepsKey f
    → Keeps IsConsistent (Accounts.update p f)
unfolding Accounts.update
update-Keeps p f same = record {
  at = λ w h. record {
    accounts_distinct = update-IsDistinct p f same w.accounts h.accounts_distinct;
    tokens_distinct = h.tokens_distinct;
    tokens_owned = update-IsOwned p f same w.accounts w.tokens h.tokens_owned;
    flows_distinct = h.flows_distinct;
  };
}

delete_rows-Keeps : (p : AccountRow → Bool) → Keeps IsConsistent (Accounts.delete_rows p)
unfolding Accounts.delete_rows Accounts.cascade
delete_rows-Keeps p = record {
  at = λ w h. record {
    accounts_distinct = select-IsDistinct conflicts _ w.accounts h.accounts_distinct;
    tokens_distinct = select-IsDistinct _ _ w.tokens h.tokens_distinct;
    tokens_owned = cascade-IsOwned p w.accounts w.tokens h.tokens_owned;
    flows_distinct = h.flows_distinct;
  };
}

select_tokens-Keeps :
    (E : Type 0) (q : TokenRow → Bool)
    → Keeps IsConsistent (writes {E = E} (λ db. record db { tokens = select q db.tokens }))
select_tokens-Keeps E q = record {
  at = λ w h. record {
    accounts_distinct = h.accounts_distinct;
    tokens_distinct = select-IsDistinct _ q w.tokens h.tokens_distinct;
    tokens_owned = select-All (IsOwned w.accounts) q w.tokens h.tokens_owned;
    flows_distinct = h.flows_distinct;
  };
}

select_flows-Keeps :
    (E : Type 0) (q : FlowRow → Bool)
    → Keeps IsConsistent (writes {E = E} (λ db. record db { flows = select q db.flows }))
select_flows-Keeps E q = record {
  at = λ w h. record {
    accounts_distinct = h.accounts_distinct;
    tokens_distinct = h.tokens_distinct;
    tokens_owned = h.tokens_owned;
    flows_distinct = select-IsDistinct _ q w.flows h.flows_distinct;
  };
}

stamp-Keeps :
    (p : AccountRow → Bool) (time : String)
    → Keeps IsConsistent (Accounts.update p (λ r. record r { updated_at = time }))
stamp-Keeps p time = update-Keeps p _ (λ r. (refl, refl, refl))

restate-Keeps :
    (p : AccountRow → Bool) (text time : String)
    → Keeps IsConsistent (Accounts.update p (λ r. record r { status = text; updated_at = time }))
restate-Keeps p text time = update-Keeps p _ (λ r. (refl, refl, refl))

module _ (host : Host) where
  pub upsert-Keeps :
      (key : List ℕ) (id : String) (token : StoredToken)
      → Keeps IsConsistent (Tokens.upsert host key id token)
  unfolding Tokens.upsert
  upsert-Keeps key id token = search (keeps_rules, encrypt-Keeps, tokens_insert_row-Keeps) depth 20

  pub tokens_delete-Keeps : (id : String) → Keeps IsConsistent (Tokens.delete host id)
  unfolding Tokens.delete
  tokens_delete-Keeps id = search (keeps_rules, select_tokens-Keeps) depth 20

  pub create-Keeps : (a : Account) → Keeps IsConsistent (Accounts.create host a)
  unfolding Accounts.create
  create-Keeps a = search (keeps_rules, accounts_insert_row-Keeps) depth 20

  found_rows-Keeps : (n : ℕ) (id : String) → Keeps IsConsistent (found_rows n id)
  found_rows-Keeps zero id = search keeps_rules
  found_rows-Keeps (suc n) id = search keeps_rules

  pub set_status-Keeps :
      (tenant id : String) (status : AccountStatus)
      → Keeps IsConsistent (Accounts.set_status host tenant id status)
  unfolding Accounts.set_status
  set_status-Keeps tenant id status =
      search (keeps_rules, now-Keeps, found_rows-Keeps, restate-Keeps) depth 20

  pub touch-Keeps : (id : String) → Keeps IsConsistent (Accounts.touch host id)
  unfolding Accounts.touch
  touch-Keeps id = search (keeps_rules, now-Keeps, stamp-Keeps) depth 20

  pub accounts_delete-Keeps :
      (tenant id : String) → Keeps IsConsistent (Accounts.delete host tenant id)
  unfolding Accounts.delete
  accounts_delete-Keeps tenant id = search (keeps_rules, delete_rows-Keeps) depth 20

  pub flows_insert-Keeps :
      (key : List ℕ) (verifier tenant state : String)
      → Keeps IsConsistent (Flows.insert host key verifier tenant state)
  unfolding Flows.insert
  flows_insert-Keeps key verifier tenant state =
      search
        (keeps_rules, unix_now-Keeps, encrypt-Keeps, flows_insert_row-Keeps, select_flows-Keeps)
        depth 20

  remove_row-Keeps : (state : String) → Keeps IsConsistent (remove_row host state)
  unfolding remove_row
  remove_row-Keeps state = search (keeps_rules, select_flows-Keeps) depth 20

  pub take-Keeps : (key : List ℕ) (state : String) → Keeps IsConsistent (Flows.take host key state)
  unfolding Flows.take
  take-Keeps key state =
      search (keeps_rules, remove_row-Keeps, unix_now-Keeps, open_flow-Keeps) depth 20

pub stores-IsConsistent : (host : Host) (key : List ℕ) → KeepsStores host key IsConsistent
stores-IsConsistent host key = record {
  upsert = upsert-Keeps host key;
  tokens_delete = tokens_delete-Keeps host;
  create = create-Keeps host;
  set_status = set_status-Keeps host;
  accounts_delete = accounts_delete-Keeps host;
  flows_insert = flows_insert-Keeps host key;
  take = take-Keeps host key;
}

-- ===== src/Storage/Secrecy/Stores.antt =====
-- The three stores of src/storage seal what they write.
use uni_mail.Common.{ℕ, zero, suc, String, List}
use uni_mail.Error.{AppError, storage}
use uni_mail.Exec.{lock}
use uni_mail.Exec.Inversion.{map_err-eq-ok}
use uni_mail.Exec.Keeps.{
  Keeps, Keeps-bind, Keeps-bind_known, Keeps-on_error, Keeps-expect, Keeps-statement, Keeps-ignore,
  Keeps-lock, keeps_rules,
}
use uni_mail.Host.{Host}
use uni_mail.Storage.Models.{Account, AccountStatus}
use uni_mail.Storage.Tokens
use uni_mail.Storage.Tokens.{StoredToken, has_account}
use uni_mail.Storage.Tokens.Laws.{row_of}
use uni_mail.Storage.Accounts
use uni_mail.Storage.Accounts.{conflicts, now, found_rows}
use uni_mail.Storage.Flows
use uni_mail.Storage.Flows.{unix_now, open_flow, remove_row}
use uni_mail.Storage.Keeping.{KeepsStores}
use uni_mail.Storage.Reads.{encrypt-Keeps, now-Keeps, unix_now-Keeps, open_flow-Keeps}
use uni_mail.Storage.Secrecy.{
  IsSealedToken, IsSealedAtRest, expected-eq-ok, encrypt-IsSealed, tokens_insert_row-Keeps,
  flows_insert_row-Keeps, accounts_insert_row-Keeps, update-Keeps, delete_rows-Keeps,
  select_tokens-Keeps, select_flows-Keeps,
}

module _ (host : Host) (key : List ℕ) where
  -- An upsert seals both texts before it writes.
  upsert-Keeps :
      (id : String) (token : StoredToken)
      → Keeps (IsSealedAtRest host key) (Tokens.upsert host key id token)
  unfolding Tokens.upsert
  upsert-Keeps id token =
      Keeps-bind_known _ _ (Keeps-on_error storage _ (encrypt-Keeps host key _)) (λ w access _ made.
        Keeps-bind_known _ _ (Keeps-on_error storage _ (encrypt-Keeps host key _))
          (λ w₁ refresh _ made₁.
            let sealed : IsSealedToken host key (row_of host key id token access refresh) = (
              encrypt-IsSealed host key _ access w (map_err-eq-ok storage _ made),
              encrypt-IsSealed host key _ refresh w₁ (map_err-eq-ok storage _ made₁),
            ) in
            Keeps-bind lock _ Keeps-lock (λ _.
              Keeps-on_error _ _
                (Keeps-statement host _ (tokens_insert_row-Keeps host key _ sealed)))))

  flows_insert-Keeps :
      (verifier tenant state : String)
      → Keeps (IsSealedAtRest host key) (Flows.insert host key verifier tenant state)
  unfolding Flows.insert
  flows_insert-Keeps verifier tenant state =
      Keeps-bind _ _ (unix_now-Keeps host AppError) (λ created_at.
        Keeps-bind_known _ _ (Keeps-expect _ _ (encrypt-Keeps host key _)) (λ w blob _ made.
          let sealed = encrypt-IsSealed host key _ blob w (expected-eq-ok _ _ made) in
          Keeps-bind _ _ (Keeps-expect _ _ Keeps-lock) (λ _.
            Keeps-bind _ _
              (Keeps-ignore _ (Keeps-statement host _ (select_flows-Keeps host key _ _)))
              (λ _.
                Keeps-ignore _
                  (Keeps-statement host _ (flows_insert_row-Keeps host key _ sealed))))))

  found_rows-Keeps : (n : ℕ) (id : String) → Keeps (IsSealedAtRest host key) (found_rows n id)
  found_rows-Keeps zero id = search keeps_rules
  found_rows-Keeps (suc n) id = search keeps_rules

  remove_row-Keeps : (state : String) → Keeps (IsSealedAtRest host key) (remove_row host state)
  unfolding remove_row
  remove_row-Keeps state = search (keeps_rules, select_flows-Keeps host key) depth 20

  delete-Keeps : (id : String) → Keeps (IsSealedAtRest host key) (Tokens.delete host id)
  unfolding Tokens.delete
  delete-Keeps id = search (keeps_rules, select_tokens-Keeps host key) depth 20

  create-Keeps : (a : Account) → Keeps (IsSealedAtRest host key) (Accounts.create host a)
  unfolding Accounts.create
  create-Keeps a = search (keeps_rules, accounts_insert_row-Keeps host key) depth 20

  set_status-Keeps :
      (tenant id : String) (status : AccountStatus)
      → Keeps (IsSealedAtRest host key) (Accounts.set_status host tenant id status)
  unfolding Accounts.set_status
  set_status-Keeps tenant id status =
      search (keeps_rules, now-Keeps, found_rows-Keeps, update-Keeps host key) depth 20

  accounts_delete-Keeps :
      (tenant id : String) → Keeps (IsSealedAtRest host key) (Accounts.delete host tenant id)
  unfolding Accounts.delete
  accounts_delete-Keeps tenant id = search (keeps_rules, delete_rows-Keeps host key) depth 20

  take-Keeps : (state : String) → Keeps (IsSealedAtRest host key) (Flows.take host key state)
  unfolding Flows.take
  take-Keeps state =
      search (keeps_rules, remove_row-Keeps, unix_now-Keeps, open_flow-Keeps) depth 20

  pub stores-IsSealedAtRest : KeepsStores host key (IsSealedAtRest host key)
  stores-IsSealedAtRest = record {
    upsert = upsert-Keeps;
    tokens_delete = delete-Keeps;
    create = create-Keeps;
    set_status = set_status-Keeps;
    accounts_delete = accounts_delete-Keeps;
    flows_insert = flows_insert-Keeps;
    take = take-Keeps;
  }

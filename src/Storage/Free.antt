-- ===== src/Storage/Free.antt =====
-- No operation of the stores in src/storage poisons the database's lock.
use uni_mail.Common.{ℕ, String, List}
use uni_mail.Exec.Keeps.{Keeps, Keeps-writes, keeps_rules}
use uni_mail.Exec.Returns.{IsFree}
use uni_mail.Host.{Host}
use uni_mail.Storage.Models.{TokenRow, FlowRow}
use uni_mail.Storage.Tokens
use uni_mail.Storage.Flows
use uni_mail.Storage.Flows.{remove_row}
use uni_mail.Storage.Keeping.{KeepsStores}
use uni_mail.Storage.Reads.{encrypt-Keeps, unix_now-Keeps, open_flow-Keeps}
use uni_mail.Storage.Returns.{
  create-Returns, set_status-Returns, accounts_delete-Returns, tokens_delete-Returns,
}

tokens_insert-Keeps : (host : Host) (row : TokenRow) → Keeps IsFree (Tokens.insert_row host row)
unfolding Tokens.insert_row
tokens_insert-Keeps host row = search (keeps_rules, Keeps-writes) depth 20

flows_insert-Keeps : (row : FlowRow) → Keeps IsFree (Flows.insert_row row)
unfolding Flows.insert_row
flows_insert-Keeps row = search (keeps_rules, Keeps-writes) depth 20

remove_row-Keeps : (host : Host) (state : String) → Keeps IsFree (remove_row host state)
unfolding remove_row
remove_row-Keeps host state = search (keeps_rules, Keeps-writes) depth 20

module _ (host : Host) (key : List ℕ) where
  pub stores-IsFree : KeepsStores host key IsFree
  unfolding Tokens.upsert Flows.insert Flows.take
  stores-IsFree = record {
    upsert = λ id token. search (keeps_rules, encrypt-Keeps, tokens_insert-Keeps) depth 20;
    tokens_delete = λ id. record { at = (tokens_delete-Returns host id).frees };
    create = λ a. record { at = (create-Returns host a).frees };
    set_status =
        λ tenant id status. record { at = (set_status-Returns host tenant id status).frees };
    accounts_delete = λ tenant id. record { at = (accounts_delete-Returns host tenant id).frees };
    flows_insert = λ verifier tenant state.
        search (keeps_rules, Keeps-writes, encrypt-Keeps, unix_now-Keeps, flows_insert-Keeps) depth
          20;
    take =
        λ state. search (keeps_rules, remove_row-Keeps, unix_now-Keeps, open_flow-Keeps) depth 20;
  }

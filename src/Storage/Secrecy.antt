-- ===== src/Storage/Secrecy.antt =====
-- What is at rest in the tables of src/storage: token texts and verifiers are in them only as the
-- blobs that src/storage/crypto.rs makes.
pub mod Stores
use uni_mail.Common.{
  ◌≡◌, refl, sym, ap, ◌+◌, ℕ, zero, suc, String, Bool, List, [], ◌∷◌, ◌++◌, Option, none, some, All,
  Bool-cases, inl, inr, any, select,
}
use uni_mail.Error.{Outcome, ok, err, panic, AppError, storage}
use uni_mail.Exec.{
  World, Database, Exec, writes, lift, ask, pure, expected, expect, on_error, lock, ◌>>=◌,
}
use uni_mail.Exec.Inversion.{>>=-eq-ok, map_err-eq-ok}
use uni_mail.Exec.Keeps.{
  Keeps, Keeps-bind, Keeps-bind_known, Keeps-on_error, Keeps-expect, Keeps-statement, Keeps-ignore,
  Keeps-lock, keeps_rules,
}
use uni_mail.Host.{Host}
use uni_mail.Storage.Models.{Account, AccountRow, AccountStatus, TokenRow, FlowRow}
use uni_mail.Storage.Crypto.{encrypt, accepted}
use uni_mail.Storage.Tokens
use uni_mail.Storage.Tokens.{StoredToken, has_account}
use uni_mail.Storage.Tokens.Laws.{row_of}
use uni_mail.Storage.Accounts
use uni_mail.Storage.Accounts.{conflicts, now, found_rows}
use uni_mail.Storage.Flows
use uni_mail.Storage.Flows.{unix_now, open_flow, remove_row}
use uni_mail.Storage.Consistency.{select-All, put_row-All}
use uni_mail.Storage.Keeping.{KeepsStores}
use uni_mail.Storage.Reads.{encrypt-Keeps, now-Keeps, unix_now-Keeps, open_flow-Keeps}

-- A nonce that the host drew, and behind it what the cipher made of a plaintext under the key.
pub record IsSealed (host : Host) (key blob : List ℕ) : Type 0 where
  pub draw : ℕ
  pub plaintext : List ℕ
  pub ciphertext : List ℕ
  pub enciphered : host.gcm_encrypt key (host.random_nonce draw) plaintext ≡ ok ciphertext
  pub laid_out : blob ≡ host.random_nonce draw ++ ciphertext

abbrev pub IsSealedToken : Host → List ℕ → TokenRow → Type 0
IsSealedToken host key row =
    IsSealed host key row.access_token_encrypted × IsSealed host key row.refresh_token_encrypted

abbrev pub IsSealedFlow : Host → List ℕ → FlowRow → Type 0
IsSealedFlow host key row = IsSealed host key row.verifier

-- Every token and every verifier in the tables is sealed under the key.
pub record IsSealedAtRest (host : Host) (key : List ℕ) (db : Database) : Type 0 where
  pub tokens : All (IsSealedToken host key) db.tokens
  pub flows : All (IsSealedFlow host key) db.flows

accepted_key : (o : Option String) (key c : List ℕ) → accepted o key ≡ ok c → c ≡ key
accepted_key none key c h = cc
accepted_key (some e) key c h = cc

pub expected-eq-ok :
    {E F A : Type 0} (text : String) (r : Outcome E A) {a : A}
    → expected {F = F} text r ≡ ok a
    → r ≡ ok a
expected-eq-ok text (ok a) h = cc
expected-eq-ok text (err e) h = cc
expected-eq-ok text (panic m) h = cc

module _ (host : Host) (key : List ℕ) where
  -- What encrypting returns is sealed.
  pub encrypt-IsSealed :
      (plaintext blob : List ℕ) (w : World)
      → (encrypt host key plaintext w).0 ≡ ok blob
      → IsSealed host key blob
  unfolding encrypt
  encrypt-IsSealed plaintext blob w h =
      let (cipher, fits, h₁) = >>=-eq-ok (lift (accepted (host.cipher_error key) key)) _ w h in
      let same = accepted_key (host.cipher_error key) key cipher fits in
      let nonce = host.random_nonce w.answers in
      let (c, made, h₂) =
        >>=-eq-ok (lift (host.gcm_encrypt cipher nonce plaintext)) (λ c. pure (nonce ++ c))
          (record w { answers = w.answers + 1 }) h₁ in
      record {
        draw = w.answers;
        plaintext = plaintext;
        ciphertext = c;
        enciphered = rw (← same) made;
        laid_out = cc;
      }

  pub tokens_insert_row-Keeps :
      (row : TokenRow)
      → IsSealedToken host key row
      → Keeps (IsSealedAtRest host key) (Tokens.insert_row host row)
  unfolding Tokens.insert_row
  tokens_insert_row-Keeps row sealed = record {
    at = λ w h. elim (Bool-cases (has_account row.account_id w.accounts)) [
      | inl parent ↦ rw parent (record {
        tokens = put_row-All (IsSealedToken host key) row w.tokens sealed h.tokens;
        flows = h.flows;
      })
      | inr orphan ↦ rw orphan h
    ];
  }

  pub flows_insert_row-Keeps :
      (row : FlowRow)
      → IsSealedFlow host key row
      → Keeps (IsSealedAtRest host key) (Flows.insert_row row)
  unfolding Flows.insert_row
  flows_insert_row-Keeps row sealed = record {
    at = λ w h. elim (Bool-cases (any (Flows.has_state row.state) w.flows)) [
      | inl taken ↦ rw taken h
      | inr free ↦ rw free (record { tokens = h.tokens; flows = (sealed, h.flows) })
    ];
  }

  pub accounts_insert_row-Keeps :
      (row : AccountRow) → Keeps (IsSealedAtRest host key) (Accounts.insert_row row)
  unfolding Accounts.insert_row
  accounts_insert_row-Keeps row = record {
    at = λ w h. elim (Bool-cases (any (conflicts row) w.accounts)) [
      | inl taken ↦ rw taken h
      | inr free ↦ rw free (record { tokens = h.tokens; flows = h.flows })
    ];
  }

  pub update-Keeps :
      (p : AccountRow → Bool) (f : AccountRow → AccountRow)
      → Keeps (IsSealedAtRest host key) (Accounts.update p f)
  unfolding Accounts.update
  update-Keeps p f = record { at = λ w h. record { tokens = h.tokens; flows = h.flows } }

  pub delete_rows-Keeps :
      (p : AccountRow → Bool) → Keeps (IsSealedAtRest host key) (Accounts.delete_rows p)
  unfolding Accounts.delete_rows Accounts.cascade
  delete_rows-Keeps p = record {
    at = λ w h. record { tokens = select-All _ _ w.tokens h.tokens; flows = h.flows };
  }

  pub select_tokens-Keeps :
      (E : Type 0) (q : TokenRow → Bool)
      → Keeps
          (IsSealedAtRest host key)
          (writes {E = E} (λ db. record db { tokens = select q db.tokens }))
  select_tokens-Keeps E q = record {
    at = λ w h. record { tokens = select-All _ q w.tokens h.tokens; flows = h.flows };
  }

  pub select_flows-Keeps :
      (E : Type 0) (q : FlowRow → Bool)
      → Keeps
          (IsSealedAtRest host key)
          (writes {E = E} (λ db. record db { flows = select q db.flows }))
  select_flows-Keeps E q = record {
    at = λ w h. record { tokens = h.tokens; flows = select-All _ q w.flows h.flows };
  }

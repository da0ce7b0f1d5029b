-- ===== src/Auth/Concurrent/Freshness.antt =====
-- The token that a refresh under its lock presents (src/auth/token.rs).
use uni_mail.Common.{
  ℕ, ◌≡◌, ◌≢◌, refl, sym, ap, ◌∙◌, String, List, Option, find, inl, inr, eqb, eqb_iff, eq_iff,
  Bool-cases, arith,
}
use uni_mail.Error.{Outcome, ok, err, panic, AppError}
use uni_mail.Exec.{World, Database, writes}
use uni_mail.Exec.Keeps.{Keeps, keeps_rules}
use uni_mail.Exec.Inversion.{>>=-eq-ok, or_error-eq-ok}
use uni_mail.Host.{Host}
use uni_mail.Storage.Models.{TokenRow}
use uni_mail.Storage.Tokens
use uni_mail.Storage.Tokens.{
  StoredToken, owned_by, not_utf8, time_or_now, decode_row, decode_found, put_row,
}
use uni_mail.Storage.Tokens.Laws.{find-put_row}
use uni_mail.Storage.Reads.{encrypt-Keeps, tokens_get-Keeps}
use uni_mail.Auth.Keeping.{refresh-Keeps, to_stored-Keeps, account_lock-Keeps}
use uni_mail.Auth.Token.{TokenManager, not_connected}
use uni_mail.Auth.Concurrent.{
  Pc, renewing, Tasks, set_pc, read_current, renew, entered, Step, Reach,
}
use uni_mail.Auth.Concurrent.Exclusion.{one_refresh_per_account}
use uni_mail.Storage.Tokens.Found.{IsInTable, get-IsInTable}

-- What else may happen: it leaves the tokens alone.
abbrev pub SameTokens : World → World → Type 0
SameTokens w w' = w'.tokens ≡ w.tokens

-- What the table holds for the account is this.
abbrev Finds : String → Option TokenRow → Database → Type 0
Finds id found db = find (owned_by id) db.tokens ≡ found

put-Finds :
    (E : Type 0) (id : String) (found : Option TokenRow) (row : TokenRow)
    → row.account_id ≢ id
    → Keeps (Finds id found) (writes {E = E} (λ db. record db { tokens = put_row row db.tokens }))
put-Finds E id found row other = record {
  at = λ w h. ground (arith, find-put_row row id w.tokens, eq_iff row.account_id id);
}

insert_row-Finds :
    (host : Host) (id : String) (found : Option TokenRow) (row : TokenRow)
    → row.account_id ≢ id
    → Keeps (Finds id found) (Tokens.insert_row host row)
unfolding Tokens.insert_row
insert_row-Finds host id found row other = search (keeps_rules, put-Finds) depth 20

module _ (host : Host) (m : TokenManager) where
  read_current-Keeps : {P : Database → Type 0} (id : String) → Keeps P (read_current host m id)
  unfolding read_current
  read_current-Keeps id = search (keeps_rules, tokens_get-Keeps) depth 20

  -- A renewal leaves the rows of the other accounts.
  renew-Finds :
      (id j : String) (current : StoredToken) (found : Option TokenRow)
      → j ≢ id
      → Keeps (Finds id found) (renew host m j current)
  unfolding renew Tokens.upsert
  renew-Finds id j current found other =
      search (keeps_rules, refresh-Keeps, to_stored-Keeps, encrypt-Keeps, insert_row-Finds) depth 20

  read_current-IsInTable :
      (id : String) (current : StoredToken) (w : World)
      → (read_current host m id w).0 ≡ ok current
      → IsInTable host m.key id current w.tokens
  unfolding read_current
  read_current-IsInTable id current w h =
      let (found, read, h₁) = >>=-eq-ok (Tokens.get host m.key id) _ w h in
      let there = or_error-eq-ok found not_connected _ h₁ in
      get-IsInTable host m.key id current w (read ∙ ap ok there)

  same-IsInTable :
      (id : String) (current : StoredToken) (tokens after : List TokenRow)
      → find (owned_by id) after ≡ find (owned_by id) tokens
      → IsInTable host m.key id current tokens
      → IsInTable host m.key id current after
  same-IsInTable id current tokens after same (row, bytes, there, r, s) =
      (row, bytes, same ∙ there, r, s)

  -- Each task that waits for the endpoint presents what the table holds.
  abbrev PresentsStored : (ℕ → Pc) → List TokenRow → Type 0
  PresentsStored pc tokens =
      (i : ℕ) (id : String) (l : ℕ) (current : StoredToken)
      → pc i ≡ renewing id l current
      → IsInTable host m.key id current tokens

  -- A task moves on, and the rows of the accounts that others renew stay.
  move-PresentsStored :
      (pc : ℕ → Pc) (i : ℕ) (p : Pc) (tokens later : List TokenRow)
      → PresentsStored pc tokens
      → ((j : ℕ) (id : String) (l : ℕ) (c : StoredToken)
          → j ≢ i
          → pc j ≡ renewing id l c
          → find (owned_by id) later ≡ find (owned_by id) tokens)
      → ((id : String) (l : ℕ) (c : StoredToken)
          → p ≡ renewing id l c
          → IsInTable host m.key id c later)
      → PresentsStored (set_pc pc i p) later
  move-PresentsStored pc i p tokens later h frame own j id l c e = elim (Bool-cases (eqb j i)) [
    | inl same ↦ own id l c (sym (rw same refl) ∙ e)
    | inr other ↦
        let there : pc j ≡ renewing id l c = sym (rw other refl) ∙ e in
        same-IsInTable id c tokens later (frame j id l c (ground (arith, eqb_iff j i, other)) there)
          (h j id l c there)
  ]

  -- The same, for a step that leaves the tokens alone.
  idle_move :
      (pc : ℕ → Pc) (i : ℕ) (p : Pc) (tokens : List TokenRow)
      → PresentsStored pc tokens
      → ((id : String) (l : ℕ) (c : StoredToken)
          → p ≡ renewing id l c
          → IsInTable host m.key id c tokens)
      → PresentsStored (set_pc pc i p) tokens
  idle_move pc i p tokens h own =
      move-PresentsStored pc i p tokens tokens h (λ j id l c other e. refl) own

  entered-IsInTable :
      (r : Outcome AppError StoredToken) (id : String) (l : ℕ) (tokens : List TokenRow)
      → ((c : StoredToken) → r ≡ ok c → IsInTable host m.key id c tokens)
      → (j : String) (k : ℕ) (c : StoredToken) → entered id l r ≡ renewing j k c
      → IsInTable host m.key j c tokens
  entered-IsInTable (ok current) id l tokens h j k c e =
      let same : id ≡ j = cc in let token : current ≡ c = cc in rw (← same) (h c (ap ok token))
  entered-IsInTable (err x) id l tokens h j k c e = cc
  entered-IsInTable (panic text) id l tokens h j k c e = cc

  step-PresentsStored :
      {w : World} {s t : Tasks}
      → Reach host m SameTokens w s
      → Step host m SameTokens s t
      → PresentsStored s.pc s.world.tokens
      → PresentsStored t.pc t.world.tokens
  step-PresentsStored {w} {s} r (Step.arrive i id l e given) h =
      move-PresentsStored s.pc i _ s.world.tokens _ h
        (λ j k l' c other there.
          ap (λ db. find (owned_by k) db.tokens)
            ((account_lock-Keeps {P = λ db. db ≡ s.world.db} host m id).at s.world refl))
        (λ k l' c there. cc)
  step-PresentsStored {w} {s} r (Step.enter i id l e free) h =
      let same : (read_current host m id s.world).1.db ≡ s.world.db =
        (read_current-Keeps {P = λ db. db ≡ s.world.db} id).at s.world refl in
      move-PresentsStored s.pc i _ s.world.tokens _ h
        (λ j k l' c other there. ap (λ db. find (owned_by k) db.tokens) same)
        (entered-IsInTable (read_current host m id s.world).0 id l _
          (λ c read. rw same (read_current-IsInTable id c s.world read)))
  step-PresentsStored {w} {s} r (Step.answer i id l current e) h =
      move-PresentsStored s.pc i _ s.world.tokens _ h
        (λ j k l' c other there.
          (renew-Finds k id current (find (owned_by k) s.world.tokens) (λ same.
              other (one_refresh_per_account r j i id l' l c current (rw same there) e).0)).at
            s.world refl)
        (λ k l' c there. cc)
  step-PresentsStored {w} {s} r (Step.drop_waiting i id l e) h =
      idle_move s.pc i _ s.world.tokens h (λ k l' c there. cc)
  step-PresentsStored {w} {s} r (Step.drop_renewing i id l current e) h =
      idle_move s.pc i _ s.world.tokens h (λ k l' c there. cc)
  step-PresentsStored {w} {s} r (Step.leave i x e) h =
      idle_move s.pc i _ s.world.tokens h (λ k l' c there. cc)
  step-PresentsStored {w} {s} r (Step.other v same more) h = λ i id c e. rw same (h i id c e)

  -- However refreshes and dropped requests are interleaved, as long as nothing but refreshes writes
  -- the tokens and the map of locks, every task that waits for the token endpoint presents the refresh token that the table
  -- still holds for its account: no refresh presents one that another refresh has replaced.
  pub refresh_presents_stored :
      {w : World} {s : Tasks}
      → Reach host m SameTokens w s
      → (i : ℕ) (id : String) (l : ℕ) (current : StoredToken) → s.pc i ≡ renewing id l current
      → IsInTable host m.key id current s.world.tokens
  refresh_presents_stored Reach.start i id l current e = cc
  refresh_presents_stored (Reach.later r step) i id l current e =
      step-PresentsStored r step (refresh_presents_stored r) i id l current e

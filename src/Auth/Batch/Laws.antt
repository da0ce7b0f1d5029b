-- ===== src/Auth/Batch/Laws.antt =====
-- Refreshing many accounts, and disconnecting one (src/auth/token.rs).
use uni_mail.Common.{
  inl, inr, ℕ, ◌+◌, ◌-◌, ◌*◌, pos, le→leb, ◌≤◌, ◌≡◌, refl, ap, String, Bool, List, [], ◌∷◌, none,
  map, arith, not, find, select, length, All, Bool-cases, ◌∙◌,
}
use uni_mail.Error.{Outcome, ok, AppError}
use uni_mail.Exec.{World, caught}
use uni_mail.Exec.Inversion.{>>=-run}
use uni_mail.Exec.Calm.{run_calm, caught-NoPanic}
use uni_mail.Host.{Host}
use uni_mail.Storage.Models.{Account, disconnected, is_disconnected, as_str}
use uni_mail.Storage.Tokens
use uni_mail.Storage.Tokens.{owned_by}
use uni_mail.Storage.Tokens.Laws.{delete_removes, delete-accounts}
use uni_mail.Storage.Accounts
use uni_mail.Storage.Accounts.{has_id, update_rows, set_status, now}
use uni_mail.Storage.Accounts.Laws.{set_status_state, select-update_rows, length-update_rows}
use uni_mail.Auth.Token.{TokenManager, refresh_account}
use uni_mail.Auth.Token.Calm.{HasCalmCrates, refresh_account-IsCalm}
use uni_mail.Auth.Batch.{
  count_ok, refresh_each, refresh_all, refresh_ids, refresh_inactive, refresh_stale, cutoff, day,
  disconnect,
}

abbrev pub is_connected : Account → Bool
is_connected a = not (is_disconnected a.status)

abbrev Entry : Type 0
Entry = Account × Outcome AppError (Unit {0})

abbrev account_of : Entry → Account
account_of e = e.0

module _ (host : Host) (m : TokenManager) where
  -- Matching on the result of a refresh always goes on.
  refresh_caught :
      (laws : HasCalmCrates host) (id : String) (w : World)
      → caught {F = AppError} (refresh_account host m id w).0 ≡ ok (refresh_account host m id w).0
  refresh_caught laws id w =
      caught-NoPanic (refresh_account host m id w).0
        (run_calm (refresh_account host m id) (refresh_account-IsCalm laws m id) w)

  refresh_each_covers :
      (laws : HasCalmCrates host) (accounts : List Account) (w : World)
      → (outcomes : List Entry) × ((refresh_each host m accounts w).0 ≡ ok outcomes)
        × (map account_of outcomes ≡ select is_connected accounts)
  unfolding refresh_each select
  refresh_each_covers laws [] w = ([], refl, refl)
  refresh_each_covers laws (a ∷ rest) w = elim (Bool-cases (is_disconnected a.status)) [
    | inl gone ↦
        let (outcomes, returned, listed) = refresh_each_covers laws rest w in
        (outcomes, ground arith, ground arith)
    | inr here ↦
        let (outcomes, returned, listed) =
          refresh_each_covers laws rest (refresh_account host m a.id w).1 in
        (
          (a, (refresh_account host m a.id w).0) ∷ outcomes,
          ground (arith, refresh_caught laws a.id w),
          ground arith,
        )
  ]

  -- A refresh of all accounts returns an outcome for each account that is not disconnected, in the
  -- order of the listing, whatever the single refreshes answer, where the crates do not panic and the
  -- answered lifetimes stay within chrono's times.
  pub refresh_all_covers :
      (laws : HasCalmCrates host) (accounts : List Account) (w : World)
      → (Accounts.list_all host w).0 ≡ ok accounts
      → (outcomes : List Entry) × ((refresh_all host m w).0 ≡ ok outcomes)
        × (map account_of outcomes ≡ select is_connected accounts)
  unfolding refresh_all
  refresh_all_covers laws accounts w listed =
      let (outcomes, returned, covered) =
        refresh_each_covers laws accounts (Accounts.list_all host w).1 in
      (outcomes, rw listed returned, covered)

  pub refresh_ids_bound :
      (laws : HasCalmCrates host) (ids : List String) (w : World)
      → (n : ℕ) × ((refresh_ids host m ids w).0 ≡ ok n) × (n ≤ length ids)
  unfolding refresh_ids
  refresh_ids_bound laws [] w = (0, refl, omega arith)
  refresh_ids_bound laws (id ∷ rest) w =
      let (n, returned, bound) = refresh_ids_bound laws rest (refresh_account host m id w).1 in
      let r = (refresh_account host m id w).0 in
      (count_ok r + n, ground (arith, refresh_caught laws id w), ground arith)

  -- A refresh of stale accounts whose cutoff is within chrono's times and whose query returned
  -- returns a count, no greater than the number of accounts that the query gave, whatever the
  -- single refreshes answer, where the crates do not panic and the answered lifetimes stay within
  -- chrono's times.
  pub refresh_stale_bound :
      (laws : HasCalmCrates host) (days : ℕ) (ids : List String) (w : World)
      → days * day ≤ host.utc_now w.answers
      → (Tokens.list_inactive host
          (host.utc_now w.answers - days * day)
          (record w { answers = w.answers + 1 })).0
        ≡ ok ids
      → (n : ℕ) × ((refresh_stale host m (pos days) w).0 ≡ ok n) × (n ≤ length ids)
  unfolding refresh_stale refresh_inactive cutoff
  refresh_stale_bound laws days ids w early listed =
      let now = host.utc_now w.answers in
      let w₁ : World = record w { answers = w.answers + 1 } in
      let (n, returned, bound) =
        refresh_ids_bound laws ids (Tokens.list_inactive host (now - days * day) w₁).1 in
      (n, rw (le→leb (days * day) now early, listed) returned, bound)

  -- A disconnect that returned has removed the account's token, and every row of that tenant and
  -- id has the status "disconnected"; no row is added or removed.
  pub disconnect_lem :
      (a : Account) (w : World)
      → (disconnect host m a w).0 ≡ ok tt
      → (find (owned_by a.id) (disconnect host m a w).1.tokens ≡ none)
        × All
            (λ r. r.status ≡ as_str disconnected)
            (select (has_id a.tenant_id a.id) (disconnect host m a w).1.accounts)
        × (length (disconnect host m a w).1.accounts ≡ length w.accounts)
  unfolding disconnect
  disconnect_lem a w done =
      let (_, dropped, run, changed) = >>=-run (Tokens.delete host a.id) _ w done in
      let w₁ = (Tokens.delete host a.id w).1 in
      let time = host.to_rfc3339 (host.utc_now w₁.answers) in
      let (accounts, tokens) = set_status_state host a.tenant_id a.id disconnected w₁ changed in
      let gone = delete_removes host m.key a.id w dropped in
      let kept = delete-accounts host m.key a.id w in
      rw (run, accounts, tokens)
        (
          gone,
          select-update_rows a.tenant_id a.id time disconnected w₁.accounts,
          length-update_rows _ _ w₁.accounts ∙ ap length kept,
        )

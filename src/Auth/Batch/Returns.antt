-- ===== src/Auth/Batch/Returns.antt =====
-- Refreshes of many accounts, and disconnecting (src/auth/token.rs), return, and leave the database's
-- lock free.
use uni_mail.Common.{ℕ, ◌≡◌, suc, ◌+◌, ◌*◌, ◌≤◌, String, List, [], ◌∷◌, ℤ, pos, negsuc, le→leb}
use uni_mail.Error.{Outcome, ok, err, panic, AppError}
use uni_mail.Exec.Calm.{NoPanic}
use uni_mail.Exec.Returns.{
  Returns, Returns-pure, Returns-if, Returns-bind, Returns-bind_known, Returns-match, Returns-ask,
  returns_rules,
}
use uni_mail.Host.{Host}
use uni_mail.Storage.Models.{Account}
use uni_mail.Storage.Returns.{
  list_all-Returns, list_inactive-Returns, set_status-Returns, tokens_delete-Returns,
}
use uni_mail.Auth.Oauth.{add_time}
use uni_mail.Auth.Token.{TokenManager}
use uni_mail.Auth.Batch.{
  day, refresh_each, refresh_listed, refresh_all, cutoff, refresh_ids, refresh_inactive,
  refresh_stale, disconnect,
}
use uni_mail.Auth.Returns.{HasReliableCrates, refresh_account-Returns}

-- At any time of the clock, so many days before it are still within chrono's times.
unfoldable pub IsTimely : Host → ℤ → Type 0
IsTimely host (pos n) = (k : ℕ) → n * day ≤ host.utc_now k
IsTimely host (negsuc n) = (k : ℕ) → host.utc_now k + suc n * day ≤ host.max_time

module _ {host : Host} (laws : HasReliableCrates host) (m : TokenManager) where
  refresh_each-Returns : (accounts : List Account) → Returns (refresh_each host m accounts)
  unfolding refresh_each
  refresh_each-Returns [] = search returns_rules
  refresh_each-Returns (a ∷ rest) =
      let later = refresh_each-Returns rest in
      Returns-if _ _ _ later (
        Returns-match _ _ (refresh_account-Returns laws m a.id)
          (λ _ _. Returns-bind _ _ later (λ _. Returns-pure _)))

  refresh_listed-Returns :
      (r : Outcome AppError (List Account)) → NoPanic r → Returns (refresh_listed host m r)
  unfolding refresh_listed
  refresh_listed-Returns (ok accounts) h = refresh_each-Returns accounts
  refresh_listed-Returns (err e) h = search returns_rules
  refresh_listed-Returns (panic text) h = absurd h

  pub refresh_all-Returns : Returns (refresh_all host m)
  unfolding refresh_all
  refresh_all-Returns = search (returns_rules, list_all-Returns, refresh_listed-Returns) depth 20

  cutoff-Returns :
      (days : ℤ) (now k : ℕ)
      → IsTimely host days
      → host.utc_now k ≡ now
      → Returns (cutoff host m now days)
  unfolding cutoff add_time IsTimely
  cutoff-Returns (pos n) now k timely e =
      rw (← e, le→leb (n * day) (host.utc_now k) (timely k)) (Returns-pure _)
  cutoff-Returns (negsuc n) now k timely e =
      rw (← e, le→leb (host.utc_now k + suc n * day) host.max_time (timely k)) (Returns-pure _)

  refresh_ids-Returns : (ids : List String) → Returns (refresh_ids host m ids)
  unfolding refresh_ids
  refresh_ids-Returns [] = search returns_rules
  refresh_ids-Returns (id ∷ rest) =
      Returns-match _ _ (refresh_account-Returns laws m id)
        (λ _ _. Returns-bind _ _ (refresh_ids-Returns rest) (λ _. Returns-pure _))

  refresh_inactive-Returns :
      (r : Outcome AppError (List String)) → NoPanic r → Returns (refresh_inactive host m r)
  unfolding refresh_inactive
  refresh_inactive-Returns (ok ids) h = refresh_ids-Returns ids
  refresh_inactive-Returns (err e) h = search returns_rules
  refresh_inactive-Returns (panic text) h = absurd h

  pub refresh_stale-Returns : (days : ℤ) → IsTimely host days → Returns (refresh_stale host m days)
  unfolding refresh_stale
  refresh_stale-Returns days timely =
      Returns-bind_known _ _ (Returns-ask host.utc_now) (λ w now free e.
        Returns-bind _ _ (cutoff-Returns days now w.answers timely cc)
          (λ limit. Returns-match _ _ (list_inactive-Returns host limit) refresh_inactive-Returns))

  pub disconnect-Returns : (a : Account) → Returns (disconnect host m a)
  unfolding disconnect
  disconnect-Returns a = search (returns_rules, tokens_delete-Returns, set_status-Returns) depth 20

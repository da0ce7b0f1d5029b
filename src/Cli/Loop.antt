-- ===== src/Cli/Loop.antt =====
-- src/cli/mod.rs: the background loop that renews idle accounts (`refresh_loop`).
use uni_mail.Common.{
  ℕ, zero, suc, ◌+◌, ◌*◌, ◌-◌, ◌≡◌, refl, ℤ, pos, negsuc, String, List, [], ◌∷◌, length, arith, max,
  le→leb,
}
use uni_mail.Error.{Outcome, ok, err, panic, AppError}
use uni_mail.Exec.{World, Exec, ◌>>=◌, pure}
use uni_mail.Exec.Calm.{
  NoPanic, IsCalm, run_calm, caught-NoPanic, on_error-IsCalm, statement-IsCalm, lock-IsCalm,
  >>=-IsCalm, reads-IsCalm,
}
use uni_mail.Host.{Host}
use uni_mail.Storage.Tokens
use uni_mail.Config.{Config}
use uni_mail.Auth.Token.{TokenManager}
use uni_mail.Auth.Token.Calm.{HasCalmCrates}
use uni_mail.Auth.Batch.{refresh_stale, refresh_inactive, cutoff, day}
use uni_mail.Auth.Batch.Laws.{refresh_ids_bound}
use uni_mail.Auth.Batch.Returns.{IsTimely}
use uni_mail.Auth.Oauth.{add_time}

-- The seconds between two rounds.
unfoldable pub interval : Config → ℕ
interval c = max c.refresh_interval_secs 60

module _ (host : Host) (m : TokenManager) (days : ℤ) where
  -- The first rounds of `refresh_loop`, with what each of them counted; between two rounds it sleeps.
  unfoldable pub refresh_rounds : ℕ → Exec AppError (List ℕ)
  refresh_rounds zero = pure []
  refresh_rounds (suc n) = do
    refreshed ← refresh_stale host m days
    later ← refresh_rounds n
    pure (refreshed ∷ later)

module _ {host : Host} (laws : HasCalmCrates host) (m : TokenManager) (days : ℤ)
    (timely : IsTimely host days) where
  list_inactive-IsCalm : (limit : ℕ) → IsCalm (Tokens.list_inactive host limit)
  unfolding Tokens.list_inactive
  list_inactive-IsCalm limit =
      >>=-IsCalm _ _ lock-IsCalm
        (λ _. on_error-IsCalm _ _ (statement-IsCalm host _ (reads-IsCalm _ _)))

  refresh_inactive_returns :
      (r : Outcome AppError (List String)) (w : World)
      → NoPanic r
      → (k : ℕ) × ((refresh_inactive host m r w).0 ≡ ok k)
  unfolding refresh_inactive
  refresh_inactive_returns (ok ids) w h =
      let (k, returned, bound) = refresh_ids_bound host m laws ids w in (k, returned)
  refresh_inactive_returns (err e) w h = (0, refl)
  refresh_inactive_returns (panic text) w h = absurd h

  -- The cutoff of a threshold that is timely.
  cutoff_returns :
      (d : ℤ) (k : ℕ) (w : World)
      → IsTimely host d
      → (limit : ℕ) × (cutoff host m (host.utc_now k) d w ≡ (ok limit, w))
  unfolding cutoff add_time IsTimely
  cutoff_returns (pos n) k w timely =
      (host.utc_now k - n * day, rw (le→leb (n * day) (host.utc_now k) (timely k)) refl)
  cutoff_returns (negsuc n) k w timely = (
    host.utc_now k + suc n * day,
    rw (le→leb (host.utc_now k + suc n * day) host.max_time (timely k)) refl,
  )

  refresh_stale_returns : (w : World) → (k : ℕ) × ((refresh_stale host m days w).0 ≡ ok k)
  unfolding refresh_stale
  refresh_stale_returns w =
      let w₁ : World = record w { answers = w.answers + 1 } in
      let (limit, cut) = cutoff_returns days w.answers w₁ timely in
      let query = Tokens.list_inactive host limit in
      let calm = run_calm query (list_inactive-IsCalm limit) w₁ in
      let (k, returned) = refresh_inactive_returns (query w₁).0 (query w₁).1 calm in
      (k, rw (cut, caught-NoPanic {F = AppError} (query w₁).0 calm) returned)

  -- The background loop never dies: for every number of rounds, that many rounds return, from
  -- whatever state they start and whatever the stores and the token endpoint answer, where the crates
  -- do not panic, the answered lifetimes stay within chrono's times, and so does the inactivity
  -- threshold, taken from any time of the clock; it may be a negative number of days.
  pub refresh_rounds_live :
      (n : ℕ) (w : World)
      → (counts : List ℕ) × ((refresh_rounds host m days n w).0 ≡ ok counts) × (length counts ≡ n)
  unfolding refresh_rounds
  refresh_rounds_live zero w = ([], refl, refl)
  refresh_rounds_live (suc n) w =
      let (k, returned) = refresh_stale_returns w in
      let (counts, later, size) = refresh_rounds_live n (refresh_stale host m days w).1 in
      (k ∷ counts, rw (returned, later) refl, omega (arith, size))

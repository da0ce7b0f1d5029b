-- ===== src/System/Isolation/Calls.antt =====
-- A tenant's calls for the accounts that the store gives it (src/auth/token.rs, src/provider), which
-- leave the other tenants alone.
use uni_mail.Common.{◌≡◌, String, List, All, All-weaken}
use uni_mail.Error.{AppError}
use uni_mail.Exec.{World, Database, Exec, ◌>>=◌}
use uni_mail.Exec.Keeps.{Keeps, KeepsAt, KeepsAt-bind, Keeps-KeepsAt, Keeps-bind, keeps_rules}
use uni_mail.Host.{Host}
use uni_mail.Storage.Models.{Account, disconnected}
use uni_mail.Storage.Accounts
use uni_mail.Storage.Accounts.{conflicts}
use uni_mail.Storage.Consistency.{IsDistinct}
use uni_mail.Storage.Accounts.Laws.{get_sound}
use uni_mail.Storage.Isolation.{
  SameElsewhere, SameElsewhere-refl, IsForeignTo, delete-SameElsewhere, set_status-SameElsewhere,
  flows_insert-SameElsewhere,
}
use uni_mail.Storage.Reads.{get-Keeps, list-Keeps}
use uni_mail.Storage.Isolation.Owners.{HasOrder, get-IsForeignTo, list-IsForeignTo}
use uni_mail.Auth.Keeping.{authorize_url-Keeps}
use uni_mail.Auth.Flow.{begin_flow}
use uni_mail.Auth.Batch.{disconnect}
use uni_mail.Auth.Token.{TokenManager}
use uni_mail.Provider.{EmailProvider}
use uni_mail.Provider.Graph.Consistency.{IsKeeping}
use uni_mail.Api.Routes.{AppState}

module _ (host : Host) (m : TokenManager) (tenant : String) (before : Database) where
  pub begin_flow-SameElsewhere : Keeps (SameElsewhere tenant before) (begin_flow host m tenant)
  unfolding begin_flow
  begin_flow-SameElsewhere =
      search (keeps_rules, authorize_url-Keeps, flows_insert-SameElsewhere) depth 20

  pub disconnect-SameElsewhere :
      (a : Account)
      → a.tenant_id ≡ tenant
      → IsForeignTo tenant before a.id
      → Keeps (SameElsewhere tenant before) (disconnect host m a)
  unfolding disconnect
  disconnect-SameElsewhere a owner foreign =
      Keeps-bind _ _ (delete-SameElsewhere host tenant a.id before foreign)
        (λ _. rw owner (set_status-SameElsewhere host tenant before a.id disconnected))

-- A backend whose calls for an account of a tenant leave the other tenants alone.
abbrev pub IsIsolating : EmailProvider → Type 0
IsIsolating p =
    (tenant : String) (before : Database) (a : Account)
    → IsForeignTo tenant before a.id
    → IsKeeping (SameElsewhere tenant before) p a

module _ (host : Host) (order : HasOrder host) (state : AppState)
    (calls : IsIsolating state.provider) (tenant : String) (w : World)
    (keys : IsDistinct conflicts w.accounts) where
  abbrev pub Elsewhere : Database → Type 0
  Elsewhere = SameElsewhere tenant w.db

  pub found_then :
      {A : Type 0} (id : String) (f : Account → Exec AppError A)
      → ((a : Account)
          → a.tenant_id ≡ tenant
          → IsForeignTo tenant w.db a.id
          → Keeps Elsewhere (f a))
      → KeepsAt Elsewhere w (Accounts.get host tenant id >>= f)
  found_then id f h =
      KeepsAt-bind w _ f
        (Keeps-KeepsAt w _ (SameElsewhere-refl tenant w.db) (get-Keeps host tenant id))
        (λ a found.
          h a (get_sound host tenant id a w found).0
            (get-IsForeignTo host tenant w keys id a found))

  pub listed_then :
      {A : Type 0} (f : List Account → Exec AppError A)
      → ((accounts : List Account)
          → All (IsKeeping Elsewhere state.provider) accounts
          → Keeps Elsewhere (f accounts))
      → KeepsAt Elsewhere w (Accounts.list host tenant >>= f)
  listed_then f h =
      KeepsAt-bind w _ f
        (Keeps-KeepsAt w _ (SameElsewhere-refl tenant w.db) (list-Keeps host tenant))
        (λ accounts listed. h accounts (
          All-weaken _ _ (calls tenant w.db) accounts
            (list-IsForeignTo host tenant w keys order accounts listed)))

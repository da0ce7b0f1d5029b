-- ===== src/Auth/Concurrent/Locks.antt =====
-- The map of refresh locks of src/auth/token.rs: what is given out stays in it.
use uni_mail.Common.{
  ℕ, ◌≡◌, ap, ◌∙◌, String, List, ◌∷◌, none, some, inl, inr, eqb, ◌==◌, eq_refl, eq_iff, Bool-cases,
  Option-cases, arith, length,
}
use uni_mail.Error.{Outcome, ok, err, panic, AppError}
use uni_mail.Exec.{World, lock}
use uni_mail.Host.{Host, OAuthClient}
use uni_mail.Storage.Crypto.{encrypt}
use uni_mail.Storage.Tokens
use uni_mail.Storage.Tokens.{StoredToken}
use uni_mail.Auth.Oauth
use uni_mail.Auth.Oauth.{refresh}
use uni_mail.Auth.Token.{TokenManager, account_lock, entry, to_stored}
use uni_mail.Auth.Concurrent.{
  Pc, renewing, Tasks, set_pc, read_current, renew, entered, Step, Reach, Extends,
}

-- The mutex of the task is the one that the map holds for its account.
abbrev pub IsGiven : List (String × ℕ) → Pc → Type 0
IsGiven locks (Pc.waiting id l) = entry id locks ≡ some l
IsGiven locks (renewing id l current) = entry id locks ≡ some l
IsGiven locks _ = Unit

Extends-IsGiven :
    (locks later : List (String × ℕ)) (p : Pc)
    → Extends locks later
    → IsGiven locks p
    → IsGiven later p
Extends-IsGiven locks later Pc.idle more h = tt
Extends-IsGiven locks later (Pc.waiting id l) more h = more id l h
Extends-IsGiven locks later (renewing id l current) more h = more id l h
Extends-IsGiven locks later (Pc.finished r) more h = tt

-- A task moves on, and the map keeps its entries.
move-IsGiven :
    (locks later : List (String × ℕ)) (pc : ℕ → Pc) (i : ℕ) (p : Pc)
    → Extends locks later
    → ((j : ℕ) → IsGiven locks (pc j))
    → IsGiven later p
    → (j : ℕ) → IsGiven later (set_pc pc i p j)
move-IsGiven locks later pc i p more h own j = elim (Bool-cases (eqb j i)) [
  | inl same ↦ rw same own
  | inr other ↦ rw other (Extends-IsGiven locks later (pc j) more (h j))
]

abbrev number_of : Outcome AppError ℕ → ℕ
number_of (ok l) = l
number_of _ = 0

-- A new entry for a key that the map does not have.
new-Extends :
    (id : String) (l : ℕ) (locks : List (String × ℕ))
    → entry id locks ≡ none
    → Extends locks ((id, l) ∷ locks)
unfolding entry
new-Extends id l locks new j k there = elim (Bool-cases (id == j)) [
  | inl hit ↦ let same : id ≡ j = (eq_iff id j).0 hit in cc
  | inr miss ↦ rw miss there
]

module _ (host : Host) (m : TokenManager) where
  tokens_get-locks :
      (id : String) (w : World) → (Tokens.get host m.key id w).1.refresh_locks ≡ w.refresh_locks
  unfolding Tokens.get Tokens.decode_found Tokens.decode_row Tokens.time_or_now lock
  tokens_get-locks id w = ground arith

  read_current-locks :
      (id : String) (w : World) → (read_current host m id w).1.refresh_locks ≡ w.refresh_locks
  unfolding read_current
  read_current-locks id w = ground (arith, tokens_get-locks id w)

  refresh-locks :
      (c : OAuthClient) (token : String) (w : World)
      → (refresh host c token w).1.refresh_locks ≡ w.refresh_locks
  unfolding refresh Oauth.token_request Oauth.client Oauth.token_set_from Oauth.expiry
      Oauth.add_time
  refresh-locks c token w = ground arith

  upsert-locks :
      (id : String) (token : StoredToken) (w : World)
      → (Tokens.upsert host m.key id token w).1.refresh_locks ≡ w.refresh_locks
  unfolding Tokens.upsert Tokens.insert_row lock encrypt
  upsert-locks id token w = ground arith

  renew-locks :
      (id : String) (current : StoredToken) (w : World)
      → (renew host m id current w).1.refresh_locks ≡ w.refresh_locks
  unfolding renew to_stored
  renew-locks id current w =
      grind (arith, refresh-locks m.oauth current.refresh_token w, upsert-locks)

  -- The map after a call of `account_lock`: the mutex that it gives out is in it, and nothing that was
  -- in it has changed.
  account_lock_lem :
      (id : String) (l : ℕ) (w : World)
      → (account_lock host m id w).0 ≡ ok l
      → Extends w.refresh_locks (account_lock host m id w).1.refresh_locks
        × (entry id (account_lock host m id w).1.refresh_locks ≡ some l)
  unfolding account_lock entry
  account_lock_lem id l w given = elim (Option-cases (entry id w.refresh_locks)) [
    | inl new ↦
        let number : length w.refresh_locks ≡ l = ap number_of (rw new at given) in
        (
          rw new (new-Extends id (length w.refresh_locks) w.refresh_locks new),
          rw (new, eq_refl id) (ap some number),
        )
    | inr (k, known) ↦
        let number : k ≡ l = ap number_of (rw known at given) in
        (rw known (λ j k there. there), rw known (known ∙ ap some number))
  ]

entered-IsGiven :
    (locks : List (String × ℕ)) (id : String) (l : ℕ) (r : Outcome AppError StoredToken)
    → entry id locks ≡ some l
    → IsGiven locks (entered id l r)
entered-IsGiven locks id l (ok current) h = h
entered-IsGiven locks id l (err e) h = tt
entered-IsGiven locks id l (panic text) h = tt

module _ {host : Host} {m : TokenManager} {Env : World → World → Type 0} where
  step-IsGiven :
      {s t : Tasks}
      → Step host m Env s t
      → ((j : ℕ) → IsGiven s.world.refresh_locks (s.pc j))
      → (j : ℕ) → IsGiven t.world.refresh_locks (t.pc j)
  step-IsGiven {s} (Step.arrive i id l e given) h =
      let (more, there) = account_lock_lem host m id l s.world given in
      move-IsGiven s.world.refresh_locks _ s.pc i _ more h there
  step-IsGiven {s} (Step.enter i id l e free) h =
      let same = read_current-locks host m id s.world in
      let there : entry id s.world.refresh_locks ≡ some l = rw e at (h i) in
      move-IsGiven s.world.refresh_locks _ s.pc i _ (λ j k h. rw same h) h
        (entered-IsGiven _ id l (read_current host m id s.world).0 (rw same there))
  step-IsGiven {s} (Step.answer i id l current e) h =
      let same = renew-locks host m id current s.world in
      move-IsGiven s.world.refresh_locks _ s.pc i _ (λ j k h. rw same h) h tt
  step-IsGiven {s} (Step.drop_waiting i id l e) h =
      move-IsGiven s.world.refresh_locks _ s.pc i _ (λ j k h. h) h tt
  step-IsGiven {s} (Step.drop_renewing i id l current e) h =
      move-IsGiven s.world.refresh_locks _ s.pc i _ (λ j k h. h) h tt
  step-IsGiven {s} (Step.leave i r e) h =
      move-IsGiven s.world.refresh_locks _ s.pc i _ (λ j k h. h) h tt
  step-IsGiven {s} (Step.other w env more) h =
      λ j. Extends-IsGiven s.world.refresh_locks w.refresh_locks (s.pc j) more (h j)

  -- Every task has the mutex that the map holds for its account.
  reach-IsGiven :
      {w : World} {s : Tasks}
      → Reach host m Env w s
      → (j : ℕ) → IsGiven s.world.refresh_locks (s.pc j)
  reach-IsGiven Reach.start j = tt
  reach-IsGiven (Reach.later before step) j = step-IsGiven step (reach-IsGiven before) j

  pub renewing-IsGiven :
      {w : World} {s : Tasks}
      → Reach host m Env w s
      → (i : ℕ) (id : String) (l : ℕ) (c : StoredToken) → s.pc i ≡ renewing id l c
      → entry id s.world.refresh_locks ≡ some l
  renewing-IsGiven r i id l c e = rw e at (reach-IsGiven r i)

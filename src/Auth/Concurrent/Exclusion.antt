-- ===== src/Auth/Concurrent/Exclusion.antt =====
-- The refresh locks of src/auth/token.rs: the mutexes exclude, and every task that asks for the
-- lock of an account is given the same mutex.
use uni_mail.Common.{
  ℕ, ◌≡◌, refl, Option-cases, some, sym, String, Bool, true, false, inl, inr, eqb, eqb_iff,
  Bool-cases, arith, if◌then◌else◌,
}
use uni_mail.Error.{Outcome, ok, err, panic, AppError}
use uni_mail.Exec.{World, ◌>>=◌, ◌>>◌}
use uni_mail.Exec.Inversion.{>>=-assoc}
use uni_mail.Host.{Host}
use uni_mail.Storage.Tokens
use uni_mail.Storage.Tokens.{StoredToken}
use uni_mail.Auth.Token.{TokenManager, account_lock, entry, refresh_account}
use uni_mail.Auth.Concurrent.Locks.{renewing-IsGiven}
use uni_mail.Auth.Concurrent.{
  Pc, renewing, Tasks, set_pc, set_held, read_current, renew, entered, holds, Step, Reach,
}

-- The pieces in their order are `refresh_account`.
pub refresh_account_pieces :
    (host : Host) (m : TokenManager) (id : String) (w : World)
    → refresh_account host m id w
      ≡ (account_lock host m id >> (read_current host m id >>= renew host m id)) w
unfolding refresh_account read_current renew account_lock
refresh_account_pieces host m id w = elim (Option-cases (entry id w.refresh_locks)) [
  | inl new ↦ rw new (sym (>>=-assoc (Tokens.get host m.key id) _ (renew host m id) _))
  | inr (l, known) ↦ rw known (sym (>>=-assoc (Tokens.get host m.key id) _ (renew host m id) _))
]

-- The task holds the mutex.
abbrev pub is_renewing : ℕ → Pc → Bool
is_renewing l (renewing id k current) = eqb k l
is_renewing l _ = false

-- The mutexes of the tasks that renew are held, each by one task.
pub record IsExclusive (held : ℕ → Bool) (pc : ℕ → Pc) : Type 0 where
  pub locked : (i l : ℕ) → is_renewing l (pc i) ≡ true → held l ≡ true
  pub alone : (i j l : ℕ) → is_renewing l (pc i) ≡ true → is_renewing l (pc j) ≡ true → i ≡ j

-- A task renews nothing.
abbrev IsQuiet : Pc → Type 0
IsQuiet p = (l : ℕ) → is_renewing l p ≡ false

is_renewing-set_pc :
    (pc : ℕ → Pc) (i : ℕ) (p : Pc) (j l : ℕ)
    → is_renewing l (set_pc pc i p j) ≡ (if eqb j i then is_renewing l p else is_renewing l (pc j))
is_renewing-set_pc pc i p j l = elim (Bool-cases (eqb j i)) [
  | inl same ↦ rw same refl
  | inr other ↦ rw other refl
]

module _ {held : ℕ → Bool} {pc : ℕ → Pc} (h : IsExclusive held pc) (i : ℕ) where
  -- A task that renews nothing afterwards, with the locks as they were.
  quiet-IsExclusive : (p : Pc) → IsQuiet p → IsExclusive held (set_pc pc i p)
  quiet-IsExclusive p quiet = record {
    locked = λ j l busy. ground (arith, is_renewing-set_pc pc i p j l, quiet l, h.locked j l);
    alone = λ j k l b c. ground (
      arith,
      is_renewing-set_pc pc i p j l,
      is_renewing-set_pc pc i p k l,
      quiet l,
      h.alone j k l,
    );
  }

  -- A mutex is given back by the task that holds it.
  release-IsExclusive :
      (l : ℕ) (p : Pc)
      → is_renewing l (pc i) ≡ true
      → IsQuiet p
      → IsExclusive (set_held held l false) (set_pc pc i p)
  release-IsExclusive l p mine quiet = record {
    locked = λ j k busy. ground (
      arith,
      is_renewing-set_pc pc i p j k,
      quiet k,
      h.locked j k,
      h.alone j i k,
      eqb_iff k l,
      eqb_iff j i,
      mine,
    );
    alone = λ j k a b c. (quiet-IsExclusive p quiet).alone j k a b c;
  }

  -- A free lock is taken.
  take-IsExclusive :
      (id : String) (l : ℕ) (current : StoredToken)
      → held l ≡ false
      → IsExclusive (set_held held l true) (set_pc pc i (renewing id l current))
  take-IsExclusive id l current free = record {
    locked = λ j k busy. ground (
      arith,
      is_renewing-set_pc pc i (renewing id l current) j k,
      h.locked j k,
      eqb_iff k l,
      eqb_iff l k,
    );
    alone = λ j k a b c. ground (
      arith,
      is_renewing-set_pc pc i (renewing id l current) j a,
      is_renewing-set_pc pc i (renewing id l current) k a,
      h.locked j a,
      h.locked k a,
      h.alone j k a,
      eqb_iff l a,
      eqb_iff j i,
      eqb_iff k i,
      free,
    );
  }

-- A free lock that is set free.
stay-IsExclusive :
    {held : ℕ → Bool} {pc : ℕ → Pc} (l : ℕ)
    → held l ≡ false
    → IsExclusive held pc
    → IsExclusive (set_held held l false) pc
stay-IsExclusive l free h = record {
  locked = λ j k busy. ground (arith, h.locked j k, eqb_iff k l);
  alone = h.alone;
}

mine :
    (p : Pc) (id : String) (l : ℕ) (current : StoredToken)
    → p ≡ renewing id l current
    → is_renewing l p ≡ true
mine p id l current e = rw (e, (eqb_iff l l).1 refl) refl

enter-IsExclusive :
    {held : ℕ → Bool} {pc : ℕ → Pc} (r : Outcome AppError StoredToken) (i : ℕ) (id : String) (l : ℕ)
    → IsExclusive held pc
    → held l ≡ false
    → IsExclusive (set_held held l (holds r)) (set_pc pc i (entered id l r))
enter-IsExclusive (ok current) i id l h free = take-IsExclusive h i id l current free
enter-IsExclusive (err e) i id l h free =
    stay-IsExclusive l free (quiet-IsExclusive h i _ (λ _. refl))
enter-IsExclusive (panic text) i id l h free =
    stay-IsExclusive l free (quiet-IsExclusive h i _ (λ _. refl))

module _ {host : Host} {m : TokenManager} {Env : World → World → Type 0} where
  step-IsExclusive :
      {s t : Tasks} → Step host m Env s t → IsExclusive s.held s.pc → IsExclusive t.held t.pc
  step-IsExclusive (Step.arrive i id l e given) h = quiet-IsExclusive h i _ (λ _. refl)
  step-IsExclusive {s} (Step.enter i id l e free) h =
      enter-IsExclusive (read_current host m id s.world).0 i id l h free
  step-IsExclusive {s} (Step.answer i id l current e) h =
      release-IsExclusive h i l _ (mine (s.pc i) id l current e) (λ _. refl)
  step-IsExclusive (Step.drop_waiting i id l e) h = quiet-IsExclusive h i _ (λ _. refl)
  step-IsExclusive {s} (Step.drop_renewing i id l current e) h =
      release-IsExclusive h i l _ (mine (s.pc i) id l current e) (λ _. refl)
  step-IsExclusive (Step.leave i r e) h = quiet-IsExclusive h i _ (λ _. refl)
  step-IsExclusive (Step.other w env more) h = h

  pub reach-IsExclusive : {w : World} {s : Tasks} → Reach host m Env w s → IsExclusive s.held s.pc
  reach-IsExclusive Reach.start = record { locked = λ i l busy. cc; alone = λ i j l busy other. cc }
  reach-IsExclusive (Reach.later before step) = step-IsExclusive step (reach-IsExclusive before)

  -- However refreshes, dropped requests and anything else that leaves the map of locks alone are
  -- interleaved, two tasks that wait for the token endpoint for the same account are one task: both
  -- were given the mutex that the map holds for the account, and it is held.
  pub one_refresh_per_account :
      {w : World} {s : Tasks}
      → Reach host m Env w s
      → (i j : ℕ) (id : String) (l k : ℕ) (c d : StoredToken) → s.pc i ≡ renewing id l c
      → s.pc j ≡ renewing id k d
      → (i ≡ j) × (entry id s.world.refresh_locks ≡ some l) × (s.held l ≡ true)
  one_refresh_per_account {s = s} r i j id l k c d e f =
      let h = reach-IsExclusive r in
      let first = renewing-IsGiven r i id l c e in
      let second = renewing-IsGiven r j id k d f in
      let same : k ≡ l = cc in
      (
        h.alone i j l (mine (s.pc i) id l c e) (rw (← same) (mine (s.pc j) id k d f)),
        first,
        h.locked i l (mine (s.pc i) id l c e),
      )

-- ===== src/Storage/Flows/Laws.antt =====
-- The pending flows (src/storage/flows.rs): what `take` answers after `insert` and after `take`.
use uni_mail.Common.{
  ℕ, ◌+◌, ◌-◌, ◌≡◌, ◌⊎◌, inl, inr, String, false, List, Option-cases, none, some, arith, eq_refl,
  ltb, find, not, if◌then◌else◌, find-select-none, any-select_of_find-none,
}
use uni_mail.Error.{Outcome, ok, err}
use uni_mail.Exec.{World, lock}
use uni_mail.Host.{Host}
use uni_mail.Storage.Models.{FlowRow}
use uni_mail.Storage.Crypto.{decrypt}
use uni_mail.Storage.Crypto.Laws.{HasCipher, encrypt_lem}
use uni_mail.Storage.Flows.{
  PendingFlow, FlowError, unknown_state, expired, has_state, is_current, or_epoch, unix_now,
  insert_row, insert, remove_row, open_flow, take,
}

-- `take` got past its two statements: it answers with a flow, or that the flow has expired.
abbrev pub IsConsumed : Outcome FlowError PendingFlow → Type 0
IsConsumed r = (r ≡ err expired) ⊎ ((flow : PendingFlow) × (r ≡ ok flow))

module _ (host : Host) (key : List ℕ) (state : String) where
  -- A `take` that gets past its statements has removed every flow of that state.
  consumed-none :
      (w : World)
      → IsConsumed (take host key state w).0
      → find (has_state state) (take host key state w).1.flows ≡ none
  unfolding take remove_row lock unix_now open_flow
  consumed-none w (inl e) = ground (
    arith,
    find-select-none (has_state state) (λ r. not (has_state state r)) w.flows (λ x h. rw h),
  )
  consumed-none w (inr (flow, e)) = ground (
    arith,
    find-select-none (has_state state) (λ r. not (has_state state r)) w.flows (λ x h. rw h),
  )

  take_unknown :
      (w : World)
      → find (has_state state) w.flows ≡ none
      → w.poisoned ≡ false
      → host.sql_fault w.answers ≡ none
      → (take host key state w).0 ≡ err unknown_state
  unfolding take remove_row lock
  take_unknown w missing free healthy = ground arith

  -- Single use: once a `take` has answered with a flow, or that the flow has expired, every later
  -- `take` of that state in a world with those flows, a lock that is not poisoned and an SQL engine
  -- that does not fail answers that the state is unknown.
  pub take_once :
      (w w' : World)
      → IsConsumed (take host key state w).0
      → w'.flows ≡ (take host key state w).1.flows
      → w'.poisoned ≡ false
      → host.sql_fault w'.answers ≡ none
      → (take host key state w').0 ≡ err unknown_state
  take_once w w' consumed same free healthy =
      take_unknown w' (rw same (consumed-none w consumed)) free healthy

  -- A flow that is taken is that of its row: it was begun for the row's tenant.
  pub take_sound :
      (flow : PendingFlow) (w : World)
      → (take host key state w).0 ≡ ok flow
      → (row : FlowRow) × (find (has_state state) w.flows ≡ some row)
        × (flow.tenant_id ≡ row.tenant_id)
        × (flow.created_at ≡ row.created_at)
  unfolding take remove_row lock unix_now open_flow
  take_sound flow w h = elim (Option-cases (find (has_state state) w.flows)) [
    | inl missing ↦ absurd (ground arith)
    | inr (row, there) ↦ (row, there, ground arith, ground arith)
  ]

module _ (host : Host) (key : List ℕ) (laws : HasCipher host key)
    (utf8 : (s : String) → host.from_utf8 (host.as_bytes s) ≡ ok s) where
  -- What a successful `insert` leaves behind.
  insert_lem :
      (verifier tenant_id state : String) (w : World)
      → host.sql_fault (w.answers + 1 + 1) ≡ none
      → host.sql_fault (w.answers + 1 + 1 + 1) ≡ none
      → w.poisoned ≡ false
      → find (has_state state) w.flows ≡ none
      → (blob : List ℕ) × (decrypt host key blob ≡ ok (host.as_bytes verifier))
        × (find (has_state state) (insert host key verifier tenant_id state w).1.flows
            ≡ some (record {
              state = state;
              verifier = blob;
              tenant_id = tenant_id;
              created_at = or_epoch (host.unix_time w.answers);
            }))
  unfolding insert insert_row unix_now lock find
  insert_lem verifier tenant_id state w purged inserted free fresh =
      let t = or_epoch (host.unix_time w.answers) in
      let (blob, sealed, opens) =
        encrypt_lem laws (host.as_bytes verifier) (record w { answers = w.answers + 1 }) in
      (
        blob,
        opens,
        rw sealed (
            ground (
              arith,
              purged,
              inserted,
              any-select_of_find-none (has_state state) (is_current t) w.flows fresh,
              eq_refl state,
            )),
      )

  -- Round trip: a flow recorded under a fresh state is given back by `take`, with its verifier, its
  -- tenant and its time, if no more than the 600 seconds of its lifetime have passed, and is
  -- reported as expired otherwise. Between the two calls the program may do anything that leaves
  -- the flow of this state alone; at both calls the lock is not poisoned and the SQL engine does not
  -- fail at the two statements that each makes, and the cipher and the codec of texts behave as
  -- documented.
  pub take-insert :
      (verifier tenant_id state : String) (w w' : World)
      → host.sql_fault (w.answers + 1 + 1) ≡ none
      → host.sql_fault (w.answers + 1 + 1 + 1) ≡ none
      → host.sql_fault w'.answers ≡ none
      → host.sql_fault (w'.answers + 1) ≡ none
      → w.poisoned ≡ false
      → find (has_state state) w.flows ≡ none
      → w'.poisoned ≡ false
      → find (has_state state) w'.flows
        ≡ find (has_state state) (insert host key verifier tenant_id state w).1.flows
      → (take host key state w').0 ≡ (
          if ltb 600
            (or_epoch (host.unix_time (w'.answers + 1 + 1)) - or_epoch (host.unix_time w.answers))
          then err expired
          else ok (record {
            verifier = verifier;
            tenant_id = tenant_id;
            created_at = or_epoch (host.unix_time w.answers);
          }))
  unfolding take remove_row lock unix_now open_flow
  take-insert verifier tenant_id state w w' purged inserted selected removed free fresh free' same =
      let (blob, opens, there) = insert_lem verifier tenant_id state w purged inserted free fresh in
      ground (arith, same, there, opens, utf8 verifier, selected, removed)

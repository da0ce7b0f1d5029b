-- ===== src/Storage/Tokens/Refinement.antt =====
-- The token store of src/storage/tokens.rs does what a map from account ids to token sets does.
use uni_mail.Common.{
  ◌+◌, ◌≡◌, refl, ap, ◌∙◌, ℕ, String, Bool, false, List, [], ◌∷◌, map, Option, none, some, arith,
  not, find, select, Bool-cases, inl, inr,
}
use uni_mail.Error.{ok, err, storage}
use uni_mail.Exec.{World, lock, sql_message}
use uni_mail.Host.{Host}
use uni_mail.Storage.Models.{TokenRow}
use uni_mail.Storage.Crypto.Laws.{HasCipher}
use uni_mail.Storage.Tokens
use uni_mail.Storage.Tokens.{StoredToken, owned_by, has_account, put_row, is_inactive}
use uni_mail.Storage.Tokens.Laws.{
  HasCodecs, HasReadableTimes, decode-row_of, get_found, get_missing, upsert_lem,
}
use uni_mail.Storage.Tokens.Store.{TokenStore, sqlite_token_store, Call, call, answers}
use uni_mail.Storage.Tokens.Spec.{
  Entries, fetch, spec, specified, occurrences, Agree, AllAgree, HasReadableCall, HaveReadableCalls,
}
use uni_mail.Storage.Crypto.Laws.{encrypt_lem}
use uni_mail.Storage.Tokens.{insert_row}
use uni_mail.Storage.Tokens.Represents.{
  HasOrderedTimes, Represents, FoundRow, find-Represents, put-Represents, remove-Represents,
  idle-Represents,
}

-- The documented freedom of a query without ORDER BY: it returns every row, in some order.
abbrev pub HasAllRows : Host → Type 0
HasAllRows host =
    (id : String) (rows : List TokenRow)
    → occurrences id (map (λ (r : TokenRow). r.account_id) (host.order_inactive rows))
      ≡ occurrences id (map (λ (r : TokenRow). r.account_id) rows)

-- The store holds the map, and can be used.
pub record Holds (host : Host) (key : List ℕ) (codecs : HasCodecs host) (owners : String → Bool)
    (w : World) (m : Entries) : Type 0 where
  pub free : w.poisoned ≡ false
  pub rows : Represents host key codecs w.tokens m
  pub owned : (id : String) → has_account id w.accounts ≡ owners id

module _ (host : Host) (key : List ℕ) (laws : HasCipher host key) (codecs : HasCodecs host)
    (ordered : HasOrderedTimes codecs) (all_rows : HasAllRows host)
    (healthy : (n : ℕ) → host.sql_fault n ≡ none) (owners : String → Bool) where
  abbrev store : TokenStore
  store = sqlite_token_store host key

  -- A call answers as the map does, and leaves the map that the call makes of it.
  abbrev Refines : Call → World → Entries → Type 0
  Refines c w m =
      Agree (call store c w).0 (spec host owners c m).0
      × Holds host key codecs owners (call store c w).1 (spec host owners c m).1

  get_read :
      (id : String) (w : World) (row : Option TokenRow) (token : Option StoredToken)
      → w.poisoned ≡ false
      → find (owned_by id) w.tokens ≡ row
      → FoundRow host key codecs row id token
      → Tokens.get host key id w ≡ (ok token, record w { answers = w.answers + 1 })
  get_read id w none none free there h = get_missing host key id w free (healthy w.answers) there
  get_read id w none (some token) free there h = absurd h
  get_read id w (some row) none free there h = absurd h
  get_read id w (some row) (some token) free there (times, access, refresh, e, a, r) =
      get_found host key id w row token free (healthy w.answers) there
        (rw e (decode-row_of host key id codecs token access refresh _ times a r))

  get-Refines :
      (id : String) (w : World) (m : Entries)
      → Holds host key codecs owners w m
      → Refines (Call.get id) w m
  unfolding call sqlite_token_store spec
  get-Refines id w m h =
      let read =
        get_read id w (find (owned_by id) w.tokens) (fetch id m) h.free refl
          (find-Represents host key codecs id w.tokens m h.rows) in
      rw read (refl, record { free = h.free; rows = h.rows; owned = h.owned })

  -- Without its account a token is refused, and nothing is written.
  upsert_orphan :
      (id : String) (token : StoredToken) (w : World)
      → w.poisoned ≡ false
      → has_account id w.accounts ≡ false
      → Tokens.upsert host key id token w
        ≡ (err (storage host.foreign_key_error), record w { answers = w.answers + 1 + 1 + 1 })
  unfolding Tokens.upsert insert_row lock sql_message
  upsert_orphan id token w free orphan =
      let (access, e, a) = encrypt_lem laws (host.as_bytes token.access_token) w in
      let (refresh, f, r) =
        encrypt_lem laws (host.as_bytes token.refresh_token)
          (record w { answers = w.answers + 1 }) in
      rw (e, f, free, healthy (w.answers + 1 + 1), orphan) refl

  upsert-Refines :
      (id : String) (token : StoredToken) (w : World) (m : Entries)
      → HasReadableTimes codecs token
      → Holds host key codecs owners w m
      → Refines (Call.upsert id token) w m
  unfolding call sqlite_token_store spec
  upsert-Refines id token w m times h = elim (Bool-cases (owners id)) [
    | inl parent ↦
        let (access, refresh, a, r, stored) =
          upsert_lem host key id laws token w h.free (healthy (w.answers + 1 + 1))
            (h.owned id ∙ parent) in
        rw (stored, parent)
          (
            refl,
            record {
              free = h.free;
              rows =
                  put-Represents host key codecs _ id token w.tokens m
                    (times, access, refresh, refl, a, r) h.rows;
              owned = h.owned;
            },
          )
    | inr orphan ↦
        rw (upsert_orphan id token w h.free (h.owned id ∙ orphan), orphan)
          (refl, record { free = h.free; rows = h.rows; owned = h.owned })
  ]

  delete_lem :
      (id : String) (w : World)
      → w.poisoned ≡ false
      → Tokens.delete host id w ≡ (
        ok tt,
        record w {
          answers = w.answers + 1;
          db = record w.db { tokens = select (λ r. not (owned_by id r)) w.tokens };
        },
      )
  unfolding Tokens.delete lock
  delete_lem id w free = ground (arith, healthy w.answers)

  list_inactive_read :
      (cutoff : ℕ) (w : World)
      → w.poisoned ≡ false
      → Tokens.list_inactive host cutoff w ≡ (
        ok (
            map
              (λ (r : TokenRow). r.account_id)
              (host.order_inactive (select (is_inactive (host.to_rfc3339 cutoff)) w.tokens))),
        record w { answers = w.answers + 1 },
      )
  unfolding Tokens.list_inactive lock
  list_inactive_read cutoff w free = ground (arith, healthy w.answers)

  call-Refines :
      (c : Call) (w : World) (m : Entries)
      → HasReadableCall codecs c
      → Holds host key codecs owners w m
      → Refines c w m
  unfolding call sqlite_token_store spec
  call-Refines (Call.get id) w m times h = get-Refines id w m h
  call-Refines (Call.upsert id token) w m times h = upsert-Refines id token w m times h
  call-Refines (Call.delete id) w m times h = rw (delete_lem id w h.free) (
    refl,
    record {
      free = h.free;
      rows = remove-Represents host key codecs id w.tokens m h.rows;
      owned = h.owned;
    },
  )
  call-Refines (Call.list_inactive cutoff) w m times h = rw (list_inactive_read cutoff w h.free) (
    λ id.
        all_rows id (select (is_inactive (host.to_rfc3339 cutoff)) w.tokens)
        ∙ ap (occurrences id)
            (idle-Represents host key codecs ordered cutoff times w.tokens m h.rows),
    record { free = h.free; rows = h.rows; owned = h.owned },
  )

  -- Refinement: on any sequence of reads, upserts, deletes and inactivity queries, the SQLite token
  -- store answers what a map from account ids to token sets answers, call by call: a read gives the
  -- token set that the last upsert put there and no delete has removed since, an upsert is refused
  -- exactly where there is no such account, and the query gives the accounts whose token was never
  -- used or was last used before the cutoff, in some order. The table holds the map's entries at
  -- first, the times in it and in the calls are in the years 0 to 9999, the cipher and the codecs
  -- behave as documented, the texts of those times are ordered as the times are, a query returns every
  -- row that it selects, the lock is not poisoned and the SQL engine does not fail.
  pub token_store_refines :
      (calls : List Call) (w : World) (m : Entries)
      → HaveReadableCalls codecs calls
      → Holds host key codecs owners w m
      → AllAgree (answers store calls w) (specified host owners calls m)
  unfolding answers specified
  token_store_refines [] w m times h = tt
  token_store_refines (c ∷ calls) w m (time, times) h =
      let (same, next) = call-Refines c w m time h in
      (same, token_store_refines calls (call store c w).1 (spec host owners c m).1 times next)

-- ===== src/Provider/Inbox/Laws.antt =====
-- The unified inbox (src/provider/mod.rs) against the messages of the single accounts.
use uni_mail.Common.{
  ℕ, ◌≤◌, ◌≡◌, refl, String, Bool, true, false, List, [], ◌∷◌, ◌++◌, map, Option, none, some, take,
  length, select, min, All, All-append, All-take, ◌&&◌, ◌==◌, eq_refl, any, arith, length-take,
}
use uni_mail.Common.Sort.{
  sort_by, is_greater, IsSorted, sort_by_keeps, sort_by-IsSorted, count-sort_by, length-sort_by,
}
use uni_mail.Error.{ok, AppError}
use uni_mail.Exec.{World, caught}
use uni_mail.Exec.Calm.{IsCalm, run_calm, caught-NoPanic}
use uni_mail.Host.{Host}
use uni_mail.Storage.Models.{Account}
use uni_mail.Provider.{Email, UnifiedEmail, EmailProvider}
use uni_mail.Provider.Inbox.{
  parse_time, compare_times, compare_received_desc, by_date, or_empty, with_account, fetch_all,
  aggregate_unified_inbox,
}

compare_times_total :
    (a b : Option ℕ)
    → is_greater (compare_times a b) ≡ true
    → is_greater (compare_times b a) ≡ false
compare_times_total (some a) (some b) h = ground arith
compare_times_total (some a) none h = cc
compare_times_total none (some b) h = refl
compare_times_total none none h = cc

compare_times_trans :
    (a b c : Option ℕ)
    → is_greater (compare_times a b) ≡ false
    → is_greater (compare_times b c) ≡ false
    → is_greater (compare_times a c) ≡ false
compare_times_trans (some a) (some b) (some c) h g = ground arith
compare_times_trans (some a) b none h g = refl
compare_times_trans (some a) none (some c) h g = cc
compare_times_trans none (some b) c h g = cc
compare_times_trans none none (some c) h g = cc
compare_times_trans none none none h g = refl

-- A time of receipt that may stand before another: the later one, and one that is known before one
-- that is missing.
abbrev pub IsNotOlder : Option ℕ → Option ℕ → Type 0
IsNotOlder (some s) (some t) = t ≤ s
IsNotOlder (some s) none = Unit
IsNotOlder none (some t) = ⊥
IsNotOlder none none = Unit

abbrev received : Host → UnifiedEmail → Option ℕ
received host m = parse_time host m.email.received_at

-- Newest first, and those without a readable time of receipt last.
abbrev pub IsNewestFirst : Host → List UnifiedEmail → Type 0
IsNewestFirst host [] = Unit
IsNewestFirst host (m ∷ ms) =
    All (λ n. IsNotOlder (received host m) (received host n)) ms × IsNewestFirst host ms

compare_times-IsNotOlder :
    (s t : Option ℕ) → is_greater (compare_times s t) ≡ false → IsNotOlder s t
compare_times-IsNotOlder (some s) (some t) h = ground arith
compare_times-IsNotOlder (some s) none h = tt
compare_times-IsNotOlder none (some t) h = cc
compare_times-IsNotOlder none none h = tt

All-IsNotOlder :
    (host : Host) (m : UnifiedEmail) (ms : List UnifiedEmail)
    → All (λ n. is_greater (by_date host m n) ≡ false) ms
    → All (λ n. IsNotOlder (received host m) (received host n)) ms
unfolding by_date compare_received_desc
All-IsNotOlder host m [] h = tt
All-IsNotOlder host m (n ∷ ms) (here, more) = (
  compare_times-IsNotOlder (received host m) (received host n) here,
  All-IsNotOlder host m ms more,
)

sorted-IsNewestFirst :
    (host : Host) (ms : List UnifiedEmail) → IsSorted (by_date host) ms → IsNewestFirst host ms
sorted-IsNewestFirst host [] h = tt
sorted-IsNewestFirst host (m ∷ ms) (least, h) =
    (All-IsNotOlder host m ms least, sorted-IsNewestFirst host ms h)

-- The listing of messages never panics, whatever it is asked for.
abbrev pub HasCalmListing : EmailProvider → Type 0
HasCalmListing provider =
    (a : Account) (limit : ℕ) (query : Option String)
    → IsCalm (provider.list_messages a limit query)

-- The messages of one account, from the world in which it is asked.
abbrev pub messages_of : EmailProvider → ℕ → Account → World → List UnifiedEmail
messages_of provider limit a w =
    map (with_account a) (or_empty (provider.list_messages a limit none w).0)

-- The messages of all accounts, each asked in the world that the one before it leaves; one that
-- fails gives none.
abbrev pub all_messages : EmailProvider → ℕ → List Account → World → List UnifiedEmail
all_messages provider limit [] w = []
all_messages provider limit (a ∷ rest) w =
    messages_of provider limit a w
    ++ all_messages provider limit rest (provider.list_messages a limit none w).1

fetch_all_lem :
    (provider : EmailProvider) (calm : HasCalmListing provider) (limit : ℕ)
    (accounts : List Account) (w : World)
    → (fetch_all provider limit accounts w).0 ≡ ok (all_messages provider limit accounts w)
unfolding fetch_all
fetch_all_lem provider calm limit [] w = refl
fetch_all_lem provider calm limit (a ∷ rest) w =
    let r = (provider.list_messages a limit none w).0 in
    let w₁ = (provider.list_messages a limit none w).1 in
    let answered : caught {F = AppError} r ≡ ok r =
      caught-NoPanic r (run_calm (provider.list_messages a limit none) (calm a limit none) w) in
    ground (arith, answered, fetch_all_lem provider calm limit rest w₁)

-- A message names one of the accounts, by its id and its email.
abbrev pub names_account : UnifiedEmail → Account → Bool
names_account m a = (a.id == m.account.id) && (a.email_address == m.account.email)

abbrev pub IsOwned : List Account → UnifiedEmail → Type 0
IsOwned accounts m = any (names_account m) accounts ≡ true

IsOwned-head :
    (a : Account) (rest : List Account) (messages : List Email)
    → All (IsOwned (a ∷ rest)) (map (with_account a) messages)
unfolding any
IsOwned-head a rest [] = tt
IsOwned-head a rest (m ∷ messages) =
    (ground (arith, eq_refl a.id, eq_refl a.email_address), IsOwned-head a rest messages)

IsOwned-tail :
    (a : Account) (rest : List Account) (messages : List UnifiedEmail)
    → All (IsOwned rest) messages
    → All (IsOwned (a ∷ rest)) messages
unfolding any
IsOwned-tail a rest [] h = tt
IsOwned-tail a rest (m ∷ messages) (here, more) = (ground arith, IsOwned-tail a rest messages more)

all_messages-IsOwned :
    (provider : EmailProvider) (limit : ℕ) (accounts : List Account) (w : World)
    → All (IsOwned accounts) (all_messages provider limit accounts w)
all_messages-IsOwned provider limit [] w = tt
all_messages-IsOwned provider limit (a ∷ rest) w =
    let w₁ = (provider.list_messages a limit none w).1 in
    All-append (IsOwned (a ∷ rest)) (messages_of provider limit a w)
      (all_messages provider limit rest w₁)
      (
        IsOwned-head a rest (or_empty (provider.list_messages a limit none w).0),
        IsOwned-tail a rest _ (all_messages-IsOwned provider limit rest w₁),
      )

module _ (host : Host) (provider : EmailProvider) (calm : HasCalmListing provider) where
  -- Where listing messages never panics, the unified inbox always returns: with the first `limit`
  -- entries of a list in which no message is older than a later one and undated messages come last,
  -- and that holds each kind of message as often as the accounts that answered gave it. It has
  -- `limit` entries, or all if there are fewer.
  pub aggregate_lem :
      (accounts : List Account) (limit : ℕ) (p : UnifiedEmail → Bool) (w : World)
      → ((aggregate_unified_inbox host provider accounts limit w).0
          ≡ ok (take limit (sort_by (by_date host) (all_messages provider limit accounts w))))
        × IsNewestFirst host (sort_by (by_date host) (all_messages provider limit accounts w))
        × (length (select p (sort_by (by_date host) (all_messages provider limit accounts w)))
            ≡ length (select p (all_messages provider limit accounts w)))
        × (length (take limit (sort_by (by_date host) (all_messages provider limit accounts w)))
            ≡ min limit (length (all_messages provider limit accounts w)))
  unfolding aggregate_unified_inbox by_date compare_received_desc
  aggregate_lem accounts limit p w =
      let fetched = all_messages provider limit accounts w in
      let key = λ (m : UnifiedEmail). parse_time host m.email.received_at in
      (
        rw (fetch_all_lem provider calm limit accounts w) refl,
        sorted-IsNewestFirst host (sort_by (by_date host) fetched) (
            sort_by-IsSorted (by_date host) (λ x y h. compare_times_total (key x) (key y) h)
              (λ x y z h g. compare_times_trans (key x) (key y) (key z) h g) fetched),
        count-sort_by (by_date host) p fetched,
        rw
            (
              length-take limit (sort_by (by_date host) fetched),
              length-sort_by (by_date host) fetched,
            )
            refl,
      )

  -- Every message of a unified inbox names one of the accounts that were asked, by its id and its
  -- email, where listing messages never panics.
  pub aggregate-IsOwned :
      (accounts : List Account) (limit : ℕ) (inbox : List UnifiedEmail) (w : World)
      → (aggregate_unified_inbox host provider accounts limit w).0 ≡ ok inbox
      → All (IsOwned accounts) inbox
  unfolding aggregate_unified_inbox
  aggregate-IsOwned accounts limit inbox w h =
      let fetched = all_messages provider limit accounts w in
      let same : take limit (sort_by (by_date host) fetched) ≡ inbox =
        ground (arith, fetch_all_lem provider calm limit accounts w) in
      rw (← same) (
        All-take (IsOwned accounts) limit (sort_by (by_date host) fetched) (
          sort_by_keeps (by_date host) (IsOwned accounts) fetched
            (all_messages-IsOwned provider limit accounts w)))

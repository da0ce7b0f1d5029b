-- ===== src/Storage/Isolation/Owners.antt =====
-- Whose account an id is (src/storage/accounts.rs): the ids that the account store gives to a tenant
-- are those of no other tenant's account.
use uni_mail.Common.{
  ◌≡◌, refl, sym, ◌∙◌, String, true, false, false≢true, List, [], ◌∷◌, arith, ◌==◌, eq_iff, eq_refl,
  select, any, All, All-map, All-weaken, map, Bool-cases, inl, inr,
}
use uni_mail.Error.{ok}
use uni_mail.Exec.{World, lock}
use uni_mail.Host.{Host}
use uni_mail.Storage.Models.{Account, AccountRow}
use uni_mail.Storage.Tokens.{has_account}
use uni_mail.Storage.Accounts
use uni_mail.Storage.Accounts.{conflicts, has_id, of_tenant, of_row, to_row, query_accounts}
use uni_mail.Storage.Accounts.Laws.{of_others, get_sound}
use uni_mail.Storage.Accounts.Removal.{any_of-IsInTable, get-IsInTable}
use uni_mail.Storage.Accounts.Frame.{create_conflict}
use uni_mail.Storage.Consistency.{IsDistinct}
use uni_mail.Storage.Isolation.{IsForeignTo}

apart :
    (t id : String) (r : AccountRow) (rows : List AccountRow)
    → r.id ≡ id
    → any (conflicts r) rows ≡ false
    → has_account id (of_others t rows) ≡ false
unfolding any select conflicts
apart t id r [] same h = refl
apart t id r (s ∷ rows) same h =
    ground (arith, apart t id r rows same, eq_iff s.id id, eq_iff s.id r.id)

meets :
    (t id : String) (r : AccountRow) (rows : List AccountRow)
    → r.id ≡ id
    → any (has_id t id) rows ≡ true
    → any (conflicts r) rows ≡ true
unfolding any conflicts
meets t id r [] same h = h
meets t id r (s ∷ rows) same h =
    ground (arith, meets t id r rows same, eq_iff s.id id, eq_iff s.id r.id)

-- With unique keys, the id of an account of a tenant is that of no other tenant's account.
pub own_id :
    (t id : String) (rows : List AccountRow)
    → IsDistinct conflicts rows
    → any (has_id t id) rows ≡ true
    → has_account id (of_others t rows) ≡ false
unfolding any select
own_id t id [] h there = refl
own_id t id (r ∷ rows) (alone, h) there = elim (Bool-cases (r.id == id)) [
  | inl same ↦ elim (Bool-cases (of_tenant t r)) [
    | inl own ↦ ground (arith, apart t id r rows ((eq_iff r.id id).0 same) alone)
    | inr other ↦
        absurd (false≢true (sym alone ∙ meets t id r rows ((eq_iff r.id id).0 same) (ground arith)))
  ]
  | inr different ↦ ground (arith, own_id t id rows h)
]

-- Documented behaviour of ORDER BY: it returns no row but those that it orders.
pub record HasOrder (host : Host) : Type 1 where
  pub sorts :
      (P : AccountRow → Type 0) (rows : List AccountRow)
      → All P rows
      → All P (host.order_by_updated rows)

-- The rows of a tenant are in the table.
listed_rows :
    (t : String) (table rows : List AccountRow)
    → ((id : String) → any (has_id t id) rows ≡ true → any (has_id t id) table ≡ true)
    → All (λ r. any (has_id t r.id) table ≡ true) (select (of_tenant t) rows)
unfolding any select
listed_rows t table [] inside = tt
listed_rows t table (r ∷ rows) inside =
    let rest = listed_rows t table rows (λ id h. inside id (ground arith)) in
    elim (Bool-cases (of_tenant t r)) [
      | inl own ↦ rw own (inside r.id (ground (arith, eq_refl r.id)), rest)
      | inr other ↦ rw other rest
    ]

module _ (host : Host) (tenant : String) (w : World) (keys : IsDistinct conflicts w.accounts) where
  -- Whoever is found for a tenant shares no id with another tenant's account.
  pub get-IsForeignTo :
      (id : String) (a : Account)
      → (Accounts.get host tenant id w).0 ≡ ok a
      → IsForeignTo tenant w.db a.id
  get-IsForeignTo id a found =
      let (owner, same) = get_sound host tenant id a w found in
      own_id tenant a.id w.accounts keys
        (rw (← owner) (any_of-IsInTable a w.accounts (get-IsInTable host tenant id a w found)))

  pub list-IsForeignTo :
      (order : HasOrder host) (accounts : List Account)
      → (Accounts.list host tenant w).0 ≡ ok accounts
      → All (λ a. IsForeignTo tenant w.db a.id) accounts
  unfolding Accounts.list query_accounts lock of_row
  list-IsForeignTo order accounts listed =
      let rows = host.order_by_updated (select (of_tenant tenant) w.accounts) in
      let same : map of_row rows ≡ accounts = ground arith in
      rw (← same) (
        All-map (λ a. IsForeignTo tenant w.db a.id) of_row rows
          (order.sorts _ _ (
            All-weaken _ _ (λ r. own_id tenant r.id w.accounts keys) _
              (listed_rows tenant w.accounts w.accounts (λ id h. h)))))

-- An account that is created is new: no row has its id.
module _ (host : Host) (tenant : String) (w : World) where
  pub create-IsForeignTo :
      (a : Account) → (Accounts.create host a w).0 ≡ ok tt → IsForeignTo tenant w.db a.id
  unfolding to_row
  create-IsForeignTo a done = elim (Bool-cases (any (conflicts (to_row a)) w.accounts)) [
    | inl taken ↦ absurd (create_conflict host a w taken done)
    | inr free ↦ apart tenant a.id (to_row a) w.accounts refl free
  ]

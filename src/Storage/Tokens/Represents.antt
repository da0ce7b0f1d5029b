-- ===== src/Storage/Tokens/Represents.antt =====
-- The rows of src/storage/tokens.rs that hold a map from account ids to token sets.
use mathlib.Core.Option
use mathlib.Core.Path.{subst}
use uni_mail.Common.{
  ◌≡◌, refl, ap, ◌∙◌, ℕ, String, List, [], ◌∷◌, map, Option, none, some, arith, ◌==◌, eq_iff, not,
  find, select, Bool-cases, inl, inr,
}
use uni_mail.Error.{ok}
use uni_mail.Host.{Host}
use uni_mail.Storage.Models.{TokenRow}
use uni_mail.Storage.Crypto.{decrypt}
use uni_mail.Storage.Tokens.{StoredToken, owned_by, put_row, is_inactive}
use uni_mail.Storage.Tokens.Laws.{HasCodecs, IsFourDigit, IsReadable, HasReadableTimes, row_of}
use Prim.Native.Nat.{compare}
use Prim.Native.String.{compare as compare_text}
use uni_mail.Storage.Tokens.Spec.{Entries, fetch, put, remove, is_idle, idle}

-- The order of chrono's RFC 3339 texts in UTC, for times in the years 0 to 9999.
abbrev pub HasOrderedTimes : {host : Host} → HasCodecs host → Type 0
HasOrderedTimes {host} codecs =
    (s t : ℕ)
    → IsFourDigit codecs s
    → IsFourDigit codecs t
    → compare_text (host.to_rfc3339 s) (host.to_rfc3339 t) ≡ compare s t

module _ (host : Host) (key : List ℕ) (codecs : HasCodecs host) where
  -- The row was written for the account and its token set, whose times can be read back.
  abbrev pub IsRowOf : TokenRow → String → StoredToken → Type 0
  IsRowOf row id token =
      HasReadableTimes codecs token
      × (access : List ℕ) × (refresh : List ℕ) × (row ≡ row_of host key id token access refresh)
      × (decrypt host key access ≡ ok (host.as_bytes token.access_token))
      × (decrypt host key refresh ≡ ok (host.as_bytes token.refresh_token))

  -- The table holds the map, entry by entry.
  abbrev pub Represents : List TokenRow → Entries → Type 0
  Represents [] [] = Unit
  Represents [] (e ∷ m) = ⊥
  Represents (r ∷ rows) [] = ⊥
  Represents (r ∷ rows) ((id, token) ∷ m) = IsRowOf r id token × Represents rows m

  abbrev pub FoundRow : Option TokenRow → String → Option StoredToken → Type 0
  FoundRow none id none = Unit
  FoundRow none id (some token) = ⊥
  FoundRow (some row) id none = ⊥
  FoundRow (some row) id (some token) = IsRowOf row id token

  row_id :
      (row : TokenRow) (id : String) (token : StoredToken)
      → IsRowOf row id token
      → row.account_id ≡ id
  row_id row id token (_, access, refresh, e, _, _) = ap (λ (r : TokenRow). r.account_id) e

  pub find-Represents :
      (id : String) (rows : List TokenRow) (m : Entries)
      → Represents rows m
      → FoundRow (find (owned_by id) rows) id (fetch id m)
  unfolding find fetch
  find-Represents id [] [] h = tt
  find-Represents id [] (e ∷ m) h = absurd h
  find-Represents id (r ∷ rows) [] h = absurd h
  find-Represents id (r ∷ rows) ((j, token) ∷ m) (here, more) =
      let same : (r.account_id == id) ≡ (j == id) = ap (λ s. s == id) (row_id r j token here) in
      elim (Bool-cases (j == id)) [
        | inl hit ↦ rw (same ∙ hit, hit) (subst (λ s. IsRowOf r s token) ((eq_iff j id).0 hit) here)
        | inr miss ↦ rw (same ∙ miss, miss) (find-Represents id rows m more)
      ]

  pub put-Represents :
      (row : TokenRow) (id : String) (token : StoredToken) (rows : List TokenRow) (m : Entries)
      → IsRowOf row id token
      → Represents rows m
      → Represents (put_row row rows) (put id token m)
  unfolding put_row put
  put-Represents row id token [] [] new h = (new, tt)
  put-Represents row id token [] (e ∷ m) new h = absurd h
  put-Represents row id token (r ∷ rows) [] new h = absurd h
  put-Represents row id token (r ∷ rows) ((j, old) ∷ m) new (here, more) =
      let same : (r.account_id == row.account_id) ≡ (j == id) =
        ap (λ s. s == row.account_id) (row_id r j old here)
        ∙ ap (λ s. j == s) (row_id row id token new) in
      elim (Bool-cases (j == id)) [
        | inl hit ↦ rw (same ∙ hit, hit) (new, more)
        | inr miss ↦ rw (same ∙ miss, miss) (here, put-Represents row id token rows m new more)
      ]

  pub remove-Represents :
      (id : String) (rows : List TokenRow) (m : Entries)
      → Represents rows m
      → Represents (select (λ r. not (owned_by id r)) rows) (remove id m)
  unfolding select remove
  remove-Represents id [] [] h = tt
  remove-Represents id [] (e ∷ m) h = absurd h
  remove-Represents id (r ∷ rows) [] h = absurd h
  remove-Represents id (r ∷ rows) ((j, token) ∷ m) (here, more) =
      let same : (r.account_id == id) ≡ (j == id) = ap (λ s. s == id) (row_id r j token here) in
      elim (Bool-cases (j == id)) [
        | inl hit ↦ rw (same ∙ hit, hit) (remove-Represents id rows m more)
        | inr miss ↦ rw (same ∙ miss, miss) (here, remove-Represents id rows m more)
      ]

  module _ (ordered : HasOrderedTimes codecs) (cutoff : ℕ) (valid : IsFourDigit codecs cutoff) where
    idle-row :
        (row : TokenRow) (id : String) (token : StoredToken)
        → IsRowOf row id token
        → is_inactive (host.to_rfc3339 cutoff) row ≡ is_idle cutoff token.last_used_at
    unfolding is_inactive
    idle-row row id token ((_, last_used, _), access, refresh, e, _, _) =
        ap (is_inactive (host.to_rfc3339 cutoff)) e ∙ used token.last_used_at last_used
      where
        used :
            (o : Option ℕ)
            → IsReadable codecs o
            → is_inactive
                (host.to_rfc3339 cutoff)
                (record (row_of host key id token access refresh) {
                  last_used_at = Option.map host.to_rfc3339 o;
                })
              ≡ is_idle cutoff o
        used none h = refl
        used (some t) h = ground (arith, ordered t cutoff h valid)

    pub idle-Represents :
        (rows : List TokenRow) (m : Entries)
        → Represents rows m
        → map (λ (r : TokenRow). r.account_id) (select (is_inactive (host.to_rfc3339 cutoff)) rows)
          ≡ idle cutoff m
    unfolding select idle
    idle-Represents [] [] h = refl
    idle-Represents [] (e ∷ m) h = absurd h
    idle-Represents (r ∷ rows) [] h = absurd h
    idle-Represents (r ∷ rows) ((id, token) ∷ m) (here, more) =
        ground
          (arith, idle-row r id token here, row_id r id token here, idle-Represents rows m more)

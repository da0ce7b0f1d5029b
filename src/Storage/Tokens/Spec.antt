-- ===== src/Storage/Tokens/Spec.antt =====
-- The token store of src/storage/tokens.rs as a map from account ids to token sets: what it promises.
use uni_mail.Common.{
  ℕ, suc, ◌≡◌, String, Bool, true, List, [], ◌∷◌, Option, none, some, ◌==◌, ltb, not, select,
  if◌then◌else◌,
}
use uni_mail.Error.{Outcome, ok, err, AppError, storage}
use uni_mail.Host.{Host}
use uni_mail.Storage.Tokens.{StoredToken}
use uni_mail.Storage.Tokens.Store.{Call, Answer, found, done, ids}
use uni_mail.Storage.Tokens.Laws.{HasCodecs, IsFourDigit, HasReadableTimes}

-- A map from account ids to token sets.
abbrev pub Entries : Type 0
Entries = List (String × StoredToken)

unfoldable pub fetch : String → Entries → Option StoredToken
fetch id [] = none
fetch id ((j, token) ∷ m) = if j == id then some token else fetch id m

unfoldable pub put : String → StoredToken → Entries → Entries
put id token [] = (id, token) ∷ []
put id token ((j, old) ∷ m) = if j == id then (id, token) ∷ m else (j, old) ∷ put id token m

unfoldable pub remove : String → Entries → Entries
remove id m = select (λ (e : String × StoredToken). not (e.0 == id)) m

-- Never used, or last used before the cutoff.
abbrev pub is_idle : ℕ → Option ℕ → Bool
is_idle cutoff none = true
is_idle cutoff (some used) = ltb used cutoff

unfoldable pub idle : ℕ → Entries → List String
idle cutoff [] = []
idle cutoff ((id, token) ∷ m) =
    if is_idle cutoff token.last_used_at then id ∷ idle cutoff m else idle cutoff m

-- How often an id stands in a list.
unfoldable pub occurrences : String → List String → ℕ
occurrences id [] = 0
occurrences id (j ∷ rest) = if j == id then suc (occurrences id rest) else occurrences id rest

-- Two answers agree: they are equal, but for the order of the ids that a query gives.
abbrev pub Agree : Outcome AppError Answer → Outcome AppError Answer → Type 0
Agree (ok (ids xs)) (ok (ids ys)) = (id : String) → occurrences id xs ≡ occurrences id ys
Agree r s = r ≡ s

abbrev pub AllAgree : List (Outcome AppError Answer) → List (Outcome AppError Answer) → Type 0
AllAgree [] [] = Unit
AllAgree (r ∷ rs) (s ∷ ss) = Agree r s × AllAgree rs ss
AllAgree _ _ = ⊥

-- The times that a call is given are in the years 0 to 9999.
abbrev pub HasReadableCall : {host : Host} → HasCodecs host → Call → Type 0
HasReadableCall codecs (Call.get id) = Unit
HasReadableCall codecs (Call.upsert id token) = HasReadableTimes codecs token
HasReadableCall codecs (Call.delete id) = Unit
HasReadableCall codecs (Call.list_inactive cutoff) = IsFourDigit codecs cutoff

abbrev pub HaveReadableCalls : {host : Host} → HasCodecs host → List Call → Type 0
HaveReadableCalls codecs [] = Unit
HaveReadableCalls codecs (c ∷ calls) = HasReadableCall codecs c × HaveReadableCalls codecs calls

-- What a call answers, and the map behind it. A token needs an account, which `owners` knows.
unfoldable pub spec : Host → (String → Bool) → Call → Entries → Outcome AppError Answer × Entries
spec host owners (Call.get id) m = (ok (found (fetch id m)), m)
spec host owners (Call.upsert id token) m =
    if owners id then (ok done, put id token m) else (err (storage host.foreign_key_error), m)
spec host owners (Call.delete id) m = (ok done, remove id m)
spec host owners (Call.list_inactive cutoff) m = (ok (ids (idle cutoff m)), m)

unfoldable pub specified :
    Host → (String → Bool) → List Call → Entries → List (Outcome AppError Answer)
unfolding spec
specified host owners [] m = []
specified host owners (c ∷ calls) m =
    let (r, m') = spec host owners c m in r ∷ specified host owners calls m'

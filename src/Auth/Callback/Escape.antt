-- ===== src/Auth/Callback/Escape.antt =====
-- HTML escaping (`escape_html` of src/auth/callback.rs), against escaping character by character.
use Prim.Native.Char.{Char, code}
use Prim.Native.String.{String, [], ◌∷◌, ◌++◌}
use text.Mathlib.TextLemmas.{nil-append, cons-append, append_assoc}
use uni_mail.Common.{ℕ, ◌≡◌, ◌≢◌, refl, arith, eqb, if◌then◌else◌, Bool-cases, inl, inr}
use uni_mail.Text.{replace}
use uni_mail.Auth.Callback.{escape_html}

-- What one character becomes.
unfoldable pub entity : Char → String
entity c =
    if eqb (code c) b'&'
    then "&amp;"
    else if eqb (code c) b'<'
    then "&lt;"
    else if eqb (code c) b'>'
    then "&gt;"
    else if eqb (code c) b'"'
    then "&quot;"
    else c ∷ []

-- The same in one pass.
unfoldable pub escape_once : String → String
escape_once [] = []
escape_once (c ∷ s) = entity c ++ escape_once s

pub replace-append :
    (c : ℕ) (with s t : String) → replace c with (s ++ t) ≡ replace c with s ++ replace c with t
unfolding replace
replace-append c with [] t = simp nil-append
replace-append c with (d ∷ s) t = elim (Bool-cases (eqb (code d) c)) [
  | inl hit ↦ simp (cons-append, hit, replace-append c with s t, append_assoc)
  | inr miss ↦ simp (cons-append, miss, replace-append c with s t)
]

single-append : (c : Char) (s : String) → (c ∷ []) ++ s ≡ c ∷ s
single-append c s = simp (cons-append, nil-append)

-- Four replacements in a row, each behind the one before it, are one pass.
pub escape_html-eq-escape_once : (s : String) → escape_html s ≡ escape_once s
unfolding escape_html escape_once entity replace
escape_html-eq-escape_once [] = refl
escape_html-eq-escape_once (c ∷ s) =
    let r₁ = replace b'&' "&amp;" s in
    let r₂ = replace b'<' "&lt;" r₁ in
    let r₃ = replace b'>' "&gt;" r₂ in
    ground (
      arith,
      escape_html-eq-escape_once s,
      single-append c (escape_once s),
      replace-append b'<' "&lt;" "&amp;" r₁,
      replace-append b'>' "&gt;" "&amp;" r₂,
      replace-append b'"' "&quot;" "&amp;" r₃,
      replace-append b'>' "&gt;" "&lt;" r₂,
      replace-append b'"' "&quot;" "&lt;" r₃,
      replace-append b'"' "&quot;" "&gt;" r₃,
    )

-- No character that HTML could read as markup or as the end of a quoted attribute.
abbrev pub IsInert : String → Type 0
IsInert [] = Unit
IsInert (c ∷ s) = (code c ≢ b'<') × (code c ≢ b'>') × (code c ≢ b'"') × IsInert s

IsInert-append : (s t : String) → IsInert s → IsInert t → IsInert (s ++ t)
IsInert-append [] t hs ht = rw nil-append ht
IsInert-append (c ∷ s) t (lt, gt, quot, hs) ht =
    rw cons-append (lt, gt, quot, IsInert-append s t hs ht)

entity-IsInert : (c : Char) → IsInert (entity c)
unfolding entity
entity-IsInert c = elim (Bool-cases (eqb (code c) b'&')) [
  | inl h ↦ rw h (ground arith)
  | inr amp ↦ elim (Bool-cases (eqb (code c) b'<')) [
    | inl h ↦ rw (amp, h) (ground arith)
    | inr lt ↦ elim (Bool-cases (eqb (code c) b'>')) [
      | inl h ↦ rw (amp, lt, h) (ground arith)
      | inr gt ↦ elim (Bool-cases (eqb (code c) b'"')) [
        | inl h ↦ rw (amp, lt, gt, h) (ground arith)
        | inr quot ↦ rw (amp, lt, gt, quot) (ground arith, ground arith, ground arith, tt)
      ]
    ]
  ]
]

escape_once-IsInert : (s : String) → IsInert (escape_once s)
unfolding escape_once
escape_once-IsInert [] = tt
escape_once-IsInert (c ∷ s) = IsInert-append (entity c) _ (entity-IsInert c) (escape_once-IsInert s)

-- Escaped text holds no "<", no ">" and no double quote, whatever it was made from.
pub escape_html-IsInert : (s : String) → IsInert (escape_html s)
escape_html-IsInert s = rw escape_html-eq-escape_once (escape_once-IsInert s)

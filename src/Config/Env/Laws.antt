-- ===== src/Config/Env/Laws.antt =====
-- A configuration that is loaded (`Config::from_env` of src/config.rs).
use uni_mail.Common.{
  ℕ, ◌≡◌, ◌<◌, ◌^◌, refl, sym, ◌∙◌, String, false, List, Option, none, some, length, ◌==◌, eqb,
  eqb_iff, arith, if◌then◌else◌, Bool-cases, Option-cases, inl, inr,
}
use Prim.Native.Char.{code}
use Prim.Native.String.{[], ◌∷◌}
use uni_mail.Error.{Outcome, ok, err, panic, AppError}
use uni_mail.Text.{trim}
use uni_mail.Config.{Config, env, parse_key, from_base64, from_hex}
use uni_mail.Config.Hex.{hex_decode, hex_decode_sound}
use uni_mail.Config.Numbers.{natural, parse_u64, below}
use uni_mail.Config.Env.{and_then, settings, from_env, parsed_or, ok_of}

-- The variable has this value, which is not blank.
abbrev pub IsGiven : (String → Option String) → String → String → Type 0
IsGiven variables name value = (variables name ≡ some value) × ((trim value == "") ≡ false)

pub and_then-eq-ok :
    {A B : Type 0} (r : Outcome AppError A) (f : A → Outcome AppError B) {b : B}
    → and_then r f ≡ ok b
    → (a : A) × (r ≡ ok a) × (f a ≡ ok b)
and_then-eq-ok (ok a) f h = (a, refl, h)
and_then-eq-ok (err e) f h = cc
and_then-eq-ok (panic text) f h = cc

env-IsGiven :
    (variables : String → Option String) (name value : String)
    → env variables name ≡ ok value
    → IsGiven variables name value
unfolding env
env-IsGiven variables name value h = ground arith

below_bound : (bound : ℕ) (o : Option ℕ) (n : ℕ) → below bound o ≡ some n → n < bound
below_bound bound none n h = cc
below_bound bound (some k) n h = ground arith

parse_u64_bound : (s : String) (n : ℕ) → parse_u64 s ≡ some n → n < 2 ^ 64
unfolding parse_u64
parse_u64_bound [] n h = cc
parse_u64_bound (c ∷ s) n h =
    below_bound (2 ^ 64) (if eqb (code c) b'+' then natural s else natural (c ∷ s)) n h

from_base64_size : (o : Option (List ℕ)) (key : List ℕ) → from_base64 o ≡ ok key → length key ≡ 32
from_base64_size none key h = cc
from_base64_size (some decoded) key h = ground (arith, eqb_iff (length decoded) 32)

from_hex_size :
    (bytes : List ℕ) (o : Option (List ℕ)) (key : List ℕ)
    → hex_decode 32 bytes ≡ o
    → from_hex o ≡ ok key
    → length key ≡ 32
from_hex_size bytes none key e h = cc
from_hex_size bytes (some decoded) key e h =
    let (size, small) = hex_decode_sound 32 bytes decoded e in
    let same : decoded ≡ key = cc in rw (← same) size

parse_key_size :
    (base64 : String → Option (List ℕ)) (as_bytes : String → List ℕ) (raw : String) (key : List ℕ)
    → parse_key base64 as_bytes raw ≡ ok key
    → length key ≡ 32
unfolding parse_key
parse_key_size base64 as_bytes raw key h =
    let bytes = as_bytes (trim raw) in
    elim (Bool-cases (eqb (length bytes) 64)) [
      | inl hex ↦ from_hex_size bytes (hex_decode 32 bytes) key refl (sym (rw hex refl) ∙ h)
      | inr other ↦ from_base64_size (base64 (trim raw)) key (sym (rw other refl) ∙ h)
    ]

interval_bound : (o : Option String) → parsed_or parse_u64 21600 o < 2 ^ 64
interval_bound none = omega arith
interval_bound (some v) = elim (Option-cases (parse_u64 v)) [
  | inl unread ↦ rw (parsed_or, unread) (omega arith)
  | inr (n, read) ↦ rw (parsed_or, read) (parse_u64_bound v n read)
]

module _ (variables : String → Option String) (base64 : String → Option (List ℕ))
    (as_bytes : String → List ℕ) where
  -- A configuration that loads has the client id and secret of the environment, neither of them
  -- blank, a master key of exactly 32 bytes that is what ENCRYPTION_KEY stands for, and a refresh
  -- interval that fits an unsigned 64-bit integer.
  pub from_env_sound :
      (c : Config)
      → from_env variables base64 as_bytes ≡ ok c
      → IsGiven variables "CLIENT_ID" c.client_id
        × IsGiven variables "CLIENT_SECRET" c.client_secret
        × ((raw : String) × IsGiven variables "ENCRYPTION_KEY" raw
            × (parse_key base64 as_bytes raw ≡ ok c.encryption_key))
        × (length c.encryption_key ≡ 32)
        × (c.refresh_interval_secs < 2 ^ 64)
  unfolding from_env settings
  from_env_sound c h =
      let (id, e₁, h₁) = and_then-eq-ok (env variables "CLIENT_ID") _ h in
      let (secret, e₂, h₂) = and_then-eq-ok (env variables "CLIENT_SECRET") _ h₁ in
      let (raw, e₃, h₃) = and_then-eq-ok (env variables "ENCRYPTION_KEY") _ h₂ in
      let (key, e₄, h₄) = and_then-eq-ok (parse_key base64 as_bytes raw) _ h₃ in
      let same : settings variables base64 as_bytes id secret key ≡ c = cc in
      rw (← same) (
        env-IsGiven variables "CLIENT_ID" id e₁,
        env-IsGiven variables "CLIENT_SECRET" secret e₂,
        (raw, env-IsGiven variables "ENCRYPTION_KEY" raw e₃, e₄),
        parse_key_size base64 as_bytes raw key e₄,
        interval_bound (ok_of (env variables "REFRESH_INTERVAL_SECS")),
      )

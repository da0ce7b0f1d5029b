-- ===== src/Config/Hex.antt =====
-- src/config.rs: the hexadecimal form of the master key.
use uni_mail.Common.{
  Option-cases, Bool-cases, inl, inr, ℕ, ◌+◌, ◌*◌, ◌-◌, ◌/◌, ◌%◌, ◌<◌, ◌≡◌, refl, ◌&&◌, List, [],
  ◌∷◌, Option, none, some, leb, eqb, length, All, arith, if◌then◌else◌,
}

-- `hex_val`
unfoldable pub hex_val : ℕ → Option ℕ
hex_val c =
    if leb b'0' c && leb c b'9'
    then some (c - b'0')
    else if leb b'a' c && leb c b'f'
    then some (c - b'a' + 10)
    else if leb b'A' c && leb c b'F'
    then some (c - b'A' + 10)
    else none

-- `(hex_val(hi)? << 4) | hex_val(lo)?`: the two digits do not overlap, so the bits add up.
unfoldable pub hex_byte : ℕ → ℕ → Option ℕ
unfolding hex_val
hex_byte hi lo = elim (hex_val hi) [
  | none ↦ none
  | some h ↦ elim (hex_val lo) [ none ↦ none | some l ↦ some (h * 16 + l) ]
]

abbrev cons_byte : Option ℕ → Option (List ℕ) → Option (List ℕ)
cons_byte none rest = none
cons_byte (some b) none = none
cons_byte (some b) (some bs) = some (b ∷ bs)

-- The loop of `hex_decode`: two digits for each byte of the output.
unfoldable pub hex_bytes : List ℕ → Option (List ℕ)
unfolding hex_byte
hex_bytes [] = some []
hex_bytes (hi ∷ []) = none
hex_bytes (hi ∷ lo ∷ rest) = cons_byte (hex_byte hi lo) (hex_bytes rest)

-- `hex_decode` into an output of `size` bytes
unfoldable pub hex_decode : ℕ → List ℕ → Option (List ℕ)
unfolding hex_bytes
hex_decode size input = if eqb (length input) (size * 2) then hex_bytes input else none

-- A digit in the form that `openssl rand -hex` prints.
unfoldable pub hex_digit : ℕ → ℕ
hex_digit d = if leb d 9 then b'0' + d else b'a' + (d - 10)

-- The hexadecimal text of a key.
unfoldable pub hex_encode : List ℕ → List ℕ
unfolding hex_digit
hex_encode [] = []
hex_encode (b ∷ bs) = hex_digit (b / 16) ∷ hex_digit (b % 16) ∷ hex_encode bs

hex_val-hex_digit : (d : ℕ) → d < 16 → hex_val (hex_digit d) ≡ some d
unfolding hex_val hex_digit
hex_val-hex_digit d h = ground arith

hex_byte-hex_digit : (b : ℕ) → b < 256 → hex_byte (hex_digit (b / 16)) (hex_digit (b % 16)) ≡ some b
unfolding hex_byte
hex_byte-hex_digit b h =
    ground
      (arith, hex_val-hex_digit (b / 16) (omega arith), hex_val-hex_digit (b % 16) (omega arith))

length-hex_encode : (key : List ℕ) → length (hex_encode key) ≡ length key * 2
unfolding hex_encode
length-hex_encode [] = refl
length-hex_encode (b ∷ bs) = omega (arith, length-hex_encode bs)

hex_bytes-hex_encode :
    (key : List ℕ) → All (λ b. b < 256) key → hex_bytes (hex_encode key) ≡ some key
unfolding hex_bytes hex_encode
hex_bytes-hex_encode [] h = refl
hex_bytes-hex_encode (b ∷ bs) h = rw (hex_byte-hex_digit b h.0, hex_bytes-hex_encode bs h.1) refl

-- Round trip: a key of the right size, each entry of it a byte, printed in lower case hexadecimal,
-- is decoded to itself.
pub hex_decode-hex_encode :
    (size : ℕ) (key : List ℕ)
    → length key ≡ size
    → All (λ b. b < 256) key
    → hex_decode size (hex_encode key) ≡ some key
unfolding hex_decode
hex_decode-hex_encode size key fits bytes =
    ground (arith, length-hex_encode key, hex_bytes-hex_encode key bytes)

hex_byte_bound : (hi lo b : ℕ) → hex_byte hi lo ≡ some b → b < 256
unfolding hex_byte hex_val
hex_byte_bound hi lo b h = ground arith

hex_bytes_sound :
    (input key : List ℕ)
    → hex_bytes input ≡ some key
    → (length input ≡ length key * 2) × All (λ b. b < 256) key
unfolding hex_bytes
hex_bytes_sound [] [] h = (refl, tt)
hex_bytes_sound [] (b ∷ bs) h = cc
hex_bytes_sound (hi ∷ []) key h = cc
hex_bytes_sound (hi ∷ lo ∷ rest) key h = elim (Option-cases (hex_byte hi lo)) [
  | inl bad ↦ absurd (ground arith)
  | inr (b, good) ↦ elim (Option-cases (hex_bytes rest)) [
    | inl bad ↦ absurd (ground arith)
    | inr (bs, more) ↦
        let (size, bytes) = hex_bytes_sound rest bs more in
        let whole : b ∷ bs ≡ key = ground arith in
        rw (← whole) (omega arith, (hex_byte_bound hi lo b good, bytes))
  ]
]

-- A decoded key has exactly the size asked for, and each of its entries is a byte.
pub hex_decode_sound :
    (size : ℕ) (input key : List ℕ)
    → hex_decode size input ≡ some key
    → (length key ≡ size) × All (λ b. b < 256) key
unfolding hex_decode
hex_decode_sound size input key h = elim (Bool-cases (eqb (length input) (size * 2))) [
  | inl fits ↦
      let (doubled, bytes) = hex_bytes_sound input key (ground arith) in (ground arith, bytes)
  | inr other ↦ absurd (ground arith)
]

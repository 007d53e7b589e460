-- ===== src/Service/Preimage.antt =====
-- lib/htlc-service-singleton.ts: the test of a secret against the hash lock. The hash itself is a
-- parameter: `keccak_256` of a third-party package, from bytes to bytes.
use cantonbit.Shared.{
  ℕ, ◌+◌, ◌-◌, ◌*◌, ◌/◌, ◌%◌, Bool, false, ◌&&◌, ◌||◌, Option, none, some, List, [], ◌∷◌, ◌++◌,
  Text, ltb, leb, ◌==◌, if◌then◌else◌, is_space, drop, codes, has_prefix, text_eq, is_hex, is_digit,
  to_lower,
}

-- `"0x" + (hex without "0x")`
abbrev pub without_prefix : Text → Text
without_prefix s = if has_prefix (codes "0x") s then drop 2 s else s

abbrev pub normalized : Text → Text
normalized hex = b'0' ∷ b'x' ∷ without_prefix hex

abbrev pub hex_value : ℕ → ℕ
hex_value c =
    if is_digit c
    then c - b'0'
    else if leb b'a' c && leb c b'f'
    then c - b'a' + 10
    else if leb b'A' c && leb c b'F'
    then c - b'A' + 10
    else 0

-- A byte of `parseInt(clean.slice(i * 2, i * 2 + 2), 16)`: blanks and a sign may come first, text after
-- the digits is passed over, and what is no number is stored as 0.
abbrev pub byte_of : ℕ → ℕ → ℕ
byte_of a b =
    if is_hex a
    then (if is_hex b then 16 * hex_value a + hex_value b else hex_value a)
    else if is_space a || a == b'+'
    then hex_value b
    else if a == b'-'
    then (256 - hex_value b) % 256
    else 0

abbrev cons_byte : ℕ → Option (List ℕ) → Option (List ℕ)
cons_byte b none = none
cons_byte b (some bytes) = some (b ∷ bytes)

-- `none` for an odd number of digits.
unfoldable pub bytes_of_hex : Text → Option (List ℕ)
bytes_of_hex [] = some []
bytes_of_hex (a ∷ []) = none
bytes_of_hex (a ∷ b ∷ rest) = cons_byte (byte_of a b) (bytes_of_hex rest)

abbrev pub hex_digit : ℕ → ℕ
hex_digit n = if ltb n 10 then b'0' + n else b'a' + (n - 10)

unfoldable pub to_hex_digits : List ℕ → Text
to_hex_digits [] = []
to_hex_digits (b ∷ bytes) = hex_digit (b / 16) ∷ hex_digit (b % 16) ∷ to_hex_digits bytes

abbrev pub to_hex_lower : List ℕ → Text
to_hex_lower bytes = codes "0x" ++ to_hex_digits bytes

abbrev pub wanted_hash : Text → Text
wanted_hash hash_lock =
    to_lower (if has_prefix (codes "0x") hash_lock then hash_lock else codes "0x" ++ hash_lock)

abbrev pub hashes_to : (List ℕ → List ℕ) → Option (List ℕ) → Text → Bool
hashes_to keccak none hash_lock = false
hashes_to keccak (some bytes) hash_lock =
    text_eq (to_hex_lower (keccak bytes)) (wanted_hash hash_lock)

unfoldable pub preimage_matches : (List ℕ → List ℕ) → Text → Text → Bool
unfolding bytes_of_hex
preimage_matches keccak preimage_hex hash_lock =
    hashes_to keccak (bytes_of_hex (without_prefix preimage_hex)) hash_lock

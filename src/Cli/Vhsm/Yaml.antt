-- ===== src/Cli/Vhsm/Yaml.antt =====
-- How a YAML reader takes the bootstrap entry apart.
use sumo_provision.Base.{
  text_eq, ℕ, ◌≡◌, refl, Bool, true, false, ◌||◌, ◌&&◌, Option, none, some, [], ◌∷◌, ◌++◌, All,
  Text, text, not, nat_eq, leb, if◌then◌else◌, arith,
}
use sumo_provision.Wire.Hash.{Hashing, strip_prefix, IsHexDigit}
use sumo_provision.Cli.Vhsm.{yaml_escape, bootstrap_yaml_fragment, token_sha256_hex}

-- A character that stands for itself between double quotes: no control character.
abbrev pub is_plain : ℕ → Bool
is_plain c = leb 32 c && not (nat_eq c 127)

abbrev before : ℕ → Option (Text × Text) → Option (Text × Text)
before c none = none
before c (some (s, rest)) = some (c ∷ s, rest)

-- The rest of a double-quoted scalar, behind its opening quote: the text that it stands for, and
-- what follows it. The first argument is true behind a backslash; of the escapes of YAML two are read.
unfoldable pub read_quoted : Bool → Text → Option (Text × Text)
read_quoted escaped [] = none
read_quoted true (c ∷ s) =
    let further = read_quoted false s in
    if nat_eq c b'"' || nat_eq c 92 then before c further else none
read_quoted false (c ∷ s) =
    let further = read_quoted false s in
    let escape = read_quoted true s in
    if nat_eq c b'"'
    then some ([], s)
    else if nat_eq c 92
    then escape
    else if is_plain c
    then before c further
    else none

abbrev pub IsPlain : Text → Type 0
IsPlain = All (λ c. is_plain c ≡ true)

read-escape :
    (s rest : Text) → IsPlain s → read_quoted false (yaml_escape s ++ b'"' ∷ rest) ≡ some (s, rest)
unfolding read_quoted yaml_escape
read-escape [] rest h = refl
read-escape (c ∷ s) rest h = ground (arith, read-escape s rest h.1)

read-digits :
    (s rest : Text) → All IsHexDigit s → read_quoted false (s ++ b'"' ∷ rest) ≡ some (s, rest)
unfolding read_quoted
read-digits [] rest h = refl
read-digits (c ∷ s) rest h = ground (arith, read-digits s rest h.1)

infixl 5 ◌>>=◌
abbrev ◌>>=◌ : {A B : Type 0} → Option A → (A → Option B) → Option B
none >>= f = none
some a >>= f = f a

abbrev read_flag : Text → Option Bool
read_flag s =
    if text_eq s (text "false" ++ 10 ∷ [])
    then some false
    else if text_eq s (text "true" ++ 10 ∷ [])
    then some true
    else none

-- An entry of the map `tokens`: its key, the hash, and whether the token is consumed.
unfoldable pub read_entry : Text → Option (Text × Text × Bool)
unfolding read_quoted strip_prefix text_eq
read_entry s = do
  opened ← strip_prefix (text "  \"") s
  key ← read_quoted false opened
  value ← strip_prefix (text ":" ++ (10 ∷ text "    sha256: \"")) key.1
  sha ← read_quoted false value
  flag ← strip_prefix (10 ∷ text "    consumed: ") sha.1
  consumed ← read_flag flag
  some (key.0, sha.0, consumed)

-- X
pub bootstrap-read :
    (hashing : Hashing) (vm_id raw_token : Text)
    → IsPlain vm_id
    → read_entry (bootstrap_yaml_fragment vm_id (token_sha256_hex hashing raw_token))
      ≡ some (vm_id, hashing.hex.encode (hashing.sha256 raw_token), false)
unfolding read_entry bootstrap_yaml_fragment token_sha256_hex
bootstrap-read hashing vm_id raw_token plain =
    let sha = hashing.hex.encode (hashing.sha256 raw_token) in
    let last = 10 ∷ (text "    consumed: false" ++ 10 ∷ []) in
    rw
      (
        read-escape vm_id (text ":" ++ ((10 ∷ text "    sha256: \"") ++ (sha ++ b'"' ∷ last)))
            plain,
        read-digits sha last (hashing.hex.encode_digits (hashing.sha256 raw_token)),
      )
      refl

-- ===== src/Tests/Samples.antt =====
-- A hexadecimal coding and a digest of 32 bytes to run the definitions with, and sample trees.
use sumo_provision.Base.{
  ℕ, zero, suc, ◌+◌, ◌-◌, ◌*◌, ◌/◌, ◌%◌, ◌<◌, ◌≡◌, refl, ap, Bool, true, false, Option, none, some,
  [], ◌∷◌, arith, Text, text, All, length, if◌then◌else◌, ltb, foldl,
}
use sumo_provision.Wire.Hash.{Hex, IsHexDigit, Hashing}
use sumo_provision.Wire.Model.{
  IsDigest, Part, Entity, default_entity, UpdateMode, Tree, ContentHash,
}

unfoldable pub digit : ℕ → ℕ
digit d = if ltb d 10 then 48 + d else 87 + d

unfoldable pub value : ℕ → Option ℕ
value c =
    if ltb c 48
    then none
    else if ltb c 58
    then some (c - 48)
    else if ltb c 65
    then none
    else if ltb c 71
    then some (c - 55)
    else if ltb c 97
    then none
    else if ltb c 103
    then some (c - 87)
    else none

value-digit : (d : ℕ) → d < 16 → value (digit d) ≡ some d
unfolding value digit
value-digit d h = ground arith

value_bound : (c v : ℕ) → value c ≡ some v → v < 16
unfolding value
value_bound c v h = ground arith

digit-IsHexDigit : (d : ℕ) → d < 16 → IsHexDigit (digit d)
unfolding digit
digit-IsHexDigit d h = ground arith

abbrev pub pair : Option ℕ → Option ℕ → Option Text → Option Text
pair (some h) (some l) (some rest) = some ((16 * h + l) ∷ rest)
pair _ _ _ = none

unfoldable pub encode : Text → Text
unfolding digit
encode [] = []
encode (b ∷ bs) = digit ((b / 16) % 16) ∷ digit (b % 16) ∷ encode bs

unfoldable pub decode : Text → Option Text
unfolding value
decode [] = some []
decode (c ∷ []) = none
decode (h ∷ l ∷ s) = pair (value h) (value l) (decode s)

pub decode-encode : (bytes : Text) → All (λ b. b < 256) bytes → decode (encode bytes) ≡ some bytes
unfolding decode encode
decode-encode [] h = refl
decode-encode (b ∷ bs) h =
    rw
      (
        value-digit ((b / 16) % 16) (omega arith),
        value-digit (b % 16) (omega arith),
        decode-encode bs h.1,
      )
      (ap (λ x. some (x ∷ bs)) (back b h.0))
  where
    back : (b : ℕ) → b < 256 → 16 * ((b / 16) % 16) + b % 16 ≡ b
    back b h = omega arith

pub encode_digits : (bytes : Text) → All IsHexDigit (encode bytes)
unfolding encode
encode_digits [] = tt
encode_digits (b ∷ bs) = (
  digit-IsHexDigit ((b / 16) % 16) (omega arith),
  (digit-IsHexDigit (b % 16) (omega arith), encode_digits bs),
)

pair_bytes :
    (h l : Option ℕ) (r : Option Text) (bytes : Text)
    → ((v : ℕ) → h ≡ some v → v < 16)
    → ((v : ℕ) → l ≡ some v → v < 16)
    → ((t : Text) → r ≡ some t → All (λ b. b < 256) t)
    → pair h l r ≡ some bytes
    → All (λ b. b < 256) bytes
pair_bytes none l r bytes p q k e = cc
pair_bytes (some h) none r bytes p q k e = cc
pair_bytes (some h) (some l) none bytes p q k e = cc
pair_bytes (some h) (some l) (some t) [] p q k e = cc
pair_bytes (some h) (some l) (some t) (b ∷ bs) p q k e =
    (ground (arith, p h refl, q l refl, e), k bs (ground (arith, e)))

pub decode_bytes : (s bytes : Text) → decode s ≡ some bytes → All (λ b. b < 256) bytes
unfolding decode
decode_bytes [] [] e = tt
decode_bytes [] (b ∷ bs) e = cc
decode_bytes (c ∷ []) bytes e = cc
decode_bytes (h ∷ l ∷ s) bytes e =
    pair_bytes (value h) (value l) (decode s) bytes (value_bound h) (value_bound l) (decode_bytes s)
      e

abbrev pub hex : Hex
hex = record {
  encode = encode;
  decode = decode;
  decode-encode = decode-encode;
  encode_digits = encode_digits;
  decode_bytes = decode_bytes;
}

-- a digest that only mixes: 32 times one byte
abbrev pub copies : ℕ → ℕ → Text
copies zero b = []
copies (suc n) b = b ∷ copies n b

abbrev pub mix : ℕ → ℕ → ℕ
mix acc b = (31 * acc + b) % 256

mix_bound : (acc : ℕ) (bytes : Text) → acc < 256 → foldl mix acc bytes < 256
mix_bound acc [] h = h
mix_bound acc (b ∷ bs) h = mix_bound (mix acc b) bs (omega arith)

copies_bound : (n b : ℕ) → b < 256 → All (λ c. c < 256) (copies n b)
copies_bound zero b h = tt
copies_bound (suc n) b h = (h, copies_bound n b h)

copies_size : (n b : ℕ) → length (copies n b) ≡ n
copies_size zero b = refl
copies_size (suc n) b = ap (λ m. suc m) (copies_size n b)

abbrev pub digest : Text → ContentHash
digest bytes = copies 32 (foldl mix 7 bytes)

pub digest-IsDigest : (bytes : Text) → IsDigest (digest bytes)
digest-IsDigest bytes = record {
  size = copies_size 32 (foldl mix 7 bytes);
  bytes = copies_bound 32 (foldl mix 7 bytes) (mix_bound 7 bytes (omega arith));
}

abbrev pub hashing : Hashing
hashing = record { hex = hex; sha256 = digest; sha256-IsDigest = digest-IsDigest }

-- A vehicle that reports two components, and the tree that it should have: new content for the
-- first, the second switched off, and a third that it does not have.
abbrev pub image : ℕ → ContentHash
image n = digest (n ∷ [])

abbrev pub file : Text → ℕ → Part
file id n = record { kind = text "file"; id = id; content = image n }

abbrev pub mode : Bool → Option UpdateMode
mode reversible = some (record {
  mode = text "ab";
  supports_rollback = reversible;
  dual_bank = reversible;
  reset_kind = [];
})

abbrev pub host : ℕ → Entity
host n = record default_entity { update_mode = mode true; parts = file (text "os") n ∷ [] }

abbrev pub rt_on : Entity
rt_on = record default_entity { update_mode = mode false; parts = file (text "rtos") 1 ∷ [] }

abbrev pub rt_off : Entity
rt_off = record default_entity { disabled = true }

abbrev pub rig : Tree
rig = record { entities = (text "host", host 1) ∷ (text "rt", rt_on) ∷ [] }

abbrev pub goal : Tree
goal = record { entities = (text "host", host 2) ∷ (text "rt", rt_off) ∷ (text "vm", host 3) ∷ [] }

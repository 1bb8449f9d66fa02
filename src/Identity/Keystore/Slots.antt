-- ===== src/Identity/Keystore/Slots.antt =====
-- What each slot of the factory keystore allows.
use sumo_provision.Base.{
  ◌≡◌, refl, Bool, true, false, not, ◌&&◌, Option, List, [], ◌∷◌, map, ℕ, Text, arith, any, is_some,
  is_some_and,
}
use sumo_provision.Identity.Keystore.{
  Hsm, KeyOp, op_sign, op_encrypt, op_decrypt, KeySlot, anchor_of, ops_of, key_slot,
  assemble_keystore,
}

abbrev pub signs : KeyOp → Bool
signs op_sign = true
signs _ = false

abbrev pub encrypts : KeyOp → Bool
encrypts op_encrypt = true
encrypts op_decrypt = true
encrypts _ = false

abbrev pub may : (KeyOp → Bool) → KeySlot → Bool
may p slot = is_some_and (any p) slot.allowed_ops

module _ (hsm : Hsm) where
  open hsm use {KeyRole, is_device_generated, is_aes, key_id, mandatory_roles}

  -- The slot of a role has its id; it carries a key exactly when the device does not generate one;
  -- only a generated key may sign, and it does so if it is asymmetric; only a generated symmetric key
  -- may encrypt and decrypt.
  pub record IsSlotOf (role : KeyRole) (slot : KeySlot) : Type 0 where
    pub named : slot.slot_id ≡ key_id role
    pub anchored : is_some slot.anchor_public_key ≡ not (is_device_generated role)
    pub signing : may signs slot ≡ (is_device_generated role && not (is_aes role))
    pub encrypting : may encrypts slot ≡ (is_device_generated role && is_aes role)

  abbrev pub AllSlotsOf : List KeyRole → List KeySlot → Type 0
  AllSlotsOf [] [] = Unit
  AllSlotsOf [] (slot ∷ slots) = ⊥
  AllSlotsOf (role ∷ roles) [] = ⊥
  AllSlotsOf (role ∷ roles) (slot ∷ slots) = IsSlotOf role slot × AllSlotsOf roles slots

  key_slot-IsSlotOf :
      (sw_authority key_authority : Text) (role : KeyRole)
      → IsSlotOf role (key_slot hsm sw_authority key_authority role)
  unfolding key_slot anchor_of ops_of any
  key_slot-IsSlotOf sw_authority key_authority role = record {
    named = refl;
    anchored = ground arith;
    signing = ground arith;
    encrypting = ground arith;
  }

  slots-AllSlotsOf :
      (sw_authority key_authority : Text) (roles : List KeyRole)
      → AllSlotsOf roles (map (key_slot hsm sw_authority key_authority) roles)
  slots-AllSlotsOf sw_authority key_authority [] = tt
  slots-AllSlotsOf sw_authority key_authority (role ∷ roles) = (
    key_slot-IsSlotOf sw_authority key_authority role,
    slots-AllSlotsOf sw_authority key_authority roles,
  )

  -- The keystore that is assembled has one slot for each mandatory role, in their order, with the
  -- id of the role; a slot carries a key exactly when the device does not generate one, only a
  -- generated asymmetric key may sign, and only a generated symmetric key may encrypt and decrypt.
  pub keystore-AllSlotsOf :
      (sw_authority key_authority : Text) (security_version : ℕ) (leaf : Option Text) (root : Text)
      → AllSlotsOf mandatory_roles
          (assemble_keystore hsm sw_authority key_authority security_version leaf root).slots
  unfolding assemble_keystore
  keystore-AllSlotsOf sw_authority key_authority security_version leaf root =
      slots-AllSlotsOf sw_authority key_authority mandatory_roles

-- ===== src/Accounts/ValidatorKey.antt =====
-- wallet/validator/validator_key.py: keys that are bound to a role.
use piso_chain.Base.{ℕ, Bool, not, ◌++◌, Text, ◌==◌, if◌then◌else◌}
use piso_chain.Bytes.{Bytes}
use piso_chain.Text.{codes}
use piso_chain.Outcome.{Result, ok, err, ◌>>=◌, or_raise}
use piso_chain.Keystore.{Cipher, KeystoreData, encrypt_private_key}
use piso_chain.Accounts.{EthKeys}

pub data KeyRole : Type 0 where
  wallet validator treasury governance : KeyRole

-- `role.value`
unfoldable pub role_value : KeyRole → Text
role_value KeyRole.wallet = codes "piso-wallet-key-v1"
role_value KeyRole.validator = codes "piso-validator-key-v1"
role_value KeyRole.treasury = codes "piso-treasury-key-v1"
role_value KeyRole.governance = codes "piso-governance-key-v1"

-- `role.name`
abbrev pub role_name : KeyRole → Text
role_name KeyRole.wallet = codes "WALLET"
role_name KeyRole.validator = codes "VALIDATOR"
role_name KeyRole.treasury = codes "TREASURY"
role_name KeyRole.governance = codes "GOVERNANCE"

-- the place in the enumeration
abbrev role_number : KeyRole → ℕ
role_number KeyRole.wallet = 0
role_number KeyRole.validator = 1
role_number KeyRole.treasury = 2
role_number KeyRole.governance = 3

abbrev pub same_role : KeyRole → KeyRole → Bool
same_role a b = role_number a == role_number b

-- What the key library raises, and KeyDomainError with the expected role and the key's.
pub data RoleError : Type 0 where
  key_refused : RoleError
  key_domain_error : KeyRole → KeyRole → RoleError

pub record ValidatorKey : Type 0 where
  pub role : KeyRole
  pub private_key_bytes : Bytes
  pub address : Text

-- `assert_role`
unfoldable pub assert_role : ValidatorKey → KeyRole → Result {0, 0} RoleError Unit
assert_role key expected_role =
    if not (same_role key.role expected_role)
    then err (key_domain_error expected_role key.role)
    else ok tt

-- a keystore with the tag of its role
pub record RoleKeystore : Type 0 where
  pub keystore : KeystoreData
  pub piso_role : Text

module _ (keys : EthKeys) where
  -- `role` defaults to the validator's
  unfoldable pub init_validator_key : Bytes → KeyRole → Result RoleError ValidatorKey
  init_validator_key raw_seed role = do
    let domain_tag = role_value role
    let private_key_bytes = keys.sha256 (domain_tag ++ raw_seed)
    public_key ← or_raise key_refused (keys.public_key private_key_bytes)
    ok (record {
      role = role;
      private_key_bytes = private_key_bytes;
      address = keys.checksum_address public_key;
    })

  unfoldable pub sign_block_proposal : ValidatorKey → Bytes → Result RoleError Bytes
  sign_block_proposal key block_hash = do
    checked ← assert_role key KeyRole.validator
    let tagged_hash = keys.sha256 (codes "PISO-BLOCK-SIGN:" ++ block_hash)
    ok (keys.sign_msg_hash key.private_key_bytes tagged_hash)

  unfoldable pub export_keystore :
      Cipher → Bytes → Bytes → Text → ValidatorKey → Text → RoleKeystore
  export_keystore cipher salt iv id key password = record {
    keystore = encrypt_private_key cipher salt iv id key.private_key_bytes password key.address;
    piso_role = role_name key.role;
  }

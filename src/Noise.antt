-- ===== src/Noise.antt =====
-- crates/noise/src/lib.rs, over the snow library, which is the parameter `Snow`.
use swarm_mesh.Prelude.{ℕ, Bool, Option, none, some, Text, Bytes, literal, [], Result, ok, err}
use swarm_mesh.Mesh.Message.{Failure, invalid_noise_params, snow_error, failed_to_build_responder}

-- The calls of snow: parsing parameters (type `P`), a builder with a private key and a pre-shared
-- key in a slot, and the handshake states (type `Hs`) and transport states (type `Ts`). The number
-- that `read_message` and `write_message` take is the size of the buffer. `none` is an error.
pub record Snow (P Hs Ts : Type 0) : Type 0 where
  pub parse_params : Text → Option P
  pub build_initiator : P → Bytes → ℕ → Bytes → Option Hs
  pub build_responder : P → Bytes → ℕ → Bytes → Option Hs
  pub write_message : Hs → Bytes → ℕ → Option (Hs × Bytes)
  pub read_message : Hs → Bytes → ℕ → Option Hs
  pub is_handshake_finished : Hs → Bool
  pub into_transport_mode : Hs → Option Ts

pub record Keypair : Type 0 where
  pub private_key : Bytes
  pub public_key : Bytes

module _ {P Hs Ts : Type 0} (snow : Snow P Hs Ts) where
  unfoldable pub noise_params : Result Failure P
  noise_params = elim (snow.parse_params (literal "Noise_XXpsk3_25519_ChaChaPoly_BLAKE2s")) [
    | none ↦ err invalid_noise_params
    | some p ↦ ok p
  ]

  first_message : Option Hs → Result Failure (Hs × Bytes)
  first_message none = err snow_error
  first_message (some st) = elim (snow.write_message st [] 1024) [
    | none ↦ err snow_error
    | some r ↦ ok r
  ]

  -- `none` is the panic of `noise_params().unwrap()`.
  unfoldable pub start_handshake : Keypair → Bytes → Option (Result Failure (Hs × Bytes))
  unfolding noise_params first_message
  start_handshake keys network_key = elim noise_params [
    | err _ ↦ none
    | ok p ↦ some (first_message (snow.build_initiator p keys.private_key 3 network_key))
  ]

  unfoldable pub build_responder : Keypair → Bytes → Result Failure Hs
  unfolding noise_params
  build_responder keys network_key = elim noise_params [
    | err e ↦ err e
    | ok p ↦ elim (snow.build_responder p keys.private_key 3 network_key) [
      | none ↦ err failed_to_build_responder
      | some st ↦ ok st
    ]
  ]

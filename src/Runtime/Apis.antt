-- ===== src/Runtime/Apis.antt =====
-- The runtime APIs of runtime/src/lib.rs and parachain-runtime/src/lib.rs: the requests, their
-- replies and the functions of FRAME that the two runtimes hand them on to. What the SDK hands
-- around unread is a number; a runtime's storage is the `State` of its `Frame`.
pub mod Solo
pub mod Para
pub mod Benchmarks
use ink_node.Base.{ℕ, String, Bool, Option, List, Fallible, good, bad}

abbrev pub Bytes : Type 0
Bytes = List ℕ

abbrev pub Block : Type 0
Block = ℕ

abbrev pub Header : Type 0
Header = ℕ

abbrev pub Hash : Type 0
Hash = ℕ

abbrev pub Extrinsic : Type 0
Extrinsic = ℕ

abbrev pub AccountId : Type 0
AccountId = ℕ

abbrev pub Balance : Type 0
Balance = ℕ

-- A call, dispatch information, a transaction's validity and the like.
abbrev pub Opaque : Type 0
Opaque = ℕ

-- A computation on the storage.
abbrev pub Exec : Type 0 → Type 0 → Type 0
Exec S A = S → A × S

abbrev pub pure : {S A : Type 0} → A → Exec S A
pure a s = (a, s)

-- What follows a computation that can fail, as after a `?`.
abbrev pub then_good :
    {S A B : Type 0} → (Fallible A × S) → (A → Exec S (Fallible B)) → Fallible B × S
then_good (good a, s) k = k a s
then_good (bad e, s) k = (bad e, s)

pub record RuntimeVersion : Type 0 where
  pub spec_name : String
  pub impl_name : String
  pub authoring_version : ℕ
  pub spec_version : ℕ
  pub impl_version : ℕ
  pub apis : Opaque
  pub transaction_version : ℕ
  pub system_version : ℕ

pub record OpaqueMetadata : Type 0 where
  pub new_metadata : Bytes

-- The keys that a runtime's `SessionKeys` holds.
pub data SessionKey : Type 0 where
  aura : SessionKey

pub data Era : Type 0 where
  immortal : Era
  mortal : ℕ → ℕ → Era

-- A transaction extension of `TxExtension`, with what it is made from.
pub data Extension : Type 0 where
  check_non_zero_sender : Extension
  check_spec_version : Extension
  check_tx_version : Extension
  check_genesis : Extension
  check_era : Era → Extension
  check_nonce : ℕ → Extension
  check_weight : Extension
  charge_transaction_payment : Balance → Extension
  set_origin_from_eth_transaction : Extension

abbrev pub TxExtension : Type 0
TxExtension = List Extension

-- The requests that both runtimes serve. The last stands for those that the macro of pallet_revive
-- adds to the ones that are written out.
pub data Request : Type 0 where
  version : Request
  execute_block : Block → Request
  initialize_block : Header → Request
  metadata : Request
  metadata_at_version : ℕ → Request
  metadata_versions : Request
  execute_view_function : Opaque → Bytes → Request
  apply_extrinsic : Extrinsic → Request
  finalize_block : Request
  inherent_extrinsics : Opaque → Request
  check_inherents : Block → Opaque → Request
  validate_transaction : Opaque → Extrinsic → Hash → Request
  offchain_worker : Header → Request
  generate_session_keys : Option Bytes → Request
  decode_session_keys : Bytes → Request
  account_nonce : AccountId → Request
  query_info : Extrinsic → ℕ → Request
  query_fee_details : Extrinsic → ℕ → Request
  query_weight_to_fee : Opaque → Request
  query_length_to_fee : ℕ → Request
  query_call_info : Opaque → ℕ → Request
  query_call_fee_details : Opaque → ℕ → Request
  query_call_weight_to_fee : Opaque → Request
  query_call_length_to_fee : ℕ → Request
  build_state : Bytes → Request
  get_preset : Option String → Request
  preset_names : Request
  revive : Opaque → Request

abbrev pub Reply : Request → Type 0
Reply version = RuntimeVersion
Reply (execute_block _) = Unit
Reply metadata = OpaqueMetadata
Reply (metadata_at_version _) = Option OpaqueMetadata
Reply metadata_versions = List ℕ
Reply (execute_view_function _ _) = Fallible Bytes
Reply finalize_block = Header
Reply (inherent_extrinsics _) = List Extrinsic
Reply (offchain_worker _) = Unit
Reply (generate_session_keys _) = Bytes
Reply (decode_session_keys _) = Option (List (Bytes × ℕ))
Reply (query_weight_to_fee _) = Balance
Reply (query_length_to_fee _) = Balance
Reply (query_call_weight_to_fee _) = Balance
Reply (query_call_length_to_fee _) = Balance
Reply (build_state _) = Fallible Unit
Reply (get_preset _) = Option Bytes
Reply preset_names = List String
Reply (revive _) = Fallible Bytes
Reply _ = Opaque

-- The functions of FRAME that a runtime's answers use, for the runtime's own types.
pub record Frame : Type 1 where
  pub State : Type 0
  pub runtime_api_versions : Opaque
  pub exec_execute_block : Block → Exec State Unit
  pub exec_initialize_block : Header → Exec State Opaque
  pub exec_apply_extrinsic : Extrinsic → Exec State Opaque
  pub exec_finalize_block : Exec State Header
  pub exec_validate_transaction : Opaque → Extrinsic → Hash → Exec State Opaque
  pub exec_offchain_worker : Header → Exec State Unit
  pub runtime_metadata : Opaque
  pub into_bytes : Opaque → Bytes
  pub runtime_metadata_at_version : ℕ → Option OpaqueMetadata
  pub runtime_metadata_versions : List ℕ
  pub runtime_view_function : Opaque → Bytes → Exec State (Fallible Bytes)
  pub create_extrinsics : Opaque → Exec State (List Extrinsic)
  pub check_extrinsics : Opaque → Block → Exec State Opaque
  pub generate_keys : List SessionKey → Option Bytes → Exec State Bytes
  pub decode_into_raw_public_keys : List SessionKey → Bytes → Option (List (Bytes × ℕ))
  pub system_account_nonce : AccountId → Exec State ℕ
  pub payment_query_info : Extrinsic → ℕ → Exec State Opaque
  pub payment_query_fee_details : Extrinsic → ℕ → Exec State Opaque
  pub payment_weight_to_fee : Opaque → Exec State Balance
  pub payment_length_to_fee : ℕ → Exec State Balance
  pub payment_query_call_info : Opaque → ℕ → Exec State Opaque
  pub payment_query_call_fee_details : Opaque → ℕ → Exec State Opaque
  pub build_genesis_state : Bytes → Exec State (Fallible Unit)
  pub genesis_preset : Option String → (String → Option Bytes) → Option Bytes
  pub revive_api : (ℕ → Balance → TxExtension) → Opaque → Exec State (Fallible Bytes)

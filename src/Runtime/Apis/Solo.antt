-- ===== src/Runtime/Apis/Solo.antt =====
-- runtime/src/lib.rs: `VERSION`, `EthExtraImpl` and the runtime APIs.
use ink_node.Base.{ℕ, String, Option, none, Fallible, List, [], ◌∷◌}
use ink_node.Runtime.Apis.{
  Bytes, Opaque, Balance, Exec, pure, RuntimeVersion, SessionKey, immortal, Extension, TxExtension,
  Request, Reply, Frame, version, execute_block, initialize_block, metadata, metadata_at_version,
  metadata_versions, execute_view_function, apply_extrinsic, finalize_block, inherent_extrinsics,
  check_inherents, validate_transaction, offchain_worker, generate_session_keys,
  decode_session_keys, account_nonce, query_info, query_fee_details, query_weight_to_fee,
  query_length_to_fee, query_call_info, query_call_fee_details, query_call_weight_to_fee,
  query_call_length_to_fee, build_state, get_preset, preset_names, revive,
}

unfoldable pub solo_version : Opaque → RuntimeVersion
solo_version apis = record {
  spec_name = "ink-node";
  impl_name = "ink-node";
  authoring_version = 1;
  spec_version = 100;
  impl_version = 1;
  apis = apis;
  transaction_version = 1;
  system_version = 1;
}

-- `SessionKeys`.
abbrev pub solo_session_keys : List SessionKey
solo_session_keys = []

-- `EthExtraImpl::get_eth_extension`.
unfoldable solo_eth_extension : ℕ → Balance → TxExtension
solo_eth_extension nonce tip =
    Extension.check_non_zero_sender
    ∷ Extension.check_spec_version
    ∷ Extension.check_tx_version
    ∷ Extension.check_genesis
    ∷ Extension.check_era immortal
    ∷ Extension.check_nonce nonce
    ∷ Extension.check_weight
    ∷ Extension.charge_transaction_payment tip
    ∷ Extension.set_origin_from_eth_transaction
    ∷ []

-- `GenesisBuilder`.
abbrev pub solo_build_state : (f : Frame) → Bytes → Exec f.State (Fallible Unit)
solo_build_state f config = f.build_genesis_state config

unfoldable solo_get_preset : Frame → Option String → Option Bytes
solo_get_preset f id = f.genesis_preset id (λ _. none)

unfoldable pub solo_preset_names : List String
solo_preset_names = []

-- The answers to the requests that both runtimes serve.
unfoldable solo_answer : (f : Frame) (r : Request) → Exec f.State (Reply r)
solo_answer f version = pure (solo_version f.runtime_api_versions)
solo_answer f (execute_block block) = f.exec_execute_block block
solo_answer f (initialize_block header) = f.exec_initialize_block header
solo_answer f metadata = pure (record { new_metadata = f.into_bytes f.runtime_metadata })
solo_answer f (metadata_at_version v) = pure (f.runtime_metadata_at_version v)
solo_answer f metadata_versions = pure f.runtime_metadata_versions
solo_answer f (execute_view_function id input) = f.runtime_view_function id input
solo_answer f (apply_extrinsic extrinsic) = f.exec_apply_extrinsic extrinsic
solo_answer f finalize_block = f.exec_finalize_block
solo_answer f (inherent_extrinsics input) = f.create_extrinsics input
solo_answer f (check_inherents block input) = f.check_extrinsics input block
solo_answer f (validate_transaction source tx hash) = f.exec_validate_transaction source tx hash
solo_answer f (offchain_worker header) = f.exec_offchain_worker header
solo_answer f (generate_session_keys seed) = f.generate_keys solo_session_keys seed
solo_answer f (decode_session_keys encoded) =
    pure (f.decode_into_raw_public_keys solo_session_keys encoded)
solo_answer f (account_nonce account) = f.system_account_nonce account
solo_answer f (query_info uxt len) = f.payment_query_info uxt len
solo_answer f (query_fee_details uxt len) = f.payment_query_fee_details uxt len
solo_answer f (query_weight_to_fee weight) = f.payment_weight_to_fee weight
solo_answer f (query_length_to_fee length) = f.payment_length_to_fee length
solo_answer f (query_call_info call len) = f.payment_query_call_info call len
solo_answer f (query_call_fee_details call len) = f.payment_query_call_fee_details call len
solo_answer f (query_call_weight_to_fee weight) = f.payment_weight_to_fee weight
solo_answer f (query_call_length_to_fee length) = f.payment_length_to_fee length
solo_answer f (build_state config) = solo_build_state f config
solo_answer f (get_preset id) = pure (solo_get_preset f id)
solo_answer f preset_names = pure solo_preset_names
solo_answer f (revive request) = f.revive_api solo_eth_extension request

-- ===== src/Runtime/Apis/Para.antt =====
-- parachain-runtime/src/lib.rs: `VERSION`, `EthExtraImpl` and the runtime APIs.
use ink_node.Base.{ℕ, String, Bool, Option, none, Fallible, List, [], ◌∷◌}
use ink_node.Runtime.Units.{slot_duration}
use ink_node.Runtime.Apis.{
  Bytes, Hash, Header, Opaque, Balance, Exec, pure, RuntimeVersion, SessionKey, aura, immortal,
  Extension, TxExtension, Request, Reply, Frame, version, execute_block, initialize_block, metadata,
  metadata_at_version, metadata_versions, execute_view_function, apply_extrinsic, finalize_block,
  inherent_extrinsics, check_inherents, validate_transaction, offchain_worker,
  generate_session_keys, decode_session_keys, account_nonce, query_info, query_fee_details,
  query_weight_to_fee, query_length_to_fee, query_call_info, query_call_fee_details,
  query_call_weight_to_fee, query_call_length_to_fee, build_state, get_preset, preset_names, revive,
}

-- What `FixedVelocityConsensusHook` is given.
pub record HookParams : Type 0 where
  pub relay_chain_slot_duration_millis : ℕ
  pub block_processing_velocity : ℕ
  pub unincluded_segment_capacity : ℕ

unfoldable pub para_version : Opaque → RuntimeVersion
para_version apis = record {
  spec_name = "ink-parachain";
  impl_name = "ink-parachain";
  authoring_version = 1;
  spec_version = 1;
  impl_version = 0;
  apis = apis;
  transaction_version = 1;
  system_version = 1;
}

-- `SessionKeys`.
abbrev pub para_session_keys : List SessionKey
para_session_keys = aura ∷ []

-- `EthExtraImpl::get_eth_extension`.
unfoldable para_eth_extension : ℕ → Balance → TxExtension
para_eth_extension nonce tip =
    Extension.check_non_zero_sender
    ∷ Extension.check_spec_version
    ∷ Extension.check_tx_version
    ∷ Extension.check_genesis
    ∷ Extension.check_era immortal
    ∷ Extension.check_nonce nonce
    ∷ Extension.check_weight
    ∷ Extension.charge_transaction_payment tip
    ∷ Extension.set_origin_from_eth_transaction
    ∷ []

-- `GenesisBuilder`.
abbrev pub para_build_state : (f : Frame) → Bytes → Exec f.State (Fallible Unit)
para_build_state f config = f.build_genesis_state config

unfoldable para_get_preset : Frame → Option String → Option Bytes
para_get_preset f id = f.genesis_preset id (λ _. none)

unfoldable pub para_preset_names : List String
para_preset_names = []

-- The answers to the requests that both runtimes serve.
unfoldable para_answer : (f : Frame) (r : Request) → Exec f.State (Reply r)
para_answer f version = pure (para_version f.runtime_api_versions)
para_answer f (execute_block block) = f.exec_execute_block block
para_answer f (initialize_block header) = f.exec_initialize_block header
para_answer f metadata = pure (record { new_metadata = f.into_bytes f.runtime_metadata })
para_answer f (metadata_at_version v) = pure (f.runtime_metadata_at_version v)
para_answer f metadata_versions = pure f.runtime_metadata_versions
para_answer f (execute_view_function id input) = f.runtime_view_function id input
para_answer f (apply_extrinsic extrinsic) = f.exec_apply_extrinsic extrinsic
para_answer f finalize_block = f.exec_finalize_block
para_answer f (inherent_extrinsics input) = f.create_extrinsics input
para_answer f (check_inherents block input) = f.check_extrinsics input block
para_answer f (validate_transaction source tx hash) = f.exec_validate_transaction source tx hash
para_answer f (offchain_worker header) = f.exec_offchain_worker header
para_answer f (generate_session_keys seed) = f.generate_keys para_session_keys seed
para_answer f (decode_session_keys encoded) =
    pure (f.decode_into_raw_public_keys para_session_keys encoded)
para_answer f (account_nonce account) = f.system_account_nonce account
para_answer f (query_info uxt len) = f.payment_query_info uxt len
para_answer f (query_fee_details uxt len) = f.payment_query_fee_details uxt len
para_answer f (query_weight_to_fee weight) = f.payment_weight_to_fee weight
para_answer f (query_length_to_fee length) = f.payment_length_to_fee length
para_answer f (query_call_info call len) = f.payment_query_call_info call len
para_answer f (query_call_fee_details call len) = f.payment_query_call_fee_details call len
para_answer f (query_call_weight_to_fee weight) = f.payment_weight_to_fee weight
para_answer f (query_call_length_to_fee length) = f.payment_length_to_fee length
para_answer f (build_state config) = para_build_state f config
para_answer f (get_preset id) = pure (para_get_preset f id)
para_answer f preset_names = pure para_preset_names
para_answer f (revive request) = f.revive_api para_eth_extension request

-- What the parachain's runtime answers besides: `AuraApi`, `AuraUnincludedSegmentApi` and
-- `CollectCollationInfo`.
pub record ParaFrame : Type 1 where
  pub frame : Frame
  pub aura_authorities : Exec frame.State (List ℕ)
  pub hook_can_build_upon : HookParams → Hash → ℕ → Exec frame.State Bool
  pub parachain_collation_info : Header → Exec frame.State Opaque

abbrev pub unincluded_segment_capacity : ℕ
unincluded_segment_capacity = 3

abbrev pub block_processing_velocity : ℕ
block_processing_velocity = 1

abbrev pub relay_chain_slot_duration_millis : ℕ
relay_chain_slot_duration_millis = 6000

-- The parameters of `ConsensusHook`.
abbrev pub consensus_hook : HookParams
consensus_hook = record {
  relay_chain_slot_duration_millis = relay_chain_slot_duration_millis;
  block_processing_velocity = block_processing_velocity;
  unincluded_segment_capacity = unincluded_segment_capacity;
}

unfoldable pub aura_slot_duration : (f : ParaFrame) → Exec f.frame.State ℕ
aura_slot_duration f = pure slot_duration

abbrev pub authorities : (f : ParaFrame) → Exec f.frame.State (List ℕ)
authorities f = f.aura_authorities

abbrev pub can_build_upon : (f : ParaFrame) → Hash → ℕ → Exec f.frame.State Bool
can_build_upon f included_hash slot = f.hook_can_build_upon consensus_hook included_hash slot

abbrev pub collect_collation_info : (f : ParaFrame) → Header → Exec f.frame.State Opaque
collect_collation_info f header = f.parachain_collation_info header

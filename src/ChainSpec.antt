-- ===== src/ChainSpec.antt =====
-- node/src/chain_spec.rs and node/src/chain_spec/dev.rs: the two built-in chain specifications.
pub mod Seeds
pub mod Genesis
pub mod Success
use ink_node.Base.{ℕ, ◌*◌, ◌^◌, String, ◌<>◌, Option, none, some, List, [], ◌∷◌, map}
use ink_node.Sdk.{
  Sdk, Public, AccountId, ParaId, Extensions, ChainSpec, ChainType, development, local,
}
use ink_node.Sdk.Json.{
  Json, num, str, arr, obj, nil, Fields, end, field, items, pair, triple, nullable,
}
use ink_node.Prog.{Prog, ret, expect, ◌>>=◌}
use ink_node.Runtime.Units.{existential_deposit}

-- `1u64 << 60`.
abbrev pub endowment : ℕ
endowment = 2 ^ 60

-- `chain_spec::dev::testnet_genesis`; its third argument is not read.
unfoldable pub dev_testnet_genesis : Sdk → AccountId → List AccountId → Json
dev_testnet_genesis sdk root_key endowed_accounts = obj (
    field "balances"
      (obj (
        field "balances"
          (arr (items (λ k. pair (sdk.account_json k) (num endowment)) endowed_accounts)) end))
      (field "sudo" (obj (field "key" (nullable (some (sdk.account_json root_key))) end)) end))

-- `template_session_keys`.
unfoldable pub template_session_keys : Sdk → Public → Json
template_session_keys sdk keys = obj (field "aura" (sdk.aura_json keys) end)

abbrev pub account_of : AccountId × Public → AccountId
account_of (acc, aura) = acc

abbrev pub session_entry : Sdk → AccountId × Public → Json
session_entry sdk (acc, aura) =
    triple (sdk.account_json acc) (sdk.account_json acc) (template_session_keys sdk aura)

-- `chain_spec::testnet_genesis`.
unfoldable pub testnet_genesis :
    Sdk → List (AccountId × Public) → List AccountId → AccountId → ParaId → Json
unfolding template_session_keys
testnet_genesis sdk invulnerables endowed_accounts root id = obj (
    field "balances"
      (obj (
        field "balances"
          (arr (items (λ k. pair (sdk.account_json k) (num endowment)) endowed_accounts)) end))
      (field "parachainInfo" (obj (field "parachainId" (num id) end)) (
        field "collatorSelection"
          (obj (
            field "invulnerables" (arr (items sdk.account_json (map account_of invulnerables)))
              (field "candidacyBond" (num (existential_deposit * 16)) end)))
          (field "session" (obj (field "keys" (arr (items (session_entry sdk) invulnerables)) end))
            (field "polkadotXcm"
              (obj (field "safeXcmVersion" (nullable (some (num sdk.xcm_version))) end))
              (field "sudo" (obj (field "key" (nullable (some (sdk.account_json root))) end))
                end))))))

module _ (sdk : Sdk) {E : Type 0} where
  unfoldable pub get_from_seed : String → Prog E Public
  get_from_seed seed = expect "static values are valid; qed" (sdk.public_from_string ("//" <> seed))

  unfoldable pub get_collator_keys_from_seed : String → Prog E Public
  get_collator_keys_from_seed seed = get_from_seed seed

  unfoldable pub get_account_id_from_seed : String → Prog E AccountId
  get_account_id_from_seed seed = do public ← get_from_seed seed; ret (sdk.into_account public)

  -- The accounts of a `vec!` of seeds, in order.
  unfoldable pub get_account_ids : List String → Prog E (List AccountId)
  get_account_ids [] = ret []
  get_account_ids (seed ∷ seeds) = do
    account ← get_account_id_from_seed seed
    accounts ← get_account_ids seeds
    ret (account ∷ accounts)

  unfoldable pub get_collators : List String → Prog E (List (AccountId × Public))
  get_collators [] = ret []
  get_collators (seed ∷ seeds) = do
    account ← get_account_id_from_seed seed
    keys ← get_collator_keys_from_seed seed
    rest ← get_collators seeds
    ret ((account, keys) ∷ rest)

abbrev pub local_collators : List String
local_collators = "Alice" ∷ "Bob" ∷ []

abbrev pub local_endowed : List String
local_endowed =
    "Alice" ∷ "Bob" ∷ "Charlie" ∷ "Dave" ∷ "Eve" ∷ "Ferdie" ∷ "Alice//stash" ∷ "Bob//stash"
    ∷ "Charlie//stash" ∷ "Dave//stash" ∷ "Eve//stash" ∷ "Ferdie//stash" ∷ []

abbrev pub dev_endowed : List String
dev_endowed =
    "Alice" ∷ "Alice//stash" ∷ "Bob" ∷ "Bob//stash" ∷ "Charlie" ∷ "Charlie//stash" ∷ "Dave"
    ∷ "Dave//stash" ∷ "Eve" ∷ "Eve//stash" ∷ "Ferdie" ∷ "Ferdie//stash" ∷ []

abbrev pub local_properties : Fields
local_properties =
    field "tokenSymbol" (str "UNIT")
      (field "tokenDecimals" (num 12) (field "ss58Format" (num 42) end))

abbrev pub local_extensions : Extensions
local_extensions = record { relay_chain = "rococo-local"; para_id = 1000 }

module _ (sdk : Sdk) {E : Type 0} where
  unfoldable pub local_testnet_config : Prog E ChainSpec
  local_testnet_config = do
    wasm ← expect "WASM binary was not built, please build it!" sdk.wasm_binary
    invulnerables ← get_collators sdk local_collators
    endowed ← get_account_ids sdk local_endowed
    root ← get_account_id_from_seed sdk "Alice"
    ret (record {
      name = "Local Testnet";
      id = "local_testnet";
      chain_type = local;
      wasm = wasm;
      extensions = some local_extensions;
      genesis_config_patch = testnet_genesis sdk invulnerables endowed root 1000;
      protocol_id = some "ink-local";
      properties = local_properties;
    })

  unfoldable pub development_config : Prog E ChainSpec
  development_config = do
    wasm ← expect "Development wasm not available" sdk.dev_wasm_binary
    root ← get_account_id_from_seed sdk "Alice"
    endowed ← get_account_ids sdk dev_endowed
    ret (record {
      name = "Development";
      id = "dev";
      chain_type = development;
      wasm = wasm;
      extensions = none;
      genesis_config_patch = dev_testnet_genesis sdk root endowed;
      protocol_id = none;
      properties = end;
    })

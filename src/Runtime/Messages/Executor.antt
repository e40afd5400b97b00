-- ===== src/Runtime/Messages/Executor.antt =====
-- parachain-runtime/src/xcm_config.rs: the configurations of the executor (`XcmConfig`) and of
-- pallet_xcm. Handlers that are pallets of the runtime are their
-- names, and `()` and `Disabled` are no pallet; the types that the executor is told are left out.
use ink_node.Base.{ℕ, ◌*◌, Bool, true, false, Option, none, List}
use ink_node.Runtime.Origins.{Junction, Location}
use ink_node.Runtime.Pallets.{ParaPallet}
use ink_node.Runtime.Weights.{Weight, from_parts}
use ink_node.Runtime.Configs.{WeightInfo, test_weight_info}
use ink_node.Runtime.Messages.Collators.{EnsureOrigin, EnsureBuilder, admin_origin}
use ink_node.Runtime.Fees.{WeightToFeeCoefficient}
use ink_node.Runtime.Messages.{
  Barrier, ConvertLocation, ConvertOrigin, XcmBuilder, barrier, everything, location_to_account_id,
  transact_dispatch_origin, universal_location,
}
use ink_node.Runtime.Messages.Assets.{
  Asset, Deposit, AssetBuilder, asset_transactors, relay_location,
}
use ink_node.Runtime.Messages.Senders.{
  OriginToLocation, SenderBuilder, send_xcm_origin, execute_xcm_origin,
}
use ink_node.Runtime.Messages.Router.{SendXcm, RouterBuilder, xcm_router}

abbrev pub unit_weight_cost : Weight
unit_weight_cost = from_parts 1_000_000_000 (64 * 1024)

abbrev pub max_instructions : ℕ
max_instructions = 100

abbrev pub max_assets_into_holding : ℕ
max_assets_into_holding = 64

-- `Nothing`.
abbrev pub nothing : {A : Type 0} → A → Bool
nothing a = false

-- The building blocks of the two configurations over the others': `no_pair` is `()`.
pub record ConfigBuilder (x : XcmBuilder) : Type 1 where
  pub Trader : Type 0
  pub native_asset : Asset → Location → Bool
  pub no_pair : Asset → Location → Bool
  pub fixed_weight_bounds : Weight → ℕ → x.Message → Option Weight
  pub using_components : List WeightToFeeCoefficient → Location → ParaPallet → Trader

module _ (x : XcmBuilder) (a : AssetBuilder) (r : RouterBuilder) (s : SenderBuilder)
    (b : ConfigBuilder x) where
  pub record XcmConfig : Type 0 where
    pub xcm_sender : SendXcm r.Message r.Channels
    pub xcm_event_emitter : ParaPallet
    pub asset_transactor : Deposit a.Ledger
    pub origin_converter : ConvertOrigin
    pub is_reserve : Asset → Location → Bool
    pub is_teleporter : Asset → Location → Bool
    pub universal_location : List Junction
    pub barrier : Barrier x.Message
    pub weigher : x.Message → Option Weight
    pub trader : b.Trader
    pub response_handler : ParaPallet
    pub asset_trap : ParaPallet
    pub asset_claims : ParaPallet
    pub subscription_service : ParaPallet
    pub max_assets_into_holding : ℕ
    pub asset_locker : Option ParaPallet
    pub asset_exchanger : Option ParaPallet
    pub fee_manager : Option ParaPallet
    pub message_exporter : Option ParaPallet
    pub universal_aliases : Location × Junction → Bool
    pub safe_call_filter : Location → Bool
    pub aliasers : Location × Location → Bool
    pub hrmp_new_channel_open_request_handler : Option ParaPallet
    pub hrmp_channel_accepted_handler : Option ParaPallet
    pub hrmp_channel_closing_handler : Option ParaPallet
    pub xcm_recorder : ParaPallet

  pub record PalletXcmConfig : Type 0 where
    pub send_xcm_origin : OriginToLocation
    pub xcm_router : SendXcm r.Message r.Channels
    pub execute_xcm_origin : OriginToLocation
    pub xcm_execute_filter : Location × x.Message → Bool
    pub xcm_executor : XcmConfig
    pub xcm_teleport_filter : Location × List Asset → Bool
    pub xcm_reserve_transfer_filter : Location × List Asset → Bool
    pub weigher : x.Message → Option Weight
    pub universal_location : List Junction
    pub version_discovery_queue_size : ℕ
    pub currency : ParaPallet
    pub currency_matcher : Option ParaPallet
    pub trusted_lockers : Option ParaPallet
    pub sovereign_account_of : ConvertLocation
    pub max_lockers : ℕ
    pub weight_info : WeightInfo
    pub admin_origin : EnsureOrigin
    pub max_remote_lock_consumers : ℕ
    pub authorized_alias_consideration : Option ParaPallet

  -- `FixedWeightBounds<UnitWeightCost, RuntimeCall, MaxInstructions>`, which both name.
  abbrev pub weigher : x.Message → Option Weight
  weigher = b.fixed_weight_bounds unit_weight_cost max_instructions

  -- For the fee of a weight and the chain's identifier.
  unfoldable pub xcm_config : List WeightToFeeCoefficient → ℕ → XcmConfig
  xcm_config weight_to_fee para_id = record {
    xcm_sender = xcm_router r;
    xcm_event_emitter = ParaPallet.polkadot_xcm;
    asset_transactor = asset_transactors x a;
    origin_converter = transact_dispatch_origin x;
    is_reserve = b.native_asset;
    is_teleporter = b.no_pair;
    universal_location = universal_location para_id;
    barrier = barrier x para_id;
    weigher = weigher;
    trader = b.using_components weight_to_fee relay_location ParaPallet.balances;
    response_handler = ParaPallet.polkadot_xcm;
    asset_trap = ParaPallet.polkadot_xcm;
    asset_claims = ParaPallet.polkadot_xcm;
    subscription_service = ParaPallet.polkadot_xcm;
    max_assets_into_holding = max_assets_into_holding;
    asset_locker = none;
    asset_exchanger = none;
    fee_manager = none;
    message_exporter = none;
    universal_aliases = nothing;
    safe_call_filter = everything;
    aliasers = nothing;
    hrmp_new_channel_open_request_handler = none;
    hrmp_channel_accepted_handler = none;
    hrmp_channel_closing_handler = none;
    xcm_recorder = ParaPallet.polkadot_xcm;
  }

  unfoldable pub pallet_xcm_config :
      EnsureBuilder → List WeightToFeeCoefficient → ℕ → PalletXcmConfig
  unfolding xcm_config
  pallet_xcm_config e weight_to_fee para_id = record {
    send_xcm_origin = send_xcm_origin s;
    xcm_router = xcm_router r;
    execute_xcm_origin = execute_xcm_origin s;
    xcm_execute_filter = λ pair. true;
    xcm_executor = xcm_config weight_to_fee para_id;
    xcm_teleport_filter = λ pair. true;
    xcm_reserve_transfer_filter = nothing;
    weigher = weigher;
    universal_location = universal_location para_id;
    version_discovery_queue_size = 100;
    currency = ParaPallet.balances;
    currency_matcher = none;
    trusted_lockers = none;
    sovereign_account_of = location_to_account_id x;
    max_lockers = 8;
    weight_info = test_weight_info;
    admin_origin = admin_origin e;
    max_remote_lock_consumers = 0;
    authorized_alias_consideration = none;
  }

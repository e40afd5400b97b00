-- ===== src/Runtime/Messages/Transport.antt =====
-- parachain-runtime/src/lib.rs: the configurations of the pallets that carry messages: the parachain
-- system, the message queue and the XCMP queue, and what they set apart of a block.
use ink_node.Base.{ℕ, ◌*◌, ◌^◌, Bool, Option, none}
use ink_node.Runtime.Origins.{Location}
use ink_node.Runtime.Pallets.{ParaPallet}
use ink_node.Runtime.Weights.{Weight}
use ink_node.Runtime.Schedules.{
  reserved_xcmp_weight, reserved_dmp_weight, message_queue_service_weight,
}
use ink_node.Runtime.Apis.Para.{HookParams, consensus_hook}
use ink_node.Runtime.Configs.{WeightInfo, unit_weights}
use ink_node.Runtime.Messages.{XcmBuilder, ConvertOrigin, transact_dispatch_origin}
use ink_node.Runtime.Messages.Queues.{
  AggregateMessageOrigin, Enqueue, QueueBuilder, dmp_queue, xcmp_sink, queue_change_handler,
  queue_paused_query, message_processor,
}
use ink_node.Runtime.Messages.Collators.{EnsureOrigin, EnsureBuilder, controller_origin}

module _ (b : QueueBuilder) where
  -- `check_associated_relay_number` accepts a relay block's number after another.
  pub record ParachainSystemConfig : Type 0 where
    pub weight_info : WeightInfo
    pub self_para_id : ParaPallet
    pub outbound_xcmp_message_source : ParaPallet
    pub dmp_queue : b.Message → b.Queues → b.Queues
    pub reserved_dmp_weight : Weight
    pub xcmp_message_handler : ParaPallet
    pub reserved_xcmp_weight : Weight
    pub check_associated_relay_number : ℕ → ℕ → Bool
    pub on_system_event : Option ParaPallet
    pub relay_parent_offset : ℕ
    pub consensus_hook : HookParams
    pub select_core : ℕ → ℕ

  -- For `RelayNumberStrictlyIncreases`, `DefaultCoreSelector` and the greatest weight of a block.
  unfoldable pub parachain_system_config : (ℕ → ℕ → Bool) → (ℕ → ℕ) → Weight → ParachainSystemConfig
  parachain_system_config strictly_increases default_core_selector max = record {
    weight_info = unit_weights;
    self_para_id = ParaPallet.parachain_info;
    outbound_xcmp_message_source = ParaPallet.xcmp_queue;
    dmp_queue = dmp_queue b;
    reserved_dmp_weight = reserved_dmp_weight max;
    xcmp_message_handler = ParaPallet.xcmp_queue;
    reserved_xcmp_weight = reserved_xcmp_weight max;
    check_associated_relay_number = strictly_increases;
    on_system_event = none;
    relay_parent_offset = 0;
    consensus_hook = consensus_hook;
    select_core = default_core_selector;
  }

  -- Sizes are `u32`; no weight is left to the idle time of a block.
  pub record MessageQueueConfig : Type 0 where
    pub weight_info : WeightInfo
    pub message_processor : AggregateMessageOrigin → b.Message → b.Outcome
    pub queue_change_handler : AggregateMessageOrigin → b.Footprint → b.Xcmp → b.Xcmp
    pub queue_paused_query : AggregateMessageOrigin → b.Xcmp → Bool
    pub heap_size : ℕ
    pub max_stale : ℕ
    pub service_weight : Weight
    pub idle_max_service_weight : Option Weight

  -- Without the feature `runtime-benchmarks`.
  unfoldable pub message_queue_config :
      (Location → b.Message → b.Outcome) → (ℕ → Weight → Weight) → Weight → MessageQueueConfig
  message_queue_config execute percent_of max_block = record {
    weight_info = unit_weights;
    message_processor = message_processor b execute;
    queue_change_handler = queue_change_handler b;
    queue_paused_query = queue_paused_query b;
    heap_size = 64 * 1024;
    max_stale = 8;
    service_weight = message_queue_service_weight percent_of max_block;
    idle_max_service_weight = none;
  }

  -- `price_for_sibling_delivery` is what a delivery costs.
  pub record XcmpQueueConfig : Type 0 where
    pub channel_info : ParaPallet
    pub version_wrapper : Option ParaPallet
    pub xcmp_queue : Enqueue ℕ b.Message b.Queues
    pub max_inbound_suspended : ℕ
    pub max_active_outbound_channels : ℕ
    pub max_page_size : ℕ
    pub controller_origin : EnsureOrigin
    pub controller_origin_converter : ConvertOrigin
    pub weight_info : WeightInfo
    pub price_for_sibling_delivery : ℕ → b.Message → Option ℕ

  -- For `NoPriceForMessageDelivery`.
  unfoldable pub xcmp_queue_config :
      XcmBuilder → EnsureBuilder → (ℕ → b.Message → Option ℕ) → XcmpQueueConfig
  xcmp_queue_config x e no_price = record {
    channel_info = ParaPallet.parachain_system;
    version_wrapper = none;
    xcmp_queue = xcmp_sink b;
    max_inbound_suspended = 1_000;
    max_active_outbound_channels = 128;
    max_page_size = 2 ^ 16;
    controller_origin = controller_origin e;
    controller_origin_converter = transact_dispatch_origin x;
    weight_info = unit_weights;
    price_for_sibling_delivery = no_price;
  }

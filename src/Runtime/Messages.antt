-- ===== src/Runtime/Messages.antt =====
-- parachain-runtime/src/xcm_config.rs: which messages of other chains are executed (`Barrier`), and
-- whose origin their calls get (`LocationToAccountId`, `XcmOriginToTransactDispatchOrigin`). The
-- building blocks of xcm_builder are the fields of `XcmBuilder`; a tuple of them is a list.
pub mod Admission
pub mod Dispatch
pub mod Assets
pub mod Senders
pub mod Queues
pub mod Router
pub mod Collators
pub mod Executor
pub mod Transport
pub mod Trust
pub mod Weighing
use ink_node.Base.{ℕ, Bool, true, Option, none, some, List, [], ◌∷◌}
use ink_node.Runtime.Origins.{Junction, parachain, Location, contains}

pub data OriginKind : Type 0 where
  native sovereign_account superuser xcm : OriginKind

-- The origins of a call that the converters can make, and root.
pub data RuntimeOrigin : Type 0 where
  root relay : RuntimeOrigin
  signed : ℕ → RuntimeOrigin
  sibling_para : ℕ → RuntimeOrigin
  passed : Location → RuntimeOrigin

abbrev pub Barrier : Type 0 → Type 0
Barrier Message = Message → Bool

abbrev pub ConvertLocation : Type 0
ConvertLocation = Location → Option ℕ

abbrev pub ConvertOrigin : Type 0
ConvertOrigin = Location → OriginKind → Option RuntimeOrigin

-- `Message` is a message with its origin, its weight and its credit.
pub record XcmBuilder : Type 1 where
  pub Message : Type 0
  pub trailing_set_topic_as_id : Barrier Message → Barrier Message
  pub deny_then_try : Barrier Message → Barrier Message → Barrier Message
  pub deny_recursively : Barrier Message → Barrier Message
  pub deny_reserve_transfer_to_relay_chain : Barrier Message
  pub any_of : List (Barrier Message) → Barrier Message
  pub take_weight_credit : Barrier Message
  pub with_computed_origin : List (Barrier Message) → List Junction → ℕ → Barrier Message
  pub allow_top_level_paid_execution_from : (Location → Bool) → Barrier Message
  pub allow_explicit_unpaid_execution_from : (Location → Bool) → Barrier Message
  pub first_account : List ConvertLocation → ConvertLocation
  pub account_id32_aliases : Option ℕ → ConvertLocation
  pub parent_is_preset : ConvertLocation
  pub first_origin : List ConvertOrigin → ConvertOrigin
  pub sovereign_signed_via_location : ConvertLocation → ConvertOrigin
  pub relay_chain_as_native : RuntimeOrigin → ConvertOrigin
  pub sibling_parachain_as_native : ConvertOrigin
  pub signed_account_id32_as_native : Option ℕ → ConvertOrigin
  pub xcm_passthrough : ConvertOrigin

abbrev pub relay_network : Option ℕ
relay_network = none

-- `UniversalLocation`, for the identifier that the chain was given.
abbrev pub universal_location : ℕ → List Junction
universal_location para_id = parachain para_id ∷ []

abbrev pub everything : Location → Bool
everything l = true

unfoldable pub barrier : (x : XcmBuilder) → ℕ → Barrier x.Message
barrier x para_id = x.trailing_set_topic_as_id (
    x.deny_then_try (x.deny_recursively x.deny_reserve_transfer_to_relay_chain) (
      x.any_of (
        x.take_weight_credit
        ∷ x.with_computed_origin
            (x.allow_top_level_paid_execution_from everything
              ∷ x.allow_explicit_unpaid_execution_from contains
              ∷ [])
            (universal_location para_id) 8
        ∷ [])))

unfoldable pub location_to_account_id : XcmBuilder → ConvertLocation
location_to_account_id x =
    x.first_account (x.account_id32_aliases relay_network ∷ x.parent_is_preset ∷ [])

unfoldable pub transact_dispatch_origin : XcmBuilder → ConvertOrigin
transact_dispatch_origin x = x.first_origin (
    x.sovereign_signed_via_location (location_to_account_id x)
    ∷ x.relay_chain_as_native RuntimeOrigin.relay
    ∷ x.sibling_parachain_as_native
    ∷ x.signed_account_id32_as_native relay_network
    ∷ x.xcm_passthrough
    ∷ [])

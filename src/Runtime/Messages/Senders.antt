-- ===== src/Runtime/Messages/Senders.antt =====
-- parachain-runtime/src/xcm_config.rs: which local origins may send and execute messages, and as
-- which location (`LocalOriginToLocation`, `SendXcmOrigin`, `ExecuteXcmOrigin`).
use ink_node.Base.{ℕ, ◌≡◌, Option, none, some, [], ◌∷◌}
use ink_node.Runtime.Origins.{account_id32, Location}
use ink_node.Runtime.Messages.{RuntimeOrigin, relay_network}

abbrev pub OriginToLocation : Type 0
OriginToLocation = RuntimeOrigin → Option Location

pub record SenderBuilder : Type 0 where
  pub signed_to_account_id32 : Option ℕ → OriginToLocation
  pub ensure_xcm_origin : OriginToLocation → OriginToLocation

module _ (b : SenderBuilder) where
  abbrev pub local_origin_to_location : OriginToLocation
  local_origin_to_location = b.signed_to_account_id32 relay_network

  unfoldable pub send_xcm_origin : OriginToLocation
  send_xcm_origin = b.ensure_xcm_origin local_origin_to_location

  unfoldable pub execute_xcm_origin : OriginToLocation
  execute_xcm_origin = b.ensure_xcm_origin local_origin_to_location

abbrev pub account_location : Option ℕ → ℕ → Location
account_location network a = record { parents = 0; interior = account_id32 network a ∷ [] }

abbrev pub here : Location
here = record { parents = 0; interior = [] }

abbrev pub signed_location : Option ℕ → OriginToLocation
signed_location network (RuntimeOrigin.signed a) = some (account_location network a)
signed_location network _ = none

-- Root stands for the chain itself where the conversion fails.
abbrev pub or_root : Option Location → OriginToLocation
or_root (some l) o = some l
or_root none RuntimeOrigin.root = some here
or_root none _ = none

-- What xcm_builder and pallet_xcm document of the two.
pub record Ensures (b : SenderBuilder) : Type 0 where
  pub signed_lem :
      (network : Option ℕ) (o : RuntimeOrigin)
      → b.signed_to_account_id32 network o ≡ signed_location network o
  pub ensure_lem :
      (c : OriginToLocation) (o : RuntimeOrigin) → b.ensure_xcm_origin c o ≡ or_root (c o) o

-- The origins that another chain's message can be dispatched with.
pub data IsForeign : RuntimeOrigin → Type 0 where
  from_relay : IsForeign RuntimeOrigin.relay
  from_sibling : (id : ℕ) → IsForeign (RuntimeOrigin.sibling_para id)
  from_location : (l : Location) → IsForeign (RuntimeOrigin.passed l)

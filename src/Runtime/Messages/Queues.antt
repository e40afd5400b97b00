-- ===== src/Runtime/Messages/Queues.antt =====
-- parachain-runtime/src/lib.rs: under which origin messages of other chains wait in the message
-- queue (`DmpQueue`, `XcmpQueue`), and what the queue tells the XCMP queue (`QueueChangeHandler`,
-- `QueuePausedQuery`). The building blocks of the SDK are the fields of `QueueBuilder`.
use ink_node.Base.{ℕ, ◌≡◌, ◌≢◌, Bool, false, Option, some, List, [], ◌∷◌, ◌++◌}
use ink_node.Runtime.Origins.{parachain, Location}
use ink_node.Runtime.Messages.{
  native, RuntimeOrigin, XcmBuilder, location_to_account_id, transact_dispatch_origin,
}
use ink_node.Runtime.Messages.Assets.{ancestor, relay_location}
use ink_node.Runtime.Messages.Dispatch.{Converts}

pub data AggregateMessageOrigin : Type 0 where
  here parent : AggregateMessageOrigin
  sibling : ℕ → AggregateMessageOrigin

-- Putting a message of an origin into queues.
abbrev pub Enqueue : Type 0 → Type 0 → Type 0 → Type 0
Enqueue O M Q = O → M → Q → Q

-- `message_queue` is the pallet as a sink of messages, `xcmp_changed` and `xcmp_paused` are the XCMP
-- queue as a handler of changes.
pub record QueueBuilder : Type 1 where
  pub Message : Type 0
  pub Queues : Type 0
  pub Footprint : Type 0
  pub Xcmp : Type 0
  pub Outcome : Type 0
  pub message_queue : Enqueue AggregateMessageOrigin Message Queues
  pub enqueue_with_origin :
      Enqueue AggregateMessageOrigin Message Queues
      → AggregateMessageOrigin
      → Message
      → Queues
      → Queues
  pub para_id_to_sibling : ℕ → AggregateMessageOrigin
  pub transform_origin :
      Enqueue AggregateMessageOrigin Message Queues
      → (ℕ → AggregateMessageOrigin)
      → Enqueue ℕ Message Queues
  pub xcmp_changed : ℕ → Footprint → Xcmp → Xcmp
  pub xcmp_paused : ℕ → Xcmp → Bool
  pub narrow_change :
      (ℕ → Footprint → Xcmp → Xcmp) → AggregateMessageOrigin → Footprint → Xcmp → Xcmp
  pub narrow_paused : (ℕ → Xcmp → Bool) → AggregateMessageOrigin → Xcmp → Bool
  pub process_xcm_message :
      (Location → Message → Outcome) → AggregateMessageOrigin → Message → Outcome

-- `RelayOrigin`.
abbrev pub relay_origin : AggregateMessageOrigin
relay_origin = AggregateMessageOrigin.parent

module _ (b : QueueBuilder) where
  -- `DmpQueue` of the parachain system.
  unfoldable pub dmp_queue : b.Message → b.Queues → b.Queues
  dmp_queue = b.enqueue_with_origin b.message_queue relay_origin

  -- `XcmpQueue` of the XCMP queue.
  unfoldable pub xcmp_sink : Enqueue ℕ b.Message b.Queues
  xcmp_sink = b.transform_origin b.message_queue b.para_id_to_sibling

  unfoldable pub queue_change_handler : AggregateMessageOrigin → b.Footprint → b.Xcmp → b.Xcmp
  queue_change_handler = b.narrow_change b.xcmp_changed

  unfoldable pub queue_paused_query : AggregateMessageOrigin → b.Xcmp → Bool
  queue_paused_query = b.narrow_paused b.xcmp_paused

  -- `MessageProcessor`, for the executor with this runtime's configuration.
  unfoldable pub message_processor :
      (Location → b.Message → b.Outcome) → AggregateMessageOrigin → b.Message → b.Outcome
  message_processor execute = b.process_xcm_message execute

-- The location that a queue's messages come from.
abbrev pub source : AggregateMessageOrigin → Location
source AggregateMessageOrigin.here = ancestor 0
source AggregateMessageOrigin.parent = relay_location
source (AggregateMessageOrigin.sibling id) = record { parents = 1; interior = parachain id ∷ [] }

abbrev pub narrowed : {A : Type 0} → A → (ℕ → A) → AggregateMessageOrigin → A
narrowed a f (AggregateMessageOrigin.sibling id) = f id
narrowed a f _ = a

-- What the SDK documents of its queues: a message is put behind those of its own origin, the
-- adapters change the origin only, and only changes of siblings' queues are handed on.
pub record Keeps (b : QueueBuilder) : Type 0 where
  pub pending : b.Queues → AggregateMessageOrigin → List b.Message
  pub same_lem :
      (o : AggregateMessageOrigin) (m : b.Message) (q : b.Queues)
      → pending (b.message_queue o m q) o ≡ pending q o ++ (m ∷ [])
  pub other_lem :
      (o p : AggregateMessageOrigin) (m : b.Message) (q : b.Queues)
      → p ≢ o
      → pending (b.message_queue o m q) p ≡ pending q p
  pub origin_lem :
      (f : Enqueue AggregateMessageOrigin b.Message b.Queues) (o : AggregateMessageOrigin)
      (m : b.Message) (q : b.Queues)
      → b.enqueue_with_origin f o m q ≡ f o m q
  pub transform_lem :
      (f : Enqueue AggregateMessageOrigin b.Message b.Queues) (t : ℕ → AggregateMessageOrigin)
      (id : ℕ) (m : b.Message) (q : b.Queues)
      → b.transform_origin f t id m q ≡ f (t id) m q
  pub sibling_lem : (id : ℕ) → b.para_id_to_sibling id ≡ AggregateMessageOrigin.sibling id
  pub change_lem :
      (f : ℕ → b.Footprint → b.Xcmp → b.Xcmp) (o : AggregateMessageOrigin) (n : b.Footprint)
      (s : b.Xcmp)
      → b.narrow_change f o n s ≡ narrowed s (λ id. f id n s) o
  pub paused_lem :
      (f : ℕ → b.Xcmp → Bool) (o : AggregateMessageOrigin) (s : b.Xcmp)
      → b.narrow_paused f o s ≡ narrowed false (λ id. f id s) o
  pub process_lem :
      (execute : Location → b.Message → b.Outcome) (o : AggregateMessageOrigin) (m : b.Message)
      → b.process_xcm_message execute o m ≡ execute (source o) m

module _ (x : XcmBuilder) (c : Converts x) (b : QueueBuilder) (k : Keeps b) where
  -- One message more waits behind those of an origin, and nothing else changes.
  abbrev pub IsQueued : AggregateMessageOrigin → b.Message → b.Queues → b.Queues → Type 0
  IsQueued o m q q' =
      (k.pending q' o ≡ k.pending q o ++ (m ∷ []))
      × ((p : AggregateMessageOrigin) → p ≢ o → k.pending q' p ≡ k.pending q p)

  -- The messages of an origin are executed as a location that has this native origin and this
  -- account here.
  abbrev pub IsExecutedAs : AggregateMessageOrigin → RuntimeOrigin → Option ℕ → Type 0
  IsExecutedAs o origin account =
      ((execute : Location → b.Message → b.Outcome) (m : b.Message)
        → message_processor b execute o m ≡ execute (source o) m)
      × (transact_dispatch_origin x (source o) native ≡ some origin)
      × (location_to_account_id x (source o) ≡ account)

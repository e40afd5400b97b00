-- ===== src/Runtime/Messages/Router.antt =====
-- parachain-runtime/src/xcm_config.rs: the way that messages of this chain take to their destination
-- (`XcmRouter`).
use ink_node.Base.{ℕ, ◌≡◌, refl, ap₂, ◌∙◌, List, [], ◌∷◌}
use ink_node.Runtime.Origins.{Location}
use ink_node.Runtime.Messages.Queues.{AggregateMessageOrigin, source}
use ink_node.Runtime.Messages.Dispatch.{Place, place}

-- Whether a channel took a message.
pub data Delivery : Type 0 where
  delivered refused : Delivery

pub data SendResult : Type 0 where
  not_applicable : SendResult
  answered : Delivery → SendResult

-- `SendXcm`, on the state of the outgoing channels.
abbrev pub SendXcm : Type 0 → Type 0 → Type 0
SendXcm M S = Location → M → S → SendResult × S

-- `upward` is the channel to the relay chain, `sideways` the channel to a sibling.
pub record RouterBuilder : Type 1 where
  pub Message : Type 0
  pub Channels : Type 0
  pub upward : Message → Channels → Delivery × Channels
  pub sideways : ℕ → Message → Channels → Delivery × Channels
  pub with_unique_topic : SendXcm Message Channels → SendXcm Message Channels
  pub first_sender : List (SendXcm Message Channels) → SendXcm Message Channels
  pub parent_as_ump : SendXcm Message Channels
  pub xcmp_queue : SendXcm Message Channels

unfoldable pub xcm_router : (b : RouterBuilder) → SendXcm b.Message b.Channels
xcm_router b = b.with_unique_topic (b.first_sender (b.parent_as_ump ∷ b.xcmp_queue ∷ []))

abbrev answer : {S : Type 0} → Delivery × S → SendResult × S
answer (d, s) = (answered d, s)

-- What each of the two takes, by the destination.
abbrev pub up : {S : Type 0} → (S → Delivery × S) → Place → S → SendResult × S
up send Place.parent s = answer (send s)
up send _ s = (not_applicable, s)

abbrev pub aside : {S : Type 0} → (ℕ → S → Delivery × S) → Place → S → SendResult × S
aside send (Place.sibling id) s = answer (send id s)
aside send _ s = (not_applicable, s)

abbrev pub or_try : {S : Type 0} → (SendResult × S) → (S → SendResult × S) → SendResult × S
or_try (not_applicable, s) next = next s
or_try (answered d, s) next = (answered d, s)

-- What the SDK documents of its senders: one that a destination does not concern changes nothing
-- and leaves the message to the next, and the outermost gives the message a topic first.
pub record Sends (b : RouterBuilder) : Type 0 where
  pub topic : b.Message → b.Message
  pub topic_lem :
      (f : SendXcm b.Message b.Channels) (l : Location) (m : b.Message) (s : b.Channels)
      → b.with_unique_topic f l m s ≡ f l (topic m) s
  pub nil_lem :
      (l : Location) (m : b.Message) (s : b.Channels)
      → b.first_sender [] l m s ≡ (not_applicable, s)
  pub cons_lem :
      (f : SendXcm b.Message b.Channels) (fs : List (SendXcm b.Message b.Channels)) (l : Location)
      (m : b.Message) (s : b.Channels)
      → b.first_sender (f ∷ fs) l m s ≡ or_try (f l m s) (b.first_sender fs l m)
  pub ump_lem :
      (l : Location) (m : b.Message) (s : b.Channels)
      → b.parent_as_ump l m s ≡ up (b.upward m) (place l) s
  pub xcmp_lem :
      (l : Location) (m : b.Message) (s : b.Channels)
      → b.xcmp_queue l m s ≡ aside (λ id. b.sideways id m) (place l) s

-- By the channel that the place of a destination calls for, if it calls for one.
abbrev pub route : (b : RouterBuilder) → Place → b.Message → b.Channels → SendResult × b.Channels
route b Place.parent m s = answer (b.upward m s)
route b (Place.sibling id) m s = answer (b.sideways id m s)
route b _ m s = (not_applicable, s)

module _ (b : RouterBuilder) (k : Sends b) where
  tried :
      (p : Place) (m : b.Message) (s : b.Channels)
      → or_try
          (up (b.upward m) p s)
          (λ t. or_try (aside (λ id. b.sideways id m) p t) (λ u. (not_applicable, u)))
        ≡ route b p m s
  tried Place.parent m s = refl
  tried Place.elsewhere m s = refl
  tried (Place.sibling id) m s = refl
  tried (Place.own_account id) m s = refl

  second :
      (l : Location) (m : b.Message) (s : b.Channels)
      → b.first_sender (b.xcmp_queue ∷ []) l m s
        ≡ or_try (aside (λ id. b.sideways id m) (place l) s) (λ u. (not_applicable, u))
  second l m s =
      k.cons_lem b.xcmp_queue [] l m s ∙ ap₂ or_try (k.xcmp_lem l m s) (λ j. λ u. k.nil_lem l m u j)

  routed :
      (l : Location) (m : b.Message) (s : b.Channels)
      → xcm_router b l m s ≡ route b (place l) (k.topic m) s
  unfolding xcm_router
  routed l m s =
      let t = k.topic m in
      k.topic_lem (b.first_sender (b.parent_as_ump ∷ b.xcmp_queue ∷ [])) l m s
      ∙ k.cons_lem b.parent_as_ump (b.xcmp_queue ∷ []) l t s
      ∙ ap₂ or_try (k.ump_lem l t s) (λ j. λ u. second l t u j)
      ∙ tried (place l) t s

  -- If the senders do what the SDK documents of them, a message is given its topic and then handed
  -- to exactly one channel, the upward one for the parent and the one to that sibling for a
  -- sibling; for any other destination it is handed to none and no channel changes. So the location
  -- that a queued message of the relay chain or of a sibling is executed as can be answered, by the
  -- channel to the same chain.
  pub xcm_router-route :
      (m : b.Message) (s : b.Channels)
      → ((l : Location) → xcm_router b l m s ≡ route b (place l) (k.topic m) s)
        × (xcm_router b (source AggregateMessageOrigin.parent) m s
            ≡ answer (b.upward (k.topic m) s))
        × ((id : ℕ)
            → xcm_router b (source (AggregateMessageOrigin.sibling id)) m s
              ≡ answer (b.sideways id (k.topic m) s))
  xcm_router-route m s = (
    λ l. routed l m s,
    routed (source AggregateMessageOrigin.parent) m s,
    λ id. routed (source (AggregateMessageOrigin.sibling id)) m s,
  )

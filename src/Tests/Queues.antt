-- ===== src/Tests/Queues.antt =====
-- The theorems about the ways of messages at concrete inputs.
use ink_node.Base.{
  ℕ, ◌≡◌, refl, Bool, true, false, ◌==◌, if◌then◌else◌, List, [], ◌∷◌, ◌++◌, leb, ◌+◌,
}
use ink_node.Runtime.Origins.{Location}
use ink_node.Runtime.Messages.Queues.{AggregateMessageOrigin, QueueBuilder, source, narrowed}
use ink_node.Runtime.Messages.Router.{
  delivered, refused, not_applicable, answered, SendXcm, RouterBuilder, xcm_router, up, aside,
  or_try, Sends, route, xcm_router-route,
}
use ink_node.Runtime.Messages.Dispatch.{place}

-- The queues are lists by origin.
abbrev pub same_source : AggregateMessageOrigin → AggregateMessageOrigin → Bool
same_source AggregateMessageOrigin.here AggregateMessageOrigin.here = true
same_source AggregateMessageOrigin.parent AggregateMessageOrigin.parent = true
same_source (AggregateMessageOrigin.sibling i) (AggregateMessageOrigin.sibling j) = i == j
same_source _ _ = false

abbrev pub Waiting : Type 0
Waiting = AggregateMessageOrigin → List ℕ

abbrev pub put : AggregateMessageOrigin → ℕ → Waiting → Waiting
put o m q p = if same_source o p then q p ++ (m ∷ []) else q p

abbrev pub queues : QueueBuilder
queues = record {
  Message = ℕ;
  Queues = Waiting;
  Footprint = ℕ;
  Xcmp = List ℕ;
  Outcome = Location × ℕ;
  message_queue = put;
  enqueue_with_origin = λ f o m q. f o m q;
  para_id_to_sibling = λ id. AggregateMessageOrigin.sibling id;
  transform_origin = λ f t id m q. f (t id) m q;
  xcmp_changed = λ id n s. id ∷ s;
  xcmp_paused = λ id s. id == 2000;
  narrow_change = λ f o n s. narrowed s (λ id. f id n s) o;
  narrow_paused = λ f o s. narrowed false (λ id. f id s) o;
  process_xcm_message = λ execute o m. execute (source o) m;
}

abbrev no_messages : Waiting
no_messages o = []

-- The channels are the messages sent; no upward message longer than 9 is taken.
abbrev pub sends : List (SendXcm ℕ (List (ℕ × ℕ))) → SendXcm ℕ (List (ℕ × ℕ))
sends [] l m s = (not_applicable, s)
sends (f ∷ fs) l m s = or_try (f l m s) (sends fs l m)

abbrev pub channels : RouterBuilder
channels = record {
  Message = ℕ;
  Channels = List (ℕ × ℕ);
  upward = λ m s. if leb m 9 then (delivered, (0, m) ∷ s) else (refused, s);
  sideways = λ id m s. (delivered, (id, m) ∷ s);
  with_unique_topic = λ f l m s. f l (m + 1) s;
  first_sender = sends;
  parent_as_ump =
      λ l m s. up (λ t. if leb m 9 then (delivered, (0, m) ∷ t) else (refused, t)) (place l) s;
  xcmp_queue = λ l m s. aside (λ id t. (delivered, (id, m) ∷ t)) (place l) s;
}

abbrev channels-Sends : Sends channels
channels-Sends = record {
  topic = λ m. m + 1;
  topic_lem = λ f l m s. refl;
  nil_lem = λ l m s. refl;
  cons_lem = λ f fs l m s. refl;
  ump_lem = λ l m s. refl;
  xcmp_lem = λ l m s. refl;
}

xcm_router-route_example :
    ((l : Location) → xcm_router channels l 9 [] ≡ route channels (place l) 10 [])
    × (xcm_router channels (source AggregateMessageOrigin.parent) 9 [] ≡ (answered refused, []))
    × ((id : ℕ)
        → xcm_router channels (source (AggregateMessageOrigin.sibling id)) 9 []
          ≡ (answered delivered, (id, 10) ∷ []))
xcm_router-route_example = xcm_router-route channels channels-Sends 9 []

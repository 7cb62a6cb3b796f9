-- ===== src/Bus/Tests.antt =====
-- One deployment request on the bus: the theorems at concrete calls.
use mathlib.Core.List.{Memᴰ}
use greencompute_api.Prelude.{
  ◌≤◌, length, select, String, ◌≡◌, refl, Bool, false, none, List, [], ◌∷◌, arith, string_eq, ◌==◌,
}
use greencompute_api.Prelude.Sort.{sorted}
use greencompute_api.Bus.{
  BusMessage, Tables, publish, add_deliveries, consumers_of, new_event, new_delivery, claimed,
  to_message, claim_pending, claim_rows, is_claimable,
}
use greencompute_api.Bus.Delivery.{Op, claim, fail, publish_event, handed_out, claimed_once}
use greencompute_api.Bus.Published.{claim_pending-publish}

abbrev empty : Tables
empty = record { deliveries = []; events = []; next_id = 1 }

abbrev requested : Tables
requested = record {
  deliveries = (1, new_delivery "e1" "deployment.requested" "control-plane-worker" 5) ∷ [];
  events = ("e1", new_event "deployment.requested" "{}" 5) ∷ [];
  next_id = 2;
}

abbrev is_request : String → Bool
is_request s = s == "deployment.requested"

published_once : publish "e1" "deployment.requested" "{}" 5 empty ≡ requested
unfolding publish add_deliveries consumers_of
published_once = refl

subscribed : Memᴰ "control-plane-worker" (consumers_of "deployment.requested")
unfolding consumers_of
subscribed = Memᴰ.head refl

all_wait :
    length (
      select
        (is_claimable "control-plane-worker" is_request 6)
        (publish "e1" "deployment.requested" "{}" 5 empty).deliveries)
    ≤ 1
unfolding publish add_deliveries consumers_of is_claimable
all_wait = omega arith

claim_pending-publish_example :
    (message : BusMessage) × Memᴰ message
      (claim_pending "control-plane-worker" is_request 1 6
        (publish "e1" "deployment.requested" "{}" 5 empty)).0
    × (message.event_id ≡ "e1")
    × (message.consumer ≡ "control-plane-worker")
    × (message.subject ≡ "deployment.requested")
    × (message.payload ≡ "{}")
claim_pending-publish_example =
    claim_pending-publish "control-plane-worker" "e1" "deployment.requested" "{}" is_request 1 5 6
      empty subscribed refl (omega arith) all_wait

abbrev message : BusMessage
message =
    to_message 1 (claimed 6 (new_delivery "e1" "deployment.requested" "control-plane-worker" 5))
      (new_event "deployment.requested" "{}" 5)

handed : Memᴰ message (claim_pending "control-plane-worker" is_request 10 6 requested).0
unfolding claim_pending claim_rows is_claimable sorted
handed = Memᴰ.head refl

abbrev later_calls : List Op
later_calls =
    claim "control-plane-worker" is_request 10 7
    ∷ fail 1 "no node" false none 8
    ∷ publish_event "e2" "deployment.requested" "{}" 8
    ∷ claim "control-plane-worker" is_request 10 9
    ∷ []

claimed_once_example :
    ¬ Memᴰ message
      (handed_out later_calls (claim_pending "control-plane-worker" is_request 10 6 requested).1)
claimed_once_example =
    claimed_once "control-plane-worker" is_request 10 6 requested later_calls message message
      (omega arith, tt) handed refl (refl, (refl, (refl, (refl, tt))))

-- ===== src/Bus/Delivery.antt =====
-- Sequences of the bus's operations, and what they hand out.
use mathlib.Core.List.{Memᴰ}
use greencompute_api.Prelude.{
  ℕ, ◌<◌, String, ◌≡◌, Bool, true, false, ◌&&◌, Option, none, some, List, [], ◌∷◌, ◌++◌, ◌==◌,
  nat_eq, string_eq, if◌then◌else◌, All, arith,
}
use greencompute_api.Prelude.Members.{member-All}
use greencompute_api.Bus.{
  pending, failed, completed, is_pending, BusMessage, Tables, publish, claim_pending,
  mark_completed, mark_failed, requeue_stale_processing,
}
use greencompute_api.Bus.Claims.{
  claim_pending-next_id, _update_status-next_id, claim_pending-open, IsTaken, claim_pending-takes,
  claim_pending-IsTaken, claim_pending-not_taken, _update_status-IsTaken, publish-IsTaken,
}

-- One call of the bus.
pub data Op : Type 0 where
  publish_event : String → String → String → ℕ → Op
  claim : String → (String → Bool) → ℕ → ℕ → Op
  complete : ℕ → ℕ → Op
  fail : ℕ → String → Bool → Option ℕ → ℕ → Op
  requeue : String → (String → Bool) → ℕ → ℕ → Op

-- What the calls hand out, and the tables after them.
abbrev pub step : Op → Tables → List BusMessage × Tables
step (publish_event id subject payload now) t = ([], publish id subject payload now t)
step (claim consumer wanted limit now) t = claim_pending consumer wanted limit now t
step (complete id now) t = ([], (mark_completed id now t).1)
step (fail id error retryable wait now) t = ([], (mark_failed id error retryable wait now t).1)
step (requeue consumer wanted stale now) t =
    ([], (requeue_stale_processing consumer wanted stale now t).1)

abbrev pub handed_out : List Op → Tables → List BusMessage
handed_out [] t = []
handed_out (o ∷ os) t = (step o t).0 ++ handed_out os (step o t).1

-- The calls that may put a delivery back: a retryable failure of it, and the sweep of stale ones.
abbrev pub reopens : ℕ → Op → Bool
reopens id (fail k error retryable wait now) = k == id && retryable
reopens id (requeue consumer wanted stale now) = true
reopens id _ = false

-- A delivery that is taken, and whose id the autoincrement has passed.
abbrev pub IsOut : ℕ → Tables → Type 0
IsOut id t = IsTaken id t.deliveries × (id < t.next_id)

kept_shut :
    (same retryable : Bool)
    → same && retryable ≡ false
    → same && is_pending (if retryable then pending else failed) ≡ false
kept_shut same retryable r = ground arith

step-IsOut :
    (id : ℕ) (o : Op) (t : Tables) → reopens id o ≡ false → IsOut id t → IsOut id (step o t).1
unfolding mark_completed mark_failed
step-IsOut id (publish_event e subject payload now) t r (h, old) =
    publish-IsTaken id e subject payload now t old h
step-IsOut id (claim consumer wanted limit now) t r (h, old) = (
  claim_pending-IsTaken id consumer wanted limit now t h,
  omega (arith, old, claim_pending-next_id consumer wanted limit now t),
)
step-IsOut id (complete k now) t r (h, old) = (
  _update_status-IsTaken id k completed none none now t (ground arith) h,
  omega (arith, old, _update_status-next_id k completed none none now t),
)
step-IsOut id (fail k error retryable wait now) t r (h, old) =
    let status = if retryable then pending else failed in
    (
      _update_status-IsTaken id k status (some error) wait now t (kept_shut (k == id) retryable r)
          h,
      omega (arith, old, _update_status-next_id k status (some error) wait now t),
    )
step-IsOut id (requeue consumer wanted stale now) t r h = absurd (cc)

append-cases :
    (m : BusMessage) (xs ys : List BusMessage) → Memᴰ m (xs ++ ys) → ¬ Memᴰ m xs → ¬ Memᴰ m ys → ⊥
append-cases m [] ys k f g = g k
append-cases m (x ∷ xs) ys (Memᴰ.head e) f g = f (Memᴰ.head e)
append-cases m (x ∷ xs) ys (Memᴰ.tail k) f g = append-cases m xs ys k (λ i. f (Memᴰ.tail i)) g

step_not_out :
    (o : Op) (t : Tables) (m : BusMessage) → IsOut m.delivery_id t → ¬ Memᴰ m (step o t).0
step_not_out (claim consumer wanted limit now) t m h k =
    claim_pending-not_taken consumer wanted limit now t m h.0 k
step_not_out (publish_event e subject payload now) t m h k = elim k [ ]
step_not_out (complete id now) t m h k = elim k [ ]
step_not_out (fail id error retryable wait now) t m h k = elim k [ ]
step_not_out (requeue consumer wanted stale now) t m h k = elim k [ ]

not_handed_out :
    (os : List Op) (t : Tables) (m : BusMessage)
    → All (λ o. reopens m.delivery_id o ≡ false) os
    → IsOut m.delivery_id t
    → ¬ Memᴰ m (handed_out os t)
not_handed_out [] t m rs h k = elim k [ ]
not_handed_out (o ∷ os) t m rs h k =
    append-cases m (step o t).0 (handed_out os (step o t).1) k (step_not_out o t m h)
      (not_handed_out os (step o t).1 m rs.1 (step-IsOut m.delivery_id o t rs.0 h))

-- A delivery that claim_pending has handed out is not handed out again, to any consumer, by any
-- calls that follow, as long as none of them marks it failed as retryable or sweeps stale
-- deliveries. The ids of the rows are below the next one of the autoincrement.
pub claimed_once :
    (consumer : String) (wanted : String → Bool) (limit now : ℕ) (t : Tables) (os : List Op)
    (m m' : BusMessage)
    → All (λ r. r.0 < t.next_id) t.deliveries
    → Memᴰ m (claim_pending consumer wanted limit now t).0
    → m'.delivery_id ≡ m.delivery_id
    → All (λ o. reopens m'.delivery_id o ≡ false) os
    → ¬ Memᴰ m' (handed_out os (claim_pending consumer wanted limit now t).1)
claimed_once consumer wanted limit now t os m m' numbered k same closed =
    not_handed_out os _ m' closed (
      rw same (
        claim_pending-takes consumer wanted limit now t m k,
        rw claim_pending-next_id (
            let (row, inside, _) = claim_pending-open consumer wanted limit now t m k in
            member-All (λ r. r.0 < t.next_id) t.deliveries numbered inside),
      ))

-- ===== src/Bus/Claims.antt =====
-- What claim_pending hands out, and the deliveries that it takes.
use mathlib.Core.List.{Memᴰ}
use greencompute_api.Prelude.{
  ℕ, ◌<◌, String, ◌≡◌, refl, ap, Bool, true, false, ◌&&◌, Option, List, [], ◌∷◌, ◌++◌, ◌==◌, nat_eq,
  string_eq, nat_beq_iff, if-cases, option-cases, All, select, take, arith,
}
use greencompute_api.Prelude.Dict.{Dict, lookup}
use greencompute_api.Prelude.Sort.{sorted, mem-sorted}
use greencompute_api.Prelude.Members.{mem-cases, mem-select, mem-take}
use greencompute_api.Bus.{
  DeliveryStatus, is_pending, BusDelivery, BusMessage, Tables, update_row, add_deliveries, publish,
  consumers_of, claimed, claim_rows, claim_pending, is_claimable, older_first, _update_status,
}

-- A row with this id that waits to be claimed.
abbrev pub is_open : ℕ → ℕ × BusDelivery → Bool
is_open id (i, row) = i == id && is_pending row.status

-- No row with this id waits to be claimed.
abbrev pub IsTaken : ℕ → Dict ℕ BusDelivery → Type 0
IsTaken id = All (λ r. is_open id r ≡ false)

update-IsTaken :
    (id k : ℕ) (row : BusDelivery) (d : Dict ℕ BusDelivery)
    → is_open id (k, row) ≡ false
    → IsTaken id d
    → IsTaken id (update_row k row d)
unfolding update_row
update-IsTaken id k row [] new h = tt
update-IsTaken id k row ((i, old) ∷ d) new h = (
  if-cases (λ r. is_open id r ≡ false) (k == i) (λ e. ground (arith, nat_beq_iff k i)) (λ _. h.0),
  update-IsTaken id k row d new h.1,
)

update-takes :
    (id : ℕ) (row : BusDelivery) (d : Dict ℕ BusDelivery)
    → is_pending row.status ≡ false
    → IsTaken id (update_row id row d)
unfolding update_row
update-takes id row [] new = tt
update-takes id row ((i, old) ∷ d) new = (
  if-cases (λ r. is_open id r ≡ false) (id == i) (λ e. ground arith)
      (λ e. ground (arith, nat_beq_iff id i, nat_beq_iff i id)),
  update-takes id row d new,
)

append-IsTaken :
    (id k : ℕ) (row : BusDelivery) (d : Dict ℕ BusDelivery)
    → (k == id) ≡ false
    → IsTaken id d
    → IsTaken id (d ++ ((k, row) ∷ []))
append-IsTaken id k row [] other h = (rw other, tt)
append-IsTaken id k row (r ∷ d) other h = (h.0, append-IsTaken id k row d other h.1)

member-taken :
    (id : ℕ) (r : ℕ × BusDelivery) (d : Dict ℕ BusDelivery)
    → IsTaken id d
    → Memᴰ r d
    → is_open id r ≡ false
member-taken id r [] h m = elim m [ ]
member-taken id r (s ∷ d) h (Memᴰ.head e) = rw e h.0
member-taken id r (s ∷ d) h (Memᴰ.tail k) = member-taken id r d h.1 k

module _ (now : ℕ) where
  claim_rows-IsTaken :
      (id : ℕ) (rs : List (ℕ × BusDelivery)) (t : Tables)
      → IsTaken id t.deliveries
      → IsTaken id (claim_rows now rs t).1.deliveries
  unfolding claim_rows
  claim_rows-IsTaken id [] t h = h
  claim_rows-IsTaken id ((i, row) ∷ rs) t h =
      let t' = record t { deliveries = update_row i (claimed now row) t.deliveries } in
      let rest =
        claim_rows-IsTaken id rs t'
          (update-IsTaken id i (claimed now row) t.deliveries (ground arith) h) in
      option-cases (λ (o : List BusMessage × Tables). IsTaken id o.1.deliveries)
        (lookup row.event_id t.events) (λ _. rest) (λ _ _. rest)

  -- A delivery that is handed out is taken.
  claim_rows-takes :
      (m : BusMessage) (rs : List (ℕ × BusDelivery)) (t : Tables)
      → Memᴰ m (claim_rows now rs t).0
      → IsTaken m.delivery_id (claim_rows now rs t).1.deliveries
  unfolding claim_rows
  claim_rows-takes m [] t = λ k. elim k [ ]
  claim_rows-takes m ((i, row) ∷ rs) t =
      let t' = record t { deliveries = update_row i (claimed now row) t.deliveries } in
      let rest = claim_rows-takes m rs t' in
      let here = claim_rows-IsTaken i rs t' (update-takes i (claimed now row) t.deliveries refl) in
      option-cases
        (λ (o : List BusMessage × Tables). Memᴰ m o.0 → IsTaken m.delivery_id o.1.deliveries)
        (lookup row.event_id t.events) (λ _. rest)
        (λ event _ k.
          mem-cases (IsTaken m.delivery_id (claim_rows now rs t').1.deliveries) k
            (λ e. rw (ap (λ (x : BusMessage). x.delivery_id) e) here) rest)

  -- It is one of the rows.
  claim_rows-from :
      (m : BusMessage) (rs : List (ℕ × BusDelivery)) (t : Tables)
      → Memᴰ m (claim_rows now rs t).0
      → (row : BusDelivery) × Memᴰ (m.delivery_id, row) rs
  unfolding claim_rows
  claim_rows-from m [] t = λ k. elim k [ ]
  claim_rows-from m ((i, row) ∷ rs) t =
      let t' = record t { deliveries = update_row i (claimed now row) t.deliveries } in
      option-cases
        (λ (o : List BusMessage × Tables).
          Memᴰ m o.0 → (r : BusDelivery) × Memᴰ (m.delivery_id, r) ((i, row) ∷ rs))
        (lookup row.event_id t.events)
        (λ _ k. let (r, k') = claim_rows-from m rs t' k in (r, Memᴰ.tail k'))
        (λ event _ k.
          mem-cases ((r : BusDelivery) × Memᴰ (m.delivery_id, r) ((i, row) ∷ rs)) k
            (λ e. (row, rw (ap (λ (x : BusMessage). x.delivery_id) e) (Memᴰ.head refl)))
            (λ k'. let (r, k'') = claim_rows-from m rs t' k' in (r, Memᴰ.tail k'')))

-- What claim_pending hands out waits to be claimed.
pub claim_pending-open :
    (consumer : String) (wanted : String → Bool) (limit now : ℕ) (t : Tables) (m : BusMessage)
    → Memᴰ m (claim_pending consumer wanted limit now t).0
    → (row : BusDelivery) × Memᴰ (m.delivery_id, row) t.deliveries
      × (is_claimable consumer wanted now (m.delivery_id, row) ≡ true)
unfolding claim_pending
claim_pending-open consumer wanted limit now t m k =
    let eligible = select (is_claimable consumer wanted now) t.deliveries in
    let (row, chosen) = claim_rows-from now m (take limit (sorted older_first eligible)) t k in
    let (inside, fits) =
      mem-select (is_claimable consumer wanted now) (m.delivery_id, row) t.deliveries
        (mem-sorted older_first _ eligible
          (mem-take limit _ (sorted older_first eligible) chosen)) in
    (row, inside, fits)

pub claim_pending-takes :
    (consumer : String) (wanted : String → Bool) (limit now : ℕ) (t : Tables) (m : BusMessage)
    → Memᴰ m (claim_pending consumer wanted limit now t).0
    → IsTaken m.delivery_id (claim_pending consumer wanted limit now t).1.deliveries
unfolding claim_pending
claim_pending-takes consumer wanted limit now t m = claim_rows-takes now m _ t

pub claim_pending-IsTaken :
    (id : ℕ) (consumer : String) (wanted : String → Bool) (limit now : ℕ) (t : Tables)
    → IsTaken id t.deliveries
    → IsTaken id (claim_pending consumer wanted limit now t).1.deliveries
unfolding claim_pending
claim_pending-IsTaken id consumer wanted limit now t = claim_rows-IsTaken now id _ t

-- A taken delivery is not handed out.
pub claim_pending-not_taken :
    (consumer : String) (wanted : String → Bool) (limit now : ℕ) (t : Tables) (m : BusMessage)
    → IsTaken m.delivery_id t.deliveries
    → ¬ Memᴰ m (claim_pending consumer wanted limit now t).0
unfolding is_claimable
claim_pending-not_taken consumer wanted limit now t m h k =
    let (row, inside, fits) = claim_pending-open consumer wanted limit now t m k in
    let shut = member-taken m.delivery_id (m.delivery_id, row) t.deliveries h inside in
    absurd (ground (arith, nat_beq_iff m.delivery_id m.delivery_id))

pub _update_status-IsTaken :
    (id k : ℕ) (status : DeliveryStatus) (error : Option String) (wait : Option ℕ) (now : ℕ)
    (t : Tables)
    → k == id && is_pending status ≡ false
    → IsTaken id t.deliveries
    → IsTaken id (_update_status k status error wait now t).1.deliveries
unfolding _update_status
_update_status-IsTaken id k status error wait now t new h =
    let P : Option BusMessage × Tables → Type 0 = λ o. IsTaken id o.1.deliveries in
    option-cases P (lookup k t.deliveries) (λ _. h)
      (λ old _.
        option-cases P (lookup old.event_id t.events)
          (λ _. update-IsTaken id k _ t.deliveries new h)
          (λ _ _. update-IsTaken id k _ t.deliveries new h))

add_deliveries-IsTaken :
    (id : ℕ) (event_id subject : String) (now : ℕ) (cs : List String) (t : Tables)
    → id < t.next_id
    → IsTaken id t.deliveries
    → IsTaken id (add_deliveries event_id subject now cs t).deliveries
      × (id < (add_deliveries event_id subject now cs t).next_id)
unfolding add_deliveries
add_deliveries-IsTaken id event_id subject now [] t old h = (h, old)
add_deliveries-IsTaken id event_id subject now (c ∷ cs) t old h =
    add_deliveries-IsTaken id event_id subject now cs _ (omega (arith, old))
      (append-IsTaken id t.next_id _ t.deliveries (ground (arith, nat_beq_iff t.next_id id)) h)

pub publish-IsTaken :
    (id : ℕ) (event_id subject payload : String) (now : ℕ) (t : Tables)
    → id < t.next_id
    → IsTaken id t.deliveries
    → IsTaken id (publish event_id subject payload now t).deliveries
      × (id < (publish event_id subject payload now t).next_id)
unfolding publish
publish-IsTaken id event_id subject payload now t =
    add_deliveries-IsTaken id event_id subject now (consumers_of subject) _

claim_rows-next_id :
    (now : ℕ) (rs : List (ℕ × BusDelivery)) (t : Tables)
    → (claim_rows now rs t).1.next_id ≡ t.next_id
unfolding claim_rows
claim_rows-next_id now [] t = refl
claim_rows-next_id now ((i, row) ∷ rs) t =
    let t' = record t { deliveries = update_row i (claimed now row) t.deliveries } in
    option-cases (λ (o : List BusMessage × Tables). o.1.next_id ≡ t.next_id)
      (lookup row.event_id t.events) (λ _. claim_rows-next_id now rs t')
      (λ _ _. claim_rows-next_id now rs t')

pub claim_pending-next_id :
    (consumer : String) (wanted : String → Bool) (limit now : ℕ) (t : Tables)
    → (claim_pending consumer wanted limit now t).1.next_id ≡ t.next_id
unfolding claim_pending
claim_pending-next_id consumer wanted limit now t = claim_rows-next_id now _ t

pub _update_status-next_id :
    (k : ℕ) (status : DeliveryStatus) (error : Option String) (wait : Option ℕ) (now : ℕ)
    (t : Tables)
    → (_update_status k status error wait now t).1.next_id ≡ t.next_id
unfolding _update_status
_update_status-next_id k status error wait now t =
    let P : Option BusMessage × Tables → Type 0 = λ o. o.1.next_id ≡ t.next_id in
    option-cases P (lookup k t.deliveries) (λ _. refl)
      (λ old _. option-cases P (lookup old.event_id t.events) (λ _. refl) (λ _ _. refl))

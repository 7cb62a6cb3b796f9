-- ===== src/Bus/Published.antt =====
-- What publish leaves for the consumers of a subject, and claim_pending hands out of it.
use mathlib.Core.List.{Memᴰ}
use greencompute_api.Prelude.{
  ℕ, zero, suc, ◌≤◌, String, ◌≡◌, refl, sym, ap, ◌∙◌, length, select, take, sum_by, option-cases,
  Bool, true, some, List, [], ◌∷◌, string_eq, eq_iff, arith,
}
use greencompute_api.Prelude.Dict.{lookup, lookup-insert}
use greencompute_api.Prelude.Members.{mem-append_left, mem-append_end, mem-cases, select-mem}
use greencompute_api.Prelude.Sort.{sorted, sorted-mem, sum_by-sorted}
use greencompute_api.Bus.{
  WorkflowEvent, BusDelivery, BusMessage, to_message, claimed, claim_rows, claim_pending,
  update_row, older_first, Tables, publish, add_deliveries, consumers_of, new_event, new_delivery,
  is_claimable,
}

length-sorted : (rows : List (ℕ × BusDelivery)) → length (sorted older_first rows) ≡ length rows
length-sorted rows = by_sum (sorted older_first rows) rows (sum_by-sorted older_first (λ _. 1) rows)
  where
    ones : (xs : List (ℕ × BusDelivery)) → sum_by (λ _. 1) xs ≡ length xs
    ones [] = refl
    ones (x ∷ xs) = ground (arith, ones xs)

    by_sum :
        (xs ys : List (ℕ × BusDelivery))
        → sum_by (λ _. 1) xs ≡ sum_by (λ _. 1) ys
        → length xs ≡ length ys
    by_sum xs ys e = sym (ones xs) ∙ (e ∙ ones ys)

take-all : (n : ℕ) (rows : List (ℕ × BusDelivery)) → length rows ≤ n → take n rows ≡ rows
take-all zero [] le = refl
take-all zero (r ∷ rows) le = absurd (omega arith)
take-all (suc n) [] le = refl
take-all (suc n) (r ∷ rows) le = ap (λ l. r ∷ l) (take-all n rows (omega arith))

add_deliveries-keeps :
    (r : ℕ × BusDelivery) (event_id subject : String) (now : ℕ) (cs : List String) (t : Tables)
    → Memᴰ r t.deliveries
    → Memᴰ r (add_deliveries event_id subject now cs t).deliveries
unfolding add_deliveries
add_deliveries-keeps r event_id subject now [] t k = k
add_deliveries-keeps r event_id subject now (c ∷ cs) t k =
    add_deliveries-keeps r event_id subject now cs _ (mem-append_left r t.deliveries _ k)

add_deliveries-adds :
    (c event_id subject : String) (now : ℕ) (cs : List String) (t : Tables)
    → Memᴰ c cs
    → (id : ℕ) × Memᴰ
        (id, new_delivery event_id subject c now)
        (add_deliveries event_id subject now cs t).deliveries
unfolding add_deliveries
add_deliveries-adds c event_id subject now [] t k = elim k [ ]
add_deliveries-adds c event_id subject now (x ∷ cs) t (Memᴰ.head e) = (
  t.next_id,
  add_deliveries-keeps _ event_id subject now cs _
      (rw e (mem-append_end (t.next_id, new_delivery event_id subject x now) t.deliveries)),
)
add_deliveries-adds c event_id subject now (x ∷ cs) t (Memᴰ.tail k) =
    add_deliveries-adds c event_id subject now cs _ k

add_deliveries-events :
    (event_id subject : String) (now : ℕ) (cs : List String) (t : Tables)
    → (add_deliveries event_id subject now cs t).events ≡ t.events
unfolding add_deliveries
add_deliveries-events event_id subject now [] t = refl
add_deliveries-events event_id subject now (c ∷ cs) t =
    add_deliveries-events event_id subject now cs _

-- What the loop of claim_pending hands out for a row whose event is there.
claim_rows-gives :
    (now id : ℕ) (row : BusDelivery) (event : WorkflowEvent) (rs : List (ℕ × BusDelivery))
    (t : Tables)
    → Memᴰ (id, row) rs
    → lookup row.event_id t.events ≡ some event
    → Memᴰ (to_message id (claimed now row) event) (claim_rows now rs t).0
unfolding claim_rows
claim_rows-gives now id row event [] t k known = elim k [ ]
claim_rows-gives now id row event ((i, other) ∷ rs) t k known =
    let t' = record t { deliveries = update_row i (claimed now other) t.deliveries } in
    let Given : List BusMessage × Tables → Type 0 =
      λ o. Memᴰ (to_message id (claimed now row) event) o.0 in
    mem-cases (Given (claim_rows now ((i, other) ∷ rs) t)) k
      (λ same.
        let same_id : id ≡ i = ap (λ (r : ℕ × BusDelivery). r.0) same in
        let same_row : row ≡ other = ap (λ (r : ℕ × BusDelivery). r.1) same in
        option-cases Given (lookup other.event_id t.events)
          (λ gone. absurd (cc (known, gone, same_row))) (λ found e. Memᴰ.head (cc)))
      (λ later.
        let rest = claim_rows-gives now id row event rs t' later known in
        option-cases Given (lookup other.event_id t.events) (λ _. rest) (λ _ _. Memᴰ.tail rest))

-- A claim whose limit is not below the number of rows that wait hands out each of them whose event is
-- there.
claim_pending-gives :
    (consumer : String) (wanted : String → Bool) (limit now id : ℕ) (row : BusDelivery)
    (event : WorkflowEvent) (t : Tables)
    → Memᴰ (id, row) t.deliveries
    → is_claimable consumer wanted now (id, row) ≡ true
    → lookup row.event_id t.events ≡ some event
    → length (select (is_claimable consumer wanted now) t.deliveries) ≤ limit
    → Memᴰ (to_message id (claimed now row) event) (claim_pending consumer wanted limit now t).0
unfolding claim_pending
claim_pending-gives consumer wanted limit now id row event t inside waits known room =
    let eligible = select (is_claimable consumer wanted now) t.deliveries in
    let enough : length (sorted older_first eligible) ≤ limit =
      omega (arith, length-sorted eligible, room) in
    claim_rows-gives now id row event _ t
      (rw (take-all limit (sorted older_first eligible) enough) (
        sorted-mem older_first (id, row) eligible
          (select-mem (is_claimable consumer wanted now) (id, row) t.deliveries inside waits)))
      known

-- For each consumer of a subject, any set of subjects with that one, and any time from the publication on:
-- claim_pending right after publish, with a limit that is not below the number of rows that wait for
-- the consumer, hands out a message of the new event, with its subject and payload.
pub claim_pending-publish :
    (c event_id subject payload : String) (wanted : String → Bool) (limit now later : ℕ)
    (t : Tables)
    → Memᴰ c (consumers_of subject)
    → wanted subject ≡ true
    → now ≤ later
    → length
        (select (is_claimable c wanted later) (publish event_id subject payload now t).deliveries)
      ≤ limit
    → (message : BusMessage) × Memᴰ message
        (claim_pending c wanted limit later (publish event_id subject payload now t)).0
      × (message.event_id ≡ event_id)
      × (message.consumer ≡ c)
      × (message.subject ≡ subject)
      × (message.payload ≡ payload)
unfolding publish is_claimable
claim_pending-publish c event_id subject payload wanted limit now later t k wants due room =
    let (id, added) = add_deliveries-adds c event_id subject now (consumers_of subject) _ k in
    let row = new_delivery event_id subject c now in
    (
      _,
      claim_pending-gives c wanted limit later id row (new_event subject payload now) _ added
          (ground (arith, eq_iff c c))
          (rw
            (
              add_deliveries-events event_id subject now (consumers_of subject),
              lookup-insert,
              (eq_iff event_id event_id).1 refl,
            )
            refl)
          room,
      refl,
      refl,
      refl,
      refl,
    )

-- ===== src/Validator/Flux/Bound.antt =====
-- The replicas that assign_catalog_models gives to the models, over the whole loop.
use mathlib.Core.List.{Memᴰ}
use native.Mathlib.Nat.{mul-div_cancel}
use greencompute_api.Prelude.{
  ℕ, suc, ◌+◌, ◌-◌, ◌*◌, ◌≤◌, ◌<◌, max, String, ◌≡◌, refl, ◌∙◌, ◌⊎◌, Bool, true, false, ◌&&◌,
  Option, none, some, List, [], ◌∷◌, ◌++◌, select, length, length-append, All, ltb, leb, ◌==◌,
  nat_eq, string_eq, eq_iff, arith, if-cases, inl, inr, Option-cases, ap,
}
use greencompute_api.Prelude.Int.{pos, sub_ℕ, ltb_ℤ}
use greencompute_api.Prelude.Dict.{lookup, insert, UniqueKeys, IsAbsent}
use greencompute_api.Prelude.Members.{member-All, mem-find}
use greencompute_api.Validator.Flux.{
  Entry, Assignments, Targets, Packing, range, indices_or_empty, count_or_zero, is_eligible,
  pin_one, pin, entries_by_id, pinned, replicas, wants, candidate, place, has_indices, finished,
  pack, assign_catalog_models,
}
use greencompute_api.Validator.Flux.Loop.{IsSized, candidate-member, candidate-packing, fill-Ends}
use greencompute_api.Validator.Flux.Blocks.{select-All}
use greencompute_api.Validator.Flux.Targets.{
  UniqueModels, indices_of, IsWithin, insert-IsWithin, entry_found, no_indices_empty,
  no_indices-UniqueKeys, length-range,
}

replicas-Within :
    (ts : Targets) (pins : List String) (e : Entry) (d : Assignments) (k : ℕ)
    → 1 ≤ e.gpu_count
    → length (indices_of e.model_id d) ≡ k * e.gpu_count
    → replicas e d ≡ k
replicas-Within ts pins e d k size whole =
    let one : max 1 e.gpu_count ≡ e.gpu_count = ground arith in
    rw (one, whole) (mul-div_cancel k size)

wanted_few :
    (n : ℕ) (t : String × ℕ) (ts : Targets) (es : List Entry) (s : Packing) (c : Entry)
    → (candidate n (t ∷ ts) es s).0 ≡ some c
    → replicas c s.assignments < count_or_zero (lookup c.model_id (t ∷ ts))
unfolding candidate
wanted_few n t ts es s c e =
    let (m, pass) = mem-find (wants n (t ∷ ts) s) c _ e in
    below _ _ (leb c.gpu_count (n - s.cursor)) pass
  where
    below : (a b : ℕ) (p : Bool) → (p && ltb_ℤ (pos 0) (sub_ℕ a b)) ≡ true → b < a
    below a b p h = ground arith

module _ (n : ℕ) (ts : Targets) (pins : List String) (es : List Entry) (unique : UniqueModels es)
    (sized : All IsSized es) where
  pin_one-IsWithin :
      (id : String) (s : Packing)
      → Memᴰ id pins
      → IsWithin ts pins es s
      → IsWithin ts pins es (pin_one n id (lookup id (entries_by_id es [])) s)
  unfolding pin_one
  pin_one-IsWithin id s m h = elim (Option-cases (lookup id (entries_by_id es []))) [
    | inl none_found ↦ rw none_found h
    | inr (e, found) ↦ rw found (elim (entry_found id e es [] found) [
      | inr impossible ↦ absurd (cc)
      | inl (k, same) ↦
          if-cases (IsWithin ts pins es) (ltb n (s.cursor + e.gpu_count)) (λ _. h)
            (λ _.
              insert-IsWithin ts pins es e (range s.cursor e.gpu_count) s
                (record s {
                  assignments = insert id (range s.cursor e.gpu_count) s.assignments;
                  cursor = s.cursor + e.gpu_count;
                })
                unique k h (rw same refl) 1 (omega (arith, length-range s.cursor e.gpu_count))
                (inr (rw same m, omega arith)))
    ])
  ]

  pin-IsWithin :
      (ids : List String) (s : Packing)
      → ((id : String) → Memᴰ id ids → Memᴰ id pins)
      → IsWithin ts pins es s
      → IsWithin ts pins es (pin n (entries_by_id es []) ids s)
  unfolding pin
  pin-IsWithin [] s sub h = h
  pin-IsWithin (id ∷ ids) s sub h =
      pin-IsWithin ids _ (λ j m. sub j (Memᴰ.tail m))
        (pin_one-IsWithin id s (sub id (Memᴰ.head refl)) h)

  pinned-IsWithin : IsWithin ts pins es (pinned n es pins)
  unfolding pinned
  pinned-IsWithin =
      pin-IsWithin pins _ (λ id m. m)
        (
          no_indices-UniqueKeys es [] tt,
          λ e m. (
            0,
            omega (arith, ap length (no_indices_empty e.model_id es [] refl)),
            inl (omega arith),
          ),
        )

  -- A candidate by its deficit has fewer replicas than its target.
  place-IsWithin :
      (t : String × ℕ) (rest : Targets) (s : Packing) (c : Entry)
      → ts ≡ t ∷ rest
      → IsWithin ts pins es s
      → (candidate n ts es s).0 ≡ some c
      → IsWithin ts pins es (place c (candidate n ts es s).1)
  unfolding place
  place-IsWithin t rest s c e h found =
      let (same, at) = candidate-packing n ts es s in
      let m = (candidate-member n ts es s c found).0 in
      let (k, whole, _) = h.1 c m in
      let at_target : replicas c s.assignments < count_or_zero (lookup c.model_id ts) =
        rw e (wanted_few n t rest es s c (rw (← e) found)) in
      let now : replicas c s.assignments ≡ k =
        replicas-Within ts pins c s.assignments k (member-All IsSized es sized m) whole in
      rw (same, at)
        (insert-IsWithin ts pins es c
          (indices_of c.model_id s.assignments ++ range s.cursor c.gpu_count) s
          (record s {
            assignments =
                insert c.model_id
                  (indices_of c.model_id s.assignments ++ range s.cursor c.gpu_count) s.assignments;
          })
          unique m h refl (k + 1)
          (omega (
            arith,
            whole,
            length-append (indices_of c.model_id s.assignments) (range s.cursor c.gpu_count),
            length-range s.cursor c.gpu_count,
          ))
          (inl (omega (arith, at_target, now))))

absent_empty : (o : Option (List ℕ)) → IsAbsent o → indices_or_empty o ≡ []
absent_empty none h = refl
absent_empty (some l) h = elim h [ ]

select_empty :
    (id : String) (d : Assignments)
    → UniqueKeys d
    → indices_of id (select has_indices d) ≡ indices_of id d
select_empty id [] u = refl
select_empty id ((j, []) ∷ d) u =
    if-cases (λ o. indices_of id (select has_indices d) ≡ indices_or_empty o) (id == j)
      (λ e.
        let same : id ≡ j = (eq_iff id j).0 e in
        select_empty id d u.1 ∙ absent_empty (lookup id d) (rw same u.0))
      (λ _. select_empty id d u.1)
select_empty id ((j, i ∷ l) ∷ d) u =
    if-cases (λ o. indices_or_empty o ≡ indices_of id ((j, i ∷ l) ∷ d)) (id == j) (λ e. rw e refl)
      (λ e. rw e (select_empty id d u.1))

-- A result within the targets: a model's replicas reach its target at most; a pinned model keeps
-- one replica where its target is 0.
abbrev pub Bounded : Targets → List String → List Entry → Option Assignments → Type 0
Bounded ts pins es o =
    (d : Assignments) × (o ≡ some d)
    × All
        (λ e.
          (replicas e d ≤ count_or_zero (lookup e.model_id ts))
          ⊎ (Memᴰ e.model_id pins × (replicas e d ≤ 1)))
        es

module _ (n : ℕ) (t : String × ℕ) (ts : Targets) (pins : List String) where
  each_Bounded :
      (es all : List Entry) (s : Packing)
      → ((e : Entry) → Memᴰ e es → Memᴰ e all)
      → All IsSized all
      → IsWithin (t ∷ ts) pins all s
      → All
          (λ e.
            (replicas e (select has_indices s.assignments)
              ≤ count_or_zero (lookup e.model_id (t ∷ ts)))
            ⊎ (Memᴰ e.model_id pins × (replicas e (select has_indices s.assignments) ≤ 1)))
          es
  each_Bounded [] all s sub sized h = tt
  each_Bounded (e ∷ es) all s sub sized h =
      let m = sub e (Memᴰ.head refl) in
      let (k, whole, bound) = h.1 e m in
      let now : replicas e (select has_indices s.assignments) ≡ k =
        replicas-Within (t ∷ ts) pins e _ k (member-All IsSized all sized m)
          (rw (select_empty e.model_id s.assignments h.0) whole) in
      (rw now bound, each_Bounded es all s (λ f j. sub f (Memᴰ.tail j)) sized h)

  pack-Bounded :
      (es : List Entry)
      → UniqueModels es
      → All IsSized es
      → ltb 0 n ≡ true
      → Bounded (t ∷ ts) pins es (pack n (t ∷ ts) es pins)
  unfolding pack
  pack-Bounded [] u sized some_gpus = ([], refl, tt)
  pack-Bounded (e ∷ es) u sized some_gpus =
      let (out, runs, h, ends) =
        fill-Ends n (t ∷ ts) (e ∷ es) sized (IsWithin (t ∷ ts) pins (e ∷ es))
          (λ s h. let (same, at) = candidate-packing n (t ∷ ts) (e ∷ es) s in rw same h)
          (λ s c h below found.
            place-IsWithin n (t ∷ ts) pins (e ∷ es) u sized t ts s c refl h found)
          (suc n) (pinned n (e ∷ es) pins) (omega arith)
          (pinned-IsWithin n (t ∷ ts) pins (e ∷ es) u sized) in
      (
        select has_indices out.assignments,
        if-cases (λ o. o ≡ some (select has_indices out.assignments)) (n == 0)
            (λ no_gpus. absurd (ground arith)) (λ _. ap finished runs),
        each_Bounded (e ∷ es) (e ∷ es) out (λ f m. m) sized h,
      )

select-UniqueModels :
    (p : Entry → Bool) (es : List Entry) → UniqueModels es → UniqueModels (select p es)
select-UniqueModels p [] u = tt
select-UniqueModels p (e ∷ es) u =
    if-cases UniqueModels (p e)
      (λ _. (
        select-All (λ f. (e.model_id == f.model_id) ≡ false) p es u.0,
        select-UniqueModels p es u.1,
      ))
      (λ _. select-UniqueModels p es u.1)

-- Let the entries of the catalog have different model_ids and take at least one GPU each, and let
-- there be targets and GPUs. Then `assign_catalog_models` returns, and every eligible model has at
-- most as many replicas as its target says; a pinned model has that many or at most one.
pub assign_catalog_models-Bounded :
    (n vram : ℕ) (catalog : List Entry) (t : String × ℕ) (ts : Targets) (pins : List String)
    → UniqueModels catalog
    → All IsSized catalog
    → ltb 0 n ≡ true
    → Bounded
        (t ∷ ts)
        pins
        (select (is_eligible n vram) catalog)
        (assign_catalog_models n vram catalog (t ∷ ts) pins)
unfolding assign_catalog_models
assign_catalog_models-Bounded n vram catalog t ts pins u sized some_gpus =
    pack-Bounded n t ts pins (select (is_eligible n vram) catalog)
      (select-UniqueModels (is_eligible n vram) catalog u)
      (select-All IsSized (is_eligible n vram) catalog sized) some_gpus

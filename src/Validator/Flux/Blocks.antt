-- ===== src/Validator/Flux/Blocks.antt =====
-- How often assign_catalog_models hands out a GPU index.
use greencompute_api.Prelude.{
  ℕ, zero, suc, ◌+◌, ◌≤◌, ◌<◌, String, ◌≡◌, refl, Bool, Option, none, some, List, [], ◌∷◌, ◌++◌,
  select, All, if◌then◌else◌, ltb, ◌==◌, nat_eq, string_eq, arith, if-cases, ap,
}
use greencompute_api.Prelude.Dict.{Dict, lookup, insert}
use greencompute_api.Validator.Flux.{
  Entry, Assignments, Targets, Packing, range, indices_or_empty, is_eligible, no_indices, pin_one,
  pin, entries_by_id, pinned, candidate, place, has_indices, finished, pack, assign_catalog_models,
}
use greencompute_api.Validator.Flux.Loop.{IsSized, candidate-member, candidate-packing, fill-Ends}

-- How often an index stands in a list, and in all of the models' lists.
abbrev pub count : ℕ → List ℕ → ℕ
count i [] = 0
count i (j ∷ l) = (if i == j then 1 else 0) + count i l

abbrev pub uses : ℕ → Assignments → ℕ
uses i [] = 0
uses i ((id, l) ∷ d) = count i l + uses i d

abbrev one_below : ℕ → ℕ → ℕ
one_below i n = if ltb i n then 1 else 0

count-append : (i : ℕ) (l k : List ℕ) → count i (l ++ k) ≡ count i l + count i k
count-append i [] k = omega arith
count-append i (j ∷ l) k = omega (arith, count-append i l k)

-- A block counts the indices from its start up to its end, once each.
count-range :
    (i start size : ℕ) → count i (range start size) + one_below i start ≡ one_below i (start + size)
count-range i start zero = ground arith
count-range i start (suc size) = ground (arith, count-range i (start + 1) size)

uses-insert :
    (i : ℕ) (id : String) (l : List ℕ) (d : Assignments)
    → uses i (insert id l d) + count i (indices_or_empty (lookup id d)) ≡ uses i d + count i l
uses-insert i id l [] = omega arith
uses-insert i id l ((j, k) ∷ d) = ground (arith, uses-insert i id l d)

uses-select : (i : ℕ) (d : Assignments) → uses i (select has_indices d) ≡ uses i d
uses-select i [] = refl
uses-select i ((id, []) ∷ d) = omega (arith, uses-select i d)
uses-select i ((id, j ∷ l) ∷ d) = omega (arith, uses-select i d)

-- The invariant of the packing: every index below the cursor at most once, none behind it.
abbrev IsPacked : ℕ → Packing → Type 0
IsPacked n s = ((i : ℕ) → uses i s.assignments ≤ one_below i s.cursor) × (s.cursor ≤ n)

uses-no_indices : (i : ℕ) (es : List Entry) (d : Assignments) → uses i (no_indices es d) ≤ uses i d
unfolding no_indices
uses-no_indices i [] d = omega arith
uses-no_indices i (e ∷ es) d =
    omega (arith, uses-no_indices i es (insert e.model_id [] d), uses-insert i e.model_id [] d)

pin_one-IsPacked :
    (n : ℕ) (id : String) (o : Option Entry) (s : Packing)
    → IsPacked n s
    → IsPacked n (pin_one n id o s)
unfolding pin_one
pin_one-IsPacked n id none s h = h
pin_one-IsPacked n id (some e) s h =
    if-cases (IsPacked n) (ltb n (s.cursor + e.gpu_count)) (λ _. h)
      (λ fits. (
        λ i. omega (
          arith,
          h.0 i,
          uses-insert i id (range s.cursor e.gpu_count) s.assignments,
          count-range i s.cursor e.gpu_count,
        ),
        ground arith,
      ))

pin-IsPacked :
    (n : ℕ) (entries : Dict String Entry) (ids : List String) (s : Packing)
    → IsPacked n s
    → IsPacked n (pin n entries ids s)
unfolding pin
pin-IsPacked n entries [] s h = h
pin-IsPacked n entries (id ∷ ids) s h =
    pin-IsPacked n entries ids (pin_one n id (lookup id entries) s)
      (pin_one-IsPacked n id (lookup id entries) s h)

pinned-IsPacked : (n : ℕ) (es : List Entry) (pins : List String) → IsPacked n (pinned n es pins)
unfolding pinned
pinned-IsPacked n es pins =
    pin-IsPacked n (entries_by_id es []) pins _
      (λ i. omega (arith, uses-no_indices i es []), omega arith)

place-IsPacked :
    (n : ℕ) (ts : Targets) (es : List Entry) (s : Packing) (c : Entry)
    → IsPacked n s
    → (candidate n ts es s).0 ≡ some c
    → s.cursor < n
    → IsPacked n (place c (candidate n ts es s).1)
unfolding place
place-IsPacked n ts es s c h found below =
    let (same, at) = candidate-packing n ts es s in
    rw (same, at)
      (
        λ i. omega (
          arith,
          h.0 i,
          uses-insert i c.model_id
              (indices_or_empty (lookup c.model_id s.assignments) ++ range s.cursor c.gpu_count)
              s.assignments,
          count-append i (indices_or_empty (lookup c.model_id s.assignments))
              (range s.cursor c.gpu_count),
          count-range i s.cursor c.gpu_count,
        ),
        omega (arith, h.1, (candidate-member n ts es s c found).1),
      )

-- A result, and that it gives every index to at most one model, once, and only those below `n`.
abbrev pub Disjoint : ℕ → Option Assignments → Type 0
Disjoint n o = (d : Assignments) × (o ≡ some d) × ((i : ℕ) → uses i d ≤ (if ltb i n then 1 else 0))

pack-Disjoint :
    (n : ℕ) (ts : Targets) (es : List Entry) (pins : List String)
    → All IsSized es
    → Disjoint n (pack n ts es pins)
unfolding pack
pack-Disjoint n ts [] pins sized = ([], refl, λ i. omega arith)
pack-Disjoint n ts (e ∷ es) pins sized =
    if-cases (Disjoint n) (n == 0) (λ _. ([], refl, λ i. omega arith))
      (λ some_gpus.
        let (out, runs, packed, ends) =
          fill-Ends n ts (e ∷ es) sized (IsPacked n)
            (λ s h. let (same, at) = candidate-packing n ts (e ∷ es) s in rw (same, at) h)
            (λ s c h below found. place-IsPacked n ts (e ∷ es) s c h found below) (suc n)
            (pinned n (e ∷ es) pins) (omega arith) (pinned-IsPacked n (e ∷ es) pins) in
        (
          select has_indices out.assignments,
          ap finished runs,
          λ i. ground (arith, packed.0 i, packed.1, uses-select i out.assignments),
        ))

pub select-All {ℓ} :
    (P : Entry → Type ℓ) (p : Entry → Bool) (es : List Entry) → All P es → All P (select p es)
select-All P p [] h = tt
select-All P p (e ∷ es) h =
    if-cases (All P) (p e) (λ _. (h.0, select-All P p es h.1)) (λ _. select-All P p es h.1)

-- When every model of the catalog takes at least one GPU, `assign_catalog_models` ends within one
-- turn per GPU and one more, and its result gives every GPU index to at most one model, once, and
-- no index at or above inference_gpu_count.
pub assign_catalog_models-Disjoint :
    (n vram : ℕ) (catalog : List Entry) (targets : Targets) (pins : List String)
    → All IsSized catalog
    → Disjoint n (assign_catalog_models n vram catalog targets pins)
unfolding assign_catalog_models
assign_catalog_models-Disjoint n vram catalog targets pins sized =
    pack-Disjoint n targets (select (is_eligible n vram) catalog) pins
      (select-All IsSized (is_eligible n vram) catalog sized)

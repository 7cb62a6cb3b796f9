-- ===== src/Validator/Flux.antt =====
-- domain/flux.py: FluxOrchestrator.assign_catalog_models, which maps the GPUs of a node that serve
-- inference to the models of the catalog. ModelCatalogEntry is the protocol's; its columns that are
-- read here are `Entry`.

pub mod Loop
pub mod Blocks
pub mod Targets
pub mod Bound
use greencompute_api.Prelude.{
  ℕ, zero, suc, ◌+◌, ◌-◌, ◌/◌, ◌%◌, max, String, Bool, true, false, not, ◌&&◌, ◌||◌, Option, none,
  some, List, [], ◌∷◌, ◌++◌, select, find, length, get_elem?, ◌==◌, string_eq, nat_eq,
  if◌then◌else◌, ltb, leb,
}
use greencompute_api.Prelude.Int.{ℤ, pos, sub_ℕ, ltb_ℤ, leb_ℤ}
use greencompute_api.Prelude.Dict.{Dict, lookup, insert}
use greencompute_api.Prelude.Sort.{sorted}
use greencompute_api.Prelude.Text.{codes, text_leb}

pub record Entry : Type 0 where
  pub model_id : String
  pub gpu_count : ℕ
  pub min_vram_gb_per_gpu : ℕ

-- `{model_id: [gpu_index, ...]}`
abbrev pub Assignments : Type 0
Assignments = Dict String (List ℕ)

abbrev pub Targets : Type 0
Targets = Dict String ℕ

-- The variables of the loop.
pub record Packing : Type 0 where
  pub assignments : Assignments
  pub cursor : ℕ
  pub rotate_idx : ℕ

-- `list(range(start, start + count))`
abbrev pub range : ℕ → ℕ → List ℕ
range start zero = []
range start (suc count) = start ∷ range (start + 1) count

abbrev pub indices_or_empty : Option (List ℕ) → List ℕ
indices_or_empty none = []
indices_or_empty (some l) = l

abbrev pub count_or_zero : Option ℕ → ℕ
count_or_zero none = 0
count_or_zero (some n) = n

abbrev pub is_eligible : ℕ → ℕ → Entry → Bool
is_eligible n vram e = leb e.min_vram_gb_per_gpu vram && leb e.gpu_count n

-- `{e.model_id: e for e in eligible}`
unfoldable pub entries_by_id : List Entry → Dict String Entry → Dict String Entry
entries_by_id [] d = d
entries_by_id (e ∷ es) d = entries_by_id es (insert e.model_id e d)

-- `{e.model_id: [] for e in eligible}`
unfoldable pub no_indices : List Entry → Assignments → Assignments
no_indices [] d = d
no_indices (e ∷ es) d = no_indices es (insert e.model_id [] d)

-- One pinned model, by its entry: skipped when it is not eligible, or does not fit.
unfoldable pub pin_one : ℕ → String → Option Entry → Packing → Packing
pin_one n id none s = s
pin_one n id (some e) s = if ltb n (s.cursor + e.gpu_count) then s else record s {
  assignments = insert id (range s.cursor e.gpu_count) s.assignments;
  cursor = s.cursor + e.gpu_count;
}

-- The replicas that run on the node already; the set is a list in the order of its iteration.
unfoldable pub pin : ℕ → Dict String Entry → List String → Packing → Packing
pin n entries [] s = s
pin n entries (id ∷ ids) s = pin n entries ids (pin_one n id (lookup id entries) s)

-- `have` of `_deficit`: the replicas that a model has.
abbrev pub replicas : Entry → Assignments → ℕ
replicas e d = length (indices_or_empty (lookup e.model_id d)) / max 1 e.gpu_count

-- `_deficit`
abbrev pub _deficit : Targets → Assignments → Entry → ℤ
_deficit targets d e = sub_ℕ (count_or_zero (lookup e.model_id targets)) (replicas e d)

-- The order of `key=lambda e: (-_deficit(e), e.model_id)`.
abbrev pub needs_before : Targets → Assignments → Entry → Entry → Bool
needs_before targets d a b =
    ltb_ℤ (_deficit targets d b) (_deficit targets d a)
    || (leb_ℤ (_deficit targets d b) (_deficit targets d a)
        && text_leb (codes a.model_id) (codes b.model_id))

abbrev pub wants : ℕ → Targets → Packing → Entry → Bool
wants n targets s c =
    leb c.gpu_count (n - s.cursor) && ltb_ℤ (pos 0) (_deficit targets s.assignments c)

-- The next model round the list that fits into `room`, and the advanced index.
unfoldable pub rotate : ℕ → List Entry → ℕ → ℕ → Option Entry × ℕ
rotate zero eligible room idx = (none, idx)
rotate (suc rounds) eligible room idx = elim (get_elem? eligible (idx % length eligible)) [
  | none ↦ (none, idx)
  | some c ↦
      if leb c.gpu_count room then (some c, idx + 1) else rotate rounds eligible room (idx + 1)
]

-- The next candidate: by deficit when there are targets, in rotation otherwise.
unfoldable pub candidate : ℕ → Targets → List Entry → Packing → Option Entry × Packing
candidate n [] eligible s =
    let (c, idx) = rotate (length eligible) eligible (n - s.cursor) s.rotate_idx in
    (c, record s { rotate_idx = idx })
candidate n (t ∷ ts) eligible s =
    (find (wants n (t ∷ ts) s) (sorted (needs_before (t ∷ ts) s.assignments) eligible), s)

-- The candidate takes the block at the cursor.
unfoldable pub place : Entry → Packing → Packing
place c s = record s {
  assignments =
      insert c.model_id
        (indices_or_empty (lookup c.model_id s.assignments) ++ range s.cursor c.gpu_count)
        s.assignments;
  cursor = s.cursor + c.gpu_count;
}

-- The `while` loop; `none` is a loop that has not ended within the fuel.
unfoldable pub fill : ℕ → ℕ → Targets → List Entry → Packing → Option Packing
fill zero n targets eligible s = none
fill (suc fuel) n targets eligible s = elim (ltb s.cursor n) [
  | false ↦ some s
  | true ↦ elim (candidate n targets eligible s).0 [
    | none ↦ some (candidate n targets eligible s).1
    | some c ↦ fill fuel n targets eligible (place c (candidate n targets eligible s).1)
  ]
]

-- `{k: v for k, v in assignments.items() if v}`
abbrev pub has_indices : String × List ℕ → Bool
has_indices (id, []) = false
has_indices (id, i ∷ l) = true

abbrev pub finished : Option Packing → Option Assignments
finished none = none
finished (some s) = some (select has_indices s.assignments)

-- The packing in front of the loop.
unfoldable pub pinned : ℕ → List Entry → List String → Packing
unfolding pin entries_by_id no_indices
pinned n eligible pins =
    pin n (entries_by_id eligible []) pins
      (record { assignments = no_indices eligible []; cursor = 0; rotate_idx = 0 })

-- Also the early returns: no GPUs, or no eligible model.
unfoldable pub pack : ℕ → Targets → List Entry → List String → Option Assignments
unfolding fill pinned
pack n targets [] pins = some []
pack n targets (e ∷ es) pins =
    if n == 0 then some [] else finished (fill (suc n) n targets (e ∷ es) (pinned n (e ∷ es) pins))

-- `assign_catalog_models`
unfoldable pub assign_catalog_models :
    ℕ → ℕ → List Entry → Targets → List String → Option Assignments
unfolding pack
assign_catalog_models n vram catalog targets pins =
    pack n targets (select (is_eligible n vram) catalog) pins

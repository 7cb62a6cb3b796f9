-- ===== src/Validator/Flux/Targets.antt =====
-- How many replicas assign_catalog_models gives to a model that has a target.
use mathlib.Core.List.{Memᴰ}
use greencompute_api.Prelude.{
  ℕ, zero, suc, ◌+◌, ◌*◌, ◌≤◌, String, ◌≡◌, refl, ◌∙◌, ◌⊎◌, false, some, List, [], ◌∷◌, length, All,
  if◌then◌else◌, ◌==◌, nat_eq, string_eq, eq_iff, arith, if-cases, inl, inr, Bool-cases, sym, ap,
}
use greencompute_api.Prelude.Dict.{
  Dict, lookup, insert, lookup-insert, UniqueKeys, UniqueKeys-insert,
}
use greencompute_api.Prelude.Members.{member-All}
use greencompute_api.Validator.Flux.{
  Entry, Assignments, Targets, Packing, range, indices_or_empty, count_or_zero, no_indices,
  entries_by_id,
}

-- No two entries have one model_id.
abbrev pub UniqueModels : List Entry → Type 0
UniqueModels [] = Unit
UniqueModels (e ∷ es) = All (λ f. (e.model_id == f.model_id) ≡ false) es × UniqueModels es

same_entry :
    (a b : Entry) (es : List Entry)
    → UniqueModels es
    → Memᴰ a es
    → Memᴰ b es
    → a.model_id ≡ b.model_id
    → a ≡ b
same_entry a b [] u m k e = elim m [ ]
same_entry a b (x ∷ es) u (Memᴰ.head p) (Memᴰ.head q) e = p ∙ sym q
same_entry a b (x ∷ es) u (Memᴰ.head p) (Memᴰ.tail k) e =
    let other : (x.model_id == b.model_id) ≡ false = member-All _ es u.0 k in
    absurd (ground (arith, eq_iff x.model_id b.model_id, ap (λ (y : Entry). y.model_id) p))
same_entry a b (x ∷ es) u (Memᴰ.tail m) (Memᴰ.head q) e =
    let other : (x.model_id == a.model_id) ≡ false = member-All _ es u.0 m in
    absurd (ground (arith, eq_iff x.model_id a.model_id, ap (λ (y : Entry). y.model_id) q))
same_entry a b (x ∷ es) u (Memᴰ.tail m) (Memᴰ.tail k) e = same_entry a b es u.1 m k e

abbrev pub indices_of : String → Assignments → List ℕ
indices_of id d = indices_or_empty (lookup id d)

pub indices-insert :
    (j id : String) (l : List ℕ) (d : Assignments)
    → indices_of j (insert id l d) ≡ (if j == id then l else indices_of j d)
indices-insert j id l d = rw (lookup-insert id j l d) (
    if-cases (λ o. indices_or_empty o ≡ (if j == id then l else indices_of j d)) (j == id)
      (λ e. rw e refl) (λ e. rw e refl))

pub length-range : (start size : ℕ) → length (range start size) ≡ size
length-range start zero = refl
length-range start (suc size) = omega (arith, length-range (start + 1) size)

-- Whole replicas, as many as the target at most, or one that was pinned.
abbrev pub Within : Targets → List String → Assignments → Entry → Type 0
Within ts pins d e =
    (k : ℕ) × (length (indices_of e.model_id d) ≡ k * e.gpu_count)
    × ((k ≤ count_or_zero (lookup e.model_id ts)) ⊎ (Memᴰ e.model_id pins × (k ≤ 1)))

-- The invariant of the packing.
abbrev pub IsWithin : Targets → List String → List Entry → Packing → Type 0
IsWithin ts pins es s =
    UniqueKeys s.assignments × ((e : Entry) → Memᴰ e es → Within ts pins s.assignments e)

pub no_indices-UniqueKeys :
    (es : List Entry) (d : Assignments) → UniqueKeys d → UniqueKeys (no_indices es d)
unfolding no_indices
no_indices-UniqueKeys [] d u = u
no_indices-UniqueKeys (e ∷ es) d u =
    no_indices-UniqueKeys es (insert e.model_id [] d) (UniqueKeys-insert e.model_id [] d u)

pub no_indices_empty :
    (id : String) (es : List Entry) (d : Assignments)
    → indices_of id d ≡ []
    → indices_of id (no_indices es d) ≡ []
unfolding no_indices
no_indices_empty id [] d h = h
no_indices_empty id (e ∷ es) d h = no_indices_empty id es (insert e.model_id [] d) (
    indices-insert id e.model_id [] d
    ∙ if-cases (λ l. l ≡ []) (id == e.model_id) (λ _. refl) (λ _. h))

-- What the table of the entries holds under a model_id.
pub entry_found :
    (id : String) (e : Entry) (es : List Entry) (d : Dict String Entry)
    → lookup id (entries_by_id es d) ≡ some e
    → (Memᴰ e es × (e.model_id ≡ id)) ⊎ (lookup id d ≡ some e)
unfolding entries_by_id
entry_found id e [] d h = inr h
entry_found id e (x ∷ es) d h = elim (entry_found id e es (insert x.model_id x d) h) [
  | inl (m, same) ↦ inl (Memᴰ.tail m, same)
  | inr k ↦ elim (Bool-cases (id == x.model_id)) [
    | inl hit ↦
        let at : x ≡ e = ground (arith, lookup-insert x.model_id id x d) in
        inl (
          Memᴰ.head (sym at),
          ground (arith, eq_iff id x.model_id, ap (λ (y : Entry). y.model_id) at),
        )
    | inr miss ↦ inr (ground (arith, lookup-insert x.model_id id x d))
  ]
]

-- A write for one entry's model leaves the others within their bounds.
pub insert-IsWithin :
    (ts : Targets) (pins : List String) (es : List Entry) (c : Entry) (l : List ℕ) (s t : Packing)
    → UniqueModels es
    → Memᴰ c es
    → IsWithin ts pins es s
    → t.assignments ≡ insert c.model_id l s.assignments
    → (k : ℕ) → length l ≡ k * c.gpu_count
    → (k ≤ count_or_zero (lookup c.model_id ts)) ⊎ (Memᴰ c.model_id pins × (k ≤ 1))
    → IsWithin ts pins es t
insert-IsWithin ts pins es c l s t u m h at k size bound =
    rw at (UniqueKeys-insert c.model_id l s.assignments h.0, each)
  where
    each : (e : Entry) → Memᴰ e es → Within ts pins (insert c.model_id l s.assignments) e
    each e j = rw (indices-insert e.model_id c.model_id l s.assignments) (
        if-cases
          (λ x.
            (k : ℕ) × (length x ≡ k * e.gpu_count)
            × ((k ≤ count_or_zero (lookup e.model_id ts)) ⊎ (Memᴰ e.model_id pins × (k ≤ 1))))
          (e.model_id == c.model_id)
          (λ hit.
            let same : e ≡ c = same_entry e c es u j m ((eq_iff e.model_id c.model_id).0 hit) in
            rw same (k, size, bound))
          (λ _. h.1 e j))

-- ===== src/Validator/Flux/Loop.antt =====
-- The while loop of assign_catalog_models: a rule for invariants, and the blocks that it packs.
use mathlib.Core.List.{Memᴰ}
use greencompute_api.Prelude.{
  ℕ, zero, suc, ◌+◌, ◌-◌, ◌≤◌, ◌<◌, ◌≡◌, refl, ◌⊎◌, inl, inr, true, false, Option, none, some, List,
  [], ◌∷◌, length, get_elem?, All, ltb, leb, arith, Bool-cases, Option-cases, option-cases,
  if-cases, ltb→lt, ◌∙◌,
}
use greencompute_api.Prelude.Members.{get_elem?-mem, mem-find, member-All}
use greencompute_api.Prelude.Sort.{mem-sorted}
use greencompute_api.Validator.Flux.{
  Entry, Targets, Packing, needs_before, wants, rotate, candidate, place, fill,
}

-- A model takes at least one GPU.
abbrev pub IsSized : Entry → Type 0
IsSized e = 1 ≤ e.gpu_count

some_eq : (a c : Entry) → some a ≡ some c → a ≡ c
some_eq a c e = ground (arith)

fits_room : (a : Entry) (room : ℕ) → leb a.gpu_count room ≡ true → a.gpu_count ≤ room
fits_room a room h = ground arith

rotate-member :
    (c : Entry) (rounds : ℕ) (es : List Entry) (room idx : ℕ)
    → (rotate rounds es room idx).0 ≡ some c
    → Memᴰ c es × (c.gpu_count ≤ room)
unfolding rotate
rotate-member c zero es room idx = λ e. absurd (cc)
rotate-member c (suc rounds) es room idx =
    let rest = rotate-member c rounds es room (idx + 1) in
    option-cases (λ (r : Option Entry × ℕ). r.0 ≡ some c → Memᴰ c es × (c.gpu_count ≤ room))
      (get_elem? es _) (λ _ e. absurd (cc))
      (λ a found.
        if-cases (λ (r : Option Entry × ℕ). r.0 ≡ some c → Memᴰ c es × (c.gpu_count ≤ room))
          (leb a.gpu_count room)
          (λ fits e.
            let same : a ≡ c = some_eq a c e in
            (rw (← same) (get_elem?-mem _ a es found), rw (← same) (fits_room a room fits)))
          (λ _. rest))

-- A candidate is a model of the list that fits behind the cursor.
pub candidate-member :
    (n : ℕ) (ts : Targets) (es : List Entry) (s : Packing) (c : Entry)
    → (candidate n ts es s).0 ≡ some c
    → Memᴰ c es × (c.gpu_count ≤ n - s.cursor)
unfolding candidate
candidate-member n [] es s c e = rotate-member c (length es) es (n - s.cursor) s.rotate_idx e
candidate-member n (t ∷ ts) es s c e =
    let (m, pass) = mem-find (wants n (t ∷ ts) s) c _ e in
    (mem-sorted (needs_before (t ∷ ts) s.assignments) c es m, ground arith)

pub candidate-packing :
    (n : ℕ) (ts : Targets) (es : List Entry) (s : Packing)
    → ((candidate n ts es s).1.assignments ≡ s.assignments)
      × ((candidate n ts es s).1.cursor ≡ s.cursor)
unfolding candidate
candidate-packing n [] es s = (refl, refl)
candidate-packing n (t ∷ ts) es s = (refl, refl)

pair_eq :
    {p : Option Entry × Packing} {o : Option Entry} {s : Packing} → p.0 ≡ o → p.1 ≡ s → p ≡ (o, s)
pair_eq e f = cc

-- How the loop ends: the cursor is at the end, or there is no candidate.
abbrev pub Ends : ℕ → Targets → List Entry → Packing → Type 0
Ends n ts es out = (n ≤ out.cursor) ⊎ ((s : Packing) × (candidate n ts es s ≡ (none, out)))

module _ (n : ℕ) (ts : Targets) (es : List Entry) (sized : All IsSized es) (P : Packing → Type 0)
    (turn : (s : Packing) → P s → P (candidate n ts es s).1)
    (step : (s : Packing) (c : Entry)
      → P s
      → s.cursor < n
      → (candidate n ts es s).0 ≡ some c
      → P (place c (candidate n ts es s).1)) where
  fill_ends : (fuel : ℕ) (s : Packing) → ltb s.cursor n ≡ false → fill (suc fuel) n ts es s ≡ some s
  unfolding fill
  fill_ends fuel s e = ground (arith, e)

  fill_stops :
      (fuel : ℕ) (s : Packing)
      → ltb s.cursor n ≡ true
      → (candidate n ts es s).0 ≡ none
      → fill (suc fuel) n ts es s ≡ some (candidate n ts es s).1
  unfolding fill
  fill_stops fuel s e stop = ground (arith, e, stop)

  fill_steps :
      (fuel : ℕ) (s : Packing) (c : Entry)
      → ltb s.cursor n ≡ true
      → (candidate n ts es s).0 ≡ some c
      → fill (suc fuel) n ts es s ≡ fill fuel n ts es (place c (candidate n ts es s).1)
  unfolding fill
  fill_steps fuel s c e found = ground (arith, e, found)

  -- With fuel for every GPU left, the loop ends, and keeps its invariant.
  pub fill-Ends :
      (fuel : ℕ) (s : Packing)
      → n - s.cursor < fuel
      → P s
      → (out : Packing) × (fill fuel n ts es s ≡ some out) × P out × Ends n ts es out
  unfolding fill place
  fill-Ends zero s enough h = absurd (omega arith)
  fill-Ends (suc fuel) s enough h = elim (Bool-cases (ltb s.cursor n)) [
    | inr e ↦ (s, fill_ends fuel s e, h, inl (ground arith))
    | inl e ↦ elim (Option-cases (candidate n ts es s).0) [
      | inl stop ↦
          ((candidate n ts es s).1, fill_stops fuel s e stop, turn s h, inr (s, pair_eq stop refl))
      | inr (c, found) ↦
          let (m, fits) = candidate-member n ts es s c found in
          let size : 1 ≤ c.gpu_count = member-All IsSized es sized m in
          let (out, runs, keeps, ends) =
            fill-Ends fuel (place c (candidate n ts es s).1)
              (rw ((candidate-packing n ts es s).1) (ground arith))
              (step s c h (ltb→lt s.cursor n e) found) in
          (out, fill_steps fuel s c e found ∙ runs, keeps, ends)
    ]
  ]

-- ===== src/Prelude/Dict.antt =====
-- A keyed table: a Python dict in insertion order, or a SQL table by its primary key.
use greencompute_api.Prelude.Tests.{HasEquality, ◌==◌, if◌then◌else◌, if-cases, Bool-cases}
use greencompute_api.Prelude.Lists.{select}
use mathlib.Core.Bool.{Bool, false}
use mathlib.Core.Logic.{inl, inr}
use mathlib.Core.Path.{◌≡◌, refl}
use mathlib.Core.Option.{Option, none, some}
use mathlib.Core.List.{List, [], ◌∷◌}
use native.Mathlib.Omega.{arith}

abbrev pub Dict {ℓ κ} : Type ℓ → Type κ → Type (ℓ ⊔ κ)
Dict K V = List (K × V)

-- An absent row; a type that computes, at any level.
abbrev pub IsAbsent {ℓ} : {A : Type ℓ} → Option A → Type 0
IsAbsent none = Unit
IsAbsent (some v) = ⊥

module _ {ℓ κ} {K : Type ℓ} {V : Type κ} ⦃e' : HasEquality K⦄ where
  -- `d.get(k)`, `session.get(Table, k)`
  abbrev pub lookup : K → Dict K V → Option V
  lookup k [] = none
  lookup k ((j, v) ∷ d) = if k == j then some v else lookup k d

  -- `d[k] = v`: in place, or a new row at the end.
  abbrev pub insert : K → V → Dict K V → Dict K V
  insert k v [] = (k, v) ∷ []
  insert k v ((j, w) ∷ d) = if k == j then (j, v) ∷ d else (j, w) ∷ insert k v d

  pub lookup-insert :
      (k j : K) (v : V) (d : Dict K V)
      → lookup j (insert k v d) ≡ (if j == k then some v else lookup j d)
  lookup-insert k j v [] = refl
  lookup-insert k j v ((i, w) ∷ d) =
      ground (arith, e'.equal_iff k i, e'.equal_iff j i, e'.equal_iff j k, lookup-insert k j v d)

  -- A primary key: no key stands twice.
  abbrev pub UniqueKeys : Dict K V → Type 0
  UniqueKeys [] = Unit
  UniqueKeys ((j, w) ∷ d) = IsAbsent (lookup j d) × UniqueKeys d

  IsAbsent-insert :
      (k j : K) (v : V) (d : Dict K V)
      → (k == j) ≡ false
      → IsAbsent (lookup k d)
      → IsAbsent (lookup k (insert j v d))
  IsAbsent-insert k j v d other h = rw (lookup-insert j k v d, other) h

  pub UniqueKeys-insert : (k : K) (v : V) (d : Dict K V) → UniqueKeys d → UniqueKeys (insert k v d)
  UniqueKeys-insert k v [] u = (tt, tt)
  UniqueKeys-insert k v ((j, w) ∷ d) u =
      if-cases UniqueKeys (k == j) (λ _. u)
        (λ e. (
          IsAbsent-insert j k v d (ground (arith, e'.equal_iff k j, e'.equal_iff j k)) u.0,
          UniqueKeys-insert k v d u.1,
        ))

  pub lookup-select-none :
      (p : K × V → Bool) (k : K) (d : Dict K V)
      → IsAbsent (lookup k d)
      → IsAbsent (lookup k (select p d))
  lookup-select-none p k [] h = tt
  lookup-select-none p k ((j, w) ∷ d) h = elim (Bool-cases (k == j)) [
    | inl e ↦ absurd (rw e at h)
    | inr e ↦
        let rest : IsAbsent (lookup k (select p d)) = lookup-select-none p k d (rw e at h) in
        if-cases (λ l. IsAbsent (lookup k l)) (p (j, w)) (λ _. rw e rest) (λ _. rest)
  ]

  pub UniqueKeys-select : (p : K × V → Bool) (d : Dict K V) → UniqueKeys d → UniqueKeys (select p d)
  UniqueKeys-select p [] h = tt
  UniqueKeys-select p ((j, w) ∷ d) h =
      if-cases UniqueKeys (p (j, w))
        (λ _. (lookup-select-none p j d h.0, UniqueKeys-select p d h.1))
        (λ _. UniqueKeys-select p d h.1)

  -- What a deletion leaves under a key was there before.
  pub lookup-select-some :
      (p : K × V → Bool) (k : K) (v : V) (d : Dict K V)
      → UniqueKeys d
      → lookup k (select p d) ≡ some v
      → lookup k d ≡ some v
  lookup-select-some p k v [] u h = h
  lookup-select-some p k v ((j, w) ∷ d) u h = elim (Bool-cases (p (j, w))) [
    | inl keep ↦ elim (Bool-cases (k == j)) [
      | inl e ↦ rw e (rw (keep, e) at h)
      | inr e ↦ rw e (lookup-select-some p k v d u.1 (rw (keep, e) at h))
    ]
    | inr drop ↦ elim (Bool-cases (k == j)) [
      | inl e ↦
          let gone : IsAbsent (lookup k (select p d)) =
            lookup-select-none p k d (rw ((e'.equal_iff k j).0 e) u.0) in
          absurd (rw (rw drop at h) at gone)
      | inr e ↦ rw e (lookup-select-some p k v d u.1 (rw drop at h))
    ]
  ]

-- ===== src/Prelude/Groups.antt =====
-- `groups.setdefault(key(x), []).append(x)` over a list; an element with no key is in no group.
use mathlib.Core.List.{Memᴰ}
use greencompute_api.Prelude.{
  ◌≡◌, refl, sym, ◌∙◌, ap, Bool, true, false, Option, none, some, List, [], ◌∷◌, ◌++◌, select,
  HasEquality, ◌==◌, if◌then◌else◌, Bool-cases, inl, inr, arith,
}
use greencompute_api.Prelude.Dict.{
  Dict, lookup, insert, lookup-insert, UniqueKeys, UniqueKeys-insert, IsAbsent,
}

abbrev pub or_nil {ℓ} : {A : Type ℓ} → Option (List A) → List A
or_nil none = []
or_nil (some l) = l

abbrev pub has_key {ℓ} : {K : Type ℓ} ⦃e' : HasEquality K⦄ → K → Option K → Bool
has_key k none = false
has_key k (some j) = k == j

module _ {ℓ} {A : Type ℓ} where
  append_nil : (xs : List A) → xs ++ [] ≡ xs
  append_nil [] = refl
  append_nil (x ∷ xs) = ap (λ l. x ∷ l) (append_nil xs)

  append_assoc : (xs ys zs : List A) → (xs ++ ys) ++ zs ≡ xs ++ (ys ++ zs)
  append_assoc [] ys zs = refl
  append_assoc (x ∷ xs) ys zs = ap (λ l. x ∷ l) (append_assoc xs ys zs)

module _ {ℓ κ} {A : Type ℓ} {K : Type κ} ⦃e' : HasEquality K⦄ where
  abbrev pub append_to : Option K → A → Dict K (List A) → Dict K (List A)
  append_to none x d = d
  append_to (some k) x d = insert k (or_nil (lookup k d) ++ (x ∷ [])) d

  unfoldable pub group_by : (A → Option K) → List A → Dict K (List A) → Dict K (List A)
  group_by key [] d = d
  group_by key (x ∷ xs) d = group_by key xs (append_to (key x) x d)

  or_nil-append_to :
      (k : K) (o : Option K) (x : A) (d : Dict K (List A))
      → or_nil (lookup k (append_to o x d))
        ≡ or_nil (lookup k d) ++ (if has_key k o then x ∷ [] else [])
  or_nil-append_to k none x d = sym (append_nil (or_nil (lookup k d)))
  or_nil-append_to k (some j) x d =
      rw (lookup-insert j k (or_nil (lookup j d) ++ (x ∷ [])) d) (elim (Bool-cases (k == j)) [
        | inl e ↦ rw e (rw ((e'.equal_iff k j).0 e) refl)
        | inr e ↦ rw e (sym (append_nil (or_nil (lookup k d))))
      ])

  -- A group holds, in their order, the elements with its key.
  pub group_by-select :
      (key : A → Option K) (k : K) (xs : List A) (d : Dict K (List A))
      → or_nil (lookup k (group_by key xs d))
        ≡ or_nil (lookup k d) ++ select (λ x. has_key k (key x)) xs
  unfolding group_by
  group_by-select key k [] d = sym (append_nil (or_nil (lookup k d)))
  group_by-select key k (x ∷ xs) d =
      group_by-select key k xs (append_to (key x) x d)
      ∙ ap (λ l. l ++ select (λ y. has_key k (key y)) xs) (or_nil-append_to k (key x) x d)
      ∙ append_assoc (or_nil (lookup k d)) (if has_key k (key x) then x ∷ [] else []) _
      ∙ ap (λ l. or_nil (lookup k d) ++ l) (head_back (has_key k (key x)) x _)
    where
      head_back :
          (b : Bool) (x : A) (l : List A)
          → (if b then x ∷ [] else []) ++ l ≡ (if b then x ∷ l else l)
      head_back true x l = refl
      head_back false x l = refl

  append_to-UniqueKeys :
      (o : Option K) (x : A) (d : Dict K (List A)) → UniqueKeys d → UniqueKeys (append_to o x d)
  append_to-UniqueKeys none x d u = u
  append_to-UniqueKeys (some k) x d u = UniqueKeys-insert k _ d u

  pub group_by-UniqueKeys :
      (key : A → Option K) (xs : List A) (d : Dict K (List A))
      → UniqueKeys d
      → UniqueKeys (group_by key xs d)
  unfolding group_by
  group_by-UniqueKeys key [] d u = u
  group_by-UniqueKeys key (x ∷ xs) d u =
      group_by-UniqueKeys key xs (append_to (key x) x d) (append_to-UniqueKeys (key x) x d u)

module _ {ℓ κ} {K : Type ℓ} {V : Type κ} ⦃e' : HasEquality K⦄ where
  absent-other :
      (k j : K) (v : V) (d : Dict K V) → IsAbsent (lookup j d) → Memᴰ (k, v) d → (k == j) ≡ false
  absent-other k j v [] h m = elim m [ ]
  absent-other k j v ((i, w) ∷ d) h (Memᴰ.head e) = elim (Bool-cases (j == i)) [
    | inl hit ↦ absurd (rw hit at h)
    | inr miss ↦
        let same : k ≡ i = ap (λ (p : K × V). p.0) e in
        ground (arith, e'.equal_iff k j, e'.equal_iff j i)
  ]
  absent-other k j v ((i, w) ∷ d) h (Memᴰ.tail m) = elim (Bool-cases (j == i)) [
    | inl hit ↦ absurd (rw hit at h)
    | inr miss ↦ absent-other k j v d (rw miss at h) m
  ]

  -- A row of a keyed table is what stands under its key.
  pub mem-lookup :
      (k : K) (v : V) (d : Dict K V) → UniqueKeys d → Memᴰ (k, v) d → lookup k d ≡ some v
  mem-lookup k v [] u m = elim m [ ]
  mem-lookup k v ((j, w) ∷ d) u (Memᴰ.head e) =
      let same : k ≡ j = ap (λ (p : K × V). p.0) e in
      rw ((e'.equal_iff k j).1 same) (ap some (sym (ap (λ (p : K × V). p.1) e)))
  mem-lookup k v ((j, w) ∷ d) u (Memᴰ.tail m) =
      rw (absent-other k j v d u.0 m) (mem-lookup k v d u.1 m)

  pub lookup-mem : (k : K) (v : V) (d : Dict K V) → lookup k d ≡ some v → Memᴰ (k, v) d
  lookup-mem k v [] e = absurd (cc)
  lookup-mem k v ((j, w) ∷ d) e = elim (Bool-cases (k == j)) [
    | inl hit ↦
        let same : k ≡ j = (e'.equal_iff k j).0 hit in
        let value : some w ≡ some v = rw hit at e in Memᴰ.head (cc)
    | inr miss ↦ Memᴰ.tail (lookup-mem k v d (rw miss at e))
  ]

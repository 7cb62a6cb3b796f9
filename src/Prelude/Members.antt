-- ===== src/Prelude/Members.antt =====
-- Membership in lists that are mapped, selected, appended or cut off.
use mathlib.Core.List.{Memᴰ}
use greencompute_api.Prelude.{
  ℕ, zero, suc, take, All, ◌++◌, ◌≡◌, refl, ap, Bool, true, List, [], ◌∷◌, map, select, if-cases,
  find, get_elem?, none, some, false, inl, inr, sym, Bool-cases, arith,
}

module _ {ℓ} {A : Type ℓ} where
  pub mem-map {κ} :
      {B : Type κ} (f : A → B) {b : B} (xs : List A)
      → Memᴰ b (map f xs)
      → (a : A) × Memᴰ a xs × (b ≡ f a)
  mem-map f [] m = elim m [ ]
  mem-map f (x ∷ xs) (Memᴰ.head e) = (x, Memᴰ.head refl, e)
  mem-map f (x ∷ xs) (Memᴰ.tail m) = let (a, k, e) = mem-map f xs m in (a, Memᴰ.tail k, e)

  pub map-mem {κ} :
      {B : Type κ} (f : A → B) {a : A} (xs : List A) → Memᴰ a xs → Memᴰ (f a) (map f xs)
  map-mem f [] m = elim m [ ]
  map-mem f (x ∷ xs) (Memᴰ.head e) = Memᴰ.head (rw e)
  map-mem f (x ∷ xs) (Memᴰ.tail m) = Memᴰ.tail (map-mem f xs m)

  -- An element that is kept was there, and passes the test.
  kept-head :
      (p : A → Bool) (a x : A) (xs : List A) (ys : List A)
      → p x ≡ true
      → (Memᴰ a ys → Memᴰ a xs × (p a ≡ true))
      → Memᴰ a (x ∷ ys)
      → Memᴰ a (x ∷ xs) × (p a ≡ true)
  kept-head p a x xs ys keep rest (Memᴰ.head e) = (Memᴰ.head e, rw e keep)
  kept-head p a x xs ys keep rest (Memᴰ.tail m) = let (k, e) = rest m in (Memᴰ.tail k, e)

  pub mem-select :
      (p : A → Bool) (a : A) (xs : List A) → Memᴰ a (select p xs) → Memᴰ a xs × (p a ≡ true)
  mem-select p a [] = λ m. elim m [ ]
  mem-select p a (x ∷ xs) =
      let rest = mem-select p a xs in
      if-cases (λ l. Memᴰ a l → Memᴰ a (x ∷ xs) × (p a ≡ true)) (p x)
        (λ keep. kept-head p a x xs (select p xs) keep rest)
        (λ drop m. let (k, e) = rest m in (Memᴰ.tail k, e))

  pub select-mem :
      (p : A → Bool) (a : A) (xs : List A) → Memᴰ a xs → p a ≡ true → Memᴰ a (select p xs)
  select-mem p a [] m pass = elim m [ ]
  select-mem p a (x ∷ xs) (Memᴰ.head e) pass =
      if-cases (Memᴰ a) (p x) (λ _. Memᴰ.head e) (λ drop. absurd (cc (ap p e)))
  select-mem p a (x ∷ xs) (Memᴰ.tail m) pass =
      let rest = select-mem p a xs m pass in
      if-cases (Memᴰ a) (p x) (λ _. Memᴰ.tail rest) (λ _. rest)

  pub not_mem-nil : {a : A} → ¬ Memᴰ a []
  not_mem-nil m = elim m [ ]

  pub mem-take : (n : ℕ) (a : A) (xs : List A) → Memᴰ a (take n xs) → Memᴰ a xs
  mem-take zero a xs m = elim m [ ]
  mem-take (suc n) a [] m = m
  mem-take (suc n) a (x ∷ xs) (Memᴰ.head e) = Memᴰ.head e
  mem-take (suc n) a (x ∷ xs) (Memᴰ.tail k) = Memᴰ.tail (mem-take n a xs k)

  -- A member is the head or in the tail.
  pub mem-cases {κ} :
      (P : Type κ) {a x : A} {xs : List A} → Memᴰ a (x ∷ xs) → (a ≡ x → P) → (Memᴰ a xs → P) → P
  mem-cases P (Memᴰ.head e) f g = f e
  mem-cases P (Memᴰ.tail k) f g = g k

  pub member-All {κ} : (P : A → Type κ) (xs : List A) {a : A} → All P xs → Memᴰ a xs → P a
  member-All P [] h m = elim m [ ]
  member-All P (x ∷ xs) h (Memᴰ.head e) = rw e h.0
  member-All P (x ∷ xs) h (Memᴰ.tail k) = member-All P xs h.1 k

  pub mem-append_left : (a : A) (xs ys : List A) → Memᴰ a xs → Memᴰ a (xs ++ ys)
  mem-append_left a [] ys m = elim m [ ]
  mem-append_left a (x ∷ xs) ys (Memᴰ.head e) = Memᴰ.head e
  mem-append_left a (x ∷ xs) ys (Memᴰ.tail k) = Memᴰ.tail (mem-append_left a xs ys k)

  pub mem-append_end : (a : A) (xs : List A) → Memᴰ a (xs ++ (a ∷ []))
  mem-append_end a [] = Memᴰ.head refl
  mem-append_end a (x ∷ xs) = Memᴰ.tail (mem-append_end a xs)

  pub get_elem?-mem : (i : ℕ) (a : A) (xs : List A) → get_elem? xs i ≡ some a → Memᴰ a xs
  get_elem?-mem i a [] e = absurd (cc)
  get_elem?-mem zero a (x ∷ xs) e = Memᴰ.head (ground (arith))
  get_elem?-mem (suc i) a (x ∷ xs) e = Memᴰ.tail (get_elem?-mem i a xs e)

  -- What a search finds is in the list, and passes the test.
  pub mem-find :
      (p : A → Bool) (a : A) (xs : List A) → find p xs ≡ some a → Memᴰ a xs × (p a ≡ true)
  mem-find p a [] = λ e. absurd (cc)
  mem-find p a (x ∷ xs) =
      let rest = mem-find p a xs in
      if-cases (λ o. o ≡ some a → Memᴰ a (x ∷ xs) × (p a ≡ true)) (p x)
        (λ pass e. let same : x ≡ a = ground (arith) in (Memᴰ.head (sym same), rw (← same) pass))
        (λ fail e. let (m, pass) = rest e in (Memᴰ.tail m, pass))

  -- A search that finds nothing has tested every element.
  pub find-none : (p : A → Bool) (a : A) (xs : List A) → find p xs ≡ none → Memᴰ a xs → p a ≡ false
  find-none p a [] e m = elim m [ ]
  find-none p a (x ∷ xs) e m = elim (Bool-cases (p x)) [
    | inl pass ↦ absurd (cc)
    | inr fail ↦
        mem-cases (p a ≡ false) m (λ same. rw same fail) (λ k. find-none p a xs (rw fail at e) k)
  ]

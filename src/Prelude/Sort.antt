-- ===== src/Prelude/Sort.antt =====
-- Python's `sorted(xs, key=...)`: stable. `before x y` says that x may stand before y.
use mathlib.Core.Path.{◌≡◌, refl, ap, ◌∙◌}
use mathlib.Core.Logic.{◌⊎◌, inl, inr}
use mathlib.Core.Bool.{Bool, true, false, not, ◌||◌}
use mathlib.Core.List.{List, [], ◌∷◌, ◌++◌, Memᴰ}
use Prim.Native.Nat.{ℕ, ◌+◌}
use native.Mathlib.Omega.{arith}
use greencompute_api.Prelude.Lists.{sum_by, select}
use greencompute_api.Prelude.Tests.{if◌then◌else◌, if-cases}

module _ {ℓ} {A : Type ℓ} (before : A → A → Bool) where
  pub insert_sorted : A → List A → List A
  insert_sorted x [] = x ∷ []
  insert_sorted x (y ∷ ys) = if before x y then x ∷ y ∷ ys else y ∷ insert_sorted x ys

  unfoldable pub sorted : List A → List A
  unfolding insert_sorted
  sorted [] = []
  sorted (x ∷ xs) = insert_sorted x (sorted xs)

module _ {ℓ} {A : Type ℓ} (before : A → A → Bool)
    (total : (a b : A) → (before a b ≡ true) ⊎ (before b a ≡ true))
    (trans : (a b c : A) → before a b ≡ true → before b c ≡ true → before a c ≡ true) where
  -- `h` is in the list, and may stand before every element of it.
  abbrev pub IsFirst : A → List A → Type ℓ
  IsFirst h xs = Memᴰ h xs × ((y : A) → Memᴰ y xs → before h y ≡ true)

  before_self : (a : A) → before a a ≡ true
  before_self a = elim (total a a) [ inl h ↦ h | inr h ↦ h ]

  IsFirst-alone : (x : A) → IsFirst x (x ∷ [])
  IsFirst-alone x = (Memᴰ.head refl, go)
    where
      go : (y : A) → Memᴰ y (x ∷ []) → before x y ≡ true
      go y (Memᴰ.head e) = rw e (before_self x)
      go y (Memᴰ.tail k) = elim k [ ]

  IsFirst-new : (x h : A) (xs : List A) → IsFirst h xs → before x h ≡ true → IsFirst x (x ∷ xs)
  IsFirst-new x h xs (m, all) b = (Memᴰ.head refl, go)
    where
      go : (y : A) → Memᴰ y (x ∷ xs) → before x y ≡ true
      go y (Memᴰ.head e) = rw e (before_self x)
      go y (Memᴰ.tail k) = trans x h y b (all y k)

  IsFirst-kept : (x h : A) (xs : List A) → IsFirst h xs → before x h ≡ false → IsFirst h (x ∷ xs)
  IsFirst-kept x h xs (m, all) b = (Memᴰ.tail m, go)
    where
      go : (y : A) → Memᴰ y (x ∷ xs) → before h y ≡ true
      go y (Memᴰ.head e) = rw e (elim (total x h) [ inl p ↦ absurd (cc) | inr p ↦ p ])
      go y (Memᴰ.tail k) = all y k

  -- The head of a sorted list, or that the list is empty.
  abbrev pub HeadOf : List A → List A → Type ℓ
  HeadOf xs [] = xs ≡ []
  HeadOf xs (h ∷ t) = IsFirst h xs

  insert-HeadOf :
      (x : A) (xs ys : List A) → HeadOf xs ys → HeadOf (x ∷ xs) (insert_sorted before x ys)
  unfolding insert_sorted
  insert-HeadOf x xs [] e = rw e (IsFirst-alone x)
  insert-HeadOf x xs (y ∷ ys) f =
      if-cases (HeadOf (x ∷ xs)) (before x y) (λ b. IsFirst-new x y xs f b)
        (λ b. IsFirst-kept x y xs f b)

  pub sorted-HeadOf : (xs : List A) → HeadOf xs (sorted before xs)
  unfolding sorted
  sorted-HeadOf [] = refl
  sorted-HeadOf (x ∷ xs) = insert-HeadOf x xs (sorted before xs) (sorted-HeadOf xs)

module _ {ℓ} {A : Type ℓ} (before : A → A → Bool) where
  later :
      {a x y : A} {zs ys : List A}
      → Memᴰ a (y ∷ zs)
      → (Memᴰ a zs → Memᴰ a (x ∷ ys))
      → Memᴰ a (x ∷ y ∷ ys)
  later (Memᴰ.head e) f = Memᴰ.tail (Memᴰ.head e)
  later (Memᴰ.tail k) f = over (f k)
    where
      over : {a x y : A} {ys : List A} → Memᴰ a (x ∷ ys) → Memᴰ a (x ∷ y ∷ ys)
      over (Memᴰ.head e) = Memᴰ.head e
      over (Memᴰ.tail k) = Memᴰ.tail (Memᴰ.tail k)

  mem-insert_sorted : (a x : A) (xs : List A) → Memᴰ a (insert_sorted before x xs) → Memᴰ a (x ∷ xs)
  unfolding insert_sorted
  mem-insert_sorted a x [] = λ m. m
  mem-insert_sorted a x (y ∷ ys) =
      let rest = mem-insert_sorted a x ys in
      if-cases (λ l. Memᴰ a l → Memᴰ a (x ∷ y ∷ ys)) (before x y) (λ _ m. m) (λ _ m. later m rest)

  first_or_rest :
      {a x : A} {xs ys : List A} → (Memᴰ a xs → Memᴰ a ys) → Memᴰ a (x ∷ xs) → Memᴰ a (x ∷ ys)
  first_or_rest f (Memᴰ.head e) = Memᴰ.head e
  first_or_rest f (Memᴰ.tail k) = Memᴰ.tail (f k)

  -- Sorting adds nothing.
  pub mem-sorted : (a : A) (xs : List A) → Memᴰ a (sorted before xs) → Memᴰ a xs
  unfolding sorted
  mem-sorted a [] m = m
  mem-sorted a (x ∷ xs) m =
      first_or_rest (mem-sorted a xs) (mem-insert_sorted a x (sorted before xs) m)

  over_head :
      {a x y : A} {ys zs : List A}
      → (Memᴰ a (x ∷ ys) → Memᴰ a zs)
      → Memᴰ a (x ∷ y ∷ ys)
      → Memᴰ a (y ∷ zs)
  over_head f (Memᴰ.head e) = Memᴰ.tail (f (Memᴰ.head e))
  over_head f (Memᴰ.tail (Memᴰ.head e)) = Memᴰ.head e
  over_head f (Memᴰ.tail (Memᴰ.tail k)) = Memᴰ.tail (f (Memᴰ.tail k))

  insert_sorted-mem : (a x : A) (xs : List A) → Memᴰ a (x ∷ xs) → Memᴰ a (insert_sorted before x xs)
  unfolding insert_sorted
  insert_sorted-mem a x [] = λ m. m
  insert_sorted-mem a x (y ∷ ys) =
      let rest = insert_sorted-mem a x ys in
      if-cases (λ l. Memᴰ a (x ∷ y ∷ ys) → Memᴰ a l) (before x y) (λ _ m. m)
        (λ _ m. over_head rest m)

  -- Sorting loses nothing.
  pub sorted-mem : (a : A) (xs : List A) → Memᴰ a xs → Memᴰ a (sorted before xs)
  unfolding sorted
  sorted-mem a [] m = m
  sorted-mem a (x ∷ xs) m =
      insert_sorted-mem a x (sorted before xs) (first_or_rest (sorted-mem a xs) m)

  sum_by-insert_sorted :
      (f : A → ℕ) (x : A) (xs : List A) → sum_by f (insert_sorted before x xs) ≡ f x + sum_by f xs
  unfolding insert_sorted
  sum_by-insert_sorted f x [] = refl
  sum_by-insert_sorted f x (y ∷ ys) =
      let rest = sum_by-insert_sorted f x ys in
      if-cases (λ l. sum_by f l ≡ f x + (f y + sum_by f ys)) (before x y) (λ _. refl)
        (λ _. omega (arith, rest))

  -- A sum over a list does not depend on its order.
  pub sum_by-sorted : (f : A → ℕ) (xs : List A) → sum_by f (sorted before xs) ≡ sum_by f xs
  unfolding sorted
  sum_by-sorted f [] = refl
  sum_by-sorted f (x ∷ xs) =
      omega (arith, sum_by-insert_sorted f x (sorted before xs), sum_by-sorted f xs)

  -- Each element may stand before the next one.
  abbrev pub InOrder : List A → Type 0
  InOrder [] = Unit
  InOrder (x ∷ []) = Unit
  InOrder (x ∷ y ∷ ys) = (before x y ≡ true) × InOrder (y ∷ ys)

  pub sorted-InOrder : (xs : List A) → InOrder xs → sorted before xs ≡ xs
  unfolding sorted insert_sorted
  sorted-InOrder [] h = refl
  sorted-InOrder (x ∷ []) h = refl
  sorted-InOrder (x ∷ y ∷ ys) h = rw (sorted-InOrder (y ∷ ys) h.1, h.0) refl

  module _ (p : A → Bool) (key : (a b : A) → before a b ≡ (p a || not (p b))) where
    skip :
        (x y : A) (zs ws : List A)
        → p x ≡ false
        → p y ≡ true
        → insert_sorted before x zs ≡ ws
        → insert_sorted before x (y ∷ zs) ≡ y ∷ ws
    unfolding insert_sorted
    skip x y zs ws h e rest = rw (key x y, h, e) (ap (λ l. y ∷ l) rest)

    insert-first : (x : A) (zs : List A) → p x ≡ true → insert_sorted before x zs ≡ x ∷ zs
    unfolding insert_sorted
    insert-first x [] h = refl
    insert-first x (z ∷ zs) h = rw (key x z, h) refl

    insert-rest :
        (x : A) (zs : List A)
        → p x ≡ false
        → insert_sorted before x (select (λ a. not (p a)) zs) ≡ x ∷ select (λ a. not (p a)) zs
    unfolding insert_sorted
    insert-rest x [] h = refl
    insert-rest x (z ∷ zs) h =
        let rest = insert-rest x zs h in
        if-cases (λ l. insert_sorted before x l ≡ x ∷ l) (not (p z)) (λ e. rw (key x z, h, e) refl)
          (λ _. rest)

    insert-back :
        (x : A) (xs ys : List A)
        → p x ≡ false
        → insert_sorted before x (select p xs ++ select (λ a. not (p a)) ys)
          ≡ select p xs ++ (x ∷ select (λ a. not (p a)) ys)
    insert-back x [] ys h = insert-rest x ys h
    insert-back x (y ∷ xs) ys h =
        let rest = insert-back x xs ys h in
        let others = select (λ a. not (p a)) ys in
        if-cases (λ l. insert_sorted before x (l ++ others) ≡ l ++ (x ∷ others)) (p y)
          (λ e. skip x y _ _ h e rest) (λ _. rest)

    -- A stable sort by a key of two values puts the one part before the other.
    pub sorted-select : (xs : List A) → sorted before xs ≡ select p xs ++ select (λ a. not (p a)) xs
    unfolding sorted
    sorted-select [] = refl
    sorted-select (x ∷ xs) = ap (insert_sorted before x) (sorted-select xs) ∙ split (p x) refl
      where
        split :
            (b : Bool)
            → p x ≡ b
            → insert_sorted before x (select p xs ++ select (λ a. not (p a)) xs)
              ≡ (if b then x ∷ select p xs else select p xs)
                ++ (if not b then x ∷ select (λ a. not (p a)) xs else select (λ a. not (p a)) xs)
        split true e = insert-first x _ e
        split false e = insert-back x xs xs e

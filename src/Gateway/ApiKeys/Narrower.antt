-- ===== src/Gateway/ApiKeys/Narrower.antt =====
-- What a key that a customer mints may do, compared with the key that mints it.
use greencompute_api.Prelude.{
  ℕ, ◌≤◌, String, ◌≡◌, refl, ◌⊎◌, inl, inr, Bool, true, false, not, ◌&&◌, ◌||◌, Option, none, some,
  List, [], ◌∷◌, arith, Bool-cases,
}
use greencompute_api.Prelude.Text.{same_text, same_text_iff}
use greencompute_api.Gateway.Scopes.{
  Scope, any_scope, is_in, all_in, normalize_scopes, required_scope,
}
use greencompute_api.Gateway.ApiKeys.{
  ApiKey, Request, MintError, minted, refused, tightened, is_empty, with_limits, with_scopes,
  create_api_key, self_service, covers, _check_scopes,
}

-- A limit that is as tight as another.
abbrev pub IsWithin : Option ℕ → Option ℕ → Type 0
IsWithin wanted none = Unit
IsWithin none (some limit) = ⊥
IsWithin (some wanted) (some limit) = wanted ≤ limit

-- Every request that a key may make, another may make too, and its limits are as tight.
abbrev pub IsNarrower : ApiKey → ApiKey → Type 0
IsNarrower key caller =
    ((method path : String)
      → (_check_scopes key method path ≡ false) ⊎ (_check_scopes caller method path ≡ true))
    × IsWithin key.max_active_rentals caller.max_active_rentals
    × IsWithin key.daily_spend_limit_usd caller.daily_spend_limit_usd

is_in-all_in :
    (s : Scope) (ss ts : List Scope) → all_in ss ts ≡ true → is_in s ss ≡ true → is_in s ts ≡ true
is_in-all_in s [] ts h m = absurd (cc)
is_in-all_in s (t ∷ ss) ts h m = elim (Bool-cases (same_text s t)) [
  | inl same ↦
      let e : s ≡ t = (same_text_iff s t).0 same in rw e (left (is_in t ts) (all_in ss ts) h)
  | inr other ↦ is_in-all_in s ss ts (right (is_in t ts) (all_in ss ts) h) (rw other at m)
]
  where
    left : (a b : Bool) → (a && b) ≡ true → a ≡ true
    left true b h = refl
    left false b h = absurd (cc)

    right : (a b : Bool) → (a && b) ≡ true → b ≡ true
    right true b h = h
    right false b h = absurd (cc)

covers-all_in :
    (ss ts : List Scope) (needed : Option Scope)
    → all_in ss ts ≡ true
    → (covers ss needed ≡ false) ⊎ (covers ts needed ≡ true)
covers-all_in ss ts none h = inl refl
covers-all_in ss ts (some s) h = elim (Bool-cases (same_text s any_scope)) [
  | inl every ↦ inr (rw every refl)
  | inr one ↦ elim (Bool-cases (is_in s ss)) [
    | inl m ↦ inr (rw (one, is_in-all_in s ss ts h m) refl)
    | inr m ↦ inl (rw (one, m) refl)
  ]
]

tightened-IsWithin :
    (limit wanted got : Option ℕ) → tightened limit wanted ≡ some got → IsWithin got limit
tightened-IsWithin none wanted got e = tt
tightened-IsWithin (some limit) none none e = absurd (cc)
tightened-IsWithin (some limit) none (some got) e = ground arith
tightened-IsWithin (some limit) (some wanted) none e = absurd (ground arith)
tightened-IsWithin (some limit) (some wanted) (some got) e = ground arith

-- The key that a caller's limits and scopes let through.
limited :
    (user : Option String) (scopes : List Scope) (a b : Option (Option ℕ)) (key : ApiKey)
    → with_limits user scopes a b ≡ minted key
    → (max_active daily : Option ℕ) × (a ≡ some max_active)
      × (b ≡ some daily)
      × (key ≡ record {
        user_id = user;
        admin = false;
        scopes = scopes;
        max_active_rentals = max_active;
        daily_spend_limit_usd = daily;
      })
limited user scopes none b key e = absurd (cc)
limited user scopes (some m) none key e = absurd (cc)
limited user scopes (some m) (some d) key e = (m, d, refl, refl, cc)

module _ (caller : ApiKey) (request : Request) (key : ApiKey) where
  scoped-IsNarrower :
      (scopes : List Scope)
      → with_limits caller.user_id scopes
          (tightened caller.max_active_rentals request.max_active_rentals)
          (tightened caller.daily_spend_limit_usd request.daily_spend_limit_usd)
        ≡ minted key
      → ((is_empty caller.scopes ≡ true)
          ⊎ ((is_empty scopes ≡ false) × (all_in scopes caller.scopes ≡ true)))
      → IsNarrower key caller
  unfolding _check_scopes
  scoped-IsNarrower scopes e narrow =
      let (m, d, max_active, daily, same) = limited caller.user_id scopes _ _ key e in
      rw same (
        λ method path. requests (required_scope method path) narrow,
        tightened-IsWithin caller.max_active_rentals request.max_active_rentals m max_active,
        tightened-IsWithin caller.daily_spend_limit_usd request.daily_spend_limit_usd d daily,
      )
    where
      or_true : (a b : Bool) → b ≡ true → (a || b) ≡ true
      or_true true b h = refl
      or_true false b h = h

      second : (a b c : Bool) → b ≡ true → (a || b || c) ≡ true
      second true b c h = refl
      second false true c h = refl
      second false false c h = absurd (cc)

      requests :
          (needed : Option Scope)
          → ((is_empty caller.scopes ≡ true)
              ⊎ ((is_empty scopes ≡ false) × (all_in scopes caller.scopes ≡ true)))
          → ((is_empty scopes || covers scopes needed) ≡ false)
            ⊎ ((caller.admin || is_empty caller.scopes || covers caller.scopes needed) ≡ true)
      requests needed (inl all) = inr (second caller.admin (is_empty caller.scopes) _ all)
      requests needed (inr (some_scopes, inside)) =
          elim (covers-all_in scopes caller.scopes needed inside) [
            | inl shut ↦ inl (rw (some_scopes, shut) refl)
            | inr open_way ↦ inr (or_true (caller.admin || is_empty caller.scopes) _ open_way)
          ]

  -- A key that a customer mints with a key of theirs may make no request that the minting key may not
  -- make, and its limits are at least as tight.
  pub create_api_key-IsNarrower :
      (raw : List Scope)
      → create_api_key request raw (self_service caller) ≡ minted key
      → IsNarrower key caller
  unfolding create_api_key
  create_api_key-IsNarrower raw e = normalized (normalize_scopes request.scopes) e
    where
      both :
          (empty_caller empty_scopes inside : Bool)
          → (not empty_caller && (empty_scopes || not inside)) ≡ false
          → (empty_caller ≡ true) ⊎ ((empty_scopes ≡ false) × (inside ≡ true))
      both true s i h = inl refl
      both false false true h = inr (refl, refl)
      both false true i h = absurd (cc)
      both false false false h = absurd (cc)

      refused_minted : {r : MintError} → refused r ≡ minted key → ⊥
      refused_minted h = absurd (cc)

      normalized :
          (o : Option (List Scope))
          → with_scopes request (self_service caller) o ≡ minted key
          → IsNarrower key caller
      normalized none e = absurd (cc)
      normalized (some scopes) e =
          elim (Bool-cases (
            not (is_empty caller.scopes)
            && (is_empty scopes || not (all_in scopes caller.scopes)))) [
              | inl broader ↦ absurd (refused_minted (rw broader at e))
              | inr fine ↦ scoped-IsNarrower scopes (rw fine at e) (
                  both (is_empty caller.scopes) (is_empty scopes) (all_in scopes caller.scopes)
                    fine)
            ]

-- ===== src/Gateway/ApiKeys/Reader.antt =====
-- What a key with the scope "read" alone may do, and the keys that come of it: _check_scopes.
use greencompute_api.Prelude.{
  String, ◌≡◌, refl, ◌⊎◌, inl, inr, Bool, true, false, Option, none, some, List, [], ◌∷◌,
  if◌then◌else◌, if-cases, Bool-cases, arith,
}
use greencompute_api.Prelude.Text.{is_prefix_of, same_text, same_text_iff}
use greencompute_api.Gateway.Scopes.{
  Scope, read, rentals, billing, any_scope, is_mcp, is_ssh, is_get, is_any_prefix, rental_prefixes,
  required_scope,
}
use greencompute_api.Gateway.Scopes.ReadOnly.{required_scope-get}
use greencompute_api.Gateway.ApiKeys.{
  ApiKey, Request, minted, create_api_key, self_service, covers, _check_scopes,
}
use greencompute_api.Gateway.ApiKeys.Narrower.{create_api_key-IsNarrower}

-- "*" is needed only for the MCP endpoint.
required_scope-any :
    (method path : String) → required_scope method path ≡ some any_scope → is_mcp path ≡ true
unfolding required_scope
required_scope-any method path =
    let P : Option Scope → Type 0 = λ o. o ≡ some any_scope → is_mcp path ≡ true in
    if-cases P (is_mcp path) (λ mcp _. mcp)
      (λ _.
        if-cases P (is_prefix_of "/v1/" path) (λ _ e. absurd (ground arith))
          (λ _.
            if-cases P (is_prefix_of "/platform/api-keys" path) (λ _ e. absurd (ground arith))
              (λ _.
                if-cases P (is_ssh path) (λ _ e. absurd (ground arith))
                  (λ _.
                    if-cases P (is_prefix_of "/platform/billing" path)
                      (λ _ e. absurd (not_any (is_get method) billing (λ x. ground arith) e))
                      (λ _.
                        if-cases P (is_any_prefix rental_prefixes path)
                          (λ _ e. absurd (not_any (is_get method) rentals (λ x. ground arith) e))
                          (λ _.
                            if-cases P (is_get method) (λ _ e. absurd (ground arith))
                              (λ _ e. absurd (cc))))))))
  where
    not_any :
        (get : Bool) (other : Scope)
        → ¬ (some other ≡ some any_scope)
        → ¬ (some (if get then read else other) ≡ some any_scope)
    not_any true other h e = absurd (ground arith)
    not_any false other h e = h e

-- A request to the MCP endpoint, or a GET that is no SSH access.
abbrev pub IsReading : String → String → Type 0
IsReading method path = (is_mcp path ≡ true) ⊎ ((is_get method ≡ true) × (is_ssh path ≡ false))

covered-IsReading :
    (method path : String) (o : Option Scope)
    → required_scope method path ≡ o
    → covers (read ∷ []) o ≡ true
    → IsReading method path
covered-IsReading method path none e c = absurd (cc)
covered-IsReading method path (some needed) e c = elim (Bool-cases (same_text needed any_scope)) [
  | inl any ↦
      inl (required_scope-any method path (rw ((same_text_iff needed any_scope).0 any) at e))
  | inr other ↦ elim (Bool-cases (same_text needed read)) [
    | inl reading ↦
        inr (required_scope-get method path (rw ((same_text_iff needed read).0 reading) at e))
    | inr neither ↦ absurd (cc (rw (other, neither) at c))
  ]
]

-- The keys that come of one: itself, and any that one of them mints for its owner.
pub data ComesOf (key : ApiKey) : ApiKey → Type 0 where
  itself : ComesOf key key
  mints :
      {parent child : ApiKey} (request : Request) (raw : List Scope)
      → ComesOf key parent
      → create_api_key request raw (self_service parent) ≡ minted child
      → ComesOf key child

root_check :
    {key child : ApiKey} (method path : String)
    → ComesOf key child
    → _check_scopes child method path ≡ true
    → _check_scopes key method path ≡ true
root_check method path itself c = c
root_check method path (mints {parent} {child} request raw before e) c =
    elim ((create_api_key-IsNarrower parent request child raw e).0 method path) [
      | inl shut ↦ absurd (cc (c, shut))
      | inr allowed ↦ root_check method path before allowed
    ]

-- For a key that is no admin's and whose only scope is "read": each request that _check_scopes lets pass
-- for it, or for a key that it or a key come of it has minted for its owner, is a GET that is no SSH access, or
-- a request to the MCP endpoint.
pub _check_scopes-IsReading :
    (key child : ApiKey) (method path : String)
    → key.admin ≡ false
    → key.scopes ≡ read ∷ []
    → ComesOf key child
    → _check_scopes child method path ≡ true
    → IsReading method path
unfolding _check_scopes
_check_scopes-IsReading key child method path plain only comes allowed =
    let root : _check_scopes key method path ≡ true = root_check method path comes allowed in
    let covered : covers (read ∷ []) (required_scope method path) ≡ true =
      rw (_check_scopes, plain, only) at root in
    covered-IsReading method path (required_scope method path) refl covered

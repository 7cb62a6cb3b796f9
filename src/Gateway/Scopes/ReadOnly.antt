-- ===== src/Gateway/Scopes/ReadOnly.antt =====
-- The requests that need the scope "read".
use greencompute_api.Prelude.{
  String, ◌≡◌, refl, Bool, true, false, Option, some, if◌then◌else◌, if-cases, arith,
}
use greencompute_api.Prelude.Text.{is_prefix_of}
use greencompute_api.Gateway.Scopes.{
  Scope, read, billing, rentals, is_mcp, is_ssh, is_get, is_any_prefix, rental_prefixes,
  required_scope,
}

-- An answer that is "read" only for a GET that is no SSH access.
abbrev ReadsOnly : Bool → Bool → Option Scope → Type 0
ReadsOnly get ssh o = o ≡ some read → (get ≡ true) × (ssh ≡ false)

billing_get : (get : Bool) → some (if get then read else billing) ≡ some read → get ≡ true
billing_get true e = refl
billing_get false e = absurd (ground arith)

rentals_get : (get : Bool) → some (if get then read else rentals) ≡ some read → get ≡ true
rentals_get true e = refl
rentals_get false e = absurd (ground arith)

-- A request that needs the scope "read" is a GET, and no SSH access.
pub required_scope-get :
    (method path : String)
    → required_scope method path ≡ some read
    → (is_get method ≡ true) × (is_ssh path ≡ false)
unfolding required_scope
required_scope-get method path =
    let P : Option Scope → Type 0 = ReadsOnly (is_get method) (is_ssh path) in
    if-cases P (is_mcp path) (λ _ e. absurd (ground arith))
      (λ _.
        if-cases P (is_prefix_of "/v1/" path) (λ _ e. absurd (ground arith))
          (λ _.
            if-cases P (is_prefix_of "/platform/api-keys" path) (λ _ e. absurd (ground arith))
              (λ _.
                if-cases P (is_ssh path) (λ _ e. absurd (ground arith))
                  (λ ssh.
                    if-cases P (is_prefix_of "/platform/billing" path)
                      (λ _ e. (billing_get (is_get method) e, ssh))
                      (λ _.
                        if-cases P (is_any_prefix rental_prefixes path)
                          (λ _ e. (rentals_get (is_get method) e, ssh))
                          (λ _.
                            if-cases P (is_get method) (λ get e. (get, ssh))
                              (λ _ e. absurd (cc))))))))

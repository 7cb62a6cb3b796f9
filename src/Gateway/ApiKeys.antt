-- ===== src/Gateway/ApiKeys.antt =====
-- application/services.py: GatewayService.create_api_key; transport/security.py: _check_scopes; the scope
-- rule of transport/routes.py: delete_api_key. Limits in dollars are only compared: they are numbers
-- here. The key's secret and name are left out.
pub mod Narrower
pub mod Reader
use greencompute_api.Prelude.{
  ℕ, String, Bool, true, false, not, ◌&&◌, ◌||◌, Option, none, some, List, [], ◌∷◌, if◌then◌else◌,
  ltb,
}
use greencompute_api.Prelude.Text.{same_text}
use greencompute_api.Gateway.Scopes.{
  Scope, any_scope, is_in, all_in, normalize_scopes, required_scope,
}

pub record ApiKey : Type 0 where
  pub user_id : Option String
  pub admin : Bool
  pub scopes : List Scope
  pub max_active_rentals : Option ℕ
  pub daily_spend_limit_usd : Option ℕ

pub record Request : Type 0 where
  pub user_id : Option String
  pub admin : Bool
  pub scopes : Option (List String)
  pub max_active_rentals : Option ℕ
  pub daily_spend_limit_usd : Option ℕ

-- The keyword arguments of the call.
pub record Caller : Type 0 where
  pub caller_user_id : Option String
  pub caller_admin : Option Bool
  pub allow_user_id_override : Option Bool
  pub allow_admin_grant : Bool
  pub caller_scopes : List Scope
  pub caller_limits : Option ApiKey

pub data MintError : Type 0 where
  unknown_scope broader_scopes broader_limits : MintError

pub data Minted : Type 0 where
  minted : ApiKey → Minted
  refused : MintError → Minted

-- `max_active_rentals` or `daily_spend_limit_usd` under the caller's own: `none` is the PermissionError.
abbrev pub tightened : Option ℕ → Option ℕ → Option (Option ℕ)
tightened none wanted = some wanted
tightened (some limit) none = some (some limit)
tightened (some limit) (some wanted) = if ltb limit wanted then none else some (some wanted)

abbrev pub max_active_of : Option ApiKey → Option ℕ
max_active_of none = none
max_active_of (some k) = k.max_active_rentals

abbrev pub daily_limit_of : Option ApiKey → Option ℕ
daily_limit_of none = none
daily_limit_of (some k) = k.daily_spend_limit_usd

abbrev pub is_empty : List Scope → Bool
is_empty [] = true
is_empty (s ∷ ss) = false

abbrev pub with_limits : Option String → List Scope → Option (Option ℕ) → Option (Option ℕ) → Minted
with_limits user scopes (some max_active) (some daily) = minted (record {
  user_id = user;
  admin = false;
  scopes = scopes;
  max_active_rentals = max_active;
  daily_spend_limit_usd = daily;
})
with_limits user scopes _ _ = refused broader_limits

abbrev pub with_scopes : Request → Caller → Option (List Scope) → Minted
with_scopes request c none = refused unknown_scope
with_scopes request c (some scopes) =
    if not (is_empty c.caller_scopes) && (is_empty scopes || not (all_in scopes c.caller_scopes))
    then refused broader_scopes
    else with_limits c.caller_user_id scopes
        (tightened (max_active_of c.caller_limits) request.max_active_rentals)
        (tightened (daily_limit_of c.caller_limits) request.daily_spend_limit_usd)

-- The key as the request asks for it, for a trusted caller; its scopes are taken as they are sent.
abbrev pub as_requested : Request → List Scope → Bool → Minted
as_requested request scopes admin = minted (record {
  user_id = request.user_id;
  admin = admin;
  scopes = scopes;
  max_active_rentals = request.max_active_rentals;
  daily_spend_limit_usd = request.daily_spend_limit_usd;
})

abbrev pub override_of : Option Bool → Option Bool → Option Bool
override_of none admin = admin
override_of (some o) admin = some o

-- `create_api_key`; `raw` are the request's scopes, letter by letter.
unfoldable pub create_api_key : Request → List Scope → Caller → Minted
create_api_key request raw c = elim (override_of c.allow_user_id_override c.caller_admin) [
  | none ↦ as_requested request raw request.admin
  | some override ↦
      if override
      then as_requested request raw (request.admin && c.allow_admin_grant)
      else with_scopes request c (normalize_scopes request.scopes)
]

-- The arguments of the route for a caller who is not privileged.
abbrev pub self_service : ApiKey → Caller
self_service key = record {
  caller_user_id = key.user_id;
  caller_admin = none;
  allow_user_id_override = some false;
  allow_admin_grant = false;
  caller_scopes = key.scopes;
  caller_limits = some key;
}

abbrev pub covers : List Scope → Option Scope → Bool
covers scopes none = false
covers scopes (some needed) = same_text needed any_scope || is_in needed scopes

-- `_check_scopes`, for a request: whether it does not raise.
unfoldable pub _check_scopes : ApiKey → String → String → Bool
_check_scopes key method path =
    key.admin || is_empty key.scopes || covers key.scopes (required_scope method path)

-- The scope rule of delete_api_key, for a target that is the caller's.
unfoldable pub may_delete : ApiKey → ApiKey → Bool
may_delete key target =
    is_empty key.scopes
    || key.admin
    || (not (is_empty target.scopes) && all_in target.scopes key.scopes)

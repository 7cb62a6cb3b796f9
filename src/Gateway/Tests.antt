-- ===== src/Gateway/Tests.antt =====
-- The scopes at concrete requests, and a key minted by a read-only key.
use greencompute_api.Prelude.{◌≡◌, refl, true, false, none, some, [], ◌∷◌, string_eq}
use greencompute_api.Prelude.Text.{lower, strip, same_text, is_prefix_of}
use greencompute_api.Gateway.Scopes.{
  read, rentals, billing, required_scope, is_ssh, normalize_scopes, sorted_set, add_scope,
}
use greencompute_api.Gateway.ApiKeys.Reader.{IsReading, itself, mints, _check_scopes-IsReading}
use greencompute_api.Gateway.ApiKeys.{
  ApiKey, Request, minted, create_api_key, self_service, _check_scopes,
}
use greencompute_api.Gateway.ApiKeys.Narrower.{IsNarrower, create_api_key-IsNarrower}

abbrev reader : ApiKey
reader = record {
  user_id = some "ann";
  admin = false;
  scopes = read ∷ billing ∷ [];
  max_active_rentals = some 2;
  daily_spend_limit_usd = none;
}

abbrev request : Request
request = record {
  user_id = some "bob";
  admin = true;
  scopes = some (" Read " ∷ []);
  max_active_rentals = none;
  daily_spend_limit_usd = some 5;
}

abbrev child : ApiKey
child = record {
  user_id = some "ann";
  admin = false;
  scopes = read ∷ [];
  max_active_rentals = some 2;
  daily_spend_limit_usd = some 5;
}

child_minted : create_api_key request [] (self_service reader) ≡ minted child
unfolding create_api_key normalize_scopes sorted_set add_scope same_text lower strip
child_minted = refl

ssh_is_not_a_read : required_scope "GET" "/platform/deployments/d1/ssh" ≡ some rentals
unfolding required_scope is_prefix_of is_ssh same_text
ssh_is_not_a_read = refl

unlisted_fails_closed : required_scope "POST" "/platform/users" ≡ none
unfolding required_scope is_prefix_of is_ssh same_text lower
unlisted_fails_closed = refl

create_api_key-IsNarrower_example : IsNarrower child reader
create_api_key-IsNarrower_example = create_api_key-IsNarrower reader request child [] child_minted

abbrev read_only : ApiKey
read_only = record reader { scopes = read ∷ [] }

read_only_minted : create_api_key request [] (self_service read_only) ≡ minted child
unfolding create_api_key normalize_scopes sorted_set add_scope same_text lower strip
read_only_minted = refl

may_list : _check_scopes child "get" "/platform/deployments" ≡ true
unfolding _check_scopes required_scope is_prefix_of is_ssh same_text lower
may_list = refl

_check_scopes-IsReading_example : IsReading "get" "/platform/deployments"
_check_scopes-IsReading_example =
    _check_scopes-IsReading read_only child "get" "/platform/deployments" refl refl
      (mints request [] itself read_only_minted) may_list

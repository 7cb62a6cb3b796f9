-- ===== src/Gateway/Scopes.antt =====
-- domain/scopes.py: the names of the scopes, and the scope that a request needs. Methods and names are
-- ASCII text.
pub mod ReadOnly
use greencompute_api.Prelude.{
  ℕ, String, Bool, true, false, not, ◌&&◌, ◌||◌, Option, none, some, List, [], ◌∷◌, map, drop, ◌==◌,
  nat_eq, if◌then◌else◌,
}
use greencompute_api.Prelude.Text.{codes, lower, strip, same_text, text_leb, is_prefix_of}

abbrev pub Scope : Type 0
Scope = List ℕ

abbrev pub read : Scope
read = codes "read"

abbrev pub rentals : Scope
rentals = codes "rentals"

abbrev pub inference : Scope
inference = codes "inference"

abbrev pub billing : Scope
billing = codes "billing"

abbrev pub keys : Scope
keys = codes "keys"

-- ANY_SCOPE
abbrev pub any_scope : Scope
any_scope = codes "*"

abbrev pub is_in : Scope → List Scope → Bool
is_in s [] = false
is_in s (t ∷ ts) = same_text s t || is_in s ts

abbrev pub all_in : List Scope → List Scope → Bool
all_in [] ts = true
all_in (s ∷ ss) ts = is_in s ts && all_in ss ts

abbrev pub known_scopes : List Scope
known_scopes = read ∷ rentals ∷ inference ∷ billing ∷ keys ∷ []

-- One more name of a sorted set.
unfoldable pub add_scope : Scope → List Scope → List Scope
add_scope s [] = s ∷ []
add_scope s (t ∷ ts) =
    if same_text s t then t ∷ ts else if text_leb s t then s ∷ t ∷ ts else t ∷ add_scope s ts

-- `sorted({(s or "").strip().lower() for s in scopes})`
unfoldable pub sorted_set : List String → List Scope
sorted_set [] = []
sorted_set (s ∷ ss) = add_scope (lower (codes (strip s))) (sorted_set ss)

abbrev pub listed : Option (List String) → List String
listed none = []
listed (some ss) = ss

-- `normalize_scopes`; `none` is the ValueError on an unknown name.
unfoldable pub normalize_scopes : Option (List String) → Option (List Scope)
normalize_scopes scopes =
    let out = sorted_set (listed scopes) in if all_in out known_scopes then some out else none

abbrev pub all_slashes : List ℕ → Bool
all_slashes [] = true
all_slashes (c ∷ s) = c == 47 && all_slashes s

-- `path.rstrip("/") == "/mcp"`
abbrev pub is_mcp : String → Bool
is_mcp path = is_prefix_of "/mcp" path && all_slashes (drop 4 (codes path))

-- What follows `[^/]+/`.
abbrev pub after_segment : Bool → List ℕ → Option (List ℕ)
after_segment started [] = none
after_segment started (c ∷ s) =
    let rest = after_segment true s in if c == 47 then (if started then some s else none) else rest

abbrev pub is_ssh_end : Option (List ℕ) → Bool
is_ssh_end none = false
is_ssh_end (some s) =
    same_text s (codes "ssh")
    || same_text s (codes "ssh/")
    || same_text s (codes "ssh\n")
    || same_text s (codes "ssh/\n")

-- `_SSH.match(path)`: `^/platform/deployments/[^/]+/ssh/?$`, where `$` also stands before a last newline.
unfoldable pub is_ssh : String → Bool
is_ssh path =
    is_prefix_of "/platform/deployments/" path
    && is_ssh_end (after_segment false (drop 22 (codes path)))

-- `path.startswith(_RENTAL_PREFIXES)`
abbrev pub is_any_prefix : List String → String → Bool
is_any_prefix [] path = false
is_any_prefix (p ∷ ps) path = is_prefix_of p path || is_any_prefix ps path

abbrev pub rental_prefixes : List String
rental_prefixes =
    "/platform/workloads" ∷ "/platform/deployments" ∷ "/platform/fleets" ∷ "/platform/builds"
    ∷ "/platform/images" ∷ "/platform/capacity-alerts" ∷ []

-- `method.upper() == "GET"`
abbrev pub is_get : String → Bool
is_get method = same_text (lower (codes method)) (codes "get")

-- `required_scope`
unfoldable pub required_scope : String → String → Option Scope
required_scope method path =
    if is_mcp path
    then some any_scope
    else if is_prefix_of "/v1/" path
    then some inference
    else if is_prefix_of "/platform/api-keys" path
    then some keys
    else if is_ssh path
    then some rentals
    else if is_prefix_of "/platform/billing" path
    then some (if is_get method then read else billing)
    else if is_any_prefix rental_prefixes path
    then some (if is_get method then read else rentals)
    else if is_get method
    then some read
    else none

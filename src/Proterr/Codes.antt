-- ===== src/Proterr/Codes.antt =====
-- The codes that the mapping can give.
use protonmail_mcp.Common.{
  ℕ, String, Bool, true, false, Option, List, [], ◌∷◌, ◌≡◌, ◌≢◌, refl, inl, inr, any, ◌==◌,
  Option-cases, if◌then◌else◌,
}
use protonmail_mcp.Common.Strconv.{ℤ, pos}
use protonmail_mcp.Proterr.Chain.{Headers, Error, GoError, find_first, pick_http, pick_net}
use protonmail_mcp.Proterr.Mapping.{
  ApiCodes, hinted, limited, extract_api_error, hv_error, map_status, upstream, from_sentinels,
  from_transport, from_api, err_to_mcp,
}

-- The codes that hosts may rely on; `writes_disabled` and `2fa_required` are not made by `Map`.
abbrev pub stable_codes : List String
stable_codes =
    "proton/keyring_unlock_scope" ∷ "proton/2fa_rejected" ∷ "proton/captcha"
    ∷ "proton/auth_required" ∷ "proton/plan_required" ∷ "proton/permission_denied"
    ∷ "proton/not_found" ∷ "proton/conflict" ∷ "proton/validation" ∷ "proton/rate_limited"
    ∷ "proton/upstream" ∷ "proton/body_undecryptable" ∷ "proton/address_keyring_missing"
    ∷ "proton/keyring_locked" ∷ []

-- The code is a stable one, and only a rate limit carries a delay.
pub record IsStable (x : Error) : Type 0 where
  pub listed : any (λ c. c == x.code) stable_codes ≡ true
  pub delay : x.retry_after_seconds ≢ pos 0 → x.code ≡ "proton/rate_limited"

IsStable-if : {x y : Error} (b : Bool) → IsStable x → IsStable y → IsStable (if b then x else y)
IsStable-if true h k = h
IsStable-if false h k = k

IsStable-hinted :
    (code message hint : String)
    → any (λ c. c == code) stable_codes ≡ true
    → IsStable (hinted code message hint)
IsStable-hinted code message hint h = record { listed = h; delay = λ n. absurd (n refl) }

IsStable-limited : (delay : ℤ) → IsStable (limited delay)
IsStable-limited delay = record { listed = refl; delay = λ _. refl }

ruleset ladder = (IsStable-if, IsStable-hinted, IsStable-limited, refl)

map_status-IsStable : (status : ℕ) (h : Option Headers) → IsStable (map_status status h)
unfolding map_status
map_status-IsStable status h = search ladder depth 12

upstream-IsStable : (e : GoError) → IsStable (upstream e)
unfolding upstream
upstream-IsStable e = IsStable-hinted _ _ _ refl

from_sentinels-IsStable : (e : GoError) → IsStable (from_sentinels e)
unfolding from_sentinels
from_sentinels-IsStable e = search (ladder, upstream-IsStable) depth 8

from_transport-IsStable : (e : GoError) → IsStable (from_transport e)
unfolding from_transport
from_transport-IsStable e = elim (Option-cases (find_first pick_http e)) [
  | inr (h, found) ↦ rw (found, from_transport) (map_status-IsStable _ _)
  | inl none_http ↦ (elim (Option-cases (find_first pick_net e)) [
    | inr (s, found) ↦ rw (none_http, from_transport, found) (upstream-IsStable e)
    | inl none_net ↦ rw (none_http, from_transport, none_net) (from_sentinels-IsStable e)
  ])
]

from_api-IsStable : (c : ApiCodes) (e : GoError) → IsStable (from_api c e)
unfolding from_api hv_error
from_api-IsStable c e = elim (Option-cases (extract_api_error e)) [
  | inl missing ↦ rw (missing, from_api) (from_transport-IsStable e)
  | inr (a, found) ↦
      rw (found, from_api) (search (ladder, from_transport-IsStable, map_status-IsStable) depth 8)
]

-- Every error is mapped to one of the fourteen listed codes, and only `proton/rate_limited` comes
-- with a retry delay other than 0.
pub err_to_mcp-IsStable : (c : ApiCodes) (e : GoError) → IsStable (err_to_mcp c e)
unfolding err_to_mcp
err_to_mcp-IsStable c e = search (ladder, from_api-IsStable) depth 8

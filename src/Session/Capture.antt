-- ===== src/Session/Capture.antt =====
-- internal/session/auth2fa_capture.go: picking up the tokens that a 2FA response carries.
use protonmail_mcp.Common.{
  String, Bool, true, false, Option, none, some, List, [], ◌∷◌, ◌||◌, nat_eq, nonempty,
  if◌then◌else◌,
}
use protonmail_mcp.Session.State.{Auth, one_password, Response}

pub record Capture : Type 0 where
  pub set : Bool
  pub got : Auth

abbrev pub empty_auth : Auth
empty_auth = record {
  uid = "";
  access_token = "";
  refresh_token = "";
  scope = "";
  has_totp = false;
  password_mode = one_password;
}

abbrev pub new_capture : Capture
new_capture = record { set = false; got = empty_auth }

unfoldable pub has_token_field : Auth → Bool
has_token_field a = nonempty a.access_token || nonempty a.refresh_token || nonempty a.uid

abbrev pub usable : Option Auth → Option Auth
usable none = none
usable (some a) = if has_token_field a then some a else none

-- `parseAuth2FABody`: the wrapped layout first, then the flat one.
unfoldable pub parse_auth_2fa_body : Response → Option Auth
parse_auth_2fa_body r = elim (usable r.wrapped) [ some a ↦ some a | none ↦ usable r.flat ]

-- The hook on one response.
unfoldable pub hook : Response → Capture → Capture
unfolding parse_auth_2fa_body
hook r c =
    if r.is_2fa_url
    then (if nat_eq r.status 200
        then (elim (parse_auth_2fa_body r) [
          | none ↦ c
          | some parsed ↦ record { set = true; got = parsed }
        ])
        else c)
    else c

-- The responses in their order.
unfoldable pub observe : List Response → Capture → Capture
unfolding hook
observe [] c = c
observe (r ∷ rest) c = observe rest (hook r c)

-- `if got != "" { merged = got }`
abbrev pub override : String → String → String
override base got = if nonempty got then got else base

abbrev pub layered : Auth → Auth → Auth
layered base got = record base {
  uid = override base.uid got.uid;
  access_token = override base.access_token got.access_token;
  refresh_token = override base.refresh_token got.refresh_token;
  scope = override base.scope got.scope;
}

-- `merge`: the auth to adopt, nil if nothing usable was captured, and the capture after it.
unfoldable pub merge : Capture → Auth → Option Auth × Capture
unfolding has_token_field
merge c base =
    if c.set
    then (if has_token_field c.got
        then (some (layered base c.got), record c { got = empty_auth })
        else (none, c))
    else (none, c)

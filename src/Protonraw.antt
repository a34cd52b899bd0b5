-- ===== src/Protonraw.antt =====
-- internal/protonraw: the endpoints that go-proton-api does not wrap, over the raw HTTP client.
pub mod Rules
pub mod Errors
pub mod Paths
use protonmail_mcp.Common.{
  ℕ, String, Bool, false, Option, none, some, List, ◌<>◌, ◌==◌, ◌||◌, leb, any, nat_eq, codes,
  if◌then◌else◌,
}
use protonmail_mcp.Common.Strconv.{ℤ, pos}
use protonmail_mcp.Common.Ints.{itoa}
use protonmail_mcp.Proterr.Chain.{Headers, http, text, wrap, Result, ok, err}
use protonmail_mcp.Exec.{Exec, context, ◌>>=◌}
use protonmail_mcp.Keyring.{lift}
use protonmail_mcp.Session.State.{RawClient}

pub record CustomDomainRecord : Type 0 where
  pub type : String
  pub name : String
  pub value : String
  pub purpose : String

pub record CustomDomain : Type 0 where
  pub id : String
  pub domain_name : String
  pub state : ℤ
  pub verify_state : ℤ
  pub mx_state : ℤ
  pub spf_state : ℤ
  pub dkim_state : ℤ
  pub dmarc_state : ℤ
  pub records : List CustomDomainRecord

pub record CreateAddressRequest : Type 0 where
  pub domain_id : String
  pub local_part : String
  pub display_name : String
  pub signature : String

pub record CreatedAddress : Type 0 where
  pub id : String
  pub email : String

-- `Status`, `Receive`, `Send`, `HasKeys`, `Type`, `Order` and `Priority` are never read.
pub record DomainAddress : Type 0 where
  pub id : String
  pub email : String
  pub catch_all : Bool

pub data Method : Type 0 where
  http_get http_post http_put http_delete : Method

-- The bodies that are sent: none, `{"Name": …}`, an address to create, and `{"AddressID": …}`.
pub data Body : Type 0 where
  no_body : Body
  name_body : String → Body
  address_body : CreateAddressRequest → Body
  catchall_body : Option String → Body

pub record HttpRequest : Type 0 where
  pub method : Method
  pub path : String
  pub body : Body

pub record HttpResponse : Type 0 where
  pub status : ℕ
  pub headers : Headers
  pub body : String

pub record Envelope : Type 0 where
  pub code : ℤ
  pub error : String

-- What this package uses of resty and encoding/json: sending a request with the headers of the raw
-- client, and `json.Unmarshal` of a body into the envelope and into each of the shapes; `quote` is
-- `strconv.Quote` (`%q`).
pub record Web (W : Type 0) : Type 0 where
  pub send : RawClient → HttpRequest → Exec W HttpResponse
  pub envelope : String → Option Envelope
  pub domains : String → Result (List CustomDomain)
  pub domain : String → Result CustomDomain
  pub created_address : String → Result CreatedAddress
  pub domain_addresses : String → Result (List DomainAddress)
  pub quote : String → String

abbrev pub is_special : ℕ → Bool
is_special c = nat_eq c b'/' || nat_eq c b'?' || nat_eq c b'#'

-- A nil `out`
abbrev pub ignored : String → Result (Unit {0})
ignored body = ok tt

module _ {W : Type 0} (web : Web W) where
  open web use {send, envelope, quote}

  unfoldable pub validate_path_id : (name id : String) → Result (Unit {0})
  validate_path_id name id =
      if id == ""
      then err (text (name <> " is required"))
      else if any is_special (codes id)
      then err (text ("invalid " <> name <> " " <> quote id))
      else ok tt

  abbrev is_success_code : ℤ → Bool
  is_success_code (pos n) = nat_eq n 0 || nat_eq n 1000
  is_success_code _ = false

  abbrev unmarshal : {A : Type 0} → Result A → Result A
  unmarshal (ok a) = ok a
  unmarshal (err e) = err (wrap "decode body: " e "")

  -- The envelope's errors, if the body is one.
  unfoldable pub check_envelope : {A : Type 0} → Option Envelope → Result A → Result A
  check_envelope none out = out
  check_envelope (some env) out =
      if env.error == ""
      then (if is_success_code env.code
          then out
          else err (text ("proton api: unexpected code " <> itoa env.code)))
      else err (text ("proton api: " <> env.error <> " (code " <> itoa env.code <> ")"))

  unfoldable pub decode : {A : Type 0} → (String → Result A) → HttpResponse → Result A
  decode out resp =
      if leb 400 resp.status
      then err (http (record { status = resp.status; headers = resp.headers; body = resp.body }))
      else check_envelope (envelope resp.body) (unmarshal (out resp.body))

  -- `do`
  unfoldable pub do_request :
      {A : Type 0} → RawClient → String → (String → Result A) → HttpRequest → Exec W A
  do_request d label out request =
      context (label <> ": ") (do resp ← send d request; lift (decode out resp))

  abbrev pub request : Method → String → Body → HttpRequest
  request method path body = record { method = method; path = path; body = body }

  unfoldable pub list_custom_domains : RawClient → Exec W (List CustomDomain)
  list_custom_domains d =
      do_request d "list custom domains" web.domains (request http_get "/core/v4/domains" no_body)

  unfoldable pub get_custom_domain : RawClient → String → Exec W CustomDomain
  get_custom_domain d id = do
    _ ← lift (validate_path_id "id" id)
    do_request d ("get custom domain " <> id) web.domain
        (request http_get ("/core/v4/domains/" <> id) no_body)

  unfoldable pub add_custom_domain : RawClient → String → Exec W CustomDomain
  add_custom_domain d domain =
      do_request d ("add custom domain " <> domain) web.domain
        (request http_post "/core/v4/domains" (name_body domain))

  unfoldable pub verify_custom_domain : RawClient → String → Exec W CustomDomain
  verify_custom_domain d id = do
    _ ← lift (validate_path_id "id" id)
    do_request d ("verify custom domain " <> id) web.domain
        (request http_put ("/core/v4/domains/" <> id <> "/verify") no_body)

  unfoldable pub remove_custom_domain : RawClient → String → Exec W (Unit {0})
  remove_custom_domain d id = do
    _ ← lift (validate_path_id "id" id)
    do_request d ("remove custom domain " <> id) ignored
        (request http_delete ("/core/v4/domains/" <> id) no_body)

  unfoldable pub create_address : RawClient → CreateAddressRequest → Exec W CreatedAddress
  create_address d req =
      do_request d ("create address " <> req.local_part <> "@" <> req.domain_id) web.created_address
        (request http_post "/core/v4/addresses/setup" (address_body req))

  unfoldable pub list_domain_addresses : RawClient → String → Exec W (List DomainAddress)
  list_domain_addresses d domain_id = do
    _ ← lift (validate_path_id "domain_id" domain_id)
    do_request d ("list domain addresses " <> domain_id) web.domain_addresses
        (request http_get ("/core/v4/domains/" <> domain_id <> "/addresses") no_body)

  unfoldable pub update_catch_all : RawClient → String → Option String → Exec W (Unit {0})
  update_catch_all d domain_id address_id = do
    _ ← lift (validate_path_id "domain_id" domain_id)
    do_request d ("update catchall " <> domain_id) ignored (
        request http_put ("/core/v4/domains/" <> domain_id <> "/catchall")
          (catchall_body address_id))

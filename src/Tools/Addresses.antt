-- ===== src/Tools/Addresses.antt =====
-- internal/tools/addresses.go
use protonmail_mcp.Common.{String, Bool, Option, List, map, ◌&&◌, if◌then◌else◌}
use protonmail_mcp.Common.Strconv.{ℤ}
use protonmail_mcp.Proterr.Chain.{mapped}
use protonmail_mcp.Proterr.Mapping.{writes_disabled}
use protonmail_mcp.Exec.{Exec, pure, raise, ◌>>=◌}
use protonmail_mcp.Protonraw.{CreateAddressRequest, create_address}
use protonmail_mcp.Session.State.{Backend, State}
use protonmail_mcp.Tools.Api.{MailboxAddress}
use protonmail_mcp.Tools.Handler.{
  Deps, or_mapped, tool_client, with_raw, writes_enabled, dangerous_enabled,
}
use protonmail_mcp.Tools.Account.{when_given, no_mail_settings}

pub record AddressDto : Type 0 where
  pub id : String
  pub email : String
  pub display_name : String
  pub status : ℤ
  pub order : ℤ
  pub type : ℤ
  pub send : Bool
  pub receive : Bool
  pub key_ids : List String

pub record CreateAddressOut : Type 0 where
  pub id : String
  pub email : String

pub record UpdateAddressIn : Type 0 where
  pub id : String
  pub display_name : Option String
  pub signature : Option String

pub record SetAddressStatusIn : Type 0 where
  pub id : String
  pub enabled : Bool

unfoldable pub to_address_dto : MailboxAddress → AddressDto
to_address_dto a = record {
  id = a.id;
  email = a.email;
  display_name = a.display_name;
  status = a.status;
  order = a.order;
  type = a.type;
  send = a.send;
  receive = a.receive;
  key_ids = map (λ k. k.id) a.keys;
}

module _ {b : Backend} (d : Deps b) where
  open d use {api, web, getenv}

  unfoldable pub list_addresses : Unit {0} → Exec (State b) (List AddressDto)
  list_addresses _ = do
    c ← tool_client b
    found ← or_mapped b (api.get_addresses c)
    pure (map to_address_dto found)

  unfoldable pub get_address : (id : String) → Exec (State b) AddressDto
  get_address id = do
    c ← tool_client b
    found ← or_mapped b (api.get_address c id)
    pure (to_address_dto found)

  unfoldable pub create_address_tool : CreateAddressRequest → Exec (State b) CreateAddressOut
  create_address_tool input = do
    got ← or_mapped b (with_raw b (λ r. create_address web r input))
    pure (record { id = got.id; email = got.email })

  unfoldable pub update_address : UpdateAddressIn → Exec (State b) (Unit {0})
  update_address input = do
    c ← tool_client b
    _ ← when_given d input.display_name (api.set_display_name c) no_mail_settings
    _ ← when_given d input.signature (api.set_signature c) no_mail_settings
    pure tt

  unfoldable pub set_address_status : SetAddressStatusIn → Exec (State b) (Unit {0})
  set_address_status input = do
    c ← tool_client b
    or_mapped b
        (if input.enabled then api.enable_address c input.id else api.disable_address c input.id)

  -- `if !WritesEnabled() || !DangerousEnabled() { return proterr.WritesDisabled() }`
  abbrev pub guarded : {A : Type 0} → Exec (State b) A → Exec (State b) A
  guarded act =
      if writes_enabled getenv && dangerous_enabled getenv
      then act
      else raise (mapped writes_disabled)

  unfoldable pub delete_address : (id : String) → Exec (State b) (Unit {0})
  delete_address id = guarded (do c ← tool_client b; or_mapped b (api.delete_address c id))

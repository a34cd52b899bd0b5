-- ===== src/Tools/Domains.antt =====
-- internal/tools/domains.go
use protonmail_mcp.Common.{
  String, Bool, true, false, Option, none, some, List, [], ◌∷◌, map, any, ◌<>◌, ◌==◌, if◌then◌else◌,
}
use protonmail_mcp.Common.Strconv.{ℤ}
use protonmail_mcp.Proterr.Chain.{Error}
use protonmail_mcp.Proterr.Mapping.{hinted}
use protonmail_mcp.Exec.{Exec, pure, ◌>>=◌, ◌>>◌}
use protonmail_mcp.Protonraw.{
  CustomDomainRecord, CustomDomain, DomainAddress, list_custom_domains, get_custom_domain,
  add_custom_domain, verify_custom_domain, remove_custom_domain, list_domain_addresses,
  update_catch_all,
}
use protonmail_mcp.Session.State.{Backend, State, on_world}
use protonmail_mcp.Tools.Handler.{Deps, or_mapped, unless, required, raw_client, with_raw}
use protonmail_mcp.Tools.Addresses.{guarded}

pub record DnsRecordDto : Type 0 where
  pub type : String
  pub hostname : String
  pub value : String
  pub purpose : String

pub record DomainDto : Type 0 where
  pub id : String
  pub domain_name : String
  pub state : ℤ
  pub verify_state : ℤ
  pub mx_state : ℤ
  pub spf_state : ℤ
  pub dkim_state : ℤ
  pub dmarc_state : ℤ
  pub records : List DnsRecordDto

pub record GetCatchallOut : Type 0 where
  pub domain_id : String
  pub enabled : Bool
  pub destination_address_id : Option String
  pub destination_email : Option String

pub record SetCatchallIn : Type 0 where
  pub domain_id : String
  pub destination_address_id : String

abbrev record_dto : CustomDomainRecord → DnsRecordDto
record_dto r = record { type = r.type; hostname = r.name; value = r.value; purpose = r.purpose }

unfoldable pub to_domain_dto : CustomDomain → DomainDto
to_domain_dto c = record {
  id = c.id;
  domain_name = c.domain_name;
  state = c.state;
  verify_state = c.verify_state;
  mx_state = c.mx_state;
  spf_state = c.spf_state;
  dkim_state = c.dkim_state;
  dmarc_state = c.dmarc_state;
  records = map record_dto c.records;
}

-- The loop of `proton_get_catchall`: the first address that is the catch-all.
unfoldable pub catchall_out : String → List DomainAddress → GetCatchallOut
catchall_out domain_id [] = record {
  domain_id = domain_id;
  enabled = false;
  destination_address_id = none;
  destination_email = none;
}
catchall_out domain_id (a ∷ rest) =
    if a.catch_all
    then record {
      domain_id = domain_id;
      enabled = true;
      destination_address_id = some a.id;
      destination_email = some a.email;
    }
    else catchall_out domain_id rest

-- The loop of `proton_set_catchall`: whether an address is listed.
abbrev pub lists_address : String → List DomainAddress → Bool
lists_address id addrs = any (λ a. a.id == id) addrs

abbrev pub foreign_address : SetCatchallIn → Error
foreign_address input =
    hinted "proton/validation"
      ("address " <> input.destination_address_id <> " does not belong to domain "
        <> input.domain_id)
      "call proton_list_addresses or proton_list_custom_domains to find the right address ID"

module _ {b : Backend} (d : Deps b) where
  open d use {web}

  unfoldable pub list_domains : Unit {0} → Exec (State b) (List DomainDto)
  list_domains _ = do
    raws ← or_mapped b (with_raw b (list_custom_domains web))
    pure (map to_domain_dto raws)

  unfoldable pub get_domain : (id : String) → Exec (State b) DomainDto
  get_domain id = do
    found ← or_mapped b (with_raw b (λ r. get_custom_domain web r id))
    pure (to_domain_dto found)

  unfoldable pub get_catchall : (domain_id : String) → Exec (State b) GetCatchallOut
  get_catchall domain_id = do
    unless b (required "domain_id" domain_id)
    addrs ← or_mapped b (with_raw b (λ r. list_domain_addresses web r domain_id))
    pure (catchall_out domain_id addrs)

  unfoldable pub add_domain : (domain_name : String) → Exec (State b) DomainDto
  add_domain domain_name = do
    found ← or_mapped b (with_raw b (λ r. add_custom_domain web r domain_name))
    pure (to_domain_dto found)

  unfoldable pub verify_domain : (id : String) → Exec (State b) DomainDto
  verify_domain id = do
    found ← or_mapped b (with_raw b (λ r. verify_custom_domain web r id))
    pure (to_domain_dto found)

  unfoldable pub remove_domain : (id : String) → Exec (State b) (Unit {0})
  remove_domain id = guarded d (or_mapped b (with_raw b (λ r. remove_custom_domain web r id)))

  unfoldable pub set_catchall : SetCatchallIn → Exec (State b) (Unit {0})
  set_catchall input = do
    unless b (required "domain_id" input.domain_id)
    unless b (required "destination_address_id" input.destination_address_id)
    r ← raw_client b
    addrs ← or_mapped b (on_world b (list_domain_addresses web r input.domain_id))
    unless b (
        if lists_address input.destination_address_id addrs
        then none
        else some (foreign_address input))
    or_mapped b
        (on_world b (update_catch_all web r input.domain_id (some input.destination_address_id)))

  unfoldable pub disable_catchall : (domain_id : String) → Exec (State b) (Unit {0})
  disable_catchall domain_id = do
    unless b (required "domain_id" domain_id)
    or_mapped b (with_raw b (λ r. update_catch_all web r domain_id none))

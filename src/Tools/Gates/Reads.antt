-- ===== src/Tools/Gates/Reads.antt =====
-- Each tool that reads keeps what the reads keep.
use protonmail_mcp.Common.{String, Bool, true, false, List, [], ◌∷◌}
use protonmail_mcp.Proterr.Chain.{Result, ok, err}
use protonmail_mcp.Exec.Rules.{Preserves, Preserves-bind, Preserves-attempt, Preserves-pure}
use protonmail_mcp.Session.State.{Backend, State}
use protonmail_mcp.Session.Access.{client, unlocked_keyrings}
use protonmail_mcp.Session.Status.{Status, status}
use protonmail_mcp.Protonraw.{list_custom_domains, get_custom_domain, list_domain_addresses}
use protonmail_mcp.Calendar.Recurrence.{Time}
use protonmail_mcp.Tools.Api.{Message, User}
use protonmail_mcp.Tools.Handler.{Deps, tool_client, raw_client}
use protonmail_mcp.Tools.Account.{
  whoami, session_status, got_user, got_client, list_labels, list_address_keys, get_mail_settings,
  get_core_settings,
}
use protonmail_mcp.Tools.Addresses.{list_addresses, get_address}
use protonmail_mcp.Tools.Domains.{list_domains, get_domain, get_catchall}
use protonmail_mcp.Tools.Messages.{
  SearchMessagesIn, GetMessageIn, search_messages, get_message, message_body,
}
use protonmail_mcp.Tools.Events.{
  ListEventsIn, GetEventIn, Listing, list_calendars, list_events, get_event, target_calendars,
  list_all,
}
use protonmail_mcp.Tools.Gates.Laws.{ReadLaws, handling, Preserves-tool_client}

module _ {b : Backend} {d : Deps b} {P : State b → Type 0} (r : ReadLaws d P) where
  pub tool_client-keeps : Preserves P (tool_client b)
  tool_client-keeps = Preserves-tool_client r.on_client

  pub raw_client-keeps : Preserves P (raw_client b)
  raw_client-keeps = r.on_raw

  pub keyrings-keeps : Preserves P (unlocked_keyrings b)
  keyrings-keeps = r.on_keyrings

  pub list_labels-keeps : Preserves P (list_labels d tt)
  unfolding list_labels
  list_labels-keeps = search (handling, tool_client-keeps, r.on_labels) depth 9

  pub list_address_keys-keeps : (id : String) → Preserves P (list_address_keys d id)
  unfolding list_address_keys
  list_address_keys-keeps id = search (handling, tool_client-keeps, r.on_address) depth 9

  pub get_domain-keeps : (id : String) → Preserves P (get_domain d id)
  unfolding get_domain get_custom_domain
  get_domain-keeps id = search (handling, raw_client-keeps, r.on_get) depth 12

  pub get_catchall-keeps : (id : String) → Preserves P (get_catchall d id)
  unfolding get_catchall list_domain_addresses
  get_catchall-keeps id = search (handling, raw_client-keeps, r.on_get) depth 12

  pub list_domains-keeps : Preserves P (list_domains d tt)
  unfolding list_domains list_custom_domains
  list_domains-keeps = search (handling, raw_client-keeps, r.on_get) depth 12

  pub whoami-keeps : Preserves P (whoami d tt)
  unfolding whoami
  whoami-keeps = search (handling, tool_client-keeps, r.on_user) depth 9

  pub get_event-keeps : (input : GetEventIn) → Preserves P (get_event d input)
  unfolding get_event
  get_event-keeps input = search (handling, tool_client-keeps, r.on_calendar, r.on_event) depth 12

  got_user-keeps : (s : Status) (u : Result User) → Preserves P (got_user d s u)
  got_user-keeps s (ok u) = Preserves-pure _
  got_user-keeps s (err e) = Preserves-pure _

  got_client-keeps : (s : Status) (c : Result b.Client) → Preserves P (got_client d s c)
  got_client-keeps s (ok c) = search (handling, r.on_user, got_user-keeps)
  got_client-keeps s (err e) = Preserves-pure _

  client_asked-keeps : Preserves P (client b)
  client_asked-keeps = r.on_client

  pub session_status-keeps : Preserves P (session_status d tt)
  unfolding session_status
  session_status-keeps =
      Preserves-bind _ (λ c st. got_client d (status b st) c st)
        (Preserves-attempt _ client_asked-keeps)
        λ c. record { at = λ st h. (got_client-keeps (status b st) c).at st h }

  pub get_mail_settings-keeps : Preserves P (get_mail_settings d tt)
  unfolding get_mail_settings
  get_mail_settings-keeps = search (handling, tool_client-keeps, r.on_mail_settings) depth 9

  pub get_core_settings-keeps : Preserves P (get_core_settings d tt)
  unfolding get_core_settings
  get_core_settings-keeps = search (handling, tool_client-keeps, r.on_user_settings) depth 9

  pub list_addresses-keeps : Preserves P (list_addresses d tt)
  unfolding list_addresses
  list_addresses-keeps = search (handling, tool_client-keeps, r.on_addresses) depth 9

  pub get_address-keeps : (id : String) → Preserves P (get_address d id)
  unfolding get_address
  get_address-keeps id = search (handling, tool_client-keeps, r.on_address) depth 9

  pub search_messages-keeps : (input : SearchMessagesIn) → Preserves P (search_messages d input)
  unfolding search_messages
  search_messages-keeps input = search (handling, tool_client-keeps, r.on_page) depth 9

  message_body-keeps : (asked : Bool) (m : Message) → Preserves P (message_body d asked m)
  unfolding message_body
  message_body-keeps false m = Preserves-pure _
  message_body-keeps true m = search (handling, keyrings-keeps) depth 9

  pub get_message-keeps : (input : GetMessageIn) → Preserves P (get_message d input)
  unfolding get_message
  get_message-keeps input =
      search (handling, tool_client-keeps, r.on_message, message_body-keeps) depth 12

  pub list_calendars-keeps : Preserves P (list_calendars d tt)
  unfolding list_calendars
  list_calendars-keeps = search (handling, tool_client-keeps, r.on_calendars) depth 9

  target_calendars-keeps : (c : b.Client) (id : String) → Preserves P (target_calendars d c id)
  unfolding target_calendars
  target_calendars-keeps c id = search (handling, r.on_calendars) depth 9

  list_all-keeps :
      (c : b.Client) (start end : Time) (ids : List String) (l : Listing)
      → Preserves P (list_all d c start end ids l)
  unfolding list_all
  list_all-keeps c start end [] l = Preserves-pure l
  list_all-keeps c start end (id ∷ ids) l =
      let later = list_all-keeps c start end ids in
      search (handling, r.on_calendar, r.on_events, later) depth 12

  pub list_events-keeps : (input : ListEventsIn) → Preserves P (list_events d input)
  unfolding list_events
  list_events-keeps input =
      search (handling, tool_client-keeps, target_calendars-keeps, list_all-keeps) depth 12

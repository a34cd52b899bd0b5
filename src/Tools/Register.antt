-- ===== src/Tools/Register.antt =====
-- `Register` of internal/tools/tools.go, and the registration functions that it calls: which tools
-- the server has, in their order.
use protonmail_mcp.Common.{true, false, none, some, List, [], ◌∷◌, ◌++◌, if◌then◌else◌}
use protonmail_mcp.Session.State.{Backend}
use protonmail_mcp.Tools.Handler.{Deps, Tool, tool, writes_enabled, dangerous_enabled}
use protonmail_mcp.Tools.Account.{
  whoami, session_status, list_labels, list_address_keys, get_mail_settings, get_core_settings,
  update_mail_settings, update_core_settings,
}
use protonmail_mcp.Tools.Addresses.{
  list_addresses, get_address, create_address_tool, update_address, set_address_status,
  delete_address,
}
use protonmail_mcp.Tools.Domains.{
  list_domains, get_domain, get_catchall, add_domain, verify_domain, remove_domain, set_catchall,
  disable_catchall,
}
use protonmail_mcp.Tools.Messages.{
  search_messages, get_message, label_messages, mark_messages, delete_messages,
}
use protonmail_mcp.Tools.Drafts.{create_draft, update_draft}
use protonmail_mcp.Tools.Events.{list_calendars, list_events, get_event}

module _ {b : Backend} (d : Deps b) where
  -- What follows `if !WritesEnabled() { return }`, and what stands under `if DangerousEnabled()`.
  abbrev pub if_writes : List (Tool b) → List (Tool b)
  if_writes tools = if writes_enabled d.getenv then tools else []

  abbrev pub if_dangerous : List (Tool b) → List (Tool b)
  if_dangerous tools = if dangerous_enabled d.getenv then tools else []

  unfoldable pub register_identity : List (Tool b)
  register_identity =
      tool "proton_whoami" false none (whoami d)
      ∷ tool "proton_session_status" false none (session_status d)
      ∷ []

  unfoldable pub register_addresses : List (Tool b)
  register_addresses =
      tool "proton_list_addresses" false none (list_addresses d)
      ∷ tool "proton_get_address" false none (get_address d)
      ∷ if_writes (
          tool "proton_create_address" false none (create_address_tool d)
          ∷ tool "proton_update_address" false none (update_address d)
          ∷ tool "proton_set_address_status" false none (set_address_status d)
          ∷ if_dangerous (tool "proton_delete_address" false (some true) (delete_address d) ∷ []))

  unfoldable pub register_domains : List (Tool b)
  register_domains =
      tool "proton_list_custom_domains" false none (list_domains d)
      ∷ tool "proton_get_custom_domain" false none (get_domain d)
      ∷ tool "proton_get_catchall" false none (get_catchall d)
      ∷ if_writes (
          tool "proton_add_custom_domain" false none (add_domain d)
            ∷ tool "proton_verify_custom_domain" false none (verify_domain d)
            ∷ if_dangerous
                (tool "proton_remove_custom_domain" false (some true) (remove_domain d) ∷ [])
          ++ tool "proton_set_catchall" false none (set_catchall d)
            ∷ tool "proton_disable_catchall" false none (disable_catchall d)
            ∷ [])

  unfoldable pub register_settings : List (Tool b)
  register_settings =
      tool "proton_get_mail_settings" false none (get_mail_settings d)
      ∷ tool "proton_get_core_settings" false none (get_core_settings d)
      ∷ if_writes (
          tool "proton_update_mail_settings" false none (update_mail_settings d)
          ∷ tool "proton_update_core_settings" false none (update_core_settings d)
          ∷ [])

  unfoldable pub register_keys : List (Tool b)
  register_keys = tool "proton_list_address_keys" false none (list_address_keys d) ∷ []

  unfoldable pub register_messages : List (Tool b)
  register_messages =
      tool "proton_search_messages" false none (search_messages d)
      ∷ tool "proton_get_message" false none (get_message d)
      ∷ []

  unfoldable pub register_labels : List (Tool b)
  register_labels = tool "proton_list_labels" true none (list_labels d) ∷ []

  unfoldable pub register_drafts : List (Tool b)
  register_drafts = if_writes (
      tool "proton_create_draft" false none (create_draft d)
      ∷ tool "proton_update_draft" false none (update_draft d)
      ∷ [])

  unfoldable pub register_organize : List (Tool b)
  register_organize = if_writes (
      tool "proton_label_messages" false none (label_messages d)
      ∷ tool "proton_mark_messages" false none (mark_messages d)
      ∷ if_dangerous (tool "proton_delete_messages" false (some true) (delete_messages d) ∷ []))

  unfoldable pub register_calendar : List (Tool b)
  register_calendar =
      tool "proton_list_calendars" true none (list_calendars d)
      ∷ tool "proton_list_events" true none (list_events d)
      ∷ tool "proton_get_event" true none (get_event d)
      ∷ []

  unfoldable pub register : List (Tool b)
  unfolding register_identity register_addresses register_domains register_settings register_keys
      register_messages register_labels register_drafts register_organize register_calendar
  register =
      register_identity ++ register_addresses ++ register_domains ++ register_settings
      ++ register_keys ++ register_messages ++ register_labels ++ register_drafts
      ++ register_organize ++ register_calendar

-- ===== src/Tests/Tools.antt =====
-- The tools' theorems, applied to the mailbox of Tests/Mailbox.
use protonmail_mcp.Common.{
  ℕ, ◌≤◌, String, true, false, none, some, List, [], ◌∷◌, ◌≡◌, refl, ◌⊎◌, ◌==◌, ◌&&◌, map,
  get_elem?, length, lookup, arith, if◌then◌else◌,
}
use protonmail_mcp.Common.Strconv.{pos, negsuc}
use protonmail_mcp.Proterr.Chain.{ok}
use protonmail_mcp.Exec.Rules.{Preserves}
use protonmail_mcp.Session.State.{set_auth}
use protonmail_mcp.Session.Access.{client, calendar_keyring}
use protonmail_mcp.Session.Coherence.{IsCoherent}
use protonmail_mcp.Session.Coherence.Access.{client-keeps}
use protonmail_mcp.Calendar.Decrypt.{
  decrypt_shared_ics, decrypt_parts, parse_ics, ensure_vcalendar, mailto,
}
use protonmail_mcp.Common.Ints.{int_ltb}
use protonmail_mcp.Calendar.Recurrence.{expand}
use protonmail_mcp.Calendar.Recurrence.Reference.{map_result, window, event_times, expand-reference}
use protonmail_mcp.Tools.Api.{MailboxAddress}
use protonmail_mcp.Tools.Handler.{
  required, tool_client, Tool, tool, call_tool, writes_enabled, dangerous_enabled,
}
use protonmail_mcp.Tools.Account.{whoami}
use protonmail_mcp.Tools.Messages.{
  LabelMessagesIn, SearchMessagesIn, filter_sensitive_headers, label_messages, search_messages,
}
use protonmail_mcp.Tools.Drafts.{CreateDraftIn, best_sender}
use protonmail_mcp.Tools.Events.{
  ListEventsIn, ListEventsOut, list_events, parse_window, target_calendars, list_all, list_calendar,
  listed, occurrences_for, unix, time_sub, to_attendee_dtos, calendar_window_filter,
}
use protonmail_mcp.Tools.Register.{
  register, register_identity, register_addresses, register_domains, register_settings,
  register_keys, register_messages, register_labels, register_drafts, register_organize,
  register_calendar,
}
use protonmail_mcp.Tools.Gates.{register-reads, register-reversible}
use protonmail_mcp.Tools.Names.{distinct, destructive, register-names}
use protonmail_mcp.Tools.Headers.{lookup-filter_sensitive_headers}
use protonmail_mcp.Tools.Sender.{IsLeast, IsSilent, may_send, best_sender-IsLeast}
use protonmail_mcp.Tools.Validation.{is_valid, IsRefused, IsAccepted, draft-Validated}
use protonmail_mcp.Tools.Listing.{list_events-IsCapped}
use protonmail_mcp.Tools.Paging.{search_messages-bounds}
use protonmail_mcp.Tests.Model.{model}
use protonmail_mcp.Tests.Mailbox.{
  address, mailbox, three_times, signed_in, mailbox_reads, mailbox_writes,
}

abbrev closed : String → String
closed name = ""

abbrev writing : String → String
writing name = if name == "PROTONMAIL_MCP_ENABLE_WRITES" then "1" else ""

coherent : IsCoherent signed_in
unfolding set_auth
coherent = record { carried = refl }

abbrev whoami_tool : Tool model
whoami_tool = tool "proton_whoami" false none (whoami (mailbox closed))

closed_writes : writes_enabled closed ≡ false
unfolding writes_enabled
closed_writes = refl

whoami_listed : get_elem? (register (mailbox closed)) 0 ≡ some whoami_tool
unfolding register register_identity
whoami_listed = refl

register-reads_example : IsCoherent (call_tool whoami_tool tt signed_in).1
register-reads_example =
    register-reads (mailbox closed) IsCoherent whoami_tool 0 tt signed_in (mailbox_reads closed)
      closed_writes whoami_listed coherent

abbrev label_tool : Tool model
label_tool = tool "proton_label_messages" false none (label_messages (mailbox writing))

abbrev to_trash : LabelMessagesIn
to_trash = record { message_ids = "m" ∷ []; label_id = "3"; action = "add" }

writing_dangerous : dangerous_enabled writing ≡ false
unfolding dangerous_enabled
writing_dangerous = refl

label_listed : get_elem? (register (mailbox writing)) 24 ≡ some label_tool
unfolding writes_enabled dangerous_enabled register register_identity register_addresses
    register_domains register_settings register_keys register_messages register_labels
    register_drafts register_organize register_calendar
label_listed = refl

register-reversible_example : IsCoherent (call_tool label_tool to_trash signed_in).1
register-reversible_example =
    register-reversible (mailbox writing) IsCoherent label_tool 24 to_trash signed_in
      (mailbox_reads writing) (mailbox_writes writing) writing_dangerous label_listed coherent

register-names_example :
    (distinct (map (λ t. t.name) (register (mailbox writing))) ≡ true)
    × (destructive (register (mailbox writing)) ≡ (
        if writes_enabled writing && dangerous_enabled writing
        then "proton_delete_address" ∷ "proton_remove_custom_domain" ∷ "proton_delete_messages" ∷ []
        else []))
register-names_example = register-names (mailbox writing)

best_sender-IsLeast_example :
    ((best_sender (mailbox writing) none (address "a" (pos 2) ∷ address "b" (negsuc 0) ∷ []) ≡ none)
      × IsSilent (mailbox writing) (address "a" (pos 2) ∷ address "b" (negsuc 0) ∷ []))
    ⊎ ((z : MailboxAddress) × (best_sender
            (mailbox writing)
            none
            (address "a" (pos 2) ∷ address "b" (negsuc 0) ∷ [])
          ≡ some z)
        × ((i : ℕ) × (get_elem? (address "a" (pos 2) ∷ address "b" (negsuc 0) ∷ []) i ≡ some z)
            × (may_send (mailbox writing) z ≡ true))
        × IsLeast (mailbox writing) z (address "a" (pos 2) ∷ address "b" (negsuc 0) ∷ []))
best_sender-IsLeast_example =
    best_sender-IsLeast (mailbox writing) (address "a" (pos 2) ∷ address "b" (negsuc 0) ∷ [])

abbrev some_headers : List (String × List String)
some_headers = ("subject", "s" ∷ []) ∷ ("bcc", "hidden" ∷ []) ∷ []

lookup-filter_sensitive_headers_example :
    lookup "bcc" (filter_sensitive_headers (λ s. s) some_headers) ≡ none
lookup-filter_sensitive_headers_example =
    lookup-filter_sensitive_headers (λ s. s) "bcc" some_headers

expand-reference_example :
    expand three_times "FREQ=DAILY" (pos 1) (pos 2) (pos 4) 1
    ≡ map_result (window (pos 2) (pos 4) 1) (event_times three_times "FREQ=DAILY" (pos 1))
expand-reference_example =
    expand-reference three_times "FREQ=DAILY" (pos 1) (pos 2) (pos 4) 1 (omega arith)

abbrev to_nobody : CreateDraftIn
to_nobody = record {
  from_address_id = "";
  fields = record { to = "" ∷ []; cc = []; bcc = []; subject = ""; body = ""; mime_type = "" };
}

draft-Validated_example :
    ((is_valid (mailbox writing) to_nobody.fields ≡ false)
      × IsRefused (mailbox writing) to_nobody signed_in)
    ⊎ ((is_valid (mailbox writing) to_nobody.fields ≡ true)
        × IsAccepted (mailbox writing) to_nobody signed_in)
draft-Validated_example = draft-Validated (mailbox writing) to_nobody signed_in

abbrev one_calendar : ListEventsIn
one_calendar = record { start = "from"; end = "to"; calendar_id = "cal" }

abbrev one_event : ListEventsOut
one_event = record {
  events =
      record {
        calendar_id = "cal";
        event_id = "e";
        uid = "u";
        summary = "SUMMARY";
        location = "LOCATION";
        start = "t";
        end = "t";
        all_day = false;
        recurring = false;
        attendees = [];
      }
      ∷ [];
  truncated = false;
  skipped = 0;
}

one_listed : (list_events (mailbox closed) one_calendar signed_in).0 ≡ ok one_event
unfolding list_events parse_window required tool_client client target_calendars list_all
    calendar_keyring lookup list_calendar listed occurrences_for decrypt_shared_ics decrypt_parts
    parse_ics ensure_vcalendar expand unix time_sub int_ltb to_attendee_dtos mailto
    calendar_window_filter
one_listed = refl

list_events-IsCapped_example :
    (length one_event.events ≤ 500) × (500 ≤ length one_event.events → one_event.truncated ≡ true)
list_events-IsCapped_example =
    list_events-IsCapped (mailbox closed) one_calendar signed_in one_event (λ xs. refl) one_listed

abbrev far_page : SearchMessagesIn
far_page = record { query = ""; label_id = ""; address_id = ""; limit = pos 9000; page = negsuc 3 }

search_messages-bounds_example :
    Preserves (IsCoherent {b = model}) (search_messages (mailbox closed) far_page)
search_messages-bounds_example =
    search_messages-bounds (mailbox closed) IsCoherent far_page
      (record { at = λ c page size f low high. record { at = λ st h. h } }) (client-keeps model)

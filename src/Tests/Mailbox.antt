-- ===== src/Tests/Mailbox.antt =====
-- A mailbox to call the tools on: its reads leave the session alone, and a deletion breaks the raw
-- client, so that it would be noticed.
use protonmail_mcp.Common.{String, true, false, none, some, [], ◌∷◌, ◌==◌, ◌^◌, if◌then◌else◌}
use protonmail_mcp.Common.Strconv.{ℤ, pos}
use protonmail_mcp.Proterr.Chain.{text, ok, err}
use protonmail_mcp.Exec.{Exec}
use protonmail_mcp.Exec.Rules.{Preserves}
use protonmail_mcp.Protonraw.{Web, HttpResponse}
use protonmail_mcp.Calendar.Decrypt.{PartCrypto, IcalProps, CalendarEvent}
use protonmail_mcp.Calendar.Recurrence.{Rules}
use protonmail_mcp.Session.State.{State, set_auth}
use protonmail_mcp.Session.Coherence.{IsCoherent}
use protonmail_mcp.Session.Coherence.Access.{
  client-keeps, raw-keeps, keyrings-keeps, calendar-keeps,
}
use protonmail_mcp.Tools.Api.{Api, MailboxAddress, MessageMetadata, Message}
use protonmail_mcp.Tools.Handler.{Deps, raw_client}
use protonmail_mcp.Tools.Account.{no_mail_settings, no_user_settings}
use protonmail_mcp.Tools.Gates.Laws.{ReadLaws, WriteLaws}
use protonmail_mcp.Tests.Model.{model, restarted}

abbrev still : {A : Type 0} → A → Exec (State model) A
still a st = (ok a, st)

abbrev broken : Exec (State model) (Unit {0})
broken st = (ok tt, record st { raw = set_auth "" "gone" })

abbrev pub address : String → ℤ → MailboxAddress
address id order = record {
  id = id;
  email = id;
  display_name = "";
  status = pos 1;
  order = order;
  type = pos 1;
  send = true;
  receive = true;
  keys = [];
}

abbrev metadata : MessageMetadata
metadata = record {
  id = "m";
  subject = "s";
  sender = none;
  to_list = [];
  cc_list = [];
  time = pos 0;
  unread = true;
  num_attachments = pos 0;
  address_id = "a";
  label_ids = [];
}

abbrev message : Message
message = record { metadata = metadata; header = ""; parsed_headers = []; body = "" }

abbrev event : CalendarEvent
event = record {
  id = "e";
  uid = "u";
  calendar_id = "cal";
  start_time = pos 60;
  end_time = pos 120;
  full_day = false;
  shared_key_packet = "";
  shared_events = [];
}

abbrev mailbox_api : Api model
mailbox_api = record {
  address_status_enabled = pos 1;
  label_type_label = pos 1;
  label_type_folder = pos 3;
  label_type_system = pos 4;
  setting_disabled = pos 0;
  setting_enabled = pos 1;
  get_user =
      λ c. still (record { email = "u"; display_name = ""; used_space = pos 0; max_space = pos 0 });
  get_addresses = λ c. still (address "a" (pos 2) ∷ address "b" (pos 1) ∷ []);
  get_address = λ c id. still (address id (pos 1));
  enable_address = λ c id. still tt;
  disable_address = λ c id. still tt;
  delete_address = λ c id. broken;
  get_mail_settings = λ c. still no_mail_settings;
  set_display_name = λ c s. still no_mail_settings;
  set_signature = λ c s. still no_mail_settings;
  get_user_settings = λ c. still no_user_settings;
  set_telemetry = λ c v. still no_user_settings;
  set_crash_reports = λ c v. still no_user_settings;
  get_labels = λ c types. still [];
  get_message_page = λ c page size f. still (metadata ∷ []);
  get_message = λ c id. still message;
  label_messages = λ c ids l. still tt;
  unlabel_messages = λ c ids l. still tt;
  mark_messages_read = λ c ids. still tt;
  mark_messages_unread = λ c ids. still tt;
  delete_message = λ c ids. broken;
  create_draft = λ c kr t. still message;
  update_draft = λ c id kr t. still message;
  get_calendars = λ c. still [];
  get_all_calendar_events = λ c id f. still (event ∷ []);
  get_calendar_event = λ c id e. still event;
}

-- A server that knows no path.
abbrev pub not_found : HttpResponse
not_found = record { status = 404; headers = []; body = "" }

abbrev pub no_web : {W : Type 0} → Web W
no_web = record {
  send = λ r req w. (ok not_found, w);
  envelope = λ s. none;
  domains = λ s. ok [];
  domain = λ s. err (text "no domain");
  created_address = λ s. err (text "no address");
  domain_addresses = λ s. ok [];
  quote = λ s. s;
}

abbrev model_crypto : PartCrypto String
model_crypto = record {
  PgpMessage = String;
  decode_base64 = λ s. ok [];
  split_message = λ k p. "";
  message_from_armored = λ s. ok s;
  decrypt_message = λ kr m. ok m;
}

abbrev bare_props : IcalProps
bare_props = record { text_of = λ n. ok n; raw_of = λ n. none; attendees = [] }

-- Rules whose occurrences are at 1, 2 and 5.
abbrev pub three_times : Rules
three_times = record {
  Options = String;
  parse_rule = λ s. ok s;
  occurrences = λ o start. ok (pos 1 ∷ pos 2 ∷ pos 5 ∷ []);
}

-- The mailbox under an environment.
abbrev pub mailbox : (String → String) → Deps model
mailbox getenv = record {
  api = mailbox_api;
  web = no_web;
  getenv = getenv;
  quote_bytes = λ s. "";
  parse_address = λ s. if s == "" then none else some (record { name = ""; address = s });
  to_lower = λ s. s;
  new_key = λ s. none;
  part_crypto = model_crypto;
  decode_ical = λ s. ok (bare_props ∷ []);
  rules = three_times;
  parse_time = λ s. some (pos (if s == "from" then 0 else 10 ^ 12));
  format_time = λ t. "t";
  sort_by = λ less xs. xs;
}

-- A signed-in session that has the keyring of a calendar.
abbrev pub signed_in : State model
signed_in = record restarted { client = some 7; cal_keyrings = ("cal", "kr") ∷ [] }

module _ (getenv : String → String) where
  raw_client-keeps : Preserves (IsCoherent {b = model}) (raw_client model)
  unfolding raw_client
  raw_client-keeps = record { at = λ st h. raw-keeps model st h }

  kept : {A : Type 0} (a : A) → Preserves (IsCoherent {b = model}) (still a)
  kept a = record { at = λ st h. h }

  pub mailbox_reads : ReadLaws (mailbox getenv) IsCoherent
  mailbox_reads = record {
    on_client = client-keeps model;
    on_raw = raw_client-keeps;
    on_keyrings = keyrings-keeps model;
    on_calendar = λ id. calendar-keeps model id;
    on_get = λ r path body st. record { at = λ w h. h };
    on_user = λ c. record { at = λ st h. h };
    on_addresses = λ c. record { at = λ st h. h };
    on_address = λ c id. record { at = λ st h. h };
    on_mail_settings = λ c. record { at = λ st h. h };
    on_user_settings = λ c. record { at = λ st h. h };
    on_labels = λ c types. record { at = λ st h. h };
    on_page = λ c page size f. record { at = λ st h. h };
    on_message = λ c id. record { at = λ st h. h };
    on_calendars = λ c. record { at = λ st h. h };
    on_events = λ c id f. record { at = λ st h. h };
    on_event = λ c id e. record { at = λ st h. h };
  }

  pub mailbox_writes : WriteLaws (mailbox getenv) IsCoherent
  mailbox_writes = record {
    on_post = λ r path body st. record { at = λ w h. h };
    on_put = λ r path body st. record { at = λ w h. h };
    on_enable = λ c id. record { at = λ st h. h };
    on_disable = λ c id. record { at = λ st h. h };
    on_display_name = λ c s. record { at = λ st h. h };
    on_signature = λ c s. record { at = λ st h. h };
    on_telemetry = λ c v. record { at = λ st h. h };
    on_crash_reports = λ c v. record { at = λ st h. h };
    on_label = λ c ids l. record { at = λ st h. h };
    on_unlabel = λ c ids l. record { at = λ st h. h };
    on_mark = λ c ids. record { at = λ st h. h };
    on_unmark = λ c ids. record { at = λ st h. h };
    on_create_draft = λ c kr t. record { at = λ st h. h };
    on_update_draft = λ c id kr t. record { at = λ st h. h };
  }

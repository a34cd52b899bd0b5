-- ===== src/Tools/Api.antt =====
-- What the tools of internal/tools use of go-proton-api: its values as far as they are read, and the
-- calls of a client. A call may run the client's auth handler, so it acts on the session's state.
use protonmail_mcp.Common.{String, Bool, Option, List}
use protonmail_mcp.Common.Strconv.{ℤ}
use protonmail_mcp.Exec.{Exec}
use protonmail_mcp.Calendar.Decrypt.{CalendarEvent}
use protonmail_mcp.Session.State.{Backend, State}

pub record User : Type 0 where
  pub email : String
  pub display_name : String
  pub used_space : ℤ
  pub max_space : ℤ

pub record AddressKey : Type 0 where
  pub id : String
  pub private_key : String
  pub primary : Bool
  pub active : Bool
  pub flags : ℤ

pub record MailboxAddress : Type 0 where
  pub id : String
  pub email : String
  pub display_name : String
  pub status : ℤ
  pub order : ℤ
  pub type : ℤ
  pub send : Bool
  pub receive : Bool
  pub keys : List AddressKey

pub record MailSettings : Type 0 where
  pub display_name : String
  pub signature : String
  pub draft_mime_type : String
  pub attach_public_key : Bool
  pub sign : ℤ
  pub pgp_scheme : ℤ

pub record UserSettings : Type 0 where
  pub telemetry : ℤ
  pub crash_reports : ℤ

pub record Label : Type 0 where
  pub id : String
  pub name : String
  pub type : ℤ
  pub color : String
  pub path : List String

-- `mail.Address` of net/mail
pub record MailAddress : Type 0 where
  pub name : String
  pub address : String

-- An address is a pointer, which may be nil.
pub record MessageMetadata : Type 0 where
  pub id : String
  pub subject : String
  pub sender : Option MailAddress
  pub to_list : List (Option MailAddress)
  pub cc_list : List (Option MailAddress)
  pub time : ℤ
  pub unread : Bool
  pub num_attachments : ℤ
  pub address_id : String
  pub label_ids : List String

-- The header map as a list of its entries.
pub record Message : Type 0 where
  pub metadata : MessageMetadata
  pub header : String
  pub parsed_headers : List (String × List String)
  pub body : String

pub record MessageFilter : Type 0 where
  pub subject : String
  pub label_id : String
  pub address_id : String
  pub desc : Bool

pub record DraftTemplate : Type 0 where
  pub subject : String
  pub sender : Option MailAddress
  pub to_list : List MailAddress
  pub cc_list : List MailAddress
  pub bcc_list : List MailAddress
  pub body : String
  pub mime_type : String

-- `active` and `lost_access` are the two flag bits, `subscribed` is whether the type is that.
pub record CalendarInfo : Type 0 where
  pub id : String
  pub name : String
  pub description : String
  pub color : String
  pub subscribed : Bool
  pub active : Bool
  pub lost_access : Bool

-- The methods of `proton.Client`, and the constants of the package.
pub record Api (b : Backend) : Type 0 where
  pub address_status_enabled : ℤ
  pub label_type_label : ℤ
  pub label_type_folder : ℤ
  pub label_type_system : ℤ
  pub setting_disabled : ℤ
  pub setting_enabled : ℤ
  pub get_user : b.Client → Exec (State b) User
  pub get_addresses : b.Client → Exec (State b) (List MailboxAddress)
  pub get_address : b.Client → String → Exec (State b) MailboxAddress
  pub enable_address : b.Client → String → Exec (State b) (Unit {0})
  pub disable_address : b.Client → String → Exec (State b) (Unit {0})
  pub delete_address : b.Client → String → Exec (State b) (Unit {0})
  pub get_mail_settings : b.Client → Exec (State b) MailSettings
  pub set_display_name : b.Client → String → Exec (State b) MailSettings
  pub set_signature : b.Client → String → Exec (State b) MailSettings
  pub get_user_settings : b.Client → Exec (State b) UserSettings
  pub set_telemetry : b.Client → ℤ → Exec (State b) UserSettings
  pub set_crash_reports : b.Client → ℤ → Exec (State b) UserSettings
  pub get_labels : b.Client → List ℤ → Exec (State b) (List Label)
  pub get_message_page :
      b.Client → (page size : ℤ) → MessageFilter → Exec (State b) (List MessageMetadata)
  pub get_message : b.Client → String → Exec (State b) Message
  pub label_messages : b.Client → List String → String → Exec (State b) (Unit {0})
  pub unlabel_messages : b.Client → List String → String → Exec (State b) (Unit {0})
  pub mark_messages_read : b.Client → List String → Exec (State b) (Unit {0})
  pub mark_messages_unread : b.Client → List String → Exec (State b) (Unit {0})
  pub delete_message : b.Client → List String → Exec (State b) (Unit {0})
  pub create_draft : b.Client → b.KeyRing → DraftTemplate → Exec (State b) Message
  pub update_draft : b.Client → String → b.KeyRing → DraftTemplate → Exec (State b) Message
  pub get_calendars : b.Client → Exec (State b) (List CalendarInfo)
  pub get_all_calendar_events :
      b.Client → String → List (String × String) → Exec (State b) (List CalendarEvent)
  pub get_calendar_event : b.Client → String → String → Exec (State b) CalendarEvent

-- ===== src/Tools/Messages.antt =====
-- internal/tools/messages.go and internal/tools/organize.go
use protonmail_mcp.Common.{
  ℕ, String, Bool, true, false, Option, none, some, List, [], ◌∷◌, map, any, ◌<>◌, ◌==◌, ◌&&◌, not,
  nonempty, if◌then◌else◌,
}
use protonmail_mcp.Common.Strconv.{ℤ, pos}
use protonmail_mcp.Common.Ints.{int_ltb}
use protonmail_mcp.Proterr.Chain.{Error}
use protonmail_mcp.Exec.{Exec, pure, ◌>>=◌, ◌>>◌}
use protonmail_mcp.Keyring.{decrypt_body, lift}
use protonmail_mcp.Session.State.{Backend, State}
use protonmail_mcp.Session.Access.{unlocked_keyrings}
use protonmail_mcp.Tools.Api.{MailAddress, MessageMetadata, Message}
use protonmail_mcp.Tools.Handler.{
  Deps, or_mapped, unless, required, invalid, quote_trunc, tool_client,
}
use protonmail_mcp.Tools.Addresses.{guarded}

abbrev pub sensitive_headers : List String
sensitive_headers =
    "bcc" ∷ "x-originating-ip" ∷ "x-original-sender-ip" ∷ "x-original-sender" ∷ "x-real-ip" ∷ []

pub record MessageStubDto : Type 0 where
  pub id : String
  pub subject : String
  pub from : String
  pub to : List String
  pub cc : List String
  pub internal_date : ℤ
  pub unread : Bool
  pub has_attachment : Bool
  pub address_id : String
  pub label_ids : List String

pub record SearchMessagesIn : Type 0 where
  pub query : String
  pub label_id : String
  pub address_id : String
  pub limit : ℤ
  pub page : ℤ

pub record GetMessageIn : Type 0 where
  pub id : String
  pub include_headers : Bool
  pub include_body : Bool

pub record GetMessageOut : Type 0 where
  pub message : MessageStubDto
  pub raw_headers : String
  pub parsed_headers : List (String × List String)
  pub body : String

unfoldable pub format_address : Option MailAddress → String
format_address none = ""
format_address (some a) = if nonempty a.name then a.name <> " <" <> a.address <> ">" else a.address

unfoldable pub format_addresses : List (Option MailAddress) → List String
unfolding format_address
format_addresses [] = []
format_addresses (a ∷ rest) =
    let later = format_addresses rest in
    if nonempty (format_address a) then format_address a ∷ later else later

unfoldable pub to_message_stub_dto : MessageMetadata → MessageStubDto
unfolding format_address format_addresses
to_message_stub_dto m = record {
  id = m.id;
  subject = m.subject;
  from = format_address m.sender;
  to = format_addresses m.to_list;
  cc = format_addresses m.cc_list;
  internal_date = m.time;
  unread = m.unread;
  has_attachment = int_ltb (pos 0) m.num_attachments;
  address_id = m.address_id;
  label_ids = m.label_ids;
}

-- `_, drop := sensitiveHeaders[strings.ToLower(k)]`
unfoldable pub is_sensitive : (String → String) → String → Bool
is_sensitive to_lower k = any (λ s. to_lower k == s) sensitive_headers

unfoldable pub filter_sensitive_headers :
    (String → String) → List (String × List String) → List (String × List String)
unfolding is_sensitive
filter_sensitive_headers to_lower [] = []
filter_sensitive_headers to_lower ((k, v) ∷ rest) =
    let kept = filter_sensitive_headers to_lower rest in
    if is_sensitive to_lower k then kept else (k, v) ∷ kept

-- The page and the size that `proton_search_messages` asks for.
unfoldable pub page_of : ℤ → ℤ
page_of page = if int_ltb page (pos 0) then pos 0 else page

unfoldable pub page_size : ℤ → ℤ
page_size limit =
    if not (int_ltb (pos 0) limit)
    then pos 50
    else if int_ltb (pos 150) limit
    then pos 150
    else limit

pub record LabelMessagesIn : Type 0 where
  pub message_ids : List String
  pub label_id : String
  pub action : String

pub record MarkMessagesIn : Type 0 where
  pub message_ids : List String
  pub read : Bool

-- `OK` is true in every output.
pub record OrganizeOut : Type 0 where
  pub message_ids : List String

unfoldable pub validate_message_ids : List String → Option Error
validate_message_ids [] = some (invalid "message_ids must contain at least one ID")
validate_message_ids (id ∷ ids) = none

unfoldable pub validate_label_action : (List ℕ → String) → String → Option Error
validate_label_action quote_bytes action =
    if not (action == "add") && not (action == "remove")
    then some
        (invalid ("action must be \"add\" or \"remove\", got " <> quote_trunc quote_bytes action))
    else none

module _ {b : Backend} (d : Deps b) where
  open d use {api, quote_bytes, to_lower}

  unfoldable pub search_messages : SearchMessagesIn → Exec (State b) (List MessageStubDto)
  search_messages input = do
    c ← tool_client b
    raws ← or_mapped b (
        api.get_message_page c (page_of input.page) (page_size input.limit) (record {
          subject = input.query;
          label_id = input.label_id;
          address_id = input.address_id;
          desc = true;
        }))
    pure (map to_message_stub_dto raws)

  -- The body that is asked for.
  unfoldable pub message_body : Bool → Message → Exec (State b) String
  message_body false m = pure ""
  message_body true m = do
    krs ← or_mapped b (unlocked_keyrings b)
    or_mapped b (lift (decrypt_body b.pgp krs m.metadata.address_id m.body))

  unfoldable pub get_message : GetMessageIn → Exec (State b) GetMessageOut
  get_message input = do
    unless b (required "id" input.id)
    c ← tool_client b
    m ← or_mapped b (api.get_message c input.id)
    body ← message_body input.include_body m
    pure (record {
      message = to_message_stub_dto m.metadata;
      raw_headers = if input.include_headers then m.header else "";
      parsed_headers =
          if input.include_headers then filter_sensitive_headers to_lower m.parsed_headers else [];
      body = body;
    })

  unfoldable pub label_messages : LabelMessagesIn → Exec (State b) OrganizeOut
  label_messages input = do
    unless b (validate_message_ids input.message_ids)
    unless b (required "label_id" input.label_id)
    unless b (validate_label_action quote_bytes input.action)
    c ← tool_client b
    or_mapped b (
        if input.action == "add"
        then api.label_messages c input.message_ids input.label_id
        else api.unlabel_messages c input.message_ids input.label_id)
    pure (record { message_ids = input.message_ids })

  unfoldable pub mark_messages : MarkMessagesIn → Exec (State b) OrganizeOut
  mark_messages input = do
    unless b (validate_message_ids input.message_ids)
    c ← tool_client b
    or_mapped b (
        if input.read
        then api.mark_messages_read c input.message_ids
        else api.mark_messages_unread c input.message_ids)
    pure (record { message_ids = input.message_ids })

  unfoldable pub delete_messages : (message_ids : List String) → Exec (State b) OrganizeOut
  delete_messages message_ids = guarded d (do
    unless b (validate_message_ids message_ids)
    c ← tool_client b
    or_mapped b (api.delete_message c message_ids)
    pure (record { message_ids = message_ids }))

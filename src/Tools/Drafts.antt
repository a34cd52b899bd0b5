-- ===== src/Tools/Drafts.antt =====
-- internal/tools/drafts.go
use protonmail_mcp.Common.{
  String, Bool, true, Option, none, some, List, [], ◌∷◌, ◌<>◌, ◌==◌, ◌||◌, ◌&&◌, if◌then◌else◌,
}
use protonmail_mcp.Common.Ints.{int_ltb, int_eq}
use protonmail_mcp.Proterr.Chain.{mapped, Result, ok, err}
use protonmail_mcp.Exec.{Exec, pure, ◌>>=◌, ◌>>◌}
use protonmail_mcp.Keyring.{address_key_ring, lift}
use protonmail_mcp.Calendar.Decrypt.{then_do}
use protonmail_mcp.Session.State.{Backend, State}
use protonmail_mcp.Session.Access.{unlocked_keyrings}
use protonmail_mcp.Tools.Api.{MailAddress, MailboxAddress, DraftTemplate}
use protonmail_mcp.Tools.Handler.{
  Deps, or_mapped, unless, required, invalid, quote_trunc, tool_client,
}
use protonmail_mcp.Tools.Messages.{MessageStubDto, to_message_stub_dto}

pub record DraftFields : Type 0 where
  pub to : List String
  pub cc : List String
  pub bcc : List String
  pub subject : String
  pub body : String
  pub mime_type : String

pub record CreateDraftIn : Type 0 where
  pub from_address_id : String
  pub fields : DraftFields

pub record UpdateDraftIn : Type 0 where
  pub id : String
  pub from_address_id : String
  pub fields : DraftFields

unfoldable pub resolve_mime_type : String → Result String
resolve_mime_type s =
    if s == "" || s == "text/plain"
    then ok "text/plain"
    else if s == "text/html"
    then ok "text/html"
    else err (mapped (invalid "mime_type must be text/plain or text/html"))

module _ {b : Backend} (d : Deps b) where
  open d use {api, quote_bytes, parse_address}

  unfoldable pub parse_recipients : List String → Result (List MailAddress)
  parse_recipients [] = ok []
  parse_recipients (s ∷ rest) =
      let later = parse_recipients rest in
      elim (parse_address s) [
        | none ↦ err (mapped (invalid ("invalid email address: " <> quote_trunc quote_bytes s)))
        | some a ↦ then_do later λ out. ok (a ∷ out)
      ]

  -- The sender is attached later.
  unfoldable pub draft_template : DraftFields → Result DraftTemplate
  draft_template f = then_do (parse_recipients f.to) λ to_l. then_do (parse_recipients f.cc) λ cc_l.
      then_do (parse_recipients f.bcc) λ bcc_l. then_do (resolve_mime_type f.mime_type) λ mt.
        ok (record {
          subject = f.subject;
          sender = none;
          to_list = to_l;
          cc_list = cc_l;
          bcc_list = bcc_l;
          body = f.body;
          mime_type = mt;
        })

  unfoldable pub can_send : MailboxAddress → Bool
  can_send a = int_eq a.status api.address_status_enabled && a.send

  abbrev pub better : Option MailboxAddress → MailboxAddress → Bool
  better none a = true
  better (some best) a = int_ltb a.order best.order

  -- The loop over the addresses, from the best so far.
  unfoldable pub best_sender : Option MailboxAddress → List MailboxAddress → Option MailboxAddress
  best_sender best [] = best
  best_sender best (a ∷ rest) =
      best_sender (if can_send a && better best a then some a else best) rest

  abbrev named_sender : String → MailboxAddress → Result MailboxAddress
  named_sender id a =
      if can_send a
      then ok a
      else err (
          mapped (
            invalid (
              "address "
              <> quote_trunc quote_bytes id
              <> " cannot send (disabled or receive-only)")))

  abbrev found_sender : Option MailboxAddress → Result MailboxAddress
  found_sender (some a) = ok a
  found_sender none = err (mapped (invalid "no enabled sending address found"))

  unfoldable pub resolve_sender : b.Client → (address_id : String) → Exec (State b) MailboxAddress
  resolve_sender c address_id =
      if address_id == ""
      then (do
        addrs ← or_mapped b (api.get_addresses c)
        lift (found_sender (best_sender none addrs)))
      else do a ← or_mapped b (api.get_address c address_id); lift (named_sender address_id a)

  unfoldable pub sender_key_ring : (addr_id : String) → Exec (State b) b.KeyRing
  sender_key_ring addr_id = do
    krs ← or_mapped b (unlocked_keyrings b)
    or_mapped b (lift (address_key_ring b.pgp d.web.quote krs addr_id))

  abbrev from_sender : MailboxAddress → DraftTemplate → DraftTemplate
  from_sender a t = record t { sender = some (record { name = a.display_name; address = a.email }) }

  unfoldable pub create_draft : CreateDraftIn → Exec (State b) MessageStubDto
  create_draft input = do
    template ← lift (draft_template input.fields)
    c ← tool_client b
    sender ← resolve_sender c input.from_address_id
    kr ← sender_key_ring sender.id
    m ← or_mapped b (api.create_draft c kr (from_sender sender template))
    pure (to_message_stub_dto m.metadata)

  unfoldable pub update_draft : UpdateDraftIn → Exec (State b) MessageStubDto
  update_draft input = do
    unless b (required "id" input.id)
    template ← lift (draft_template input.fields)
    c ← tool_client b
    sender ← resolve_sender c input.from_address_id
    kr ← sender_key_ring sender.id
    m ← or_mapped b (api.update_draft c input.id kr (from_sender sender template))
    pure (to_message_stub_dto m.metadata)

-- ===== src/Tools/Gates/Writes.antt =====
-- Each tool that writes, but deletes nothing, keeps what the reads and the reversible writes keep.
use protonmail_mcp.Common.{String, Option, none, some}
use protonmail_mcp.Exec.{Exec}
use protonmail_mcp.Exec.Rules.{Preserves, Preserves-pure}
use protonmail_mcp.Session.State.{Backend, State}
use protonmail_mcp.Protonraw.{
  CreateAddressRequest, create_address, add_custom_domain, verify_custom_domain,
  list_domain_addresses, update_catch_all,
}
use protonmail_mcp.Tools.Handler.{Deps, tool_client, raw_client}
use protonmail_mcp.Session.Access.{unlocked_keyrings}
use protonmail_mcp.Tools.Account.{
  UpdateMailSettingsIn, UpdateCoreSettingsIn, when_given, when_missing, update_mail_settings,
  update_core_settings,
}
use protonmail_mcp.Tools.Addresses.{
  UpdateAddressIn, SetAddressStatusIn, create_address_tool, update_address, set_address_status,
}
use protonmail_mcp.Tools.Domains.{
  SetCatchallIn, add_domain, verify_domain, set_catchall, disable_catchall,
}
use protonmail_mcp.Tools.Messages.{LabelMessagesIn, MarkMessagesIn, label_messages, mark_messages}
use protonmail_mcp.Tools.Drafts.{
  CreateDraftIn, UpdateDraftIn, resolve_sender, sender_key_ring, create_draft, update_draft,
}
use protonmail_mcp.Tools.Gates.Laws.{ReadLaws, WriteLaws, handling, Preserves-or_mapped}
use protonmail_mcp.Tools.Gates.Reads.{tool_client-keeps, raw_client-keeps, keyrings-keeps}

module _ {b : Backend} {d : Deps b} {P : State b → Type 0} (r : ReadLaws d P)
    (w : WriteLaws d P) where
  client-keeps : Preserves P (tool_client b)
  client-keeps = tool_client-keeps r

  raw-keeps : Preserves P (raw_client b)
  raw-keeps = raw_client-keeps r

  unlocked-keeps : Preserves P (unlocked_keyrings b)
  unlocked-keeps = keyrings-keeps r

  when_given-keeps :
      {X A : Type 0} (o : Option X) (call : X → Exec (State b) A) (v : A)
      → ((x : X) → Preserves P (call x))
      → Preserves P (when_given d o call v)
  when_given-keeps none call v k = Preserves-pure v
  when_given-keeps (some x) call v k = Preserves-or_mapped (call x) (k x)

  when_missing-keeps :
      {X Y A : Type 0} (o : Option X) (p : Option Y) (call : Exec (State b) A) (v : A)
      → Preserves P call
      → Preserves P (when_missing d o p call v)
  when_missing-keeps none none call v k = Preserves-or_mapped call k
  when_missing-keeps none (some y) call v k = Preserves-pure v
  when_missing-keeps (some x) none call v k = Preserves-pure v
  when_missing-keeps (some x) (some y) call v k = Preserves-pure v

  pub update_mail_settings-keeps :
      (input : UpdateMailSettingsIn) → Preserves P (update_mail_settings d input)
  unfolding update_mail_settings
  update_mail_settings-keeps input =
      search
        (
          handling, client-keeps, when_given-keeps, when_missing-keeps, w.on_display_name,
          w.on_signature, r.on_mail_settings,
        )
        depth 12

  pub update_core_settings-keeps :
      (input : UpdateCoreSettingsIn) → Preserves P (update_core_settings d input)
  unfolding update_core_settings
  update_core_settings-keeps input =
      search
        (
          handling, client-keeps, when_given-keeps, when_missing-keeps, w.on_telemetry,
          w.on_crash_reports, r.on_user_settings,
        )
        depth 12

  pub update_address-keeps : (input : UpdateAddressIn) → Preserves P (update_address d input)
  unfolding update_address
  update_address-keeps input =
      search (handling, client-keeps, when_given-keeps, w.on_display_name, w.on_signature) depth 12

  pub set_address_status-keeps :
      (input : SetAddressStatusIn) → Preserves P (set_address_status d input)
  unfolding set_address_status
  set_address_status-keeps input =
      search (handling, client-keeps, w.on_enable, w.on_disable) depth 12

  pub create_address-keeps :
      (input : CreateAddressRequest) → Preserves P (create_address_tool d input)
  unfolding create_address_tool create_address
  create_address-keeps input = search (handling, raw-keeps, w.on_post) depth 12

  pub add_domain-keeps : (name : String) → Preserves P (add_domain d name)
  unfolding add_domain add_custom_domain
  add_domain-keeps name = search (handling, raw-keeps, w.on_post) depth 12

  pub verify_domain-keeps : (id : String) → Preserves P (verify_domain d id)
  unfolding verify_domain verify_custom_domain
  verify_domain-keeps id = search (handling, raw-keeps, w.on_put) depth 12

  pub set_catchall-keeps : (input : SetCatchallIn) → Preserves P (set_catchall d input)
  unfolding set_catchall list_domain_addresses update_catch_all
  set_catchall-keeps input = search (handling, raw-keeps, r.on_get, w.on_put) depth 14

  pub disable_catchall-keeps : (id : String) → Preserves P (disable_catchall d id)
  unfolding disable_catchall update_catch_all
  disable_catchall-keeps id = search (handling, raw-keeps, w.on_put) depth 12

  pub label_messages-keeps : (input : LabelMessagesIn) → Preserves P (label_messages d input)
  unfolding label_messages
  label_messages-keeps input = search (handling, client-keeps, w.on_label, w.on_unlabel) depth 12

  pub mark_messages-keeps : (input : MarkMessagesIn) → Preserves P (mark_messages d input)
  unfolding mark_messages
  mark_messages-keeps input = search (handling, client-keeps, w.on_mark, w.on_unmark) depth 12

  resolve_sender-keeps : (c : b.Client) (id : String) → Preserves P (resolve_sender d c id)
  unfolding resolve_sender
  resolve_sender-keeps c id = search (handling, r.on_addresses, r.on_address) depth 12

  sender_key_ring-keeps : (id : String) → Preserves P (sender_key_ring d id)
  unfolding sender_key_ring
  sender_key_ring-keeps id = search (handling, unlocked-keeps) depth 12

  pub create_draft-keeps : (input : CreateDraftIn) → Preserves P (create_draft d input)
  unfolding create_draft
  create_draft-keeps input =
      search
        (handling, client-keeps, resolve_sender-keeps, sender_key_ring-keeps, w.on_create_draft)
        depth 14

  pub update_draft-keeps : (input : UpdateDraftIn) → Preserves P (update_draft d input)
  unfolding update_draft
  update_draft-keeps input =
      search
        (handling, client-keeps, resolve_sender-keeps, sender_key_ring-keeps, w.on_update_draft)
        depth 14

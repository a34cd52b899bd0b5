-- ===== src/Tools/Gates/Laws.antt =====
-- What a predicate on the session and its world survives: the reads, and the writes that can be
-- undone.
use protonmail_mcp.Common.{String, List, Option, none, some}
use protonmail_mcp.Common.Strconv.{ℤ}
use protonmail_mcp.Proterr.Chain.{Error}
use protonmail_mcp.Exec.{Exec}
use protonmail_mcp.Exec.Rules.{
  Preserves, preserving, Preserves-pure, Preserves-raise, Preserves-with_error, Preserves-bind,
}
use protonmail_mcp.Protonraw.{Method, http_get, http_post, http_put, Body, request}
use protonmail_mcp.Protonraw.Rules.{Preserves-lifted, Preserves-do_request}
use protonmail_mcp.Session.State.{Backend, State, RawClient, on_world}
use protonmail_mcp.Session.Access.{client, unlocked_keyrings, calendar_keyring}
use protonmail_mcp.Tools.Api.{MessageFilter, DraftTemplate}
use protonmail_mcp.Tools.Handler.{Deps, or_mapped, unless, tool_client, raw_client, with_raw}

module _ {b : Backend} (d : Deps b) (P : State b → Type 0) where
  open d use {api, web}

  -- Every request with the method, whatever its path and body.
  abbrev pub KeptBy : Method → Type 0
  KeptBy m =
      (r : RawClient) (path : String) (body : Body) (st : State b)
      → Preserves (λ w. P (record st { world = w })) (web.send r (request web m path body))

  pub record ReadLaws : Type 0 where
    pub on_client : Preserves P (client b)
    pub on_raw : Preserves P (raw_client b)
    pub on_keyrings : Preserves P (unlocked_keyrings b)
    pub on_calendar : (id : String) → Preserves P (calendar_keyring b id)
    pub on_get : KeptBy http_get
    pub on_user : (c : b.Client) → Preserves P (api.get_user c)
    pub on_addresses : (c : b.Client) → Preserves P (api.get_addresses c)
    pub on_address : (c : b.Client) (id : String) → Preserves P (api.get_address c id)
    pub on_mail_settings : (c : b.Client) → Preserves P (api.get_mail_settings c)
    pub on_user_settings : (c : b.Client) → Preserves P (api.get_user_settings c)
    pub on_labels : (c : b.Client) (types : List ℤ) → Preserves P (api.get_labels c types)
    pub on_page :
        (c : b.Client) (page size : ℤ) (f : MessageFilter)
        → Preserves P (api.get_message_page c page size f)
    pub on_message : (c : b.Client) (id : String) → Preserves P (api.get_message c id)
    pub on_calendars : (c : b.Client) → Preserves P (api.get_calendars c)
    pub on_events :
        (c : b.Client) (id : String) (f : List (String × String))
        → Preserves P (api.get_all_calendar_events c id f)
    pub on_event :
        (c : b.Client) (id event : String) → Preserves P (api.get_calendar_event c id event)

  -- The writes of the tools that `PROTONMAIL_MCP_ENABLE_DANGEROUS` does not guard.
  pub record WriteLaws : Type 0 where
    pub on_post : KeptBy http_post
    pub on_put : KeptBy http_put
    pub on_enable : (c : b.Client) (id : String) → Preserves P (api.enable_address c id)
    pub on_disable : (c : b.Client) (id : String) → Preserves P (api.disable_address c id)
    pub on_display_name : (c : b.Client) (s : String) → Preserves P (api.set_display_name c s)
    pub on_signature : (c : b.Client) (s : String) → Preserves P (api.set_signature c s)
    pub on_telemetry : (c : b.Client) (v : ℤ) → Preserves P (api.set_telemetry c v)
    pub on_crash_reports : (c : b.Client) (v : ℤ) → Preserves P (api.set_crash_reports c v)
    pub on_label :
        (c : b.Client) (ids : List String) (l : String) → Preserves P (api.label_messages c ids l)
    pub on_unlabel :
        (c : b.Client) (ids : List String) (l : String) → Preserves P (api.unlabel_messages c ids l)
    pub on_mark : (c : b.Client) (ids : List String) → Preserves P (api.mark_messages_read c ids)
    pub on_unmark :
        (c : b.Client) (ids : List String) → Preserves P (api.mark_messages_unread c ids)
    pub on_create_draft :
        (c : b.Client) (kr : b.KeyRing) (t : DraftTemplate) → Preserves P (api.create_draft c kr t)
    pub on_update_draft :
        (c : b.Client) (id : String) (kr : b.KeyRing) (t : DraftTemplate)
        → Preserves P (api.update_draft c id kr t)

module _ {b : Backend} {P : State b → Type 0} where
  pub Preserves-or_mapped :
      {A : Type 0} (m : Exec (State b) A) → Preserves P m → Preserves P (or_mapped b m)
  Preserves-or_mapped m k = Preserves-with_error _ m k

  pub Preserves-unless : (o : Option Error) → Preserves P (unless b o)
  Preserves-unless none = Preserves-pure tt
  Preserves-unless (some e) = Preserves-raise _

  -- An action on the world keeps what it keeps from every session.
  pub Preserves-over :
      {A : Type 0} (m : Exec b.World A)
      → ((st : State b) → Preserves (λ w. P (record st { world = w })) m)
      → Preserves P (on_world b m)
  Preserves-over m k = record { at = λ st h. (k st).at st.world h }

  pub Preserves-tool_client : Preserves P (client b) → Preserves P (tool_client b)
  unfolding tool_client
  Preserves-tool_client k = Preserves-or_mapped (client b) k

  pub Preserves-with_raw :
      {A : Type 0} (call : RawClient → Exec b.World A)
      → Preserves P (raw_client b)
      → ((r : RawClient) (st : State b) → Preserves (λ w. P (record st { world = w })) (call r))
      → Preserves P (with_raw b call)
  Preserves-with_raw call kr kc =
      Preserves-bind (raw_client b) _ kr λ r. Preserves-over (call r) (kc r)

pub ruleset handling = (
  preserving, Preserves-or_mapped, Preserves-unless, Preserves-over, Preserves-tool_client,
  Preserves-with_raw, Preserves-lifted, Preserves-do_request,
)

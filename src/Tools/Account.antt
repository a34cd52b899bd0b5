-- ===== src/Tools/Account.antt =====
-- internal/tools/identity.go, labels.go, keys.go and settings.go.
use protonmail_mcp.Common.{
  String, Bool, false, Option, none, some, List, [], ◌∷◌, map, is_some, if◌then◌else◌,
}
use protonmail_mcp.Common.Strconv.{ℤ, pos}
use protonmail_mcp.Common.Ints.{itoa, int_eq}
use protonmail_mcp.Proterr.Chain.{Result, ok, err}
use protonmail_mcp.Exec.{Exec, pure, attempt, ◌>>=◌}
use protonmail_mcp.Session.State.{Backend, State}
use protonmail_mcp.Session.Access.{client}
use protonmail_mcp.Session.Status.{Status, status}
use protonmail_mcp.Tools.Api.{User, AddressKey, Label, MailSettings, UserSettings}
use protonmail_mcp.Tools.Handler.{Deps, PublicKey, or_mapped, tool_client}

pub record WhoamiOutput : Type 0 where
  pub email : String
  pub name : String
  pub used_space : ℤ
  pub max_space : ℤ
  pub persist_degraded : Bool
  pub persist_error : String

pub record SessionStatusOutput : Type 0 where
  pub logged_in : Bool
  pub email : String
  pub persist_degraded : Bool
  pub persist_error : String
  pub keyring_unlock : String

pub record LabelDto : Type 0 where
  pub id : String
  pub name : String
  pub type : String
  pub color : String
  pub path : List String

pub record KeyDto : Type 0 where
  pub id : String
  pub fingerprint : String
  pub public_key : String
  pub primary : Bool
  pub active : Bool
  pub flags : ℤ

pub record MailSettingsDto : Type 0 where
  pub display_name : String
  pub signature : String
  pub draft_mime_type : String
  pub attach_public_key : Bool
  pub sign_external : ℤ
  pub pgp_scheme : ℤ

pub record CoreSettingsDto : Type 0 where
  pub telemetry : ℤ
  pub crash_reports : ℤ

pub record UpdateMailSettingsIn : Type 0 where
  pub display_name : Option String
  pub signature : Option String

pub record UpdateCoreSettingsIn : Type 0 where
  pub telemetry : Option Bool
  pub crash_reports : Option Bool

abbrev pub no_mail_settings : MailSettings
no_mail_settings = record {
  display_name = "";
  signature = "";
  draft_mime_type = "";
  attach_public_key = false;
  sign = pos 0;
  pgp_scheme = pos 0;
}

abbrev pub no_user_settings : UserSettings
no_user_settings = record { telemetry = pos 0; crash_reports = pos 0 }

unfoldable pub to_mail_settings_dto : MailSettings → MailSettingsDto
to_mail_settings_dto m = record {
  display_name = m.display_name;
  signature = m.signature;
  draft_mime_type = m.draft_mime_type;
  attach_public_key = m.attach_public_key;
  sign_external = m.sign;
  pgp_scheme = m.pgp_scheme;
}

unfoldable pub to_core_settings_dto : UserSettings → CoreSettingsDto
to_core_settings_dto u = record { telemetry = u.telemetry; crash_reports = u.crash_reports }

unfoldable pub key_dto : (String → Option PublicKey) → AddressKey → KeyDto
key_dto new_key k =
    let parsed = new_key k.private_key in
    record {
      id = k.id;
      fingerprint = elim parsed [ none ↦ "" | some pk ↦ pk.fingerprint ];
      public_key = elim parsed [ none ↦ "" | some pk ↦ elim pk.armored [ none ↦ "" | some a ↦ a ] ];
      primary = k.primary;
      active = k.active;
      flags = k.flags;
    }

module _ {b : Backend} (d : Deps b) where
  open d use {api, new_key}

  unfoldable pub whoami : Unit {0} → Exec (State b) WhoamiOutput
  whoami _ = do
    c ← tool_client b
    u ← or_mapped b (api.get_user c)
    st ← reading
    pure (record {
      email = u.email;
      name = u.display_name;
      used_space = u.used_space;
      max_space = u.max_space;
      persist_degraded = st.persist_degraded;
      persist_error = st.persist_error;
    })
    where
      reading : Exec (State b) Status
      reading st = (ok (status b st), st)

  abbrev pub status_output : Status → Option User → SessionStatusOutput
  status_output st u = record {
    logged_in = is_some u;
    email = elim u [ none ↦ "" | some x ↦ x.email ];
    persist_degraded = st.persist_degraded;
    persist_error = st.persist_error;
    keyring_unlock = st.keyring_unlock;
  }

  abbrev pub got_user : Status → Result User → Exec (State b) SessionStatusOutput
  got_user st (ok u) = pure (status_output st (some u))
  got_user st (err _) = pure (status_output st none)

  abbrev pub got_client : Status → Result b.Client → Exec (State b) SessionStatusOutput
  got_client st (ok c) = do u ← attempt (api.get_user c); got_user st u
  got_client st (err _) = pure (status_output st none)

  -- The status is read after the client is asked for, and before the user is.
  unfoldable pub session_status : Unit {0} → Exec (State b) SessionStatusOutput
  session_status _ = do c ← attempt (client b); λ st. got_client (status b st) c st

  unfoldable pub label_type_string : ℤ → String
  label_type_string t =
      if int_eq t api.label_type_label
      then "label"
      else if int_eq t api.label_type_folder
      then "folder"
      else if int_eq t api.label_type_system
      then "system"
      else itoa t

  abbrev label_dto : Label → LabelDto
  label_dto l = record {
    id = l.id;
    name = l.name;
    type = label_type_string l.type;
    color = l.color;
    path = l.path;
  }

  unfoldable pub list_labels : Unit {0} → Exec (State b) (List LabelDto)
  list_labels _ = do
    c ← tool_client b
    found ← or_mapped b (
        api.get_labels c
          (api.label_type_system ∷ api.label_type_folder ∷ api.label_type_label ∷ []))
    pure (map label_dto found)

  unfoldable pub list_address_keys : (address_id : String) → Exec (State b) (List KeyDto)
  list_address_keys address_id = do
    c ← tool_client b
    addr ← or_mapped b (api.get_address c address_id)
    pure (map (key_dto new_key) addr.keys)

  unfoldable pub get_mail_settings : Unit {0} → Exec (State b) MailSettingsDto
  get_mail_settings _ = do
    c ← tool_client b
    ms ← or_mapped b (api.get_mail_settings c)
    pure (to_mail_settings_dto ms)

  unfoldable pub get_core_settings : Unit {0} → Exec (State b) CoreSettingsDto
  get_core_settings _ = do
    c ← tool_client b
    us ← or_mapped b (api.get_user_settings c)
    pure (to_core_settings_dto us)

  -- `if in.X != nil { v, err = … }`: the new value, or the one so far.
  abbrev pub when_given : {X A : Type 0} → Option X → (X → Exec (State b) A) → A → Exec (State b) A
  when_given none call v = pure v
  when_given (some x) call v = or_mapped b (call x)

  abbrev pub when_missing :
      {X Y A : Type 0} → Option X → Option Y → Exec (State b) A → A → Exec (State b) A
  when_missing none none call v = or_mapped b call
  when_missing _ _ call v = pure v

  unfoldable pub update_mail_settings : UpdateMailSettingsIn → Exec (State b) MailSettingsDto
  update_mail_settings input = do
    c ← tool_client b
    named ← when_given input.display_name (api.set_display_name c) no_mail_settings
    signed ← when_given input.signature (api.set_signature c) named
    ms ← when_missing input.display_name input.signature (api.get_mail_settings c) signed
    pure (to_mail_settings_dto ms)

  abbrev pub bool_to_settings_bool : Bool → ℤ
  bool_to_settings_bool t = if t then api.setting_enabled else api.setting_disabled

  unfoldable pub update_core_settings : UpdateCoreSettingsIn → Exec (State b) CoreSettingsDto
  update_core_settings input = do
    c ← tool_client b
    told ←
        when_given input.telemetry (λ t. api.set_telemetry c (bool_to_settings_bool t))
          no_user_settings
    crashed ←
        when_given input.crash_reports (λ t. api.set_crash_reports c (bool_to_settings_bool t)) told
    us ← when_missing input.telemetry input.crash_reports (api.get_user_settings c) crashed
    pure (to_core_settings_dto us)

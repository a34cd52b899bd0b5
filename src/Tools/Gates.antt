-- ===== src/Tools/Gates.antt =====
-- What the tools that are registered under the gates can change.
pub mod Laws
pub mod Reads
pub mod Writes
use protonmail_mcp.Common.{
  ℕ, zero, suc, String, Bool, true, false, Option, none, some, List, [], ◌∷◌, ◌++◌, ◌≡◌, refl, sym,
  ◌∙◌, ◌&&◌, All, get_elem?, if◌then◌else◌, subst,
}
use mathlib.Core.Option.{some-injective}
use protonmail_mcp.Proterr.Chain.{Result, ok, err}
use protonmail_mcp.Proterr.Text.{error_text}
use protonmail_mcp.Exec.Rules.{Preserves}
use protonmail_mcp.Session.State.{Backend, State}
use protonmail_mcp.Tools.Handler.{
  Deps, Tool, CallResult, finish, call_tool, writes_enabled, dangerous_enabled,
}
use protonmail_mcp.Tools.Gates.Laws.{ReadLaws, WriteLaws}
use protonmail_mcp.Tools.Gates.Reads.{
  list_labels-keeps, list_address_keys-keeps, get_domain-keeps, get_catchall-keeps,
  list_domains-keeps, whoami-keeps, get_event-keeps, session_status-keeps, get_mail_settings-keeps,
  get_core_settings-keeps, list_addresses-keeps, get_address-keeps, search_messages-keeps,
  get_message-keeps, list_calendars-keeps, list_events-keeps,
}
use protonmail_mcp.Tools.Gates.Writes.{
  update_mail_settings-keeps, update_core_settings-keeps, update_address-keeps,
  set_address_status-keeps, create_address-keeps, add_domain-keeps, verify_domain-keeps,
  set_catchall-keeps, disable_catchall-keeps, label_messages-keeps, mark_messages-keeps,
  create_draft-keeps, update_draft-keeps,
}
use protonmail_mcp.Tools.Register.{
  if_dangerous, register_identity, register_addresses, register_domains, register_settings,
  register_keys, register_messages, register_labels, register_drafts, register_organize,
  register_calendar, register,
}

module _ {ℓ κ} {A : Type ℓ} (Q : A → Type κ) where
  All-++ : (xs ys : List A) → All Q xs → All Q ys → All Q (xs ++ ys)
  All-++ [] ys p q = q
  All-++ (x ∷ xs) ys p q = (p.0, All-++ xs ys p.1 q)

  -- `All` of a list that can be read off it.
  record Every (xs : List A) : Type (ℓ ⊔ κ) where
    at : All Q xs

  Every-++ : (xs ys : List A) → Every xs → Every ys → Every (xs ++ ys)
  Every-++ xs ys p q = record { at = All-++ xs ys p.at q.at }

  All-if : (t : Bool) (xs : List A) → (t ≡ true → All Q xs) → All Q (if t then xs else [])
  All-if true xs h = h refl
  All-if false xs h = tt

  All-get_elem? : (xs : List A) (i : ℕ) (x : A) → All Q xs → get_elem? xs i ≡ some x → Q x
  All-get_elem? [] i x p h = cc
  All-get_elem? (y ∷ ys) zero x p h = subst Q (some-injective y x h) p.0
  All-get_elem? (y ∷ ys) (suc i) x p h = All-get_elem? ys i x p.1 h

not_both : {t : Bool} → t ≡ true → t ≡ false → ⊥
not_both p q = cc

module _ {b : Backend} (P : State b → Type 0) where
  abbrev Keeps : Tool b → Type 0
  Keeps t = (input : t.Input) → Preserves P (t.run input)

  called : {A : Type 0} (p : Result A × State b) → P p.1 → P (finish p).1
  called (ok a, st) h = h
  called (err e, st) h = h

module _ {b : Backend} (d : Deps b) (P : State b → Type 0) (r : ReadLaws d P)
    (w : writes_enabled d.getenv ≡ true
      → WriteLaws d P × (dangerous_enabled d.getenv ≡ false)) where
  no_deletion :
      (xs : List (Tool b)) → writes_enabled d.getenv ≡ true → All (Keeps P) (if_dangerous d xs)
  no_deletion xs on = rw ((w on).1) tt

  identity-keeps : All (Keeps P) (register_identity d)
  unfolding register_identity
  identity-keeps = (λ _. whoami-keeps r, (λ _. session_status-keeps r, tt))

  addresses-keep : All (Keeps P) (register_addresses d)
  unfolding register_addresses
  addresses-keep = (
    λ _. list_addresses-keeps r,
    (
      get_address-keeps r,
      All-if (Keeps P) (writes_enabled d.getenv) _ λ on. (
        create_address-keeps r (w on).0,
        (update_address-keeps r (w on).0, (set_address_status-keeps r (w on).0, no_deletion _ on)),
      ),
    ),
  )

  domains-keep : All (Keeps P) (register_domains d)
  unfolding register_domains
  domains-keep = (
    λ _. list_domains-keeps r,
    (
      get_domain-keeps r,
      (
        get_catchall-keeps r,
        All-if (Keeps P) (writes_enabled d.getenv) _ λ on. (
          add_domain-keeps r (w on).0,
          (
            verify_domain-keeps r (w on).0,
            All-++ (Keeps P) _ _ (no_deletion _ on)
                (set_catchall-keeps r (w on).0, (disable_catchall-keeps r (w on).0, tt)),
          ),
        ),
      ),
    ),
  )

  settings-keep : All (Keeps P) (register_settings d)
  unfolding register_settings
  settings-keep = (
    λ _. get_mail_settings-keeps r,
    (
      λ _. get_core_settings-keeps r,
      All-if (Keeps P) (writes_enabled d.getenv) _ λ on.
          (update_mail_settings-keeps r (w on).0, (update_core_settings-keeps r (w on).0, tt)),
    ),
  )

  drafts-keep : All (Keeps P) (register_drafts d)
  unfolding register_drafts
  drafts-keep =
      All-if (Keeps P) (writes_enabled d.getenv) _
        λ on. (create_draft-keeps r (w on).0, (update_draft-keeps r (w on).0, tt))

  organize-keeps : All (Keeps P) (register_organize d)
  unfolding register_organize
  organize-keeps =
      All-if (Keeps P) (writes_enabled d.getenv) _
        λ on. (label_messages-keeps r (w on).0, (mark_messages-keeps r (w on).0, no_deletion _ on))

  keys-keep : All (Keeps P) (register_keys d)
  unfolding register_keys
  keys-keep = (list_address_keys-keeps r, tt)

  messages-keep : All (Keeps P) (register_messages d)
  unfolding register_messages
  messages-keep = (search_messages-keeps r, (get_message-keeps r, tt))

  labels-keep : All (Keeps P) (register_labels d)
  unfolding register_labels
  labels-keep = (λ _. list_labels-keeps r, tt)

  calendar-keeps : All (Keeps P) (register_calendar d)
  unfolding register_calendar
  calendar-keeps = (λ _. list_calendars-keeps r, (list_events-keeps r, (get_event-keeps r, tt)))

  also :
      {xs : List (Tool b)} (ys : List (Tool b))
      → All (Keeps P) ys
      → Every (Keeps P) xs
      → Every (Keeps P) (xs ++ ys)
  also {xs = xs} ys q p = Every-++ (Keeps P) xs ys p (record { at = q })

  register-Every : Every (Keeps P) (register d)
  unfolding register
  register-Every = also (register_calendar d) calendar-keeps (
      also (register_organize d) organize-keeps (
        also (register_drafts d) drafts-keep (
          also (register_labels d) labels-keep (
            also (register_messages d) messages-keep (
              also (register_keys d) keys-keep (
                also (register_settings d) settings-keep (
                  also (register_domains d) domains-keep (
                    also {xs = register_identity d} (register_addresses d) addresses-keep
                      (record { at = identity-keeps })))))))))

-- With writes disabled, a registered tool keeps whatever the session's own steps and the calls
-- that read keep, whatever its input and its outcome: no tool writes.
pub register-reads :
    {b : Backend} (d : Deps b) (P : State b → Type 0) (t : Tool b) (i : ℕ) (input : t.Input)
    (st : State b)
    → ReadLaws d P
    → writes_enabled d.getenv ≡ false
    → get_elem? (register d) i ≡ some t
    → P st
    → P (call_tool t input st).1
register-reads d P t i input st r off listed h =
    let keeps =
      All-get_elem? (Keeps P) _ i t (register-Every d P r (λ on. absurd (not_both on off))).at
        listed in
    called P (t.run input st) ((keeps input).at st h)

-- With dangerous operations disabled, a registered tool keeps whatever the session's own steps,
-- the calls that read and the writes that delete nothing keep: no tool deletes messages, an
-- address or a domain.
pub register-reversible :
    {b : Backend} (d : Deps b) (P : State b → Type 0) (t : Tool b) (i : ℕ) (input : t.Input)
    (st : State b)
    → ReadLaws d P
    → WriteLaws d P
    → dangerous_enabled d.getenv ≡ false
    → get_elem? (register d) i ≡ some t
    → P st
    → P (call_tool t input st).1
register-reversible d P t i input st r w off listed h =
    let keeps = All-get_elem? (Keeps P) _ i t (register-Every d P r (λ _. (w, off))).at listed in
    called P (t.run input st) ((keeps input).at st h)

-- ===== src/Tools/Names.antt =====
-- The names of the tools that are registered, under each setting of the gates.
use protonmail_mcp.Common.{
  String, Bool, true, false, Option, none, some, List, [], ◌∷◌, ◌≡◌, refl, ◌&&◌, not, any, map,
  ◌==◌, if◌then◌else◌,
}
use protonmail_mcp.Session.State.{Backend}
use protonmail_mcp.Tools.Handler.{Deps, Tool, writes_enabled, dangerous_enabled}
use protonmail_mcp.Tools.Register.{
  register_identity, register_addresses, register_domains, register_settings, register_keys,
  register_messages, register_labels, register_drafts, register_organize, register_calendar,
  register,
}

-- No name stands twice in the list.
abbrev pub distinct : List String → Bool
distinct [] = true
distinct (n ∷ ns) = not (any (λ m. m == n) ns) && distinct ns

-- Whether the hint is there and says so.
abbrev marked : Option Bool → Bool
marked (some t) = t
marked none = false

-- The names of the tools whose destructive hint is there and says so.
abbrev pub destructive : {b : Backend} → List (Tool b) → List String
destructive [] = []
destructive (t ∷ ts) =
    let rest = destructive ts in if marked t.destructive_hint then t.name ∷ rest else rest

module _ {b : Backend} (d : Deps b) where
  by_gates :
      (w g : Bool)
      → writes_enabled d.getenv ≡ w
      → dangerous_enabled d.getenv ≡ g
      → (distinct (map (λ t. t.name) (register d)) ≡ true)
        × (destructive (register d) ≡ (
            if w && g
            then "proton_delete_address" ∷ "proton_remove_custom_domain" ∷ "proton_delete_messages"
              ∷ []
            else []))
  unfolding register register_identity register_addresses register_domains register_settings
      register_keys register_messages register_labels register_drafts register_organize
      register_calendar
  by_gates false g p q = rw p (refl, refl)
  by_gates true false p q = rw (p, q) (refl, refl)
  by_gates true true p q = rw (p, q) (refl, refl)

-- Whatever the environment, no two registered tools have the same name, and the tools that are
-- marked destructive are the three deletions if both gates are open, and none otherwise.
pub register-names :
    {b : Backend} (d : Deps b)
    → (distinct (map (λ t. t.name) (register d)) ≡ true)
      × (destructive (register d) ≡ (
          if writes_enabled d.getenv && dangerous_enabled d.getenv
          then "proton_delete_address" ∷ "proton_remove_custom_domain" ∷ "proton_delete_messages"
            ∷ []
          else []))
register-names d = by_gates d (writes_enabled d.getenv) (dangerous_enabled d.getenv) refl refl

-- ===== src/Log/Redaction.antt =====
-- What the inner handler is given.
use protonmail_mcp.Common.{
  String, Bool, true, false, List, [], ◌∷◌, ◌++◌, any, contains, ◌≡◌, refl, sym, ap, map,
  if◌then◌else◌,
}
use protonmail_mcp.Log.{
  Attrs, no_attrs, attr, group, Record, Derivation, with_attrs, with_group, is_sensitive_name,
  redact_attrs, inner_derivation, handle,
}

-- A value that is logged: the groups it stands in, its name, and its printed form.
pub record Leaf : Type 0 where
  pub groups : List String
  pub name : String
  pub value : String

unfoldable pub leaves : List String → Attrs → List Leaf
leaves groups no_attrs = []
leaves groups (attr name value rest) =
    record { groups = groups; name = name; value = value } ∷ leaves groups rest
leaves groups (group name inner rest) = leaves (groups ++ name ∷ []) inner ++ leaves groups rest

-- The values of a chain of derivations and of the record at its end, each with its groups.
unfoldable pub logged : List String → List Derivation × Record → List Leaf
unfolding leaves
logged groups ([], r) = leaves groups r.attrs
logged groups (with_attrs attrs ∷ ds, r) = leaves groups attrs ++ logged groups (ds, r)
logged groups (with_group name ∷ ds, r) = logged (groups ++ name ∷ []) (ds, r)

map-++ : {A B : Type 0} (f : A → B) (xs ys : List A) → map f (xs ++ ys) ≡ map f xs ++ map f ys
map-++ f [] ys = refl
map-++ f (x ∷ xs) ys = ap (λ r. f x ∷ r) (map-++ f xs ys)

module _ (to_lower : String → String) where
  -- Whether a name has a part that names a credential.
  abbrev pub is_secret : String → Bool
  is_secret name =
      any (contains (to_lower name))
        ("password" ∷ "passphrase" ∷ "token" ∷ "secret" ∷ "totp" ∷ "key" ∷ [])

  -- A value whose name is secret is replaced, and any other is kept.
  abbrev pub hidden : Leaf → Leaf
  hidden l = record l { value = if is_secret l.name then "<redacted>" else l.value }

  leaves-redact_attrs :
      (groups : List String) (attrs : Attrs)
      → leaves groups (redact_attrs to_lower attrs) ≡ map hidden (leaves groups attrs)
  unfolding leaves redact_attrs is_sensitive_name
  leaves-redact_attrs groups no_attrs = refl
  leaves-redact_attrs groups (attr name value rest) =
      by_test (is_secret name) (leaves-redact_attrs groups rest)
    where
      by_test :
          (t : Bool)
          → leaves groups (redact_attrs to_lower rest) ≡ map hidden (leaves groups rest)
          → leaves groups (
              if t
              then attr name "<redacted>" (redact_attrs to_lower rest)
              else attr name value (redact_attrs to_lower rest))
            ≡ record { groups = groups; name = name; value = if t then "<redacted>" else value }
              ∷ map hidden (leaves groups rest)
      by_test true h = ap (λ r. record { groups = groups; name = name; value = "<redacted>" } ∷ r) h
      by_test false h = ap (λ r. record { groups = groups; name = name; value = value } ∷ r) h
  leaves-redact_attrs groups (group name inner rest) =
      let within = leaves-redact_attrs (groups ++ name ∷ []) inner in
      let after = leaves-redact_attrs groups rest in
      rw (within, after)
        (sym (map-++ hidden (leaves (groups ++ name ∷ []) inner) (leaves groups rest)))

-- However a logger was derived and whatever is logged, the inner handler gets every value in its
-- groups under its name, in the same order; a value whose own name contains "password",
-- "passphrase", "token", "secret", "totp" or "key" in lower case is replaced, and every other value,
-- also one in a group with such a name, is as it was.
pub logged-handle :
    (to_lower : String → String) (groups : List String) (derived : List Derivation) (r : Record)
    → logged groups (handle to_lower derived r) ≡ map (hidden to_lower) (logged groups (derived, r))
unfolding handle logged inner_derivation
logged-handle to_lower groups [] r = leaves-redact_attrs to_lower groups r.attrs
logged-handle to_lower groups (with_attrs attrs ∷ ds) r =
    let here = leaves-redact_attrs to_lower groups attrs in
    let later = logged-handle to_lower groups ds r in
    rw (here, later) (sym (map-++ (hidden to_lower) (leaves groups attrs) (logged groups (ds, r))))
logged-handle to_lower groups (with_group name ∷ ds) r =
    logged-handle to_lower (groups ++ name ∷ []) ds r

-- ===== src/Selection/Probing.antt =====
-- The probe of `status` looks at the other backend, never at the selected one.
use protonmail_mcp.Common.{
  false, none, some, ◌≡◌, ◌≢◌, refl, ◌==◌, ◌∙◌, sym, ap, subst, eq_iff, arith, Bool-cases, ◌⊎◌, inl,
  inr, if◌then◌else◌,
}
use protonmail_mcp.Proterr.Chain.{keychain_not_found, GoError, errors_is, Result, ok, err}
use protonmail_mcp.Keychain.{Session}
use protonmail_mcp.Selection.{
  Host, Selected, keychain_backend, file_backend, OtherBackendHint, resolve_state_dir, backend_name,
  file_store, probe_backend, probe_file, probe_other_backend,
}

-- A hint names a backend that holds a session, or whose session cannot be read.
pub record IsHint (r : Result Session) (hint : OtherBackendHint) : Type 0 where
  pub held :
      ((s : Session) × (r ≡ ok s) × (hint.unreadable ≡ none))
      ⊎ ((e : GoError) × (r ≡ err e)
          × (errors_is e keychain_not_found ≡ false)
          × (hint.unreadable ≡ some e))

some-injective : {A : Type 0} {a b : A} → some a ≡ some b → a ≡ b
some-injective h = cc

probe_backend-IsHint :
    (host : Host) (r : Result Session) (base hint : OtherBackendHint)
    → base.unreadable ≡ none
    → probe_backend host r base ≡ some hint
    → (hint.backend ≡ base.backend) × (hint.dir ≡ base.dir) × IsHint r hint
unfolding probe_backend
probe_backend-IsHint host (ok s) base hint clean h =
    let same = sym (some-injective h) in
    (
      ap (λ x. x.backend) same,
      ap (λ x. x.dir) same,
      record { held = inl (s, refl, ap (λ x. x.unreadable) same ∙ clean) },
    )
probe_backend-IsHint host (err e) base hint clean h =
    elim (Bool-cases (errors_is e keychain_not_found)) [
      | inl missing ↦ absurd (ground (arith, h, missing))
      | inr other ↦
          let same : hint ≡ record base { unreadable = some e } = sym (
            some-injective (
              sym (ap (λ t. if t then none else some (record base { unreadable = some e })) other)
              ∙ h)) in
          (
            ap (λ x. x.backend) same,
            ap (λ x. x.dir) same,
            record { held = inr (e, refl, other, ap (λ x. x.unreadable) same) },
          )
    ]

-- The store that a hint names, which is not the selected one.
pub record IsElsewhere (h : Host) (load : Selected → Result Session) (hint : OtherBackendHint)
    : Type 0 where
  pub other : hint.backend ≢ backend_name h
  pub named :
      ((hint.backend ≡ "keychain") × IsHint (load keychain_backend) hint)
      ⊎ ((hint.backend ≡ "file") × IsHint (load (file_backend hint.dir)) hint)

module _ (h : Host) (load : Selected → Result Session) (hint : OtherBackendHint) where
  probe_keychain-IsElsewhere :
      (base : OtherBackendHint)
      → base ≡ record { backend = "keychain"; dir = ""; unreadable = none }
      → backend_name h ≡ "file"
      → probe_backend h (load keychain_backend) base ≡ some hint
      → IsElsewhere h load hint
  probe_keychain-IsElsewhere base b file p =
      let (named, _, held) =
        probe_backend-IsHint h (load keychain_backend) base hint (ap (λ x. x.unreadable) b) p in
      let keychain = named ∙ ap (λ x. x.backend) b in
      record { other = λ same. cc; named = inl (keychain, held) }

  probe_file-IsElsewhere :
      (r : Result Selected)
      → backend_name h ≢ "file"
      → probe_file h load r ≡ some hint
      → IsElsewhere h load hint
  probe_file-IsElsewhere (err e) other p = cc
  probe_file-IsElsewhere (ok keychain_backend) other p = cc
  probe_file-IsElsewhere (ok (file_backend dir)) other p =
      let (named, at, held) =
        probe_backend-IsHint h (load (file_backend dir))
          (record { backend = "file"; dir = dir; unreadable = none }) hint refl p in
      record {
        other = λ same. other (sym same ∙ named);
        named = inr (named, subst (λ d. IsHint (load (file_backend d)) hint) (sym at) held);
      }

-- When the probe finds something, it is at the backend that is not selected, whose session loads,
-- or fails to load for another reason than that there is none; the hint then carries the error.
pub probe_other_backend-IsElsewhere :
    (h : Host) (load : Selected → Result Session) (hint : OtherBackendHint)
    → probe_other_backend h load ≡ some hint
    → IsElsewhere h load hint
unfolding probe_other_backend
probe_other_backend-IsElsewhere h load hint p =
    let base : OtherBackendHint = record { backend = "keychain"; dir = ""; unreadable = none } in
    let at_keychain = probe_backend h (load keychain_backend) base in
    let at_file = probe_file h load (file_store h (resolve_state_dir h)) in
    elim (Bool-cases (backend_name h == "file")) [
      | inl file ↦
          probe_keychain-IsElsewhere h load hint base refl ((eq_iff (backend_name h) "file").0 file)
            (sym (ap (λ t. if t then at_keychain else at_file) file) ∙ p)
      | inr other ↦
          probe_file-IsElsewhere h load hint _
            (λ same. ground (arith, other, (eq_iff (backend_name h) "file").1 same))
            (sym (ap (λ t. if t then at_keychain else at_file) other) ∙ p)
    ]

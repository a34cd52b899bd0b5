-- ===== src/Session/Rotation.antt =====
-- `OnAuthRotated`, run whole and run across other calls: the lock is let go while it persists.
use protonmail_mcp.Common.{
  String, Bool, true, false, some, ◌≡◌, ◌≢◌, refl, ◌∙◌, sym, ap, ◌==◌, if◌then◌else◌,
}
use protonmail_mcp.Proterr.Chain.{Result, ok, err}
use protonmail_mcp.Keychain.{Session}
use protonmail_mcp.Store.{StoreLaws}
use protonmail_mcp.Session.State.{Backend, State, set_auth}
use protonmail_mcp.Session.Relogin.{logout}
use protonmail_mcp.Session.Access.{saved_flag, persist, rotate_memory, on_auth_rotated}
use protonmail_mcp.Session.Status.{status, keyring_unlock_state}
use protonmail_mcp.Session.Logout.{IsSignedOut, logout-IsSignedOut}

abbrev is_err {ℓ} : {A : Type ℓ} → Result A → Bool
is_err (ok _) = false
is_err (err _) = true

abbrev scope_after : Session → Session → String
scope_after next current = if next.scope == "" then current.scope else next.scope

module _ (b : Backend) (laws : StoreLaws b.store) where
  -- What a rotation leaves; `start` is the state before it.
  pub record IsRotated (next : Session) (start st : State b) : Type 0 where
    pub client : st.client ≡ start.client
    pub access_token : st.current.access_token ≡ next.access_token
    pub refresh_token : st.current.refresh_token ≡ next.refresh_token
    pub raw : st.raw ≡ set_auth next.access_token next.uid
    pub scope : (status b st).keyring_unlock ≡ keyring_unlock_state (scope_after next start.current)
    pub report :
        (status b st).persist_degraded ≡ is_err (b.store.save_session st.current start.world).0
    pub stored :
        next.uid ≢ ""
        → (status b st).persist_degraded ≡ false
        → laws.session_of st.world ≡ some st.current

  saved-IsRotated :
      (next kept : Session) (start st : State b) (r : Result (Unit {0}))
      → kept.uid ≡ next.uid
      → kept.access_token ≡ next.access_token
      → kept.refresh_token ≡ next.refresh_token
      → kept.scope ≡ scope_after next start.current
      → st.client ≡ start.client
      → st.current ≡ kept
      → st.raw ≡ set_auth next.access_token next.uid
      → r ≡ (b.store.save_session kept start.world).0
      → (r ≡ ok tt → next.uid ≢ "" → laws.session_of st.world ≡ some kept)
      → IsRotated next start (saved_flag b r st)
  unfolding status
  saved-IsRotated next kept start st (ok _) u a r s c k w q l = record {
    client = c;
    access_token = ap (λ x. x.access_token) k ∙ a;
    refresh_token = ap (λ x. x.refresh_token) k ∙ r;
    raw = w;
    scope = ap (λ x. keyring_unlock_state x.scope) k ∙ ap keyring_unlock_state s;
    report = ap is_err q ∙ ap (λ x. is_err (b.store.save_session x start.world).0) (sym k);
    stored = λ named _. l refl named ∙ ap some (sym k);
  }
  saved-IsRotated next kept start st (err e) u a r s c k w q l = record {
    client = c;
    access_token = ap (λ x. x.access_token) k ∙ a;
    refresh_token = ap (λ x. x.refresh_token) k ∙ r;
    raw = w;
    scope = ap (λ x. keyring_unlock_state x.scope) k ∙ ap keyring_unlock_state s;
    report = ap is_err q ∙ ap (λ x. is_err (b.store.save_session x start.world).0) (sym k);
    stored = λ named h. cc;
  }

module _ (next : Session) (s : String) where
  abbrev kept_if : Bool → Session
  kept_if t = if t then record next { scope = s } else next

  kept-uid : (t : Bool) → (kept_if t).uid ≡ next.uid
  kept-uid true = refl
  kept-uid false = refl

  kept-access : (t : Bool) → (kept_if t).access_token ≡ next.access_token
  kept-access true = refl
  kept-access false = refl

  kept-refresh : (t : Bool) → (kept_if t).refresh_token ≡ next.refresh_token
  kept-refresh true = refl
  kept-refresh false = refl

  kept-scope : (t : Bool) → (kept_if t).scope ≡ (if t then s else next.scope)
  kept-scope true = refl
  kept-scope false = refl

-- A rotation run whole keeps the client, takes over the new tokens in memory and in the raw
-- client, and keeps the known scope when the new one is empty, so that the keyring status does not
-- become unknown. The report is degraded exactly if the store refused the session; if it is not,
-- and the UID is not empty, the store's session is the one in memory.
pub on_auth_rotated-IsRotated :
    (b : Backend) (laws : StoreLaws b.store) (next : Session) (start : State b)
    → IsRotated b laws next start (on_auth_rotated b next start)
unfolding on_auth_rotated rotate_memory
on_auth_rotated-IsRotated b laws next start =
    let t = next.scope == "" in
    let s = start.current.scope in
    let kept = kept_if next s t in
    saved-IsRotated b laws next kept start _ (b.store.save_session kept start.world).0
      (kept-uid next s t) (kept-access next s t) (kept-refresh next s t) (kept-scope next s t) refl
      refl (rw (kept-access next s t, kept-uid next s t) refl) refl
      λ done named.
        laws.session_saved kept start.world (λ z. named (sym (kept-uid next s t) ∙ z)) done

module _ (b : Backend) where
  -- A rotation between whose two steps a logout runs.
  unfoldable pub rotate_across_logout : Session → State b → State b
  rotate_across_logout next st =
      let (kept, st') = rotate_memory b next st in (persist b kept (logout b st').1).1

  -- Two rotations, the second of which begins last and persists first.
  unfoldable pub rotate_twice_crossed : Session → Session → State b → State b
  rotate_twice_crossed first second st =
      let (kept, st') = rotate_memory b first st in
      (persist b kept (on_auth_rotated b second st')).1

  saved-keeps-current :
      (r : Result (Unit {0})) (st : State b) → (saved_flag b r st).current ≡ st.current
  saved-keeps-current (ok _) st = refl
  saved-keeps-current (err e) st = refl

  saved-IsSignedOut :
      (r : Result (Unit {0})) (st : State b) → IsSignedOut b st → IsSignedOut b (saved_flag b r st)
  saved-IsSignedOut (ok _) st h = record {
    client = h.client;
    raw = h.raw;
    current = h.current;
    keyrings = h.keyrings;
    cal_keyrings = h.cal_keyrings;
  }
  saved-IsSignedOut (err e) st h = record {
    client = h.client;
    raw = h.raw;
    current = h.current;
    keyrings = h.keyrings;
    cal_keyrings = h.cal_keyrings;
  }

  -- What stays of a session while its report changes.
  saved-keeps-raw : (r : Result (Unit {0})) (st : State b) → (saved_flag b r st).raw ≡ st.raw
  saved-keeps-raw (ok _) st = refl
  saved-keeps-raw (err e) st = refl

  saved-keeps-world : (r : Result (Unit {0})) (st : State b) → (saved_flag b r st).world ≡ st.world
  saved-keeps-world (ok _) st = refl
  saved-keeps-world (err e) st = refl

-- A logout that runs while a rotation is between its two steps is undone in the store: memory is
-- signed out, with no client, token or keyring left, and yet when the store takes the session it
-- holds the rotated tokens again (for a UID that is not empty).
pub rotate_across_logout-stored :
    (b : Backend) (laws : StoreLaws b.store) (next : Session) (st : State b)
    → next.uid ≢ ""
    → (b.store.save_session
        (rotate_memory b next st).0
        (logout b (rotate_memory b next st).1).1.world).0
      ≡ ok tt
    → IsSignedOut b (rotate_across_logout b next st)
      × (laws.session_of (rotate_across_logout b next st).world ≡ some (rotate_memory b next st).0)
unfolding rotate_across_logout rotate_memory
rotate_across_logout-stored b laws next st named h =
    let kept = kept_if next st.current.scope (next.scope == "") in
    let out = (logout b (rotate_memory b next st).1).1 in
    let r = b.store.save_session kept out.world in
    let left = (logout-IsSignedOut b laws (rotate_memory b next st).1).0 in
    (
      saved-IsSignedOut b r.0 (record out { world = r.1 })
          (record {
            client = left.client;
            raw = left.raw;
            current = left.current;
            keyrings = left.keyrings;
            cal_keyrings = left.cal_keyrings;
          }),
      ap laws.session_of (saved-keeps-world b r.0 (record out { world = r.1 }))
          ∙ laws.session_saved kept out.world
              (λ z. named (sym (kept-uid next st.current.scope (next.scope == "")) ∙ z)) h,
    )

-- Of two rotations that cross, memory and the raw client keep the tokens of the second and the
-- store, when it takes them, those of the first (for a first UID that is not empty).
pub rotate_twice_crossed-stored :
    (b : Backend) (laws : StoreLaws b.store) (first second : Session) (st : State b)
    → first.uid ≢ ""
    → (b.store.save_session
        (rotate_memory b first st).0
        (on_auth_rotated b second (rotate_memory b first st).1).world).0
      ≡ ok tt
    → ((rotate_twice_crossed b first second st).current.access_token ≡ second.access_token)
      × ((rotate_twice_crossed b first second st).current.refresh_token ≡ second.refresh_token)
      × ((rotate_twice_crossed b first second st).raw ≡ set_auth second.access_token second.uid)
      × (laws.session_of (rotate_twice_crossed b first second st).world
          ≡ some (rotate_memory b first st).0)
unfolding rotate_twice_crossed rotate_memory
rotate_twice_crossed-stored b laws first second st named h =
    let kept = kept_if first st.current.scope (first.scope == "") in
    let mid = on_auth_rotated b second (rotate_memory b first st).1 in
    let r = b.store.save_session kept mid.world in
    let latest = on_auth_rotated-IsRotated b laws second (rotate_memory b first st).1 in
    (
      ap (λ x. x.access_token) (saved-keeps-current b r.0 (record mid { world = r.1 }))
          ∙ latest.access_token,
      ap (λ x. x.refresh_token) (saved-keeps-current b r.0 (record mid { world = r.1 }))
          ∙ latest.refresh_token,
      saved-keeps-raw b r.0 (record mid { world = r.1 }) ∙ latest.raw,
      ap laws.session_of (saved-keeps-world b r.0 (record mid { world = r.1 }))
          ∙ laws.session_saved kept mid.world
              (λ z. named (sym (kept-uid first st.current.scope (first.scope == "")) ∙ z)) h,
    )

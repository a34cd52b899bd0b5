-- ===== src/Credfile/Contents.antt =====
-- The file backend as a store: what its document says is stored, and that each operation does to
-- the two bundles what a session expects.
use protonmail_mcp.Common.{
  String, Bool, true, false, Option, none, some, ◌≡◌, ◌≢◌, refl, ◌∙◌, sym, ap, arith, if◌then◌else◌,
  inl, inr, Bool-cases, ◌==◌, eq_iff,
}
use protonmail_mcp.Proterr.Chain.{
  keychain_not_found, not_exist, GoError, errors_is, Result, ok, err,
}
use protonmail_mcp.Exec.{ok-injective}
use protonmail_mcp.Keychain.{Creds, Session}
use protonmail_mcp.Store.{Store, StoreLaws}
use protonmail_mcp.Credfile.{
  Doc, empty_doc, Files, path, load, creds_of_loaded, session_of_loaded, cleared_of, save_creds,
  load_creds, save_session, load_session, clear,
}
use protonmail_mcp.Credfile.Laws.{FilesLaws}
use protonmail_mcp.Credfile.Loading.{held, Finds, load-Finds}
use protonmail_mcp.Credfile.Merging.{IsStart, Merges, merge-Merges}

abbrev pub file_store : {W : Type 0} → Files W → String → Store W
file_store fs dir = record {
  save_creds = save_creds fs dir;
  load_creds = load_creds fs dir;
  save_session = save_session fs dir;
  load_session = load_session fs dir;
  clear = clear fs dir;
}

-- The bundles of a document; one whose primary field is empty is not stored.
abbrev creds_in : Doc → Option Creds
creds_in d = if d.creds.username == "" then none else some d.creds

abbrev session_in : Doc → Option Session
session_in d = if d.session.uid == "" then none else some d.session

abbrev parsed : {A : Type 0} → (Doc → Option A) → Result Doc → Option A
parsed view (ok d) = view d
parsed view (err e) = none

module _ {A : Type 0} where
  value-if :
      (t : Bool) (x : GoError) (a c : A)
      → ◌≡◌ {A = Result A} (if t then err x else ok a) (ok c)
      → (if t then none else some a) ≡ some c
  value-if true x a c h = cc
  value-if false x a c h = ap some (ok-injective h)

  error-if :
      (t : Bool) (x e : GoError) (a : A)
      → ◌≡◌ {A = Result A} (if t then err x else ok a) (err e)
      → (if t then none else some a) ≡ none
  error-if true x e a h = refl
  error-if false x e a h = cc

  no-value :
      (t : Bool) (x e : GoError) (c : A) → ◌≢◌ {A = Result A} (if t then err x else err e) (ok c)
  no-value true x e c h = cc
  no-value false x e c h = cc

  missing-if :
      (t : Bool) (x e y : GoError)
      → ◌≡◌ {A = Result A} (if t then err x else err e) (err y)
      → errors_is e keychain_not_found ≡ false
      → errors_is y keychain_not_found ≡ true
      → t ≡ true
  missing-if true x e y h f n = refl
  missing-if false x e y h f n = cc

module _ {W : Type 0} (fs : Files W) (dir : String) (laws : FilesLaws fs dir) where
  abbrev pub view_of : {A : Type 0} → (Doc → Option A) → Option fs.Bytes → Option A
  view_of view none = none
  view_of view (some t) = parsed view (fs.unmarshal t)

  abbrev pub creds_of : W → Option Creds
  creds_of w = view_of creds_in (held fs dir laws w)

  abbrev pub session_of : W → Option Session
  session_of w = view_of session_in (held fs dir laws w)

  -- The file holds the encoding of the document.
  view-written :
      {A : Type 0} (view : Doc → Option A) (d : Doc) (b : fs.Bytes) (o : Option fs.Bytes)
      → fs.marshal d ≡ ok b
      → o ≡ some b
      → view_of view o ≡ view d
  view-written view d b o m h = ap (view_of view) h ∙ ap (parsed view) (laws.read_back d b m)

  view-start :
      {A : Type 0} (view : Doc → Option A) (w : W) (d : Doc)
      → view empty_doc ≡ none
      → IsStart fs dir laws w d
      → view_of view (held fs dir laws w) ≡ view d
  view-start view w d empty start = elim start.is_start [
    | inl (missing, same) ↦ ap (view_of view) missing ∙ sym empty ∙ sym (ap view same)
    | inr (t, found, read) ↦ ap (view_of view) found ∙ ap (parsed view) read
  ]

  creds_named : (d : Doc) → d.creds.username ≢ "" → creds_in d ≡ some d.creds
  creds_named d n = elim (Bool-cases (d.creds.username == "")) [
    | inl blank ↦ absurd (n ((eq_iff d.creds.username "").0 blank))
    | inr given ↦ ap (λ t. if t then none else some d.creds) given
  ]

  session_named : (d : Doc) → d.session.uid ≢ "" → session_in d ≡ some d.session
  session_named d n = elim (Bool-cases (d.session.uid == "")) [
    | inl blank ↦ absurd (n ((eq_iff d.session.uid "").0 blank))
    | inr given ↦ ap (λ t. if t then none else some d.session) given
  ]

  creds-Merges :
      (c : Creds) (w : W)
      → Merges fs dir laws (λ d. record d { creds = c }) w (save_creds fs dir c w)
  unfolding save_creds
  creds-Merges c w = merge-Merges fs dir laws (λ d. record d { creds = c }) w

  session-Merges :
      (s : Session) (w : W)
      → Merges fs dir laws (λ d. record d { session = s }) w (save_session fs dir s w)
  unfolding save_session
  session-Merges s w = merge-Merges fs dir laws (λ d. record d { session = s }) w

  -- What a load returns for a bundle of a document, by whether its primary field is empty.
  document-view :
      {A : Type 0} (view : Doc → Option A) (w : W) (d : Doc)
      → Finds fs dir laws w (ok d)
      → view_of view (held fs dir laws w) ≡ view d
  document-view view w d finds =
      let (t, found, read) = finds.document d refl in
      ap (view_of view) found ∙ ap (parsed view) read

  loaded_creds :
      (w : W) (r : Result Doc)
      → Finds fs dir laws w r
      → ((c : Creds) → creds_of_loaded fs dir r ≡ ok c → creds_of w ≡ some c)
        × ((e : GoError)
            → creds_of_loaded fs dir r ≡ err e
            → errors_is e keychain_not_found ≡ true
            → creds_of w ≡ none)
  loaded_creds w (ok d) finds = (
    λ c h. document-view creds_in w d finds ∙ value-if (d.creds.username == "") _ _ c h,
    λ e h _. document-view creds_in w d finds ∙ error-if (d.creds.username == "") _ e _ h,
  )
  loaded_creds w (err e) finds = (
    λ c h. absurd (no-value (errors_is e not_exist) _ _ c h),
    λ x h n. ap (view_of creds_in) (
        finds.absent e refl
          (missing-if {A = Creds} (errors_is e not_exist) _ e x h (finds.foreign e refl) n)),
  )

  loaded_session :
      (w : W) (r : Result Doc)
      → Finds fs dir laws w r
      → ((s : Session) → session_of_loaded fs dir r ≡ ok s → session_of w ≡ some s)
        × ((e : GoError)
            → session_of_loaded fs dir r ≡ err e
            → errors_is e keychain_not_found ≡ true
            → session_of w ≡ none)
  loaded_session w (ok d) finds = (
    λ c h. document-view session_in w d finds ∙ value-if (d.session.uid == "") _ _ c h,
    λ e h _. document-view session_in w d finds ∙ error-if (d.session.uid == "") _ e _ h,
  )
  loaded_session w (err e) finds = (
    λ c h. absurd (no-value (errors_is e not_exist) _ _ c h),
    λ x h n. ap (view_of session_in) (
        finds.absent e refl
          (missing-if {A = Session} (errors_is e not_exist) _ e x h (finds.foreign e refl) n)),
  )

  load_creds-eq : (w : W) → (load_creds fs dir w).0 ≡ creds_of_loaded fs dir (load fs dir w).0
  unfolding load_creds
  load_creds-eq w = refl

  load_session-eq : (w : W) → (load_session fs dir w).0 ≡ session_of_loaded fs dir (load fs dir w).0
  unfolding load_session
  load_session-eq w = refl

  cleared-none :
      (w : W) (p : Result (Unit {0}) × W)
      → p ≡ fs.remove (path fs dir) w
      → (cleared_of fs dir p).0 ≡ ok tt
      → held fs dir laws (cleared_of fs dir p).1 ≡ none
  cleared-none w (ok _, s) q h =
      ap (λ r. held fs dir laws r.1) q ∙ laws.removes (path fs dir) w (ap (λ r. r.0) (sym q))
  cleared-none w (err e, s) q h = elim (Bool-cases (errors_is e not_exist)) [
    | inl missing ↦ rw missing (
        ap (λ r. held fs dir laws r.1) q
        ∙ laws.removes_nothing (path fs dir) e w (ap (λ r. r.0) (sym q)) missing)
    | inr other ↦ absurd (ground (arith, h, other))
  ]

  clear-none : (w : W) → (clear fs dir w).0 ≡ ok tt → held fs dir laws (clear fs dir w).1 ≡ none
  unfolding clear
  clear-none w h = cleared-none w (fs.remove (path fs dir) w) refl h

  -- The file backend is a store: what it saved is what is stored and what it loads, the two
  -- bundles do not touch one another, a load reports `keychain.ErrNotFound` only of a bundle that
  -- is not stored, and clearing that succeeds leaves neither.
  pub file_laws : StoreLaws (file_store fs dir)
  file_laws = record {
    creds_of = creds_of;
    session_of = session_of;
    creds_saved = λ c w named h.
        let (d, b, start, m, k) = (creds-Merges c w).done h in
        view-written creds_in (record d { creds = c }) b _ m k
        ∙ creds_named (record d { creds = c }) named;
    creds_saved_apart = λ c w h.
        let (d, b, start, m, k) = (creds-Merges c w).done h in
        view-written session_in (record d { creds = c }) b _ m k
        ∙ sym (view-start session_in w d refl start);
    session_saved = λ s w named h.
        let (d, b, start, m, k) = (session-Merges s w).done h in
        view-written session_in (record d { session = s }) b _ m k
        ∙ session_named (record d { session = s }) named;
    session_saved_apart = λ s w h.
        let (d, b, start, m, k) = (session-Merges s w).done h in
        view-written creds_in (record d { session = s }) b _ m k
        ∙ sym (view-start creds_in w d refl start);
    creds_loaded = λ c w h.
        (loaded_creds w (load fs dir w).0 (load-Finds fs dir laws w).0).0 c
          (sym (load_creds-eq w) ∙ h);
    session_loaded = λ s w h.
        (loaded_session w (load fs dir w).0 (load-Finds fs dir laws w).0).0 s
          (sym (load_session-eq w) ∙ h);
    creds_missing = λ e w h n.
        (loaded_creds w (load fs dir w).0 (load-Finds fs dir laws w).0).1 e
          (sym (load_creds-eq w) ∙ h) n;
    session_missing = λ e w h n.
        (loaded_session w (load fs dir w).0 (load-Finds fs dir laws w).0).1 e
          (sym (load_session-eq w) ∙ h) n;
    cleared =
        λ w h. (ap (view_of creds_in) (clear-none w h), ap (view_of session_in) (clear-none w h));
  }

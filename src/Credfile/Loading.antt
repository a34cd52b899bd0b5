-- ===== src/Credfile/Loading.antt =====
-- What a load finds in the credentials file.
use protonmail_mcp.Common.{
  String, Bool, true, false, Option, none, some, ◌≡◌, ◌≢◌, refl, ◌∙◌, sym, ap, subst, ◌<>◌,
}
use protonmail_mcp.Proterr.Chain.{
  keychain_not_found, not_exist, GoError, wrap, errors_is, find_first, Result, ok, err,
}
use protonmail_mcp.Exec.{with_error, continue, adjust}
use protonmail_mcp.Keyring.{lift}
use protonmail_mcp.Credfile.{Doc, Files, path, load}
use protonmail_mcp.Credfile.Laws.{FilesLaws}
use protonmail_mcp.Credfile.Saving.{file}

err-injective : {A : Type 0} {a b : GoError} → ◌≡◌ {A = Result A} (err a) (err b) → a ≡ b
err-injective h = cc

true-false : {b : Bool} → b ≡ true → b ≢ false
true-false h k = cc

module _ {W : Type 0} (fs : Files W) (dir : String) (laws : FilesLaws fs dir) where
  abbrev pub held : W → Option fs.Bytes
  held = file fs dir laws

  -- What the load of a state returns says of the file.
  pub record Finds (s : W) (r : Result Doc) : Type 0 where
    pub document :
        (d : Doc) → r ≡ ok d → (t : fs.Bytes) × (held s ≡ some t) × (fs.unmarshal t ≡ ok d)
    pub absent : (e : GoError) → r ≡ err e → errors_is e not_exist ≡ true → held s ≡ none
    pub foreign : (e : GoError) → r ≡ err e → errors_is e keychain_not_found ≡ false

  parsed-Finds :
      (s s' : W) (t : fs.Bytes) (before : String)
      → held s ≡ some t
      → (r : Result Doc) → r ≡ fs.unmarshal t
      → Finds s (adjust (λ e. wrap before e "") (r, s')).0
  unfolding errors_is find_first
  parsed-Finds s s' t before h (ok d) q = record {
    document = λ x g. (t, h, sym q ∙ g);
    absent = λ e g _. cc;
    foreign = λ e g. cc;
  }
  parsed-Finds s s' t before h (err e) q = record {
    document = λ x g. cc;
    absent = λ x g n. absurd (
        true-false (subst (λ y. errors_is y not_exist ≡ true) (sym (err-injective g)) n)
          (laws.unmarshal_foreign t e (sym q)).0);
    foreign = λ x g.
        subst (λ y. errors_is y keychain_not_found ≡ false) (err-injective g)
          (laws.unmarshal_foreign t e (sym q)).1;
  }

  read-Finds :
      (s : W) (p : Result fs.Bytes × W)
      → p ≡ fs.read_file (path fs dir) s
      → Finds s
          (continue
            (λ b.
              with_error
                (λ e. wrap ("credfile parse " <> path fs dir <> ": ") e "")
                (lift (fs.unmarshal b)))
            p).0
        × (held
              (continue
                (λ b.
                  with_error
                    (λ e. wrap ("credfile parse " <> path fs dir <> ": ") e "")
                    (lift (fs.unmarshal b)))
                p).1
            ≡ held s)
  read-Finds s (ok t, s') q = (
    parsed-Finds s s' t _ (laws.reads (path fs dir) t s (ap (λ r. r.0) (sym q))) (fs.unmarshal t)
        refl,
    lifted (fs.unmarshal t) ∙ ap (λ r. held r.1) q ∙ laws.read_keeps (path fs dir) (path fs dir) s,
  )
    where
      lifted :
          (r : Result Doc)
          → held (adjust (λ e. wrap ("credfile parse " <> path fs dir <> ": ") e "") (r, s')).1
            ≡ held s'
      lifted (ok d) = refl
      lifted (err e) = refl
  read-Finds s (err e, s') q = (
    record {
      document = λ x g. cc;
      absent = λ x g n.
          laws.reads_nothing (path fs dir) e s (ap (λ r. r.0) (sym q))
            (subst (λ y. errors_is y not_exist ≡ true) (sym (err-injective g)) n);
      foreign = λ x g.
          subst (λ y. errors_is y keychain_not_found ≡ false) (err-injective g)
            (laws.read_foreign (path fs dir) e s (ap (λ r. r.0) (sym q)));
    },
    ap (λ r. held r.1) q ∙ laws.read_keeps (path fs dir) (path fs dir) s,
  )

  pub load-Finds : (s : W) → Finds s (load fs dir s).0 × (held (load fs dir s).1 ≡ held s)
  unfolding load
  load-Finds s = read-Finds s (fs.read_file (path fs dir) s) refl

-- ===== src/Credfile/Saving.antt =====
-- What each step of a save does to the credentials file.
use protonmail_mcp.Common.{String, Option, some, ◌≡◌, ◌≢◌, refl, ◌∙◌, sym, ap}
use protonmail_mcp.Proterr.Chain.{GoError, wrap, Result, ok, err}
use protonmail_mcp.Exec.{Exec, with_error, context, continue, adjust, ◌>>=◌}
use protonmail_mcp.Credfile.{Files, path, or_close, or_close_of, fill_and_rename, save_temp}
use protonmail_mcp.Credfile.Laws.{FilesLaws}

module _ {W : Type 0} (fs : Files W) (dir : String) (laws : FilesLaws fs dir) where
  open laws use {contents}

  -- What the credentials file holds.
  abbrev pub file : W → Option fs.Bytes
  file w = contents w (path fs dir)

  -- After `m` the file holds `b` if it succeeds, and is as it was if it fails.
  pub record Atomic {A : Type 0} (b : fs.Bytes) (w : W) (p : Result A × W) : Type 0 where
    pub done : (a : A) → p.0 ≡ ok a → file p.1 ≡ some b
    pub undone : (e : GoError) → p.0 ≡ err e → file p.1 ≡ file w

  module _ (b : fs.Bytes) (w : W) where
    -- From a state with `P`, the action is atomic with respect to `w`.
    pub record Ends {A : Type 0} (P : W → Type 0) (m : Exec W A) : Type 0 where
      pub at : (s : W) → P s → Atomic b w (m s)

    continue-Atomic :
        {A B : Type 0} (Q : W → Type 0) (n : A → Exec W B)
        → ((a : A) → Ends Q (n a))
        → (p : Result A × W) → ((a : A) → p.0 ≡ ok a → Q p.1)
        → ((e : GoError) → p.0 ≡ err e → file p.1 ≡ file w)
        → Atomic b w (continue n p)
    continue-Atomic Q n k (ok a, s) g f = (k a).at s (g a refl)
    continue-Atomic Q n k (err e, s) g f = record { done = λ a h. cc; undone = λ x h. f e refl }

    -- A step that leaves a state with `Q` if it succeeds, and the file as it was if it fails.
    pub record Steps {A : Type 0} (P Q : W → Type 0) (m : Exec W A) : Type 0 where
      pub onward : (s : W) (a : A) → P s → (m s).0 ≡ ok a → Q (m s).1
      pub failed : (s : W) (e : GoError) → P s → (m s).0 ≡ err e → file (m s).1 ≡ file w

    pub Ends-bind :
        {A B : Type 0} (P Q : W → Type 0) (m : Exec W A) (n : A → Exec W B)
        → Steps P Q m
        → ((a : A) → Ends Q (n a))
        → Ends P (m >>= n)
    Ends-bind P Q m n k l = record {
      at = λ s h. continue-Atomic Q n l (m s) (λ a g. k.onward s a h g) (λ e g. k.failed s e h g);
    }

    -- The file is as at the start.
    pub record Same (s : W) : Type 0 where
      pub same : file s ≡ file w

    -- A step with context.
    adjust-Steps :
        {A : Type 0} (Q : W → Type 0) (f : GoError → GoError) (p : Result A × W)
        → ((a : A) → p.0 ≡ ok a → Q p.1)
        → ((e : GoError) → p.0 ≡ err e → file p.1 ≡ file w)
        → ((a : A) → (adjust f p).0 ≡ ok a → Q (adjust f p).1)
          × ((e : GoError) → (adjust f p).0 ≡ err e → file (adjust f p).1 ≡ file w)
    adjust-Steps Q f (ok a, s) g k = (λ x h. g a refl, λ e h. cc)
    adjust-Steps Q f (err e, s) g k = (λ a h. cc, λ x h. k e refl)

    pub with_error-Steps :
        {A : Type 0} (P Q : W → Type 0) (f : GoError → GoError) (m : Exec W A)
        → Steps P Q m
        → Steps P Q (with_error f m)
    with_error-Steps P Q f m k = record {
      onward = λ s a h. (adjust-Steps Q f (m s) (λ a. k.onward s a h) (λ e. k.failed s e h)).0 a;
      failed = λ s e h. (adjust-Steps Q f (m s) (λ a. k.onward s a h) (λ e. k.failed s e h)).1 e;
    }

    closed-Steps :
        (Q : W → Type 0) (before tmp : String) (p : Result (Unit {0}) × W)
        → ((a : Unit {0}) → p.0 ≡ ok a → Q p.1)
        → ((e : GoError) → p.0 ≡ err e → file p.1 ≡ file w)
        → ((a : Unit {0})
            → (or_close_of fs dir before tmp p).0 ≡ ok a
            → Q (or_close_of fs dir before tmp p).1)
          × ((e : GoError)
              → (or_close_of fs dir before tmp p).0 ≡ err e
              → file (or_close_of fs dir before tmp p).1 ≡ file w)
    closed-Steps Q before tmp (ok _, s) g k = (λ x h. g tt refl, λ e h. cc)
    closed-Steps Q before tmp (err e, s) g k =
        (λ a h. cc, λ x h. laws.close_keeps tmp (path fs dir) s ∙ k e refl)

    or_close-Steps :
        (P Q : W → Type 0) (before tmp : String) (m : Exec W (Unit {0}))
        → Steps P Q m
        → Steps P Q (or_close fs dir before tmp m)
    or_close-Steps P Q before tmp m k = record {
      onward = λ s a h.
          (closed-Steps Q before tmp (m s) (λ a. k.onward s a h) (λ e. k.failed s e h)).0 a;
      failed = λ s e h.
          (closed-Steps Q before tmp (m s) (λ a. k.onward s a h) (λ e. k.failed s e h)).1 e;
    }

    -- The file is as at the start and the temporary file is written.
    record Written (tmp : String) (s : W) : Type 0 where
      pub same : file s ≡ file w
      pub written : contents s tmp ≡ some b

    keeps-Same :
        {A : Type 0} (m : Exec W A)
        → ((s : W) → contents (m s).1 (path fs dir) ≡ contents s (path fs dir))
        → Steps Same Same m
    keeps-Same m k = record {
      onward = λ s a h _. record { same = k s ∙ h.same };
      failed = λ s e h _. k s ∙ h.same;
    }

    keeps-Written :
        (tmp : String) (m : Exec W (Unit {0}))
        → ((q : String) (s : W) → contents (m s).1 q ≡ contents s q)
        → Steps (Written tmp) (Written tmp) m
    keeps-Written tmp m k = record {
      onward =
          λ s a h _. record { same = k (path fs dir) s ∙ h.same; written = k tmp s ∙ h.written };
      failed = λ s e h _. k (path fs dir) s ∙ h.same;
    }

    write-Steps : (tmp : String) → tmp ≢ path fs dir → Steps Same (Written tmp) (fs.write tmp b)
    write-Steps tmp apart = record {
      onward = λ s a h done. record {
        same = laws.write_apart tmp b (path fs dir) s apart ∙ h.same;
        written = laws.writes tmp b s done;
      };
      failed = λ s e h _. laws.write_apart tmp b (path fs dir) s apart ∙ h.same;
    }

    rename-Atomic :
        (tmp : String) (s : W)
        → Written tmp s
        → (p : Result (Unit {0}) × W) → p ≡ fs.rename tmp (path fs dir) s
        → Atomic b w (adjust (λ e. wrap "credfile rename: " e "") p)
    rename-Atomic tmp s h (ok _, s') q = record {
      done = λ a _.
          ap (λ r. file r.1) q
          ∙ laws.renames tmp (path fs dir) s (ap (λ r. r.0) (sym q))
          ∙ h.written;
      undone = λ e x. cc;
    }
    rename-Atomic tmp s h (err e, s') q = record {
      done = λ a x. cc;
      undone = λ x _.
          ap (λ r. file r.1) q
          ∙ laws.rename_fails tmp (path fs dir) (path fs dir) e s (ap (λ r. r.0) (sym q))
          ∙ h.same;
    }

    fill-Ends : (tmp : String) → tmp ≢ path fs dir → Ends Same (fill_and_rename fs dir tmp b)
    unfolding fill_and_rename
    fill-Ends tmp apart =
        Ends-bind Same Same (or_close fs dir "credfile chmod: " tmp (fs.chmod tmp)) _
          (or_close-Steps _ _ _ _ (fs.chmod tmp)
            (keeps-Same (fs.chmod tmp) (laws.chmod_keeps tmp (path fs dir))))
          λ _.
            Ends-bind Same (Written tmp) (or_close fs dir "credfile write: " tmp (fs.write tmp b)) _
              (or_close-Steps _ _ _ _ (fs.write tmp b) (write-Steps tmp apart))
              λ _.
                Ends-bind (Written tmp) (Written tmp)
                  (or_close fs dir "credfile sync: " tmp (fs.sync tmp)) _
                  (or_close-Steps _ _ _ _ (fs.sync tmp)
                    (keeps-Written tmp (fs.sync tmp) (laws.sync_keeps tmp)))
                  λ _.
                    Ends-bind (Written tmp) (Written tmp)
                      (context "credfile close: " (fs.close tmp)) _
                      (with_error-Steps _ _ _ (fs.close tmp)
                        (keeps-Written tmp (fs.close tmp) (laws.close_keeps tmp)))
                      λ _. record { at = λ s h. rename-Atomic tmp s h _ refl }

    pub save_temp-Ends : (tmp : String) → tmp ≢ path fs dir → Ends Same (save_temp fs dir b tmp)
    unfolding save_temp
    save_temp-Ends tmp apart = record {
      at = λ s h.
          let inner = (fill-Ends tmp apart).at s h in
          let r = fill_and_rename fs dir tmp b s in
          record {
            done = λ a g. laws.remove_apart tmp (path fs dir) r.1 apart ∙ inner.done a g;
            undone = λ e g. laws.remove_apart tmp (path fs dir) r.1 apart ∙ inner.undone e g;
          };
    }

-- ===== src/Credfile/Merging.antt =====
-- What a merge writes to the credentials file.
use protonmail_mcp.Common.{
  String, Bool, true, false, Option, none, some, ◌≡◌, refl, ◌∙◌, sym, ap, if◌then◌else◌, ◌⊎◌, inl,
  inr,
}
use protonmail_mcp.Proterr.Chain.{not_exist, GoError, wrap, errors_is, Result, ok, err}
use protonmail_mcp.Exec.{Exec, context, continue, adjust, ◌>>=◌}
use protonmail_mcp.Exec.Rules.{Preserves, preserving}
use protonmail_mcp.Keyring.{lift}
use protonmail_mcp.Credfile.{
  Doc, empty_doc, Files, path, lock_path, load, save_temp, save, prepare_dir, ensure_dir_safe,
  lock_failed, take_lock, lock, merge_locked, merge, deferred, loaded_or_empty,
}
use protonmail_mcp.Credfile.Laws.{FilesLaws}
use protonmail_mcp.Credfile.Saving.{save_temp-Ends}
use protonmail_mcp.Credfile.Loading.{held, Finds, load-Finds}

module _ {W : Type 0} (fs : Files W) (dir : String) (laws : FilesLaws fs dir) where
  abbrev at_path : W → Option fs.Bytes
  at_path = held fs dir laws

  -- After a save that succeeds the file holds the document, and after one that fails what it at_path.
  record Saves (d : Doc) (w : W) (p : Result (Unit {0}) × W) : Type 0 where
    pub done : p.0 ≡ ok tt → (b : fs.Bytes) × (fs.marshal d ≡ ok b) × (at_path p.1 ≡ some b)
    pub undone : (e : GoError) → p.0 ≡ err e → at_path p.1 ≡ at_path w

  temp-Saves :
      (d : Doc) (w s : W) (b : fs.Bytes)
      → at_path s ≡ at_path w
      → fs.marshal d ≡ ok b
      → (p : Result String × W) → p ≡ fs.create_temp dir s
      → Saves d w (continue (save_temp fs dir b) (adjust (λ e. wrap "credfile temp: " e "") p))
  temp-Saves d w s b h m (ok t, s') q =
      let same = ap (λ r. at_path r.1) q ∙ laws.temp_apart s ∙ h in
      let atomic =
        (save_temp-Ends fs dir laws b w t (laws.temp_new t s (ap (λ r. r.0) (sym q)))).at s'
          (record { same = same }) in
      record { done = λ g. (b, m, atomic.done tt g); undone = atomic.undone }
  temp-Saves d w s b h m (err e, s') q = record {
    done = λ g. cc;
    undone = λ x g. ap (λ r. at_path r.1) q ∙ laws.temp_apart s ∙ h;
  }

  marshalled-Saves :
      (d : Doc) (w s : W)
      → at_path s ≡ at_path w
      → (r : Result fs.Bytes) → r ≡ fs.marshal d
      → Saves d w (
          continue
            (λ b. context "credfile temp: " (fs.create_temp dir) >>= save_temp fs dir b)
            (adjust (λ e. wrap "credfile marshal: " e "") (r, s)))
  marshalled-Saves d w s h (ok b) q = temp-Saves d w s b h (sym q) (fs.create_temp dir s) refl
  marshalled-Saves d w s h (err e) q = record { done = λ g. cc; undone = λ x g. h }

  save-Saves : (d : Doc) (w s : W) → at_path s ≡ at_path w → Saves d w (save fs dir d s)
  unfolding save
  save-Saves d w s h = marshalled-Saves d w s h (fs.marshal d) refl

  -- The document that a merge starts from.
  pub record IsStart (w : W) (d : Doc) : Type 0 where
    pub is_start :
        ((at_path w ≡ none) × (d ≡ empty_doc))
        ⊎ ((t : fs.Bytes) × (at_path w ≡ some t) × (fs.unmarshal t ≡ ok d))

  pub record Merges (f : Doc → Doc) (w : W) (p : Result (Unit {0}) × W) : Type 0 where
    pub done :
        p.0 ≡ ok tt
        → (d : Doc) × (b : fs.Bytes) × IsStart w d
          × (fs.marshal (f d) ≡ ok b)
          × (at_path p.1 ≡ some b)
    pub undone : (e : GoError) → p.0 ≡ err e → at_path p.1 ≡ at_path w

  merged-Merges :
      (f : Doc → Doc) (w s : W) (d : Doc)
      → at_path s ≡ at_path w
      → IsStart w d
      → Merges f w (save fs dir (f d) s)
  merged-Merges f w s d h start =
      let saved = save-Saves (f d) w s h in
      record {
        done = λ g. let (b, m, k) = saved.done g in (d, b, start, m, k);
        undone = saved.undone;
      }

  Merges-if :
      (f : Doc → Doc) (w s : W) (e : GoError) (t : Bool)
      → at_path s ≡ at_path w
      → (t ≡ true → at_path w ≡ none)
      → Merges f w (continue (λ d. save fs dir (f d)) ((if t then ok empty_doc else err e), s))
  Merges-if f w s e true h n =
      merged-Merges f w s empty_doc h (record { is_start = inl (n refl, refl) })
  Merges-if f w s e false h n = record { done = λ g. cc; undone = λ x g. h }

  loaded-Merges :
      (f : Doc → Doc) (w s : W) (p : Result Doc × W)
      → at_path p.1 ≡ at_path w
      → Finds fs dir laws s p.0
      → at_path s ≡ at_path w
      → Merges f w (continue (λ d. save fs dir (f d)) (loaded_or_empty fs dir p.0, p.1))
  loaded-Merges f w s (ok d, s') k finds h =
      let (t, g, u) = finds.document d refl in
      merged-Merges f w s' d k (record { is_start = inr (t, sym h ∙ g, u) })
  loaded-Merges f w s (err e, s') k finds h =
      Merges-if f w s' e (errors_is e not_exist) k (λ n. sym h ∙ finds.absent e refl n)

  merge_locked-Merges :
      (f : Doc → Doc) (w s : W) → at_path s ≡ at_path w → Merges f w (merge_locked fs dir f s)
  unfolding merge_locked
  merge_locked-Merges f w s h =
      let (finds, keeps) = load-Finds fs dir laws s in
      loaded-Merges f w s (load fs dir s) (keeps ∙ h) finds h

  -- A step that does not touch the file, before a merge.
  continue-Merges :
      {A : Type 0} (f : Doc → Doc) (w : W) (n : A → Exec W (Unit {0}))
      → ((a : A) (s : W) → at_path s ≡ at_path w → Merges f w (n a s))
      → (p : Result A × W) → at_path p.1 ≡ at_path w
      → Merges f w (continue n p)
  continue-Merges f w n k (ok a, s) h = k a s h
  continue-Merges f w n k (err e, s) h = record { done = λ g. cc; undone = λ x g. h }

  adjust-at_path :
      {A : Type 0} (f : GoError → GoError) (p : Result A × W) → at_path (adjust f p).1 ≡ at_path p.1
  adjust-at_path f (ok a, s) = refl
  adjust-at_path f (err e, s) = refl

module _ {W : Type 0} (fs : Files W) (dir : String) (laws : FilesLaws fs dir) (w : W) where
  -- The file is as in `w`.
  record Unmoved (s : W) : Type 0 where
    pub unmoved : held fs dir laws s ≡ held fs dir laws w

  mkdir-Unmoved : Preserves Unmoved (fs.mkdir_all dir)
  mkdir-Unmoved = record {
    at = λ s h. record { unmoved = laws.mkdir_keeps dir (path fs dir) s ∙ h.unmoved };
  }

  lstat-Unmoved : Preserves Unmoved (fs.lstat dir)
  lstat-Unmoved = record {
    at = λ s h. record { unmoved = laws.lstat_keeps dir (path fs dir) s ∙ h.unmoved };
  }

  chmod-Unmoved : Preserves Unmoved (fs.chmod dir)
  chmod-Unmoved = record {
    at = λ s h. record { unmoved = laws.chmod_keeps dir (path fs dir) s ∙ h.unmoved };
  }

  open-Unmoved : Preserves Unmoved (fs.open_lock (lock_path fs dir))
  open-Unmoved = record { at = λ s h. record { unmoved = laws.open_keeps s ∙ h.unmoved } }

  lift-Unmoved : {A : Type 0} (r : Result A) → Preserves Unmoved (lift r)
  lift-Unmoved r = record { at = λ s h. h }

  taken-Unmoved : (p : Result (Unit {0}) × W) → Unmoved p.1 → Unmoved (lock_failed fs dir p).1
  taken-Unmoved (ok _, s) h = h
  taken-Unmoved (err e, s) h = record {
    unmoved = laws.close_keeps (lock_path fs dir) (path fs dir) s ∙ h.unmoved;
  }

  take_lock-Unmoved : Preserves Unmoved (take_lock fs dir)
  take_lock-Unmoved = record {
    at = λ s h.
        taken-Unmoved (fs.flock_exclusive (lock_path fs dir) s)
          (record { unmoved = laws.flock_keeps (lock_path fs dir) (path fs dir) s ∙ h.unmoved });
  }

  ruleset unmoving = (
    preserving, mkdir-Unmoved, lstat-Unmoved, chmod-Unmoved, open-Unmoved, lift-Unmoved,
    take_lock-Unmoved,
  )

  prepare_dir-Unmoved : Preserves Unmoved (prepare_dir fs dir)
  unfolding prepare_dir ensure_dir_safe
  prepare_dir-Unmoved = search unmoving depth 9

  lock-Unmoved : Preserves Unmoved (lock fs dir)
  unfolding lock
  lock-Unmoved = search unmoving depth 9

  released-Merges :
      (f : Doc → Doc) (p : Result (Unit {0}) × W)
      → Merges fs dir laws f w p
      → Merges fs dir laws f w (
          deferred fs dir
            (λ s. (fs.close (lock_path fs dir) (fs.flock_unlock (lock_path fs dir) s)).1)
            p)
  released-Merges f p h =
      let same : (s : W)
          → held fs dir laws (fs.close (lock_path fs dir) (fs.flock_unlock (lock_path fs dir) s)).1
            ≡ held fs dir laws s =
        λ s. laws.close_keeps _ _ _ ∙ laws.unlock_keeps _ _ s in
      record {
        done = λ g. let (d, b, start, m, k) = h.done g in (d, b, start, m, same p.1 ∙ k);
        undone = λ e g. same p.1 ∙ h.undone e g;
      }

-- A merge that succeeds leaves the encoding of the changed document, which it took from the file
-- or, if there was none, from the empty document. A merge that fails, at whatever step, leaves the
-- file as it was.
pub merge-Merges :
    {W : Type 0} (fs : Files W) (dir : String) (laws : FilesLaws fs dir) (f : Doc → Doc) (w : W)
    → Merges fs dir laws f w (merge fs dir f w)
unfolding merge
merge-Merges fs dir laws f w =
    let start : Unmoved fs dir laws w w = record { unmoved = refl } in
    continue-Merges fs dir laws f w _
      (λ _ s h.
        continue-Merges fs dir laws f w _
          (λ _ s h. released-Merges fs dir laws w f _ (merge_locked-Merges fs dir laws f w s h))
          (lock fs dir s) ((lock-Unmoved fs dir laws w).at s (record { unmoved = h })).unmoved)
      (prepare_dir fs dir w) ((prepare_dir-Unmoved fs dir laws w).at w start).unmoved

-- ===== src/Tests/Disks.antt =====
-- A file system to compute with: a map from names to contents; its bytes are the documents themselves.
use protonmail_mcp.Common.{
  String, true, false, Option, none, some, ◌≡◌, ◌≢◌, refl, ◌∙◌, sym, ap, subst, ◌==◌, eq_refl,
  eq_iff, Bool-cases, inl, inr, if◌then◌else◌,
}
use protonmail_mcp.Proterr.Chain.{
  keychain_not_found, not_exist, GoError, sentinel, errors_is, find_first, Result, ok, err,
}
use protonmail_mcp.Store.{StoreLaws}
use protonmail_mcp.Exec.{ok-injective}
use protonmail_mcp.Credfile.{Doc, Files, merge}
use protonmail_mcp.Credfile.Laws.{FilesLaws}
use protonmail_mcp.Credfile.Merging.{Merges, merge-Merges}
use protonmail_mcp.Credfile.Contents.{file_store, file_laws}

abbrev Names : Type 0
Names = String → Option Doc

abbrev pub read_of : Option Doc → Result Doc
read_of none = err (sentinel not_exist)
read_of (some d) = ok d

abbrev update : String → Option Doc → Names → Names
update p o m q = if p == q then o else m q

-- A file system on which only the reading of a missing file fails.
abbrev pub model_files : Files Names
model_files = record {
  Bytes = Doc;
  marshal = λ d. ok d;
  unmarshal = λ d. ok d;
  read_file = λ p m. (read_of (m p), m);
  mkdir_all = λ p m. (ok tt, m);
  lstat = λ p m. (ok (record { is_symlink = false; owned_by_current_user = true }), m);
  chmod = λ p m. (ok tt, m);
  open_lock = λ p m. (ok tt, m);
  flock_exclusive = λ p m. (ok tt, m);
  flock_unlock = λ p m. m;
  create_temp = λ dir m. (ok "tmp", m);
  write = λ p d m. (ok tt, update p (some d) m);
  sync = λ p m. (ok tt, m);
  close = λ p m. (ok tt, m);
  rename = λ p q m. (ok tt, update q (m p) m);
  remove = λ p m. (ok tt, update p none m);
  join_path = λ d f. f;
}

pub read_ok : (o : Option Doc) (d : Doc) → read_of o ≡ ok d → o ≡ some d
read_ok none d h = cc
read_ok (some x) d h = ap some (ok-injective h)

pub read_err :
    (o : Option Doc) (e : GoError)
    → read_of o ≡ err e
    → (o ≡ none) × (errors_is e keychain_not_found ≡ false)
unfolding errors_is find_first
read_err none e h =
    let same : sentinel not_exist ≡ e = cc in
    (refl, subst (λ x. errors_is x keychain_not_found ≡ false) same refl)
read_err (some x) e h = cc

update-same : (p : String) (o : Option Doc) (m : Names) → update p o m p ≡ o
update-same p o m = rw (eq_refl p) refl

update-apart : (p q : String) (o : Option Doc) (m : Names) → p ≢ q → update p o m q ≡ m q
update-apart p q o m n = elim (Bool-cases (p == q)) [
  | inl same ↦ absurd (n ((eq_iff p q).0 same))
  | inr other ↦ rw other refl
]

names_differ : ◌≢◌ {A = String} "tmp" "credentials.json"
names_differ h = cc

pub model_files_laws : FilesLaws model_files "/state"
model_files_laws = record {
  contents = λ m p. m p;
  read_back = λ d b h. ap ok (sym (ok-injective h));
  unmarshal_foreign = λ b e h. cc;
  reads = λ p b w h. read_ok (w p) b h;
  reads_nothing = λ p e w h n. (read_err (w p) e h).0;
  read_foreign = λ p e w h. (read_err (w p) e h).1;
  read_keeps = λ p q w. refl;
  mkdir_keeps = λ p q w. refl;
  lstat_keeps = λ p q w. refl;
  chmod_keeps = λ p q w. refl;
  open_keeps = λ w. refl;
  flock_keeps = λ p q w. refl;
  unlock_keeps = λ p q w. refl;
  close_keeps = λ p q w. refl;
  sync_keeps = λ p q w. refl;
  temp_apart = λ w. refl;
  temp_new = λ t w h. λ same. names_differ (ok-injective h ∙ same);
  writes = λ p b w h. update-same p (some b) w;
  write_apart = λ p b q w n. update-apart p q (some b) w n;
  renames = λ p q w h. update-same q (w p) w;
  rename_fails = λ p q r e w h. cc;
  removes = λ p w h. update-same p none w;
  removes_nothing = λ p e w h n. cc;
  remove_apart = λ p q w n. update-apart p q none w n;
}

file_laws_example : StoreLaws (file_store model_files "/state")
file_laws_example = file_laws model_files "/state" model_files_laws

merge-Merges_example :
    Merges model_files "/state" model_files_laws
      (λ d. d)
      (λ _. none)
      (merge model_files "/state" (λ d. d) (λ _. none))
merge-Merges_example = merge-Merges model_files "/state" model_files_laws (λ d. d) (λ _. none)

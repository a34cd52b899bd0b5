-- ===== src/Credfile/Laws.antt =====
-- What the file system promises.
use protonmail_mcp.Common.{String, true, false, Option, none, some, ◌≡◌, ◌≢◌}
use protonmail_mcp.Proterr.Chain.{keychain_not_found, not_exist, GoError, errors_is, ok, err}
use protonmail_mcp.Credfile.{Doc, Files, path, lock_path}

-- The contents of the files, by name. What succeeds does what it says; what fails leaves every
-- file but a temporary one as it was. A temporary file is not the credentials file, and
-- `encoding/json` reads back what it wrote.
pub record FilesLaws {W : Type 0} (fs : Files W) (dir : String) : Type 0 where
  pub contents : W → String → Option fs.Bytes
  pub read_back : (d : Doc) (b : fs.Bytes) → fs.marshal d ≡ ok b → fs.unmarshal b ≡ ok d
  pub unmarshal_foreign :
      (b : fs.Bytes) (e : GoError)
      → fs.unmarshal b ≡ err e
      → (errors_is e not_exist ≡ false) × (errors_is e keychain_not_found ≡ false)
  pub reads :
      (p : String) (b : fs.Bytes) (w : W) → (fs.read_file p w).0 ≡ ok b → contents w p ≡ some b
  pub reads_nothing :
      (p : String) (e : GoError) (w : W)
      → (fs.read_file p w).0 ≡ err e
      → errors_is e not_exist ≡ true
      → contents w p ≡ none
  pub read_foreign :
      (p : String) (e : GoError) (w : W)
      → (fs.read_file p w).0 ≡ err e
      → errors_is e keychain_not_found ≡ false
  pub read_keeps : (p q : String) (w : W) → contents (fs.read_file p w).1 q ≡ contents w q
  pub mkdir_keeps : (p q : String) (w : W) → contents (fs.mkdir_all p w).1 q ≡ contents w q
  pub lstat_keeps : (p q : String) (w : W) → contents (fs.lstat p w).1 q ≡ contents w q
  pub chmod_keeps : (p q : String) (w : W) → contents (fs.chmod p w).1 q ≡ contents w q
  pub open_keeps :
      (w : W)
      → contents (fs.open_lock (lock_path fs dir) w).1 (path fs dir) ≡ contents w (path fs dir)
  pub flock_keeps : (p q : String) (w : W) → contents (fs.flock_exclusive p w).1 q ≡ contents w q
  pub unlock_keeps : (p q : String) (w : W) → contents (fs.flock_unlock p w) q ≡ contents w q
  pub close_keeps : (p q : String) (w : W) → contents (fs.close p w).1 q ≡ contents w q
  pub sync_keeps : (p q : String) (w : W) → contents (fs.sync p w).1 q ≡ contents w q
  pub temp_apart :
      (w : W) → contents (fs.create_temp dir w).1 (path fs dir) ≡ contents w (path fs dir)
  pub temp_new : (t : String) (w : W) → (fs.create_temp dir w).0 ≡ ok t → t ≢ path fs dir
  pub writes :
      (p : String) (b : fs.Bytes) (w : W)
      → (fs.write p b w).0 ≡ ok tt
      → contents (fs.write p b w).1 p ≡ some b
  pub write_apart :
      (p : String) (b : fs.Bytes) (q : String) (w : W)
      → p ≢ q
      → contents (fs.write p b w).1 q ≡ contents w q
  pub renames :
      (p q : String) (w : W)
      → (fs.rename p q w).0 ≡ ok tt
      → contents (fs.rename p q w).1 q ≡ contents w p
  pub rename_fails :
      (p q r : String) (e : GoError) (w : W)
      → (fs.rename p q w).0 ≡ err e
      → contents (fs.rename p q w).1 r ≡ contents w r
  pub removes :
      (p : String) (w : W) → (fs.remove p w).0 ≡ ok tt → contents (fs.remove p w).1 p ≡ none
  pub removes_nothing :
      (p : String) (e : GoError) (w : W)
      → (fs.remove p w).0 ≡ err e
      → errors_is e not_exist ≡ true
      → contents (fs.remove p w).1 p ≡ none
  pub remove_apart : (p q : String) (w : W) → p ≢ q → contents (fs.remove p w).1 q ≡ contents w q

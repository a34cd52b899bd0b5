-- ===== src/Credfile.antt =====
-- internal/credfile: both credential bundles in one file, written through a temporary file under an
-- advisory lock.
pub mod Laws
pub mod Saving
pub mod Loading
pub mod Merging
pub mod Contents
use protonmail_mcp.Common.{
  String, Bool, true, false, Option, none, some, List, [], ◌∷◌, ◌<>◌, ◌==◌, ◌||◌, not, codes,
  before_first, if◌then◌else◌,
}
use protonmail_mcp.Proterr.Chain.{
  keychain_not_found, not_exist, GoError, text, sentinel, wrap, errors_is, Result, ok, err,
}
use protonmail_mcp.Exec.{Exec, pure, raise, attempt, with_error, context, ◌>>=◌, ◌>>◌}
use protonmail_mcp.Keychain.{Creds, Session}
use protonmail_mcp.Session.State.{empty_session}
use protonmail_mcp.Keyring.{lift}

pub record Doc : Type 0 where
  pub creds : Creds
  pub session : Session

abbrev pub empty_creds : Creds
empty_creds = record { username = ""; password = ""; totp_secret = ""; mailbox_password = "" }

abbrev pub empty_doc : Doc
empty_doc = record { creds = empty_creds; session = empty_session }

-- What `os.Lstat` says of the directory, as far as it is read.
pub record DirInfo : Type 0 where
  pub is_symlink : Bool
  pub owned_by_current_user : Bool

-- The calls of `os`, `syscall` and `encoding/json`. An open file is known by its name.
pub record Files (W : Type 0) : Type 1 where
  pub Bytes : Type 0
  pub marshal : Doc → Result Bytes
  pub unmarshal : Bytes → Result Doc
  pub read_file : String → Exec W Bytes
  pub mkdir_all : String → Exec W (Unit {0})
  pub lstat : String → Exec W DirInfo
  pub chmod : String → Exec W (Unit {0})
  pub open_lock : String → Exec W (Unit {0})
  pub flock_exclusive : String → Exec W (Unit {0})
  pub flock_unlock : String → W → W
  pub create_temp : (dir : String) → Exec W String
  pub write : String → Bytes → Exec W (Unit {0})
  pub sync : String → Exec W (Unit {0})
  pub close : String → Exec W (Unit {0})
  pub rename : (old new : String) → Exec W (Unit {0})
  pub remove : String → Exec W (Unit {0})
  pub join_path : String → String → String

-- `New`: the error, if there is one
unfoldable pub open_error : (flock_supported : Bool) → (dir : String) → Option GoError
open_error flock_supported dir =
    if dir == ""
    then some (text "credfile: empty state dir")
    else if not flock_supported
    then some (
        text (
          "credfile: the file credential backend requires advisory file locking, "
          <> "unsupported on this OS (use the keychain backend)"))
    else none

module _ {W : Type 0} (fs : Files W) (dir : String) where
  open fs use {
    Bytes, marshal, unmarshal, read_file, mkdir_all, lstat, chmod, open_lock, flock_exclusive,
    flock_unlock, create_temp, write, sync, close, rename, remove, join_path,
  }

  abbrev pub path : String
  path = join_path dir "credentials.json"

  abbrev pub lock_path : String
  lock_path = join_path dir "credentials.lock"

  -- `defer f()`, where `f` reports nothing
  abbrev pub deferred {ℓ} : {A : Type ℓ} → (W → W) → Result A × W → Result A × W
  deferred f (r, w) = (r, f w)

  -- `if err := m; err != nil { _ = tmp.Close(); return fmt.Errorf("before%w", err) }`
  abbrev pub or_close_of : String → String → Result (Unit {0}) × W → Result (Unit {0}) × W
  or_close_of before tmp (ok _, w) = (ok tt, w)
  or_close_of before tmp (err e, w) = (err (wrap before e ""), (close tmp w).1)

  abbrev pub or_close : String → String → Exec W (Unit {0}) → Exec W (Unit {0})
  or_close before tmp m w = or_close_of before tmp (m w)

  unfoldable pub load : Exec W Doc
  load = do
    b ← read_file path
    with_error (λ e. wrap ("credfile parse " <> path <> ": ") e "") (lift (unmarshal b))

  -- `save` after the temporary file is there, up to the rename.
  unfoldable pub fill_and_rename : String → Bytes → Exec W (Unit {0})
  fill_and_rename tmp b = do
    or_close "credfile chmod: " tmp (chmod tmp)
    or_close "credfile write: " tmp (write tmp b)
    or_close "credfile sync: " tmp (sync tmp)
    context "credfile close: " (close tmp)
    context "credfile rename: " (rename tmp path)

  unfoldable pub save_temp : Bytes → String → Exec W (Unit {0})
  save_temp b tmp w = deferred (λ w. (remove tmp w).1) (fill_and_rename tmp b w)

  unfoldable pub save : Doc → Exec W (Unit {0})
  save d = do
    b ← context "credfile marshal: " (lift (marshal d))
    tmp ← context "credfile temp: " (create_temp dir)
    save_temp b tmp

  abbrev pub check_dir : DirInfo → Result (Unit {0})
  check_dir fi =
      if fi.is_symlink
      then err (
          text
            ("credfile state dir " <> dir <> " is a symlink; refusing to store credentials there"))
      else if not fi.owned_by_current_user
      then err (text ("credfile state dir " <> dir <> " is not owned by the current user"))
      else ok tt

  unfoldable pub ensure_dir_safe : Exec W (Unit {0})
  ensure_dir_safe = do
    fi ← context ("credfile stat dir " <> dir <> ": ") (lstat dir)
    lift (check_dir fi)

  unfoldable pub prepare_dir : Exec W (Unit {0})
  prepare_dir = do
    context ("credfile mkdir " <> dir <> ": ") (mkdir_all dir)
    ensure_dir_safe
    context ("credfile chmod dir " <> dir <> ": ") (chmod dir)

  abbrev pub lock_failed : Result (Unit {0}) × W → Result (Unit {0}) × W
  lock_failed (ok _, w) = (ok tt, w)
  lock_failed (err e, w) = (err (wrap "credfile flock: " e ""), (close lock_path w).1)

  abbrev pub take_lock : Exec W (Unit {0})
  take_lock w = lock_failed (flock_exclusive lock_path w)

  unfoldable pub lock : Exec W (Unit {0})
  lock = do context "credfile lock open: " (open_lock lock_path); take_lock

  -- An absent file starts from an empty document.
  abbrev pub loaded_or_empty : Result Doc → Result Doc
  loaded_or_empty (ok d) = ok d
  loaded_or_empty (err e) = if errors_is e not_exist then ok empty_doc else err e

  unfoldable pub merge_locked : (Doc → Doc) → Exec W (Unit {0})
  merge_locked f = do loaded ← attempt load; d ← lift (loaded_or_empty loaded); save (f d)

  unfoldable pub merge : (Doc → Doc) → Exec W (Unit {0})
  merge f = do
    prepare_dir
    lock
    λ w. deferred (λ w. (close lock_path (flock_unlock lock_path w)).1) (merge_locked f w)

  unfoldable pub save_creds : Creds → Exec W (Unit {0})
  save_creds c = merge (λ d. record d { creds = c })

  unfoldable pub save_session : Session → Exec W (Unit {0})
  save_session s = merge (λ d. record d { session = s })

  abbrev pub not_stored : String → GoError
  not_stored what =
      wrap ("credfile load " <> what <> " " <> path <> ": ") (sentinel keychain_not_found) ""

  abbrev pub creds_of_loaded : Result Doc → Result Creds
  creds_of_loaded (ok d) = if d.creds.username == "" then err (not_stored "creds") else ok d.creds
  creds_of_loaded (err e) = if errors_is e not_exist then err (not_stored "creds") else err e

  abbrev pub session_of_loaded : Result Doc → Result Session
  session_of_loaded (ok d) =
      if d.session.uid == "" then err (not_stored "session") else ok d.session
  session_of_loaded (err e) = if errors_is e not_exist then err (not_stored "session") else err e

  unfoldable pub load_creds : Exec W Creds
  load_creds = do loaded ← attempt load; lift (creds_of_loaded loaded)

  unfoldable pub load_session : Exec W Session
  load_session = do loaded ← attempt load; lift (session_of_loaded loaded)

  abbrev pub cleared_of : Result (Unit {0}) × W → Result (Unit {0}) × W
  cleared_of (ok _, w) = (ok tt, w)
  cleared_of (err e, w) =
      if errors_is e not_exist then (ok tt, w) else (err (wrap "credfile clear: " e ""), w)

  unfoldable pub clear : Exec W (Unit {0})
  clear w = cleared_of (remove path w)

-- ===== src/Command/Login.antt =====
-- cmd/protonmail-mcp/login.go.
use Prim.Native.Char.{code}
use protonmail_mcp.Common.{
  String, Bool, true, false, Option, none, some, ◌<>◌, ◌==◌, ◌&&◌, ◌||◌, nat_eq, codes, all,
  is_some, length, strip_prefix, nonempty, not, if◌then◌else◌,
}
use protonmail_mcp.Common.Strconv.{is_space, is_digit}
use protonmail_mcp.Proterr.Chain.{
  totp_required, Error, GoError, text, wrap, errors_is, Result, ok, err,
}
use protonmail_mcp.Proterr.Mapping.{err_to_mcp}
use protonmail_mcp.Exec.{Exec, pure, raise, attempt, with_error, ◌>>=◌, ◌>>◌}
use protonmail_mcp.Selection.{Selected}
use protonmail_mcp.Session.State.{State}
use protonmail_mcp.Session.Login.{LoginInput, login_locked}
use protonmail_mcp.Command.{Console, Machine, at, print, in_session, new_session}

-- What `ReadString('\n')` returns without its newline, whether it met the end of the input, and
-- what it leaves. Other errors of standard input are left out.
pub record Line : Type 0 where
  pub read : String
  pub at_end : Bool
  pub rest : String

unfoldable pub read_string : String → Line
read_string String.[] = record { read = ""; at_end = true; rest = "" }
read_string (String.◌∷◌ c s) =
    let next = read_string s in
    if nat_eq (code c) b'\n'
    then record { read = ""; at_end = false; rest = s }
    else record next { read = String.◌∷◌ c next.read }

-- `strings.TrimSuffix(s, "\r")`
unfoldable pub trim_return : String → String
trim_return String.[] = ""
trim_return (String.◌∷◌ c s) =
    if nat_eq (code c) b'\r' && not (nonempty s) then "" else String.◌∷◌ c (trim_return s)

trim_start : String → String
trim_start String.[] = ""
trim_start (String.◌∷◌ c s) = if is_space (code c) then trim_start s else String.◌∷◌ c s

trim_end : String → String
trim_end String.[] = ""
trim_end (String.◌∷◌ c s) =
    let rest = trim_end s in
    if is_space (code c) && not (nonempty rest) then "" else String.◌∷◌ c rest

-- `strings.TrimSpace`
unfoldable pub trim_text : String → String
unfolding trim_start trim_end
trim_text s = trim_end (trim_start s)

unfoldable pub is_all_digits : String → Bool
is_all_digits s = nonempty s && all is_digit (codes s)

module _ {W : Type 0} where
  abbrev line_of : (at_eof : String) → Line → Exec (Console × W) String
  line_of at_eof l (c, w) = (
    if l.at_end && trim_return l.read == "" then err (text at_eof) else ok (trim_return l.read),
    (record c { stdin = l.rest }, w),
  )

  -- The line both functions below read.
  abbrev read_line : (at_eof : String) → Exec (Console × W) String
  read_line at_eof (c, w) = line_of at_eof (read_string c.stdin) (c, w)

  unfoldable pub prompt_reader : (label : String) → Exec (Console × W) String
  prompt_reader label = do
    print label
    line ← read_line "unexpected EOF reading input"
    pure (trim_text line)

  abbrev typed : Option (Result String) → Exec (Console × W) String
  typed none = read_line "unexpected EOF reading password"
  typed (some r) = print "\n" >> (λ st. (r, st))

  unfoldable pub read_password : (terminal : Option (Result String)) → Exec (Console × W) String
  read_password terminal = print "Password: " >> typed terminal

-- The input with the second factor that was typed, and what is printed about it.
unfoldable pub with_second_factor : LoginInput → String → Option (LoginInput × String)
with_second_factor input v =
    if is_some (strip_prefix (codes "otpauth://") (codes v))
    then some (record input { totp_secret = v }, "")
    else if is_all_digits v && nat_eq (length (codes v)) 6
    then some (
      record input { totp_code = v },
      "WARNING: a one-shot code was provided. Future automatic refreshes will fail;"
          <> " you'll need to log in again when the session expires.\n",
    )
    else none

abbrev pub second_factor_help : String
second_factor_help =
    "Paste an otpauth:// URI (preferred — enables silent refresh) OR a 6-digit code.\n"

module _ (m : Machine) (s : Selected) where
  abbrev Step : Type 0 → Type 0
  Step A = Exec (Console × State (at m s)) A

  abbrev pub log_in : LoginInput → Step (Unit {0})
  log_in input = in_session (login_locked (at m s) input)

  -- An error of a login, as it is reported.
  abbrev reported_error : GoError → Error → GoError
  reported_error e pe =
      if pe.code == "proton/captcha" || pe.code == "proton/2fa_rejected"
      then text (pe.code <> ": " <> pe.message <> "\n" <> pe.hint)
      else e

  unfoldable pub login_error : GoError → GoError
  unfolding err_to_mcp
  login_error e = reported_error e (err_to_mcp m.proton.codes e)

  abbrev pub second_try : GoError → Option (LoginInput × String) → Step (Unit {0})
  second_try e none =
      raise (wrap "2FA input invalid (expected otpauth:// URI or 6-digit code): " e "")
  second_try e (some (input, warning)) = print warning >> with_error login_error (log_in input)

  abbrev pub ask_second_factor : GoError → LoginInput → Step (Unit {0})
  ask_second_factor e input = do
    print "\n2FA is enabled on this account.\n"
    print second_factor_help
    v ← prompt_reader "> "
    second_try e (with_second_factor input v)

  unfoldable pub retried : LoginInput → Result (Unit {0}) → Step (Unit {0})
  unfolding errors_is
  retried input (ok _) = pure tt
  retried input (err e) =
      if errors_is e totp_required then ask_second_factor e input else raise (login_error e)

  -- The login, and the second one if it asks for a second factor.
  unfoldable pub log_in_twice : LoginInput → Step (Unit {0})
  log_in_twice input = do first ← attempt (log_in input); retried input first

  -- What follows the prompts.
  unfoldable pub log_in_as : (username password : String) → Step (Unit {0})
  log_in_as username password = do
    log_in_twice (record {
      username = username;
      password = password;
      totp_secret = "";
      totp_code = "";
      mailbox_password = "";
    })
    print "Logged in. You can now run `protonmail-mcp status` to verify.\n"

  abbrev pub prompted : Step (Unit {0})
  prompted = do
    username ← prompt_reader "Proton email: "
    password ← read_password m.terminal
    log_in_as username password

unfoldable pub run_login :
    (m : Machine) (getenv : String → String) (api_url : String)
    → Exec (Console × m.proton.World) (Unit {0})
run_login m getenv api_url = new_session m getenv api_url (prompted m)

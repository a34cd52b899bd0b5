-- ===== src/Protonraw/Rules.antt =====
-- The rules of `Preserves` for a raw call.
use protonmail_mcp.Common.{String}
use protonmail_mcp.Proterr.Chain.{Result}
use protonmail_mcp.Exec.Rules.{Preserves, Preserves-bind, Preserves-with_error}
use protonmail_mcp.Keyring.{lift}
use protonmail_mcp.Protonraw.{Web, HttpRequest, decode, do_request}
use protonmail_mcp.Session.State.{RawClient}

module _ {W : Type 0} {Q : W → Type 0} where
  pub Preserves-lifted : {A : Type 0} (r : Result A) → Preserves Q (lift r)
  Preserves-lifted r = record { at = λ w h. h }

  -- A request that keeps a predicate keeps it whatever its response is.
  pub Preserves-do_request :
      {A : Type 0} (web : Web W) (r : RawClient) (label : String) (out : String → Result A)
      (req : HttpRequest)
      → Preserves Q (web.send r req)
      → Preserves Q (do_request web r label out req)
  unfolding do_request
  Preserves-do_request web r label out req k =
      Preserves-with_error _ _
        (Preserves-bind (web.send r req) _ k λ resp. Preserves-lifted (decode web out resp))

-- ===== src/Protonraw/Errors.antt =====
-- How the errors of a raw call reach the caller of a tool.
use protonmail_mcp.Common.{◌≤◌, String, true, some, ◌≡◌, refl, leb, arith, subst, sym, ◌<>◌}
use protonmail_mcp.Proterr.Chain.{
  HttpError, GoError, http, wrap, Result, ok, err, find_first, errors_is,
}
use protonmail_mcp.Proterr.Mapping.{
  ApiCodes, err_to_mcp, map_status, from_api, from_transport, extract_api_error,
}
use protonmail_mcp.Exec.{adjust, continue, ok-injective}
use protonmail_mcp.Protonraw.{Web, HttpRequest, HttpResponse, decode, do_request}
use protonmail_mcp.Session.State.{RawClient}

module _ (codes : ApiCodes) (label : String) (h : HttpError) where
  -- The error of a response, wrapped and mapped.
  err_to_mcp-http : err_to_mcp codes (wrap label (http h) "") ≡ map_status h.status (some h.headers)
  unfolding err_to_mcp from_api from_transport extract_api_error find_first errors_is
  err_to_mcp-http = refl

module _ {W A : Type 0} (web : Web W) (out : String → Result A) where
  decode-http :
      (resp : HttpResponse) (w : W) (label : String)
      → leb 400 resp.status ≡ true
      → (adjust (λ e. wrap label e "") (decode web out resp, w)).0
        ≡ err (
            wrap label
              (http (record { status = resp.status; headers = resp.headers; body = resp.body }))
              "")
  unfolding decode
  decode-http resp w label h = rw h refl

  continue-http :
      (p : Result HttpResponse × W) (resp : HttpResponse) (label : String)
      → p.0 ≡ ok resp
      → leb 400 resp.status ≡ true
      → (adjust (λ e. wrap label e "") (continue (λ r w. (decode web out r, w)) p)).0
        ≡ err (
            wrap label
              (http (record { status = resp.status; headers = resp.headers; body = resp.body }))
              "")
  continue-http (err e, w) resp label h k = cc
  continue-http (ok r, w) resp label h k =
      subst
        (λ x.
          (adjust (λ e. wrap label e "") (decode web out x, w)).0
          ≡ err (
              wrap label
                (http (record { status = resp.status; headers = resp.headers; body = resp.body }))
                ""))
        (sym (ok-injective h)) (decode-http resp w label k)

-- A raw call whose response has a status from 400 on fails, whatever the response's body is, and the
-- caller of a tool is told the error that belongs to that status and its `Retry-After` header.
pub do_request-http :
    {W A : Type 0} (codes : ApiCodes) (web : Web W) (d : RawClient) (label : String)
    (out : String → Result A) (req : HttpRequest) (w : W) (resp : HttpResponse)
    → (web.send d req w).0 ≡ ok resp
    → 400 ≤ resp.status
    → (e : GoError) × ((do_request web d label out req w).0 ≡ err e)
      × (err_to_mcp codes e ≡ map_status resp.status (some resp.headers))
unfolding do_request
do_request-http codes web d label out req w resp sent high = (
  _,
  continue-http web out (web.send d req w) resp (label <> ": ") sent (ground (arith, high)),
  err_to_mcp-http codes (label <> ": ") _,
)

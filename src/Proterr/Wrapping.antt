-- ===== src/Proterr/Wrapping.antt =====
-- Context added by `fmt.Errorf("...: %w", err)` does not change how an error is classified.
use protonmail_mcp.Common.{String, ◌≡◌, refl, arith}
use protonmail_mcp.Proterr.Chain.{Error, GoError, wrap, errors_is}
use protonmail_mcp.Proterr.Mapping.{
  ApiCodes, extract_api_error, upstream, from_sentinels, from_transport, from_api, err_to_mcp,
  refresh_rejected, scope_denied, is_totp_rejected,
}

-- Two mapped errors that an operator tells apart at most by the hint.
pub record SameClass (x y : Error) : Type 0 where
  pub code : x.code ≡ y.code
  pub message : x.message ≡ y.message
  pub retry : x.retry_after_seconds ≡ y.retry_after_seconds

abbrev SameClass-refl : (x : Error) → SameClass x x
SameClass-refl x = record { code = refl; message = refl; retry = refl }

module _ (c : ApiCodes) (before after : String) (e : GoError) where
  from_sentinels-wrap : SameClass (from_sentinels (wrap before e after)) (from_sentinels e)
  unfolding from_sentinels errors_is upstream
  from_sentinels-wrap = ground arith

  from_transport-wrap : SameClass (from_transport (wrap before e after)) (from_transport e)
  unfolding from_transport upstream
  from_transport-wrap = ground (arith, from_sentinels-wrap)

  from_api-wrap : SameClass (from_api c (wrap before e after)) (from_api c e)
  unfolding from_api extract_api_error
  from_api-wrap = ground (arith, from_transport-wrap)

  -- Wrapping an error with context (one `%w`) keeps its code, its message and its retry delay, and
  -- each of the three classifications that the session acts on.
  pub err_to_mcp-wrap :
      SameClass (err_to_mcp c (wrap before e after)) (err_to_mcp c e)
      × (refresh_rejected c (wrap before e after) ≡ refresh_rejected c e)
      × (scope_denied (wrap before e after) ≡ scope_denied e)
      × (is_totp_rejected c (wrap before e after) ≡ is_totp_rejected c e)
  unfolding err_to_mcp errors_is refresh_rejected scope_denied is_totp_rejected extract_api_error
  err_to_mcp-wrap = (ground (arith, from_api-wrap), refl, refl, refl)

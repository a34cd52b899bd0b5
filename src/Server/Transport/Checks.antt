-- ===== src/Server/Transport/Checks.antt =====
-- What a transport that is configured, and a request that is served, have passed.
use protonmail_mcp.Common.{
  ℕ, ◌≤◌, ◌≡◌, refl, String, Bool, true, false, Option, none, some, List, ◌==◌, ◌⊎◌, inl, inr, ltb,
  codes, arith, strip_prefix, ◌++◌, ◌↔◌, ap, ◌∙◌, [], ◌∷◌, nat_eq, sym, Option-cases, if◌then◌else◌,
  subst,
}
use protonmail_mcp.Common.Strconv.{ℤ, pos, negsuc, atoi}
use protonmail_mcp.Proterr.Chain.{GoError, Result, ok, err}
use protonmail_mcp.Exec.{ok-injective}
use protonmail_mcp.Server.Transport.{
  TransportConfig, next_handler, byte_length, port_of, in_range, token_config, port_config,
  sse_config, transport_config_from_env, bearer_auth,
}

-- The transport over standard input and output, or one that listens with a port in range and a
-- token of at least sixteen bytes.
pub record IsListening (c : TransportConfig) : Type 0 where
  pub kind : c.kind ≡ "sse"
  pub port_low : 1 ≤ c.port
  pub port_high : c.port ≤ 65535
  pub token : 16 ≤ byte_length (codes c.token)

-- The outcome, if there is one, is a transport that is safe to start.
record IsSafe (r : Result TransportConfig) : Type 0 where
  pub at : (c : TransportConfig) → r ≡ ok c → (c.kind ≡ "stdio") ⊎ IsListening c

IsSafe-err : (e : GoError) → IsSafe (err e)
IsSafe-err e = record { at = λ c h. cc }

IsSafe-ok : (c : TransportConfig) → (c.kind ≡ "stdio") ⊎ IsListening c → IsSafe (ok c)
IsSafe-ok c k = record {
  at = λ d h. subst (λ x. (x.kind ≡ "stdio") ⊎ IsListening x) (ok-injective h) k;
}

IsSafe-if :
    {x y : Result TransportConfig} (t : Bool)
    → (t ≡ true → IsSafe x)
    → (t ≡ false → IsSafe y)
    → IsSafe (if t then x else y)
IsSafe-if true h k = h refl
IsSafe-if false h k = k refl

port_of-bounds : (z : ℤ) (failed : Bool) (n : ℕ) → port_of z failed ≡ some n → (1 ≤ n) × (n ≤ 65535)
port_of-bounds (pos m) failed n h = ground (arith, h)
port_of-bounds (negsuc m) failed n h = cc

module _ (getenv quote : String → String) where
  token_config-IsSafe :
      (host : String) (port : ℕ) (token : String)
      → (1 ≤ port) × (port ≤ 65535)
      → IsSafe (token_config getenv quote host port token)
  unfolding token_config
  token_config-IsSafe host port token bounds =
      IsSafe-if (token == "") (λ _. IsSafe-err _)
        λ _.
          IsSafe-if (ltb (byte_length (codes token)) 16) (λ _. IsSafe-err _)
            λ long. IsSafe-ok _ (
              inr (record {
                kind = refl;
                port_low = bounds.0;
                port_high = bounds.1;
                token = ground (arith, long);
              }))

  port_config-IsSafe :
      (host raw : String) (o : Option ℕ)
      → ((n : ℕ) → o ≡ some n → (1 ≤ n) × (n ≤ 65535))
      → IsSafe (port_config getenv quote host raw o)
  port_config-IsSafe host raw none h = IsSafe-err _
  port_config-IsSafe host raw (some n) h = token_config-IsSafe host n _ (h n refl)

  in_range-IsSafe :
      (host raw : String) → IsSafe (port_config getenv quote host raw (in_range (atoi raw)))
  in_range-IsSafe host raw =
      port_config-IsSafe host raw (in_range (atoi raw))
        (port_of-bounds (atoi raw).number (atoi raw).failed)

  stdio-IsSafe : IsSafe (ok (record { kind = "stdio"; host = ""; port = 0; token = "" }))
  stdio-IsSafe = IsSafe-ok _ (inl refl)

  config-IsSafe : IsSafe (transport_config_from_env getenv quote)
  unfolding transport_config_from_env sse_config
  config-IsSafe = search (IsSafe-if, IsSafe-err, stdio-IsSafe, in_range-IsSafe) depth 9

-- Whatever the environment, a transport that is configured is the standard one, or one that
-- listens on a port from 1 to 65535 with a token of at least sixteen bytes.
pub transport_config_from_env-IsSafe :
    (getenv quote : String → String) (c : TransportConfig)
    → transport_config_from_env getenv quote ≡ ok c
    → (c.kind ≡ "stdio") ⊎ IsListening c
transport_config_from_env-IsSafe getenv quote c h = (config-IsSafe getenv quote).at c h

-- What stands behind a prefix, and back.
strip_prefix-some : (p s rest : List ℕ) → strip_prefix p s ≡ some rest → s ≡ p ++ rest
unfolding strip_prefix
strip_prefix-some [] s rest h = cc
strip_prefix-some (p ∷ ps) [] rest h = cc
strip_prefix-some (p ∷ ps) (c ∷ cs) rest h =
    by_test (nat_eq p c) refl (strip_prefix-some ps cs rest) h
  where
    by_test :
        (t : Bool)
        → nat_eq p c ≡ t
        → (strip_prefix ps cs ≡ some rest → cs ≡ ps ++ rest)
        → (if t then strip_prefix ps cs else none) ≡ some rest
        → (c ∷ cs) ≡ p ∷ (ps ++ rest)
    by_test true same later k =
        let head : p ≡ c = ground (arith, same) in
        subst (λ x. (c ∷ cs) ≡ x ∷ (ps ++ rest)) (sym head) (ap (λ r. c ∷ r) (later k))
    by_test false other later k = cc

strip_prefix-append : (p rest : List ℕ) → strip_prefix p (p ++ rest) ≡ some rest
unfolding strip_prefix
strip_prefix-append [] rest = refl
strip_prefix-append (p ∷ ps) rest =
    let same : nat_eq p p ≡ true = ground arith in rw same (strip_prefix-append ps rest)

-- The bearer check lets a request through exactly if its header is "Bearer " followed by something
-- with the digest of the token, when the comparison tells equal digests from others.
pub bearer_auth-next :
    {Digest : Type 0} (digest : List ℕ → Digest) (same : Digest → Digest → Bool)
    → ((x y : Digest) → (same x y ≡ true) ↔ (x ≡ y))
    → (token header : String)
    → (bearer_auth digest same token header ≡ next_handler) ↔ (
        (given : List ℕ) × (codes header ≡ codes "Bearer " ++ given)
        × (digest given ≡ digest (codes token)))
unfolding bearer_auth
bearer_auth-next digest same law token header = (
  λ h. elim (Option-cases (strip_prefix (codes "Bearer ") (codes header))) [
    | inl missing ↦ absurd (ground (arith, h, missing))
    | inr (given, found) ↦ (
      given,
      strip_prefix-some (codes "Bearer ") (codes header) given found,
      (law (digest given) (digest (codes token))).0 (ground (arith, h, found)),
    )
  ],
  λ (given, split, equal).
      let found =
        ap (strip_prefix (codes "Bearer ")) split ∙ strip_prefix-append (codes "Bearer ") given in
      let accepted = (law (digest given) (digest (codes token))).1 equal in
      rw (bearer_auth, found, accepted) refl,
)

-- ===== src/Tools/Headers.antt =====
-- What filtering the headers of a message leaves.
use protonmail_mcp.Common.{
  String, Bool, true, false, Option, none, List, [], ◌∷◌, ◌≡◌, refl, ◌==◌, eq_iff, lookup,
  if◌then◌else◌, if_elim, subst, ◌||◌, any, ap, ◌∙◌,
}
use protonmail_mcp.Tools.Messages.{is_sensitive, filter_sensitive_headers}

module _ (to_lower : String → String) where
  abbrev visible : String → List (String × List String) → Option (List String)
  visible name headers = if is_sensitive to_lower name then none else lookup name headers

  -- One entry, by whether it is sensitive and whether it is the one that is looked for.
  entry :
      (name k : String) (v : List String) (rest : List (String × List String)) (s t : Bool)
      → is_sensitive to_lower k ≡ s
      → (k == name) ≡ t
      → lookup name (filter_sensitive_headers to_lower rest) ≡ visible name rest
      → lookup name (filter_sensitive_headers to_lower ((k, v) ∷ rest))
        ≡ visible name ((k, v) ∷ rest)
  unfolding filter_sensitive_headers lookup
  entry name k v rest true true p q ih =
      let same : k ≡ name = (eq_iff k name).0 q in
      let hidden : is_sensitive to_lower name ≡ true =
        subst (λ x. is_sensitive to_lower x ≡ true) same p in
      rw (p, hidden)
        (subst
          (λ u.
            lookup name (filter_sensitive_headers to_lower rest)
            ≡ (if u then none else lookup name rest))
          hidden ih)
  entry name k v rest true false p q ih = rw (p, q) ih
  entry name k v rest false true p q ih =
      let same : k ≡ name = (eq_iff k name).0 q in
      let shown : is_sensitive to_lower name ≡ false =
        subst (λ x. is_sensitive to_lower x ≡ false) same p in
      rw (p, q, shown) refl
  entry name k v rest false false p q ih = rw (p, q) ih

lookup-visible :
    (to_lower : String → String) (name : String) (headers : List (String × List String))
    → lookup name (filter_sensitive_headers to_lower headers) ≡ visible to_lower name headers
unfolding filter_sensitive_headers lookup
lookup-visible to_lower name [] =
    if_elim (λ (o : Option (List String)). none ≡ o) (is_sensitive to_lower name) {x = none}
      {y = none} refl refl
lookup-visible to_lower name ((k, v) ∷ rest) =
    entry to_lower name k v rest (is_sensitive to_lower k) (k == name) refl refl
      (lookup-visible to_lower name rest)

-- Of the parsed headers exactly five are dropped: a name that is "bcc", "x-originating-ip",
-- "x-original-sender-ip", "x-original-sender" or "x-real-ip" in lower case has no value left, and
-- every other name has the value that it had.
pub lookup-filter_sensitive_headers :
    (to_lower : String → String) (name : String) (headers : List (String × List String))
    → lookup name (filter_sensitive_headers to_lower headers) ≡ (
        if to_lower name == "bcc"
          || to_lower name == "x-originating-ip"
          || to_lower name == "x-original-sender-ip"
          || to_lower name == "x-original-sender"
          || to_lower name == "x-real-ip"
        then none
        else lookup name headers)
unfolding is_sensitive
lookup-filter_sensitive_headers to_lower name headers =
    lookup-visible to_lower name headers
    ∙ ap (λ t. if t then none else lookup name headers)
        (five (to_lower name == "bcc") (to_lower name == "x-originating-ip")
          (to_lower name == "x-original-sender-ip") (to_lower name == "x-original-sender")
          (to_lower name == "x-real-ip"))
  where
    five : (p q r s t : Bool) → any (λ x. x) (p ∷ q ∷ r ∷ s ∷ t ∷ []) ≡ (p || q || r || s || t)
    five true q r s t = refl
    five false true r s t = refl
    five false false true s t = refl
    five false false false true t = refl
    five false false false false true = refl
    five false false false false false = refl

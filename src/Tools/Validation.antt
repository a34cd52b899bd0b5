-- ===== src/Tools/Validation.antt =====
-- Drafts that are refused before the session is asked for anything.
use protonmail_mcp.Common.{
  String, Bool, true, false, Option, none, some, List, [], ◌∷◌, ◌≡◌, refl, ◌==◌, ◌<>◌, ◌&&◌, ◌||◌,
  all, is_some, map, eq_iff, if◌then◌else◌, ◌⊎◌, inl, inr, ap, sym, subst,
}
use protonmail_mcp.Proterr.Mapping.{err_to_mcp}
use protonmail_mcp.Session.Access.{client}
use protonmail_mcp.Proterr.Chain.{GoError, Error, mapped, Result, ok, err}
use protonmail_mcp.Exec.{Exec, ◌>>=◌}
use protonmail_mcp.Keyring.{lift}
use protonmail_mcp.Calendar.Decrypt.{then_do}
use protonmail_mcp.Session.State.{Backend, State}
use protonmail_mcp.Tools.Api.{MailAddress, DraftTemplate}
use protonmail_mcp.Tools.Handler.{Deps, invalid, quote_trunc, tool_client}
use protonmail_mcp.Tools.Drafts.{
  DraftFields, CreateDraftIn, resolve_mime_type, parse_recipients, draft_template, create_draft,
}

-- A validation error.
unfoldable pub IsValidation : Error → Type 0
IsValidation e = e.code ≡ "proton/validation"

-- A result that succeeds exactly if a test does, as `P` says, and is a validation error otherwise.
unfoldable pub Validated : {A : Type 0} → (A → Type 0) → Bool → Result A → Type 0
unfolding IsValidation
Validated {A = A} P true r = (a : A) × (r ≡ ok a) × P a
Validated {A = A} P false r = (e : Error) × IsValidation e × (r ≡ err (mapped e))

Validated-then_do :
    {A B : Type 0} (P : A → Type 0) (Q : B → Type 0) (s t : Bool) (r : Result A) (f : A → Result B)
    → Validated P s r
    → ((a : A) → P a → Validated Q t (f a))
    → Validated Q (s && t) (then_do r f)
unfolding Validated
Validated-then_do P Q true t r f (a, h, p) k =
    subst (λ x. Validated Q t (then_do x f)) (sym h) (k a p)
Validated-then_do P Q false t r f (e, v, h) k = (e, v, ap (λ x. then_do x f) h)

Validated-map :
    {A B : Type 0} (P : A → Type 0) (Q : B → Type 0) (t : Bool) (r : Result A) (f : A → B)
    → Validated P t r
    → ((a : A) → P a → Q (f a))
    → Validated Q t (then_do r (λ a. ok (f a)))
unfolding Validated
Validated-map P Q true r f (a, h, p) k = (f a, ap (λ x. then_do x (λ y. ok (f y))) h, k a p)
Validated-map P Q false r f (e, v, h) k = (e, v, ap (λ x. then_do x (λ y. ok (f y))) h)

module _ {b : Backend} (d : Deps b) where
  abbrev pub parses : String → Bool
  parses s = is_some (d.parse_address s)

  abbrev pub supports : String → Bool
  supports s = s == "" || s == "text/plain" || s == "text/html"

  -- The addresses that the texts stand for, in their order.
  abbrev pub Parsed : List String → List MailAddress → Type 0
  Parsed xs out = map d.parse_address xs ≡ map some out

  parsed_one :
      (s : String) (rest : List String) (o : Option MailAddress)
      → d.parse_address s ≡ o
      → Validated (Parsed rest) (all parses rest) (parse_recipients d rest)
      → Validated (Parsed (s ∷ rest)) (is_some o && all parses rest) (elim o [
        | none ↦ err (mapped (invalid ("invalid email address: " <> quote_trunc d.quote_bytes s)))
        | some a ↦ then_do (parse_recipients d rest) λ out. ok (a ∷ out)
      ])
  unfolding Validated IsValidation
  parsed_one s rest none p h = (_, refl, refl)
  parsed_one s rest (some a) p h =
      Validated-map (Parsed rest) (Parsed (s ∷ rest)) (all parses rest) (parse_recipients d rest)
        (λ out. a ∷ out) h (λ out q. rw (p, q) refl)

  parse_recipients-Validated :
      (xs : List String) → Validated (Parsed xs) (all parses xs) (parse_recipients d xs)
  unfolding parse_recipients Validated
  parse_recipients-Validated [] = ([], refl, refl)
  parse_recipients-Validated (s ∷ rest) =
      parsed_one s rest (d.parse_address s) refl (parse_recipients-Validated rest)

  -- The type of a body, which is plain text if none is given.
  abbrev pub HasType : String → String → Type 0
  HasType s m = m ≡ (if s == "" then "text/plain" else s)

  mime_of :
      (s : String) (e p h : Bool)
      → (p ≡ true → s ≡ "text/plain")
      → (h ≡ true → s ≡ "text/html")
      → Validated
          (λ m. m ≡ (if e then "text/plain" else s))
          (e || p || h)
          (if e || p
            then ok "text/plain"
            else if h
            then ok "text/html"
            else err (mapped (invalid "mime_type must be text/plain or text/html")))
  unfolding Validated IsValidation
  mime_of s true p h k l = ("text/plain", refl, refl)
  mime_of s false true h k l = ("text/plain", refl, sym (k refl))
  mime_of s false false true k l = ("text/html", refl, sym (l refl))
  mime_of s false false false k l = (_, refl, refl)

  resolve_mime_type-Validated :
      (s : String) → Validated (HasType s) (supports s) (resolve_mime_type s)
  unfolding resolve_mime_type
  resolve_mime_type-Validated s =
      mime_of s (s == "") (s == "text/plain") (s == "text/html") (eq_iff s "text/plain").0
        (eq_iff s "text/html").0

  -- Every recipient is an address, and the body's type is none or one of the two.
  abbrev pub is_valid : DraftFields → Bool
  is_valid f = all parses f.to && (all parses f.cc && (all parses f.bcc && supports f.mime_type))

  -- The draft that the fields ask for, still without a sender.
  pub record IsTemplate (f : DraftFields) (t : DraftTemplate) : Type 0 where
    pub subject : t.subject ≡ f.subject
    pub body : t.body ≡ f.body
    pub sender : t.sender ≡ none
    pub to_list : Parsed f.to t.to_list
    pub cc_list : Parsed f.cc t.cc_list
    pub bcc_list : Parsed f.bcc t.bcc_list
    pub mime_type : HasType f.mime_type t.mime_type

  draft_template-Validated :
      (f : DraftFields) → Validated (IsTemplate f) (is_valid f) (draft_template d f)
  unfolding draft_template
  draft_template-Validated f =
      Validated-then_do _ _ _ _ _ _ (parse_recipients-Validated f.to) λ to_l p.
        Validated-then_do _ _ _ _ _ _ (parse_recipients-Validated f.cc) λ cc_l q.
          Validated-then_do _ _ _ _ _ _ (parse_recipients-Validated f.bcc) λ bcc_l r.
            Validated-map (HasType f.mime_type) (IsTemplate f) (supports f.mime_type)
              (resolve_mime_type f.mime_type) _ (resolve_mime_type-Validated f.mime_type)
              λ m h. record {
                subject = refl;
                body = refl;
                sender = refl;
                to_list = p;
                cc_list = q;
                bcc_list = r;
                mime_type = h;
              }

  -- A check of an input that fails ends a handler where it is.
  refused :
      {A B : Type 0} (P : A → Type 0) (r : Result A) (next : A → Exec (State b) B) (st : State b)
      → Validated P false r
      → (e : Error) × IsValidation e × ((do x ← lift r; next x) st ≡ (err (mapped e), st))
  unfolding Validated
  refused P r next st (e, v, h) = (e, v, rw h refl)

  -- What becomes of a draft whose fields are not valid, and of one whose fields are.
  pub record IsRefused (input : CreateDraftIn) (st : State b) : Type 0 where
    pub error : Error
    pub code : error.code ≡ "proton/validation"
    pub refused : create_draft d input st ≡ (err (mapped error), st)

  pub record IsAccepted (input : CreateDraftIn) (st : State b) : Type 0 where
    pub template : DraftTemplate
    pub drafted : draft_template d input.fields ≡ ok template
    pub faithful : IsTemplate input.fields template
    pub unserved :
        (e : GoError) (st' : State b)
        → client b st ≡ (err e, st')
        → create_draft d input st ≡ (err (mapped (err_to_mcp b.codes e)), st')

-- When a recipient is no address or the type of the body is neither none nor one of the two text
-- types, the creation of a draft is a validation error, and the session, its clients and the world
-- are as they were. Otherwise the draft passes these checks: its template has the subject and body
-- that were given, the addresses that the recipients stand for in their order, and the given type or
-- plain text; the session is asked for a client next, and when it has none, its error is reported.
pub draft-Validated :
    {b : Backend} (d : Deps b) (input : CreateDraftIn) (st : State b)
    → ((is_valid d input.fields ≡ false) × IsRefused d input st)
      ⊎ ((is_valid d input.fields ≡ true) × IsAccepted d input st)
unfolding create_draft Validated IsValidation tool_client
draft-Validated {b = b} d input st =
    by_test (is_valid d input.fields) refl (draft_template-Validated d input.fields)
  where
    by_test :
        (t : Bool)
        → is_valid d input.fields ≡ t
        → Validated (IsTemplate d input.fields) t (draft_template d input.fields)
        → ((is_valid d input.fields ≡ false) × IsRefused d input st)
          ⊎ ((is_valid d input.fields ≡ true) × IsAccepted d input st)
    by_test true p (t, h, v) = inr (
      p,
      record { template = t; drafted = h; faithful = v; unserved = λ e st' k. rw (h, k) refl },
    )
    by_test false p v =
        let (e, code, same) =
          refused d (IsTemplate d input.fields) (draft_template d input.fields) _ st v in
        inl (p, record { error = e; code = code; refused = same })

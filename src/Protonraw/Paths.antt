-- ===== src/Protonraw/Paths.antt =====
-- Which paths the raw calls request: an ID that is accepted stays within its part of the path.
use protonmail_mcp.Common.{
  ℕ, zero, suc, String, Bool, true, false, Option, List, [], ◌∷◌, ◌++◌, ◌≡◌, refl, ◌<>◌, ◌∙◌, ap,
  codes, codes-append, nat_eq, any, ◌||◌, ◌==◌, if◌then◌else◌,
}
use mathlib.Core.List.{append-nil}
use protonmail_mcp.Proterr.Chain.{Result, ok, err, text}
use protonmail_mcp.Exec.{Exec, ◌>>=◌}
use protonmail_mcp.Exec.Rules.{Preserves}
use protonmail_mcp.Keyring.{lift}
use protonmail_mcp.Session.State.{RawClient}
use protonmail_mcp.Protonraw.Rules.{Preserves-do_request}
use protonmail_mcp.Protonraw.{
  Web, Method, Body, request, is_special, validate_path_id, do_request, get_custom_domain,
  verify_custom_domain, remove_custom_domain, list_domain_addresses, update_catch_all,
}

-- A slash, a question mark or a hash.
abbrev is_separator : ℕ → Bool
is_separator c = nat_eq c b'/' || nat_eq c b'?' || nat_eq c b'#'

-- The characters of a path that separate its parts.
unfoldable pub specials : List ℕ → List ℕ
specials [] = []
specials (c ∷ cs) = let rest = specials cs in if is_separator c then c ∷ rest else rest

specials-append : (xs ys : List ℕ) → specials (xs ++ ys) ≡ specials xs ++ specials ys
unfolding specials
specials-append [] ys = refl
specials-append (x ∷ xs) ys = by_test (is_separator x) (specials-append xs ys)
  where
    by_test :
        (t : Bool)
        → specials (xs ++ ys) ≡ specials xs ++ specials ys
        → (if t then x ∷ specials (xs ++ ys) else specials (xs ++ ys))
          ≡ (if t then x ∷ specials xs else specials xs) ++ specials ys
    by_test true k = ap (λ r. x ∷ r) k
    by_test false k = k

module _ (x : ℕ) (xs : List ℕ) (plain : any is_special xs ≡ false → specials xs ≡ []) where
  specials-plain_head :
      (t : Bool)
      → (t || any is_special xs) ≡ false
      → (if t then x ∷ specials xs else specials xs) ≡ []
  specials-plain_head true k = cc
  specials-plain_head false k = plain k

specials-plain : (xs : List ℕ) → any is_special xs ≡ false → specials xs ≡ []
unfolding specials
specials-plain [] h = refl
specials-plain (x ∷ xs) h = specials-plain_head x xs (specials-plain xs) (is_special x) h

abbrev pub slashes : ℕ → List ℕ
slashes zero = []
slashes (suc n) = b'/' ∷ slashes n

-- The path has as many slashes, and neither `?` nor `#`.
unfoldable pub HasSlashes : ℕ → String → Type 0
unfolding specials
HasSlashes n path = specials (codes path) ≡ slashes n

-- An ID without a special character leaves a path its special characters.
module _ (before id : String) (plain : any is_special (codes id) ≡ false) where
  last-id : specials (codes (before <> id)) ≡ specials (codes before)
  last-id =
      ap specials (codes-append before id)
      ∙ specials-append (codes before) (codes id)
      ∙ ap (λ r. specials (codes before) ++ r) (specials-plain (codes id) plain)
      ∙ append-nil (specials (codes before))

  inner-id :
      (after : String)
      → specials (codes (before <> id <> after)) ≡ specials (codes before) ++ specials (codes after)
  inner-id after =
      ap specials (codes-append before (id <> after))
      ∙ specials-append (codes before) (codes (id <> after))
      ∙ ap (λ r. specials (codes before) ++ r)
          (ap specials (codes-append id after)
            ∙ specials-append (codes id) (codes after)
            ∙ ap (λ r. r ++ specials (codes after)) (specials-plain (codes id) plain))

module _ {W : Type 0} (web : Web W) (P : ℕ → W → Type 0) where
  -- A request keeps the predicate that belongs to the number of slashes of its path.
  pub record PathLaw : Type 0 where
    pub at :
        (n : ℕ) (r : RawClient) (m : Method) (path : String) (body : Body)
        → HasSlashes n path
        → Preserves (P n) (web.send r (request web m path body))

module _ {W : Type 0} {web : Web W} {P : ℕ → W → Type 0} (law : PathLaw web P) where
  -- After an ID is accepted.
  checked :
      {A : Type 0} (n : ℕ) (name id : String) (next : Exec W A)
      → (any is_special (codes id) ≡ false → Preserves (P n) next)
      → Preserves (P n) (do _ ← lift (validate_path_id web name id); next)
  unfolding validate_path_id
  checked n name id next k = by_tests (id == "") (any is_special (codes id)) refl
    where
      by_tests :
          (e s : Bool)
          → any is_special (codes id) ≡ s
          → Preserves (P n) (do
            _ ← lift (
                if e
                then err (text (name <> " is required"))
                else if s
                then err (text ("invalid " <> name <> " " <> web.quote id))
                else ok tt)
            next)
      by_tests true s p = record { at = λ w h. h }
      by_tests false true p = record { at = λ w h. h }
      by_tests false false p = record { at = (k p).at }

  sent :
      {A : Type 0} (n : ℕ) (r : RawClient) (label : String) (out : String → Result A) (m : Method)
      (path : String) (body : Body)
      → HasSlashes n path
      → Preserves (P n) (do_request web r label out (request web m path body))
  sent n r label out m path body h =
      Preserves-do_request web r label out (request web m path body) (law.at n r m path body h)

  -- What the calls on one domain have in common: the ID, and perhaps what follows it.
  on_domain :
      {A : Type 0} (name id : String) (next : Exec W A)
      → (HasSlashes 4 ("/core/v4/domains/" <> id) → Preserves (P 4) next)
      → Preserves (P 4) (do _ ← lift (validate_path_id web name id); next)
  unfolding HasSlashes specials
  on_domain name id next k =
      checked 4 name id next λ plain. k (last-id "/core/v4/domains/" id plain)

  below_domain :
      {A : Type 0} (name id after : String) (next : Exec W A)
      → HasSlashes 1 after
      → (HasSlashes 5 ("/core/v4/domains/" <> id <> after) → Preserves (P 5) next)
      → Preserves (P 5) (do _ ← lift (validate_path_id web name id); next)
  unfolding HasSlashes specials
  below_domain name id after next h k =
      checked 5 name id next
        λ plain. k (inner-id "/core/v4/domains/" id plain after ∙ ap (λ r. slashes 4 ++ r) h)

  by_id : (r : RawClient) (id : String) → Preserves (P 4) (get_custom_domain web r id)
  unfolding get_custom_domain
  by_id r id = on_domain "id" id _ λ h. sent 4 r _ _ _ _ _ h

  removal : (r : RawClient) (id : String) → Preserves (P 4) (remove_custom_domain web r id)
  unfolding remove_custom_domain
  removal r id = on_domain "id" id _ λ h. sent 4 r _ _ _ _ _ h

  verification : (r : RawClient) (id : String) → Preserves (P 5) (verify_custom_domain web r id)
  unfolding verify_custom_domain HasSlashes specials
  verification r id = below_domain "id" id "/verify" _ refl λ h. sent 5 r _ _ _ _ _ h

  listing : (r : RawClient) (id : String) → Preserves (P 5) (list_domain_addresses web r id)
  unfolding list_domain_addresses HasSlashes specials
  listing r id = below_domain "domain_id" id "/addresses" _ refl λ h. sent 5 r _ _ _ _ _ h

  update :
      (r : RawClient) (id : String) (a : Option String)
      → Preserves (P 5) (update_catch_all web r id a)
  unfolding update_catch_all HasSlashes specials
  update r id a = below_domain "domain_id" id "/catchall" _ refl λ h. sent 5 r _ _ _ _ _ h

-- Whatever the IDs are, each raw call on a domain requests only paths with exactly the slashes of
-- its endpoint and without `?` and `#`, if it requests any: getting and removing a domain four
-- slashes, verifying it, listing its addresses and updating its catch-all five. (A call keeps what
-- every request with as many slashes keeps.)
pub raw_calls-slashes :
    {W : Type 0} (web : Web W) (P : ℕ → W → Type 0)
    → PathLaw web P
    → (r : RawClient) (id : String) (a : Option String)
    → Preserves (P 4) (get_custom_domain web r id)
      × Preserves (P 4) (remove_custom_domain web r id)
      × Preserves (P 5) (verify_custom_domain web r id)
      × Preserves (P 5) (list_domain_addresses web r id)
      × Preserves (P 5) (update_catch_all web r id a)
raw_calls-slashes web P law r id a =
    (by_id law r id, removal law r id, verification law r id, listing law r id, update law r id a)

-- ===== src/Tools/Sender.antt =====
-- The address that a draft is sent from.
use protonmail_mcp.Common.{
  ℕ, zero, suc, Bool, true, false, Option, none, some, List, [], ◌∷◌, ◌≡◌, refl, ◌&&◌, ◌⊎◌, inl,
  inr, get_elem?, if◌then◌else◌, arith, subst, sym, ap, ◌∙◌,
}
use mathlib.Core.Option.{some-injective}
use protonmail_mcp.Common.Strconv.{ℤ, pos, negsuc}
use protonmail_mcp.Common.Ints.{int_ltb, int_eq}
use protonmail_mcp.Session.State.{Backend}
use protonmail_mcp.Tools.Api.{MailboxAddress}
use protonmail_mcp.Tools.Handler.{Deps}
use protonmail_mcp.Tools.Drafts.{can_send, better, best_sender}

-- `x ≤ y`
abbrev AtMost : ℤ → ℤ → Type 0
AtMost x y = int_ltb y x ≡ false

AtMost-refl : (x : ℤ) → AtMost x x
unfolding int_ltb
AtMost-refl (pos n) = ground arith
AtMost-refl (negsuc n) = ground arith

AtMost-of_less : (x y : ℤ) → int_ltb x y ≡ true → AtMost x y
unfolding int_ltb
AtMost-of_less (pos m) (pos n) h = ground (arith, h)
AtMost-of_less (pos m) (negsuc n) h = cc
AtMost-of_less (negsuc m) (pos n) h = refl
AtMost-of_less (negsuc m) (negsuc n) h = ground (arith, h)

AtMost-trans : (x y z : ℤ) → AtMost x y → AtMost y z → AtMost x z
unfolding int_ltb
AtMost-trans (pos x) (pos y) (pos z) h k = ground (arith, h, k)
AtMost-trans (pos x) (pos y) (negsuc z) h k = cc
AtMost-trans (pos x) (negsuc y) z h k = cc
AtMost-trans (negsuc x) y (pos z) h k = refl
AtMost-trans (negsuc x) (pos y) (negsuc z) h k = cc
AtMost-trans (negsuc x) (negsuc y) (negsuc z) h k = ground (arith, h, k)

not_both : {t : Bool} → t ≡ true → t ≡ false → ⊥
not_both p q = cc

module _ {b : Backend} (d : Deps b) where
  -- Whether the address is enabled and may send.
  abbrev pub may_send : MailboxAddress → Bool
  may_send a = int_eq a.status d.api.address_status_enabled && a.send

  -- An address of the list that can send.
  abbrev IsListed : MailboxAddress → List MailboxAddress → Type 0
  IsListed z addrs = (i : ℕ) × (get_elem? addrs i ≡ some z) × (may_send z ≡ true)

  -- The best so far after one more address.
  abbrev next_best : Option MailboxAddress → MailboxAddress → Option MailboxAddress
  next_best best a = if may_send a && better d best a then some a else best

  next_best-AtMost :
      (x a : MailboxAddress) (s t : Bool)
      → may_send a ≡ s
      → int_ltb a.order x.order ≡ t
      → (z : MailboxAddress) × (next_best (some x) a ≡ some z)
        × AtMost z.order x.order
        × ((z ≡ x) ⊎ ((z ≡ a) × (may_send a ≡ true)))
        × (may_send a ≡ true → AtMost z.order a.order)
  next_best-AtMost x a true true p q =
      (a, rw (p, q) refl, AtMost-of_less a.order x.order q, inr (refl, p), λ _. AtMost-refl a.order)
  next_best-AtMost x a true false p q = (x, rw (p, q) refl, AtMost-refl x.order, inl refl, λ _. q)
  next_best-AtMost x a false t p q =
      (x, rw p refl, AtMost-refl x.order, inl refl, λ h. absurd (not_both h p))

  -- The order of the address is at most that of every address of the list that can send.
  pub IsLeast : MailboxAddress → List MailboxAddress → Type 0
  IsLeast z addrs =
      (i : ℕ) (y : MailboxAddress)
      → get_elem? addrs i ≡ some y
      → may_send y ≡ true
      → AtMost z.order y.order

  IsLeast-cons :
      (z a : MailboxAddress) (rest : List MailboxAddress)
      → (may_send a ≡ true → AtMost z.order a.order)
      → IsLeast z rest
      → IsLeast z (a ∷ rest)
  unfolding IsLeast
  IsLeast-cons z a rest first later zero y h k =
      let same : a ≡ y = some-injective a y h in
      subst (λ w. AtMost z.order w.order) same (first (subst (λ w. may_send w ≡ true) (sym same) k))
  IsLeast-cons z a rest first later (suc i) y h k = later i y h k

  later-IsListed :
      (z x y a : MailboxAddress) (rest : List MailboxAddress)
      → (z ≡ y) ⊎ IsListed z rest
      → (y ≡ x) ⊎ ((y ≡ a) × (may_send a ≡ true))
      → (z ≡ x) ⊎ IsListed z (a ∷ rest)
  later-IsListed z x y a rest (inr (i, at, sends)) k = inr (suc i, at, sends)
  later-IsListed z x y a rest (inl p) (inl q) = inl (p ∙ q)
  later-IsListed z x y a rest (inl p) (inr (q, sends)) =
      inr (0, ap some (sym (p ∙ q)), subst (λ w. may_send w ≡ true) (sym (p ∙ q)) sends)

  -- What the loop finds from a best so far.
  best_sender-some :
      (x : MailboxAddress) (addrs : List MailboxAddress)
      → (z : MailboxAddress) × (best_sender d (some x) addrs ≡ some z)
        × AtMost z.order x.order
        × ((z ≡ x) ⊎ IsListed z addrs)
        × IsLeast z addrs
  unfolding best_sender can_send IsLeast
  best_sender-some x [] = (x, refl, AtMost-refl x.order, inl refl, λ i y h k. cc)
  best_sender-some x (a ∷ rest) =
      let (y, chosen, below, from, others) =
        next_best-AtMost x a (may_send a) (int_ltb a.order x.order) refl refl in
      let (z, found, under, where_from, least) = best_sender-some y rest in
      (
        z,
        rw chosen found,
        AtMost-trans z.order y.order x.order under below,
        later-IsListed z x y a rest where_from from,
        IsLeast-cons z a rest (λ k. AtMost-trans z.order y.order a.order under (others k)) least,
      )

  -- No address of the list can send.
  pub IsSilent : List MailboxAddress → Type 0
  IsSilent addrs = (i : ℕ) (y : MailboxAddress) → get_elem? addrs i ≡ some y → may_send y ≡ false

  IsSilent-cons :
      (a : MailboxAddress) (rest : List MailboxAddress)
      → may_send a ≡ false
      → IsSilent rest
      → IsSilent (a ∷ rest)
  unfolding IsSilent
  IsSilent-cons a rest first later zero y h =
      subst (λ w. may_send w ≡ false) (some-injective a y h) first
  IsSilent-cons a rest first later (suc i) y h = later i y h

  Chosen : List MailboxAddress → Type 0
  Chosen addrs =
      ((best_sender d none addrs ≡ none) × IsSilent addrs)
      ⊎ ((z : MailboxAddress) × (best_sender d none addrs ≡ some z)
          × IsListed z addrs
          × IsLeast z addrs)

  Chosen-after :
      (a : MailboxAddress) (rest : List MailboxAddress) (t : Bool)
      → may_send a ≡ t
      → Chosen rest
      → Chosen (a ∷ rest)
  unfolding Chosen best_sender can_send
  Chosen-after a rest true p _ =
      let (z, found, under, where_from, least) = best_sender-some a rest in
      inr (
        z,
        rw p found,
        elim (later-IsListed z a a a rest where_from (inl refl)) [
          | inl same ↦ (0, ap some (sym same), subst (λ w. may_send w ≡ true) (sym same) p)
          | inr listed ↦ listed
        ],
        IsLeast-cons z a rest (λ _. under) least,
      )
  Chosen-after a rest false p (inl (missing, silent)) =
      inl (rw p missing, IsSilent-cons a rest p silent)
  Chosen-after a rest false p (inr (z, found, (i, at, sends), least)) =
      inr (
        z,
        rw p found,
        (suc i, at, sends),
        IsLeast-cons z a rest (λ k. absurd (not_both k p)) least,
      )

  best_sender-Chosen : (addrs : List MailboxAddress) → Chosen addrs
  unfolding Chosen best_sender can_send IsSilent
  best_sender-Chosen [] = inl (refl, λ i y h. cc)
  best_sender-Chosen (a ∷ rest) = Chosen-after a rest (may_send a) refl (best_sender-Chosen rest)

-- Without a named address, either no address is enabled and allowed to send and none is found, or
-- one is found: it is among the account's addresses, it is enabled and allowed to send, and no such
-- address has a lower order.
pub best_sender-IsLeast :
    {b : Backend} (d : Deps b) (addrs : List MailboxAddress)
    → ((best_sender d none addrs ≡ none) × IsSilent d addrs)
      ⊎ ((z : MailboxAddress) × (best_sender d none addrs ≡ some z)
          × ((i : ℕ) × (get_elem? addrs i ≡ some z) × (may_send d z ≡ true))
          × IsLeast d z addrs)
unfolding Chosen
best_sender-IsLeast d addrs = best_sender-Chosen d addrs

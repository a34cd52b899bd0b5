-- ===== src/Keyring/Unlocking.antt =====
-- Which keyrings `Unlock` ends with, and that it never ends with none for a mailbox with addresses.
use protonmail_mcp.Common.{
  String, Bool, true, All, ◌++◌, false, Option, none, some, List, [], ◌∷◌, ◌≡◌, ◌≢◌, refl, ◌∙◌, sym,
  ap, subst, inl, inr, ◌==◌, eq_iff, lookup, or_else, if◌then◌else◌, Bool-cases,
}
use mathlib.Core.Option.{some-injective}
use protonmail_mcp.Proterr.Chain.{GoError, wrap, both, sentinel, keyring_locked, Result, ok, err}
use protonmail_mcp.Exec.{Exec, >>=-eq-ok, ◌>>=◌, ok-injective, adjust, with_error}
use protonmail_mcp.Keyring.{
  Address, Key, Pgp, KeyFetcher, Keyrings, without, lift, add_unlocked, unlock_addresses,
  check_addresses, unlock, primary_key, found_primary, salts_error,
}

module _ {V : Type 0} where
  lookup-without :
      (i j : String) (m : List (String × V))
      → (j == i) ≡ false
      → lookup i (without j m) ≡ lookup i m
  unfolding lookup
  lookup-without i j [] h = refl
  lookup-without i j ((k, v) ∷ rest) h = elim (Bool-cases (k == j)) [
    | inl same ↦ rw (same, (eq_iff k j).0 same, h) (lookup-without i j rest h)
    | inr other ↦ rw other (ap (λ o. if k == i then some v else o) (lookup-without i j rest h))
  ]

abbrev value_of : {A : Type 0} → Result A → Option A
value_of (ok a) = some a
value_of (err _) = none

module _ {W KeyRing : Type 0} (pgp : Pgp W KeyRing) (pass : String) (user : KeyRing) where
  -- The keyring of an address, if it is the one asked for and its keys unlock.
  abbrev opened : String → Address pgp.Material → Option KeyRing
  opened i a = if a.id == i then value_of (pgp.unlock_keys a.keys pass (some user)) else none

  -- The last address of the ID whose keys unlock.
  unfoldable pub last_opened : String → List (Address pgp.Material) → Option KeyRing
  last_opened i [] = none
  last_opened i (a ∷ rest) = or_else (last_opened i rest) (opened i a)

  or_else_assoc : (x y z : Option KeyRing) → or_else x (or_else y z) ≡ or_else (or_else x y) z
  or_else_assoc none y z = refl
  or_else_assoc (some a) y z = refl

  lookup-add_unlocked :
      (i j : String) (r : Result KeyRing) (found : List (String × KeyRing))
      → lookup i (add_unlocked pgp j r found)
        ≡ or_else (if j == i then value_of r else none) (lookup i found)
  unfolding lookup
  lookup-add_unlocked i j (ok kr) found = elim (Bool-cases (j == i)) [
    | inl same ↦ rw same refl
    | inr other ↦ rw other (lookup-without i j found other)
  ]
  lookup-add_unlocked i j (err e) found = elim (Bool-cases (j == i)) [
    | inl same ↦ rw same refl
    | inr other ↦ rw other refl
  ]

  lookup-unlock_addresses :
      (i : String) (addrs : List (Address pgp.Material)) (found : List (String × KeyRing))
      → lookup i (unlock_addresses pgp pass user addrs found)
        ≡ or_else (last_opened i addrs) (lookup i found)
  unfolding unlock_addresses last_opened
  lookup-unlock_addresses i [] found = refl
  lookup-unlock_addresses i (a ∷ rest) found =
      lookup-unlock_addresses i rest
        (add_unlocked pgp a.id (pgp.unlock_keys a.keys pass (some user)) found)
      ∙ ap (or_else (last_opened i rest))
          (lookup-add_unlocked i a.id (pgp.unlock_keys a.keys pass (some user)) found)
      ∙ or_else_assoc (last_opened i rest) (opened i a) (lookup i found)

adjust-ok :
    {W A : Type 0} (f : GoError → GoError) (p : Result A × W) (a : A)
    → (adjust f p).0 ≡ ok a
    → p.0 ≡ ok a
adjust-ok f (ok x, w) a h = h
adjust-ok f (err e, w) a h = cc

-- A step with context that is followed by others, in a chain that succeeds.
bind-ok :
    {W A B : Type 0} (f : GoError → GoError) (m : Exec W A) (g : A → Exec W B) (w : W) (b : B)
    → ((with_error f m >>= g) w).0 ≡ ok b
    → (a : A) × ((m w).0 ≡ ok a) × (w' : W) × ((g a w').0 ≡ ok b)
bind-ok f m g w b h =
    let (a, done, rest, _) = >>=-eq-ok (with_error f m) g w h in
    (a, adjust-ok f (m w) a done, (with_error f m w).1, rest)

or_else-none : {A : Type 0} (o : Option A) → or_else o none ≡ o
or_else-none none = refl
or_else-none (some a) = refl

module _ {W KeyRing : Type 0} (pgp : Pgp W KeyRing) (f : KeyFetcher pgp) where
  -- Where the keyrings `k` of an unlock with the password come from.
  pub record IsUnlocked (password : String) (k : Keyrings KeyRing) : Type 0 where
    pub salts : pgp.Salts
    pub keys : List (Key pgp.Material)
    pub primary : Key pgp.Material
    pub salted : String
    pub addrs : List (Address pgp.Material)
    pub salts_served : (w : W) × ((f.get_salts w).0 ≡ ok salts)
    pub keys_served : (w : W) × ((f.get_user_keys w).0 ≡ ok keys)
    pub addrs_served : (w : W) × ((f.get_addresses w).0 ≡ ok addrs)
    pub before : List (Key pgp.Material)
    pub after : List (Key pgp.Material)
    pub placed : keys ≡ before ++ primary ∷ after
    pub is_primary : primary.primary ≡ true
    pub is_first : All (λ (x : Key pgp.Material). x.primary ≡ false) before
    pub is_salted : pgp.salt_for_key salts password primary.id ≡ ok salted
    pub user : pgp.unlock_keys keys salted none ≡ ok k.user
    pub opened_all : (i : String) → lookup i k.addr ≡ last_opened pgp salted k.user i addrs
    pub some_opened : addrs ≢ [] → k.addr ≢ []

  -- The first key of a list that is marked primary.
  record IsFirst (keys : List (Key pgp.Material)) (p : Key pgp.Material) : Type 0 where
    pub before : List (Key pgp.Material)
    pub after : List (Key pgp.Material)
    pub placed : keys ≡ before ++ p ∷ after
    pub is_primary : p.primary ≡ true
    pub is_first : All (λ (x : Key pgp.Material). x.primary ≡ false) before

  primary_key-IsFirst :
      (keys : List (Key pgp.Material)) (p : Key pgp.Material)
      → primary_key pgp keys ≡ some p
      → IsFirst keys p
  unfolding primary_key
  primary_key-IsFirst [] p h = cc
  primary_key-IsFirst (x ∷ keys) p h = by_mark x.primary refl (primary_key-IsFirst keys p) h
    where
      by_mark :
          (t : Bool)
          → x.primary ≡ t
          → (primary_key pgp keys ≡ some p → IsFirst keys p)
          → (if t then some x else primary_key pgp keys) ≡ some p
          → IsFirst (x ∷ keys) p
      by_mark true m rest q = record {
        before = [];
        after = keys;
        placed = ap (λ y. y ∷ keys) (some-injective x p q);
        is_primary = sym (ap (λ y. y.primary) (some-injective x p q)) ∙ m;
        is_first = tt;
      }
      by_mark false m rest q =
          let later = rest q in
          record {
            before = x ∷ later.before;
            after = later.after;
            placed = ap (λ ys. x ∷ ys) later.placed;
            is_primary = later.is_primary;
            is_first = (m, later.is_first);
          }

  checked-user :
      (addrs : List (Address pgp.Material)) (user : KeyRing) (found : List (String × KeyRing))
      (k : Keyrings KeyRing)
      → check_addresses pgp addrs user found ≡ ok k
      → (k ≡ record { user = user; addr = found }) × (addrs ≢ [] → found ≢ [])
  unfolding check_addresses
  checked-user [] user found k h = (sym (ok-injective h), λ n. absurd (n refl))
  checked-user (a ∷ rest) user [] k h = cc
  checked-user (a ∷ rest) user (x ∷ found) k h = (sym (ok-injective h), λ _. cc)

  found_primary-some :
      (o : Option (Key pgp.Material)) (p : Key pgp.Material)
      → found_primary pgp o ≡ ok p
      → o ≡ some p
  found_primary-some none p h = cc
  found_primary-some (some q) p h = ap some (ok-injective h)

-- Unlocking that succeeds has unlocked the user's keys with the salted passphrase of the first of
-- them that is marked primary, holds under each address ID the keyring of the last address of that ID whose keys unlock
-- with it and the user's keyring, and none for any other ID, and holds at least one if the mailbox
-- has addresses.
pub unlock-IsUnlocked :
    {W KeyRing : Type 0} (pgp : Pgp W KeyRing) (f : KeyFetcher pgp) (password : String) (w : W)
    (k : Keyrings KeyRing)
    → (unlock pgp f password w).0 ≡ ok k
    → IsUnlocked pgp f password k
unfolding unlock lookup
unlock-IsUnlocked {KeyRing = KeyRing} pgp f password w k h =
    let (salts, h1, w1, r1) = bind-ok (salts_error pgp) f.get_salts _ w k h in
    let (keys, h2, w2, r2) = bind-ok (λ e. wrap "get user: " e "") f.get_user_keys _ w1 k r1 in
    let (primary, h3, r3, _) =
      >>=-eq-ok (lift (found_primary pgp (primary_key pgp keys))) _ w2 r2 in
    let (salted, h4, w4, r4) =
      bind-ok (λ e. wrap "salt for key: " e "") (lift (pgp.salt_for_key salts password primary.id))
        _ w2 k r3 in
    let (user, h5, w5, r5) =
      bind-ok (λ e. both "unlock user keyring: " (sentinel keyring_locked) ": " e "")
        (lift (pgp.unlock_keys keys salted none)) _ w4 k r4 in
    let (addrs, h6, w6, r6) =
      bind-ok (λ e. wrap "get addresses: " e "") f.get_addresses _ w5 k r5 in
    let found = unlock_addresses pgp salted user addrs [] in
    let first =
      primary_key-IsFirst pgp f keys primary
        (found_primary-some pgp f (primary_key pgp keys) primary h3) in
    let (same, nonempty) = checked-user pgp f addrs user found k r6 in
    record {
      salts = salts;
      keys = keys;
      primary = primary;
      salted = salted;
      addrs = addrs;
      salts_served = (w, h1);
      keys_served = (w1, h2);
      addrs_served = (w5, h6);
      before = first.before;
      after = first.after;
      placed = first.placed;
      is_primary = first.is_primary;
      is_first = first.is_first;
      is_salted = h4;
      user = h5 ∙ ap (λ x. ok x.user) (sym same);
      opened_all = λ i.
          subst (λ (x : Keyrings KeyRing). lookup i x.addr ≡ last_opened pgp salted x.user i addrs)
            (sym same)
            (lookup-unlock_addresses pgp salted user i addrs []
              ∙ or_else-none (last_opened pgp salted user i addrs));
      some_opened = λ n. subst (λ (x : Keyrings KeyRing). x.addr ≢ []) (sym same) (nonempty n);
    }

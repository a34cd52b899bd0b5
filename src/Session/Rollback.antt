-- ===== src/Session/Rollback.antt =====
-- What `rollbackLoginPersist` does for a login that could not be stored.
use protonmail_mcp.Common.{
  String, Bool, true, false, Option, none, some, is_some, or_else, ◌≢◌, ◌≡◌, refl, ◌∙◌, ap, inl,
  inr, ◌||◌, ◌<>◌, Bool-cases,
}
use protonmail_mcp.Proterr.Chain.{
  Sentinel, GoError, wrap, join, errors_is, find_first, pick_sentinel, Result, ok, err,
}
use protonmail_mcp.Keychain.Diagnosis.{backend_unavailable}
use protonmail_mcp.Session.State.{Backend, State}
use protonmail_mcp.Session.Login.{after_clear, rollback_login_persist}

abbrev refused : Result (Unit {0}) → Bool
refused (ok _) = false
refused (err _) = true

true-false : {t : Bool} → t ≡ true → t ≢ false
true-false h k = cc

module _ (b : Backend) (op : String) (cause : GoError) where
  -- The outcome of a rollback from `st`.
  pub record IsRolledBack (st : State b) (p : Result (Unit {0}) × State b) : Type 0 where
    pub error : GoError
    pub failed : p.0 ≡ err error
    pub caused : (k : Sentinel) → errors_is cause k ≡ true → errors_is error k ≡ true
    pub unreachable : backend_unavailable cause ≡ true → p.1 ≡ st
    pub cleared : backend_unavailable cause ≡ false → p.1.world ≡ (b.store.clear st.world).1
    pub poisoned :
        backend_unavailable cause ≡ false
        → p.1.poisoned ≡ (refused (b.store.clear st.world).0 || st.poisoned)

  wrapped-caused :
      (before after : String) (k : Sentinel)
      → errors_is (wrap before cause after) k ≡ errors_is cause k
  unfolding errors_is find_first
  wrapped-caused before after k = refl

  twice-caused :
      (x before after : String) (k : Sentinel)
      → errors_is (wrap x (wrap before cause "") after) k ≡ errors_is cause k
  unfolding errors_is find_first
  twice-caused x before after k = refl

  is_some-or_else : {A : Type 0} (x y : Option A) → is_some x ≡ true → is_some (or_else x y) ≡ true
  is_some-or_else none y h = cc
  is_some-or_else (some a) y h = refl

  joined-caused :
      (e f : GoError) (k : Sentinel) → errors_is e k ≡ true → errors_is (join e f) k ≡ true
  unfolding errors_is find_first
  joined-caused e f k h =
      is_some-or_else (find_first (pick_sentinel k) e) (find_first (pick_sentinel k) f) h

  -- The branch that clears the store, by what clearing returns.
  after_clear-IsRolledBack :
      (st : State b) (q : Result (Unit {0}) × b.World)
      → q ≡ b.store.clear st.world
      → backend_unavailable cause ≡ false
      → IsRolledBack st (after_clear b op cause q.0 (record st { world = q.1 }))
  unfolding after_clear
  after_clear-IsRolledBack st (ok _, w) same there = record {
    error = wrap (op <> ": ") cause "";
    failed = refl;
    caused = λ k h. wrapped-caused (op <> ": ") "" k ∙ h;
    unreachable = λ dead. absurd (true-false dead there);
    cleared = λ _. ap (λ r. r.1) same;
    poisoned = λ _. ap (λ r. refused r.0 || st.poisoned) same;
  }
  after_clear-IsRolledBack st (err e, w) same there = record {
    error = _;
    failed = refl;
    caused = λ k h.
        joined-caused (wrap (op <> ": ") cause "") _ k (wrapped-caused (op <> ": ") "" k ∙ h);
    unreachable = λ dead. absurd (true-false dead there);
    cleared = λ _. ap (λ r. r.1) same;
    poisoned = λ _. ap (λ r. refused r.0 || st.poisoned) same;
  }

-- A rollback always ends in an error, which is still every sentinel that its cause is. When the
-- backend is unreachable nothing changes, and what was stored stays; otherwise the store is
-- cleared, and the session is marked inconsistent if it was, or if the clearing fails.
pub rollback_login_persist-IsRolledBack :
    (b : Backend) (op : String) (cause : GoError) (st : State b)
    → IsRolledBack b op cause st (rollback_login_persist b op cause st)
unfolding rollback_login_persist
rollback_login_persist-IsRolledBack b op cause st = elim (Bool-cases (backend_unavailable cause)) [
  | inl dead ↦
      rw (dead, rollback_login_persist)
        (record {
          error = _;
          failed = refl;
          caused = λ k h. twice-caused b op cause "" (op <> ": ") _ k ∙ h;
          unreachable = λ _. refl;
          cleared = λ there. absurd (true-false dead there);
          poisoned = λ there. absurd (true-false dead there);
        })
  | inr there ↦
      rw (there, rollback_login_persist)
        (after_clear-IsRolledBack b op cause st (b.store.clear st.world) refl there)
]

-- ===== src/Calendar/Recurrence/Reference.antt =====
-- What the expansion of a rule returns, by an independent description of it.
use protonmail_mcp.Common.{
  ℕ, zero, suc, ◌+◌, ◌-◌, ◌≤◌, ◌≡◌, refl, String, Bool, true, false, List, [], ◌∷◌, ◌++◌, ltb, leb,
  ◌==◌, ◌<>◌, length, if◌then◌else◌, arith, ap, ◌∙◌, inl, inr, Bool-cases,
}
use mathlib.Core.List.{append-nil, append_assoc}
use protonmail_mcp.Proterr.Chain.{wrap, Result, ok, err}
use protonmail_mcp.Calendar.Recurrence.{Time, before, collect, Rules, single, collected, expand}

-- The times before the first that is after the window.
unfoldable pub until : Time → List Time → List Time
until win_end [] = []
until win_end (v ∷ rest) =
    let kept = until win_end rest in if before win_end v then [] else v ∷ kept

-- Those that are not before the window.
unfoldable pub since : Time → List Time → List Time
since win_start [] = []
since win_start (v ∷ rest) =
    let kept = since win_start rest in if before v win_start then kept else v ∷ kept

unfoldable pub take : ℕ → List Time → List Time
take zero times = []
take (suc k) [] = []
take (suc k) (v ∷ rest) = v ∷ take k rest

length-snoc : (occ : List Time) (v : Time) → length (occ ++ v ∷ []) ≡ length occ + 1
length-snoc [] v = refl
length-snoc (w ∷ occ) v = let ih = length-snoc occ v in omega (arith, ih)

take-nil : (k : ℕ) → take k [] ≡ []
unfolding take
take-nil zero = refl
take-nil (suc k) = refl

ltb-zero : (n : ℕ) → true ≡ ltb 0 (suc n)
ltb-zero n = ground arith

ltb-none : (m : ℕ) → false ≡ ltb m 0
ltb-none m = ground arith

ltb-suc : (m n : ℕ) → ltb m n ≡ ltb (suc m) (suc n)
ltb-suc m n = ground arith

module _ (win_start win_end : Time) (limit : ℕ) where
  abbrev reference : List Time → List Time → List Time × Bool
  reference occ w = (occ ++ take (limit - length occ) w, ltb (limit - length occ) (length w))

  step :
      (occ : List Time) (v : Time) (w : List Time) (t : Bool)
      → leb limit (length occ) ≡ t
      → (if t then (occ, true) else reference (occ ++ v ∷ []) w) ≡ reference occ (v ∷ w)
  unfolding take
  step occ v w true h =
      let none_left : limit - length occ ≡ 0 = ground (arith, h) in
      rw (none_left, append-nil occ) (ap (λ t. (occ, t)) (ltb-zero (length w)))
  step occ v w false h =
      let left : limit - length occ ≡ suc (limit - length occ - 1) = ground (arith, h) in
      let fewer : limit - length (occ ++ v ∷ []) ≡ limit - length occ - 1 =
        let longer = length-snoc occ v in omega (arith, longer) in
      rw (left, fewer, append_assoc occ (v ∷ []) (take (limit - length occ - 1) w))
        (ap (λ t. (occ ++ v ∷ take (limit - length occ - 1) w, t))
          (ltb-suc (limit - length occ - 1) (length w)))

  by_tests :
      (occ : List Time) (v : Time) (rest : List Time) (a e : Bool)
      → ((o : List Time)
          → collect win_start win_end limit o rest
            ≡ reference o (since win_start (until win_end rest)))
      → before win_end v ≡ a
      → before v win_start ≡ e
      → collect win_start win_end limit occ (v ∷ rest)
        ≡ reference occ (since win_start (until win_end (v ∷ rest)))
  unfolding collect since until
  by_tests occ v rest true e later h k =
      rw (h, take-nil (limit - length occ), append-nil occ)
        (ap (λ t. (occ, t)) (ltb-none (limit - length occ)))
  by_tests occ v rest false true later h k = rw (h, k) (later occ)
  by_tests occ v rest false false later h k =
      rw (h, k)
        (ap (λ r. if leb limit (length occ) then (occ, true) else r) (later (occ ++ v ∷ []))
          ∙ step occ v (since win_start (until win_end rest)) (leb limit (length occ)) refl)

  collect-reference :
      (occ times : List Time)
      → collect win_start win_end limit occ times
        ≡ reference occ (since win_start (until win_end times))
  unfolding collect since until
  collect-reference occ [] =
      rw (take-nil (limit - length occ), append-nil occ)
        (ap (λ t. (occ, t)) (ltb-none (limit - length occ)))
  collect-reference occ (v ∷ rest) =
      by_tests occ v rest (before win_end v) (before v win_start) (λ o. collect-reference o rest)
        refl refl

-- All the times at which an event takes place.
unfoldable pub event_times : Rules → String → Time → Result (List Time)
event_times rules rule start =
    if rule == "" then ok (start ∷ []) else elim (rules.parse_rule ("RRULE:" <> rule)) [
      | err e ↦ err (wrap "parse rrule: " e "")
      | ok opt ↦ elim (rules.occurrences opt start) [
        | ok times ↦ ok times
        | err e ↦ err (wrap "build rrule: " e "")
      ]
    ]

-- The first `limit` times of a list within the window, and whether there are more.
unfoldable pub window : (win_start win_end : Time) (limit : ℕ) → List Time → List Time × Bool
unfolding take since until
window win_start win_end limit times =
    let inside = since win_start (until win_end times) in
    (take limit inside, ltb limit (length inside))

unfoldable pub map_result : {A B : Type 0} → (A → B) → Result A → Result B
map_result f (ok a) = ok (f a)
map_result f (err e) = err e

take-single : (k : ℕ) (v : Time) → 1 ≤ k → take k (v ∷ []) ≡ v ∷ []
unfolding take
take-single zero v h = absurd (omega (arith, h))
take-single (suc k) v h = rw (take-nil k) refl

ltb-single : (k : ℕ) → 1 ≤ k → false ≡ ltb k 1
ltb-single k h = ground (arith, h)

module _ (rules : Rules) (start win_start win_end : Time) (limit : ℕ) (positive : 1 ≤ limit) where
  single-window :
      (a e : Bool)
      → before win_end start ≡ a
      → before start win_start ≡ e
      → (single rules start win_start win_end, false) ≡ window win_start win_end limit (start ∷ [])
  unfolding window since until
  single-window true true p q = rw (p, q, take-nil limit) (ap (λ t. ([], t)) (ltb-none limit))
  single-window true false p q = rw (p, q, take-nil limit) (ap (λ t. ([], t)) (ltb-none limit))
  single-window false true p q = rw (p, q, take-nil limit) (ap (λ t. ([], t)) (ltb-none limit))
  single-window false false p q =
      rw (p, q, take-single limit start positive)
        (ap (λ t. (start ∷ [], t)) (ltb-single limit positive))

  by_occurrences :
      (r : Result (List Time))
      → collected rules win_start win_end limit r
        ≡ map_result
            (window win_start win_end limit)
            (elim r [ ok times ↦ ok times | err e ↦ err (wrap "build rrule: " e "") ])
  unfolding map_result window
  by_occurrences (ok times) =
      let all_left : limit - 0 ≡ limit = omega arith in
      let collects : collect win_start win_end limit [] times
          ≡ reference win_start win_end limit [] (since win_start (until win_end times)) =
        collect-reference win_start win_end limit [] times in
      rw (collects, all_left) refl
  by_occurrences (err e) = refl

  by_rule :
      (r : Result rules.Options)
      → (elim r as (λ _. Result (List Time × Bool)) [
        | err e ↦ err (wrap "parse rrule: " e "")
        | ok opt ↦ collected rules win_start win_end limit (rules.occurrences opt start)
      ])
        ≡ map_result (window win_start win_end limit) (elim r as (λ _. Result (List Time)) [
          | err e ↦ err (wrap "parse rrule: " e "")
          | ok opt ↦ elim (rules.occurrences opt start) [
            | ok times ↦ ok times
            | err e ↦ err (wrap "build rrule: " e "")
          ]
        ])
  unfolding map_result
  by_rule (err e) = refl
  by_rule (ok opt) = by_occurrences (rules.occurrences opt start)

-- With a positive limit, the expansion of a rule is the first occurrences of its event within the
-- window, at most the limit, and it is truncated exactly if there are more; if the rule is not
-- read, it is that error.
pub expand-reference :
    (rules : Rules) (rule : String) (start win_start win_end : Time) (limit : ℕ)
    → 1 ≤ limit
    → expand rules rule start win_start win_end limit
      ≡ map_result (window win_start win_end limit) (event_times rules rule start)
unfolding expand event_times map_result
expand-reference rules rule start win_start win_end limit h = elim (Bool-cases (rule == "")) [
  | inl empty ↦ rw empty (
      ap ok (
        single-window rules start win_start win_end limit h (before win_end start)
          (before start win_start) refl refl))
  | inr given ↦
      rw given (by_rule rules start win_start win_end limit h (rules.parse_rule ("RRULE:" <> rule)))
]

-- ===== src/Calendar/Recurrence.antt =====
-- internal/calendar/recurrence.go: the occurrences of an event within a window. A `time.Time` is its
-- instant, in nanoseconds since 1970. An iterator of rrule-go ends, by the year 9999 at the latest,
-- so it is the list of the times that it returns.
pub mod Reference
use protonmail_mcp.Common.{
  ℕ, String, Bool, true, false, List, [], ◌∷◌, ◌++◌, ◌==◌, ◌&&◌, ◌<>◌, not, leb, length,
  if◌then◌else◌,
}
use protonmail_mcp.Common.Strconv.{ℤ}
use protonmail_mcp.Common.Ints.{int_ltb}
use protonmail_mcp.Proterr.Chain.{wrap, Result, ok, err}

abbrev pub Time : Type 0
Time = ℤ

-- `a.Before(b)`, also `b.After(a)`
abbrev pub before : Time → Time → Bool
before = int_ltb

-- rrule-go: `StrToROption`, and the iterator of `NewRRule` from a first time on.
pub record Rules : Type 1 where
  pub Options : Type 0
  pub parse_rule : String → Result Options
  pub occurrences : Options → Time → Result (List Time)

module _ (win_start win_end : Time) (limit : ℕ) where
  -- The loop, over what the iterator has left and what is collected.
  unfoldable pub collect : List Time → List Time → List Time × Bool
  collect occ [] = (occ, false)
  collect occ (v ∷ rest) =
      let later = collect (if before v win_start then occ else occ ++ v ∷ []) rest in
      if before win_end v
      then (occ, false)
      else if before v win_start
      then later
      else if leb limit (length occ)
      then (occ, true)
      else later

module _ (rules : Rules) where
  abbrev pub collected : Time → Time → ℕ → Result (List Time) → Result (List Time × Bool)
  collected win_start win_end limit (ok times) = ok (collect win_start win_end limit [] times)
  collected win_start win_end limit (err e) = err (wrap "build rrule: " e "")

  -- The empty rule: the single start, if it is in the window.
  abbrev pub single : Time → Time → Time → List Time
  single start win_start win_end =
      if not (before start win_start) && not (before win_end start) then start ∷ [] else []

  unfoldable pub expand :
      String → (start win_start win_end : Time) → (limit : ℕ) → Result (List Time × Bool)
  expand rule start win_start win_end limit =
      if rule == ""
      then ok (single start win_start win_end, false)
      else elim (rules.parse_rule ("RRULE:" <> rule)) [
        | err e ↦ err (wrap "parse rrule: " e "")
        | ok opt ↦ collected win_start win_end limit (rules.occurrences opt start)
      ]

-- ===== src/Tools/Events.antt =====
-- internal/tools/calendar.go. A `time.Time` is its instant in nanoseconds; an event's times are in
-- seconds.
use protonmail_mcp.Common.{
  ℕ, ◌+◌, ◌-◌, ◌*◌, ◌/◌, ◌^◌, String, Bool, true, false, none, some, List, [], ◌∷◌, ◌++◌, map, ◌==◌,
  ◌||◌, ◌&&◌, not, nonempty, length, leb, ltb, nat_eq, codes, if◌then◌else◌,
}
use protonmail_mcp.Common.Strconv.{ℤ, pos, negsuc}
use protonmail_mcp.Common.Ints.{int_add, int_neg, itoa}
use protonmail_mcp.Proterr.Chain.{mapped, Result, ok, err}
use protonmail_mcp.Exec.{Exec, pure, ◌>>=◌, ◌>>◌}
use protonmail_mcp.Keyring.{lift}
use protonmail_mcp.Calendar.Decrypt.{
  Attendee, IcsFields, CalendarEvent, then_do, decrypt_shared_ics, parse_ics,
}
use protonmail_mcp.Calendar.Recurrence.{Time, before, expand}
use protonmail_mcp.Session.State.{Backend, State}
use protonmail_mcp.Session.Access.{calendar_keyring}
use protonmail_mcp.Tools.Api.{CalendarInfo}
use protonmail_mcp.Tools.Handler.{Deps, or_mapped, unless, required, invalid, tool_client}

abbrev pub max_occurrences : ℕ
max_occurrences = 500

pub record CalendarDto : Type 0 where
  pub id : String
  pub name : String
  pub description : String
  pub color : String
  pub type : String
  pub active : Bool
  pub lost_access : Bool

pub record AttendeeDto : Type 0 where
  pub email : String
  pub status : String

pub record EventOccurrenceDto : Type 0 where
  pub calendar_id : String
  pub event_id : String
  pub uid : String
  pub summary : String
  pub location : String
  pub start : String
  pub end : String
  pub all_day : Bool
  pub recurring : Bool
  pub attendees : List AttendeeDto

pub record ListEventsIn : Type 0 where
  pub start : String
  pub end : String
  pub calendar_id : String

pub record ListEventsOut : Type 0 where
  pub events : List EventOccurrenceDto
  pub truncated : Bool
  pub skipped : ℕ

pub record EventDetailDto : Type 0 where
  pub occurrence : EventOccurrenceDto
  pub description : String
  pub organizer : String
  pub recurrence_rule : String

pub record GetEventIn : Type 0 where
  pub calendar_id : String
  pub event_id : String

unfoldable pub to_calendar_dto : CalendarInfo → CalendarDto
to_calendar_dto c = record {
  id = c.id;
  name = c.name;
  description = c.description;
  color = c.color;
  type = if c.subscribed then "subscribed" else "normal";
  active = c.active;
  lost_access = c.lost_access;
}

unfoldable pub to_attendee_dtos : List Attendee → List AttendeeDto
to_attendee_dtos = map (λ a. record { email = a.email; status = a.status })

-- `time.Unix(seconds, 0)`
unfoldable pub unix : ℤ → Time
unix (pos n) = pos (n * 10 ^ 9)
unix (negsuc n) = negsuc ((n + 1) * 10 ^ 9 - 1)

-- `t.Unix()`
unfoldable pub to_unix : Time → ℤ
to_unix (pos n) = pos (n / 10 ^ 9)
to_unix (negsuc n) = negsuc (n / 10 ^ 9)

-- A duration is an `int64`; `Sub` stops at its ends.
abbrev saturate : ℤ → ℤ
saturate (pos n) = if ltb n (2 ^ 63) then pos n else pos (2 ^ 63 - 1)
saturate (negsuc n) = if ltb n (2 ^ 63) then negsuc n else negsuc (2 ^ 63 - 1)

unfoldable pub time_sub : Time → Time → ℤ
time_sub t u = saturate (int_add t (int_neg u))

-- The window query of `calendarWindowFilter`.
unfoldable pub calendar_window_filter : Time → Time → List (String × String)
calendar_window_filter start end =
    ("Start", itoa (to_unix start)) ∷ ("End", itoa (to_unix end)) ∷ []

-- `s < t` on texts: by their bytes in UTF-8, which is by their code points.
unfoldable pub codes_ltb : List ℕ → List ℕ → Bool
codes_ltb cs [] = false
codes_ltb [] (d ∷ ds) = true
codes_ltb (c ∷ cs) (d ∷ ds) = let rest = codes_ltb cs ds in ltb c d || nat_eq c d && rest

abbrev pub earlier : EventOccurrenceDto → EventOccurrenceDto → Bool
earlier x y = codes_ltb (codes x.start) (codes y.start)

unfoldable pub active_ids : List CalendarInfo → List String
active_ids [] = []
active_ids (c ∷ rest) =
    let later = active_ids rest in if c.active && not c.lost_access then c.id ∷ later else later

-- What the loops of `listEvents` carry, and whether `break outer` has been reached.
pub record Listing : Type 0 where
  pub all : List EventOccurrenceDto
  pub truncated : Bool
  pub skipped : ℕ
  pub full : Bool

abbrev pub empty_listing : Listing
empty_listing = record { all = []; truncated = false; skipped = 0; full = false }

-- `all[:n]`
unfoldable pub take_events : ℕ → List EventOccurrenceDto → List EventOccurrenceDto
take_events n [] = []
take_events n (x ∷ rest) =
    let kept = take_events (n - 1) rest in if nat_eq n 0 then [] else x ∷ kept

-- One round of the inner loop, after `occurrencesFor`.
unfoldable pub listed : Result (List EventOccurrenceDto × Bool) → Listing → Listing
listed (err _) l = record l { skipped = l.skipped + 1 }
listed (ok (occ, trunc)) l =
    if leb max_occurrences (length (l.all ++ occ))
    then record l {
      all = take_events max_occurrences (l.all ++ occ);
      truncated = true;
      full = true;
    }
    else record l { all = l.all ++ occ; truncated = l.truncated || trunc }

module _ {b : Backend} (d : Deps b) where
  open d use {api, part_crypto, decode_ical, rules, parse_time, format_time, sort_by}

  unfoldable pub list_calendars : Unit {0} → Exec (State b) (List CalendarDto)
  list_calendars _ = do
    c ← tool_client b
    found ← or_mapped b (api.get_calendars c)
    pure (map to_calendar_dto found)

  abbrev pub event_occurrence : CalendarEvent → IcsFields → (start end : Time) → EventOccurrenceDto
  event_occurrence ev fields start end = record {
    calendar_id = ev.calendar_id;
    event_id = ev.id;
    uid = ev.uid;
    summary = fields.summary;
    location = fields.location;
    start = format_time start;
    end = format_time end;
    all_day = ev.full_day;
    recurring = nonempty fields.recurrence_rule;
    attendees = to_attendee_dtos fields.attendees;
  }

  abbrev pub event_fields : CalendarEvent → b.KeyRing → Result IcsFields
  event_fields ev cal_kr =
      then_do (decrypt_shared_ics part_crypto ev cal_kr) (parse_ics decode_ical)

  unfoldable pub occurrences_for :
      CalendarEvent
      → b.KeyRing
      → (start end : Time) → (remaining : ℕ) → Result (List EventOccurrenceDto × Bool)
  occurrences_for ev cal_kr start end remaining =
      let duration = time_sub (unix ev.end_time) (unix ev.start_time) in
      then_do (event_fields ev cal_kr) λ fields.
        then_do (expand rules fields.recurrence_rule (unix ev.start_time) start end remaining)
          λ found.
            ok (map (λ s. event_occurrence ev fields s (int_add s duration)) found.0, found.1)

  unfoldable pub parse_window : (start end : String) → Result (Time × Time)
  parse_window start end = elim (required "start" start) [
    | some e ↦ err (mapped e)
    | none ↦ elim (required "end" end) [
      | some e ↦ err (mapped e)
      | none ↦ elim (parse_time start) [
        | none ↦ err (mapped (invalid "start must be RFC3339"))
        | some s ↦ elim (parse_time end) [
          | none ↦ err (mapped (invalid "end must be RFC3339"))
          | some e ↦
              if before e s then err (mapped (invalid "end must be after start")) else ok (s, e)
        ]
      ]
    ]
  ]

  unfoldable pub target_calendars : b.Client → String → Exec (State b) (List String)
  target_calendars c calendar_id =
      if calendar_id == ""
      then (do cals ← or_mapped b (api.get_calendars c); pure (active_ids cals))
      else pure (calendar_id ∷ [])

  -- The inner loop.
  unfoldable pub list_calendar :
      b.KeyRing → (start end : Time) → List CalendarEvent → Listing → Listing
  list_calendar cal_kr start end [] l = l
  list_calendar cal_kr start end (ev ∷ rest) l =
      let now = listed (occurrences_for ev cal_kr start end (max_occurrences - length l.all)) l in
      let later = list_calendar cal_kr start end rest now in if now.full then now else later

  -- The outer loop.
  unfoldable pub list_all :
      b.Client → (start end : Time) → List String → Listing → Exec (State b) Listing
  list_all c start end [] l = pure l
  list_all c start end (id ∷ rest) l = do
    cal_kr ← or_mapped b (calendar_keyring b id)
    events ← or_mapped b (api.get_all_calendar_events c id (calendar_window_filter start end))
    let now = list_calendar cal_kr start end events l
    let later = list_all c start end rest now
    if now.full then pure now else later

  unfoldable pub list_events : ListEventsIn → Exec (State b) ListEventsOut
  list_events input = do
    window ← lift (parse_window input.start input.end)
    c ← tool_client b
    ids ← target_calendars c input.calendar_id
    l ← list_all c window.0 window.1 ids empty_listing
    pure (record { events = sort_by earlier l.all; truncated = l.truncated; skipped = l.skipped })

  unfoldable pub get_event : GetEventIn → Exec (State b) EventDetailDto
  get_event input = do
    unless b (required "calendar_id" input.calendar_id)
    unless b (required "event_id" input.event_id)
    c ← tool_client b
    cal_kr ← or_mapped b (calendar_keyring b input.calendar_id)
    ev ← or_mapped b (api.get_calendar_event c input.calendar_id input.event_id)
    fields ← or_mapped b (lift (event_fields ev cal_kr))
    pure (record {
      occurrence = event_occurrence ev fields (unix ev.start_time) (unix ev.end_time);
      description = fields.description;
      organizer = fields.organizer;
      recurrence_rule = fields.recurrence_rule;
    })

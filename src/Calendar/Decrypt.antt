-- ===== src/Calendar/Decrypt.antt =====
-- internal/calendar/decrypt.go and internal/calendar/parse.go: from an event to its text fields.
use Prim.Native.Char.{code}
use protonmail_mcp.Common.{
  ℕ, ◌+◌, String, Bool, Option, none, some, List, [], ◌∷◌, ◌==◌, ◌<>◌, contains, map, codes, nat_eq,
  leb, ◌&&◌, if◌then◌else◌,
}
use protonmail_mcp.Common.Strconv.{ℤ, pos}
use protonmail_mcp.Common.Ints.{itoa}
use protonmail_mcp.Proterr.Chain.{text, wrap, Result, ok, err}

-- `proton.CalendarEvent` and its parts; `encrypted` is the bit of the part's type.
pub record EventPart : Type 0 where
  pub encrypted : Bool
  pub data_text : String

pub record CalendarEvent : Type 0 where
  pub id : String
  pub uid : String
  pub calendar_id : String
  pub start_time : ℤ
  pub end_time : ℤ
  pub full_day : Bool
  pub shared_key_packet : String
  pub shared_events : List EventPart

-- What these files use of gopenpgp and encoding/base64.
pub record PartCrypto (KeyRing : Type 0) : Type 1 where
  pub PgpMessage : Type 0
  pub decode_base64 : String → Result (List ℕ)
  pub split_message : (key_packet data_packet : List ℕ) → PgpMessage
  pub message_from_armored : String → Result PgpMessage
  pub decrypt_message : KeyRing → PgpMessage → Result String

-- The properties of a VEVENT, as go-ical holds them: `text_of` is `Props.Text`, `raw_of` the value
-- of `Props.Get` unless that is nil, and `attendees` the values of ATTENDEE with their PARTSTAT.
pub record IcalProps : Type 0 where
  pub text_of : String → Result String
  pub raw_of : String → Option String
  pub attendees : List (String × String)

pub record Attendee : Type 0 where
  pub email : String
  pub status : String

pub record IcsFields : Type 0 where
  pub uid : String
  pub summary : String
  pub description : String
  pub location : String
  pub organizer : String
  pub recurrence_rule : String
  pub attendees : List Attendee

abbrev pub with_context : {A : Type 0} → String → Result A → Result A
with_context before (ok a) = ok a
with_context before (err e) = err (wrap before e "")

abbrev pub then_do : {A B : Type 0} → Result A → (A → Result B) → Result B
then_do (ok a) f = f a
then_do (err e) f = err e

module _ {KeyRing : Type 0} (crypto : PartCrypto KeyRing) where
  open crypto use {PgpMessage, decode_base64, split_message, message_from_armored, decrypt_message}

  abbrev encrypted_message : EventPart → String → Result PgpMessage
  encrypted_message part shared_key_packet =
      if shared_key_packet == ""
      then with_context "parse armored part: " (message_from_armored part.data_text)
      else then_do (with_context "decode key packet: " (decode_base64 shared_key_packet)) λ kp.
        then_do (with_context "decode data packet: " (decode_base64 part.data_text))
          λ raw. ok (split_message kp raw)

  unfoldable pub decrypt_part : EventPart → String → KeyRing → Result String
  decrypt_part part shared_key_packet cal_kr =
      if part.encrypted
      then (then_do (encrypted_message part shared_key_packet)
          λ enc. with_context "decrypt part: " (decrypt_message cal_kr enc))
      else ok part.data_text

  -- The loop over the parts from number `i` on, and the text that it builds.
  unfoldable pub decrypt_parts : ℕ → List EventPart → String → KeyRing → Result String
  decrypt_parts i [] packet cal_kr = ok ""
  decrypt_parts i (part ∷ rest) packet cal_kr =
      let later = decrypt_parts (i + 1) rest packet cal_kr in
      then_do
        (with_context ("decrypt shared part " <> itoa (pos i) <> ": ")
          (decrypt_part part packet cal_kr))
        λ t. then_do later λ more. ok (t <> more)

  unfoldable pub decrypt_shared_ics : CalendarEvent → KeyRing → Result String
  decrypt_shared_ics ev cal_kr = decrypt_parts 0 ev.shared_events ev.shared_key_packet cal_kr

unfoldable pub ensure_vcalendar : String → String
ensure_vcalendar ics =
    if contains ics "BEGIN:VCALENDAR"
    then ics
    else "BEGIN:VCALENDAR\r\nVERSION:2.0\r\nPRODID:-//protonmail-mcp//EN\r\n" <> ics
      <> "\r\nEND:VCALENDAR"

-- `text`
abbrev pub prop_text : IcalProps → String → String
prop_text props name = elim (props.text_of name) [ ok s ↦ s | err _ ↦ "" ]

-- `raw`
abbrev pub prop_raw : IcalProps → String → String
prop_raw props name = elim (props.raw_of name) [ some s ↦ s | none ↦ "" ]

abbrev ascii_lower : ℕ → ℕ
ascii_lower c = if leb b'A' c && leb c b'Z' then c + 32 else c

-- What follows a prefix of ASCII letters and signs that `strings.EqualFold` takes for the given one.
unfoldable pub strip_fold : (lower : List ℕ) → String → Option String
strip_fold [] s = some s
strip_fold (p ∷ ps) String.[] = none
strip_fold (p ∷ ps) (String.◌∷◌ c s) =
    if nat_eq (ascii_lower (code c)) p then strip_fold ps s else none

unfoldable pub mailto : String → String
unfolding strip_fold
mailto s = elim (strip_fold (codes "mailto:") s) [ some rest ↦ rest | none ↦ s ]

abbrev pub ics_fields : IcalProps → IcsFields
unfolding mailto
ics_fields ev = record {
  uid = prop_text ev "UID";
  summary = prop_text ev "SUMMARY";
  description = prop_text ev "DESCRIPTION";
  location = prop_text ev "LOCATION";
  organizer = mailto (prop_raw ev "ORGANIZER");
  recurrence_rule = prop_raw ev "RRULE";
  attendees =
      map (λ (a : String × String). record { email = mailto a.0; status = a.1 }) ev.attendees;
}

-- `decode_ical` is go-ical's decoder and `Events`: the VEVENTs of a text.
unfoldable pub parse_ics :
    (decode_ical : String → Result (List IcalProps)) → String → Result IcsFields
unfolding ensure_vcalendar
parse_ics decode_ical ics = elim (decode_ical (ensure_vcalendar ics)) [
  | err e ↦ err (wrap "decode ics: " e "")
  | ok [] ↦ err (text "ics has no VEVENT")
  | ok (ev ∷ _) ↦ ok (ics_fields ev)
]

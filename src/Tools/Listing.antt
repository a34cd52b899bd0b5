-- ===== src/Tools/Listing.antt =====
-- How many events a listing has.
use protonmail_mcp.Common.{
  ℕ, ◌-◌, ◌≤◌, String, Bool, true, false, List, [], ◌∷◌, ◌++◌, ◌≡◌, refl, leb, length, arith,
  if◌then◌else◌, if_elim, subst,
}
use protonmail_mcp.Proterr.Chain.{Result, ok, err}
use protonmail_mcp.Exec.{Exec, pure, ◌>>=◌, ok-injective, >>=-eq-ok}
use protonmail_mcp.Session.State.{Backend, State}
use protonmail_mcp.Calendar.Decrypt.{CalendarEvent}
use protonmail_mcp.Calendar.Recurrence.{Time}
use protonmail_mcp.Tools.Handler.{Deps, or_mapped, tool_client}
use protonmail_mcp.Session.Access.{calendar_keyring}
use protonmail_mcp.Keyring.{lift}
use protonmail_mcp.Tools.Events.{
  max_occurrences, EventOccurrenceDto, ListEventsIn, ListEventsOut, Listing, empty_listing,
  take_events, listed, earlier, occurrences_for, calendar_window_filter, parse_window,
  target_calendars, list_calendar, list_all, list_events,
}

-- What `m` returns, if it does, satisfies `Q`.
record Returns {S A : Type 0} (m : Exec S A) (Q : A → Type 0) : Type 0 where
  pub at : (s : S) (a : A) → (m s).0 ≡ ok a → Q a

module _ {S : Type 0} where
  Returns-pure : {A : Type 0} {Q : A → Type 0} (a : A) → Q a → Returns {S = S} (pure a) Q
  Returns-pure {Q = Q} a q = record { at = λ s x h. subst Q (ok-injective h) q }

  Returns-bind :
      {A B : Type 0} {Q : B → Type 0} (m : Exec S A) (f : A → Exec S B)
      → ((a : A) → Returns (f a) Q)
      → Returns (m >>= f) Q
  Returns-bind m f k = record {
    at = λ s x h. let (a, _, found, _) = >>=-eq-ok m f s h in (k a).at (m s).1 x found;
  }

  -- A bind whose first part is known.
  Returns-after :
      {A B : Type 0} {P : A → Type 0} {Q : B → Type 0} (m : Exec S A) (f : A → Exec S B)
      → Returns m P
      → ((a : A) → P a → Returns (f a) Q)
      → Returns (m >>= f) Q
  Returns-after m f km k = record {
    at = λ s x h.
        let (a, first, found, _) = >>=-eq-ok m f s h in (k a (km.at s a first)).at (m s).1 x found;
  }

  Returns-if :
      {A : Type 0} {Q : A → Type 0} (t : Bool) (m n : Exec S A)
      → Returns m Q
      → Returns n Q
      → Returns (if t then m else n) Q
  Returns-if true m n p q = p
  Returns-if false m n p q = q

length-take_events : (n : ℕ) (xs : List EventOccurrenceDto) → length (take_events n xs) ≤ n
unfolding take_events
length-take_events n [] = omega arith
length-take_events n (x ∷ xs) = let ih = length-take_events (n - 1) xs in ground (arith, ih)

-- At most 500 events, and a full listing is said to be truncated.
record IsCapped (events : List EventOccurrenceDto) (truncated : Bool) : Type 0 where
  pub bound : length events ≤ 500
  pub honest : 500 ≤ length events → truncated ≡ true

IsCappedListing : Listing → Type 0
IsCappedListing l = IsCapped l.all l.truncated

module _ (l : Listing) (occ : List EventOccurrenceDto) (trunc : Bool) where
  added :
      (t : Bool)
      → leb 500 (length (l.all ++ occ)) ≡ t
      → IsCappedListing (listed (ok (occ, trunc)) l)
  unfolding listed IsCappedListing
  added true h =
      let short = length-take_events 500 (l.all ++ occ) in
      rw h (record { bound = short; honest = λ _. refl })
  added false h =
      rw h (record { bound = ground (arith, h); honest = λ k. absurd (ground (arith, h, k)) })

listed-IsCapped :
    (r : Result (List EventOccurrenceDto × Bool)) (l : Listing)
    → IsCappedListing l
    → IsCappedListing (listed r l)
unfolding listed IsCappedListing
listed-IsCapped (err e) l k = record { bound = k.bound; honest = k.honest }
listed-IsCapped (ok (occ, trunc)) l k = added l occ trunc (leb 500 (length (l.all ++ occ))) refl

module _ {b : Backend} (d : Deps b) where
  list_calendar-IsCapped :
      (kr : b.KeyRing) (start end : Time) (events : List CalendarEvent) (l : Listing)
      → IsCappedListing l
      → IsCappedListing (list_calendar d kr start end events l)
  unfolding list_calendar
  list_calendar-IsCapped kr start end [] l k = k
  list_calendar-IsCapped kr start end (ev ∷ rest) l k =
      let now =
        listed-IsCapped (occurrences_for d ev kr start end (max_occurrences - length l.all)) l k in
      if_elim IsCappedListing
        (listed (occurrences_for d ev kr start end (max_occurrences - length l.all)) l).full now
        (list_calendar-IsCapped kr start end rest _ now)

  list_all-IsCapped :
      (c : b.Client) (start end : Time) (ids : List String) (l : Listing)
      → IsCappedListing l
      → Returns (list_all d c start end ids l) IsCappedListing
  unfolding list_all
  list_all-IsCapped c start end [] l k = Returns-pure l k
  list_all-IsCapped c start end (id ∷ rest) l k =
      Returns-bind (or_mapped b (calendar_keyring b id)) _ λ kr.
        Returns-bind
          (or_mapped b (d.api.get_all_calendar_events c id (calendar_window_filter start end))) _
          λ events.
            let now = list_calendar-IsCapped kr start end events l k in
            Returns-if (list_calendar d kr start end events l).full _ _ (Returns-pure _ now)
              (list_all-IsCapped c start end rest _ now)

  empty-IsCapped : IsCappedListing empty_listing
  unfolding IsCappedListing
  empty-IsCapped = record { bound = ground arith; honest = λ h. absurd (ground (arith, h)) }

  IsCappedOut : ListEventsOut → Type 0
  IsCappedOut out = IsCapped out.events out.truncated

  module _ (kept : (xs : List EventOccurrenceDto) → length (d.sort_by earlier xs) ≡ length xs) where
    sorted-IsCapped :
        (l : Listing) → IsCappedListing l → IsCapped (d.sort_by earlier l.all) l.truncated
    unfolding IsCappedListing
    sorted-IsCapped l k = record {
      bound = rw (kept l.all) k.bound;
      honest = λ h. k.honest (subst (λ n. 500 ≤ n) (kept l.all) h);
    }

    list_events-Returns : (input : ListEventsIn) → Returns (list_events d input) IsCappedOut
    unfolding list_events IsCappedOut
    list_events-Returns input =
        Returns-bind (lift (parse_window d input.start input.end)) _ λ window.
          Returns-bind (tool_client b) _ λ c.
            Returns-bind (target_calendars d c input.calendar_id) _ λ ids.
              Returns-after (list_all d c window.0 window.1 ids empty_listing) _
                (list_all-IsCapped c window.0 window.1 ids empty_listing empty-IsCapped)
                λ l k. Returns-pure _ (sorted-IsCapped l k)

-- When sorting keeps the number of events, a listing that succeeds has at most 500 events, and one
-- that has 500 is said to be truncated.
pub list_events-IsCapped :
    {b : Backend} (d : Deps b) (input : ListEventsIn) (st : State b) (out : ListEventsOut)
    → ((xs : List EventOccurrenceDto) → length (d.sort_by earlier xs) ≡ length xs)
    → (list_events d input st).0 ≡ ok out
    → (length out.events ≤ 500) × (500 ≤ length out.events → out.truncated ≡ true)
unfolding IsCappedOut
list_events-IsCapped d input st out kept h =
    let capped = (list_events-Returns d kept input).at st out h in (capped.bound, capped.honest)

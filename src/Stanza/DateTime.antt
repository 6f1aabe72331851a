-- ===== src/Stanza/DateTime.antt =====
-- stanza/datetime_profiles.go: dates and times of XEP-0082.
use go_xmpp.Text.{GoString, Lacks, str}
use go_xmpp.Text.Split.{split, split-Lacks, split-append}
use go_xmpp.Result.{GoError, Result, err, ok, text_error}
use go_xmpp.Prelude.{
  Bool, List, Option, [], ap, arith, if◌then◌else◌, none, some, ◌++◌, ◌↔◌, ◌∙◌, ◌∷◌, ◌≡◌,
}

pub data Layout : Type 0 where
  rfc_3339 rfc_3339_nano date_layout time_layout : Layout

abbrev pub invalid_date_input : GoError
invalid_date_input =
    text_error (str "could not parse date. Input might not be in a supported format")

abbrev pub invalid_date_output : GoError
invalid_date_output = text_error (str "could not format date as desired")

-- What the code uses of package time: Parse, `none` being an error, and Format.
pub record Times (T : Type 0) : Type 0 where
  pub parse : Layout → GoString → Option T
  pub format : Layout → T → GoString

-- `spl[1]`, if there are two parts.
abbrev pub second_part : List GoString → Result GoString
second_part (a ∷ b ∷ []) = ok b
second_part _ = err invalid_date_output

module _ {T : Type 0} (times : Times T) where
  abbrev pub date_to_string : T → GoString
  date_to_string = times.format date_layout

  abbrev pub date_time_to_string : Bool → T → GoString
  date_time_to_string nanos d = times.format (if nanos then rfc_3339_nano else rfc_3339) d

  unfoldable pub time_to_string : Bool → T → Result GoString
  unfolding split
  time_to_string nanos d = second_part (split b'T' (date_time_to_string nanos d))

  -- The layouts are tried one after the other.
  abbrev pub try_layouts : List Layout → GoString → Result T
  try_layouts [] s = err invalid_date_input
  try_layouts (l ∷ ls) s = elim (times.parse l s) [ some t ↦ ok t | none ↦ try_layouts ls s ]

  unfoldable pub new_jabber_date_from_string : GoString → Result T
  new_jabber_date_from_string =
      try_layouts (rfc_3339 ∷ rfc_3339_nano ∷ date_layout ∷ time_layout ∷ [])

  -- A date and time that is written is read again, where package time reads by RFC3339 what it writes by
  -- the layout chosen.
  new_jabber_date_from_string-date_time_to_string :
      (nanos : Bool) (d : T)
      → times.parse rfc_3339 (date_time_to_string nanos d) ≡ some d
      → new_jabber_date_from_string (date_time_to_string nanos d) ≡ ok d
  unfolding new_jabber_date_from_string
  new_jabber_date_from_string-date_time_to_string nanos d e = ground (arith, e)

  refused_by :
      (s : GoString)
      → new_jabber_date_from_string s ≡ err invalid_date_input
      → (l : Layout) → times.parse l s ≡ none
  unfolding new_jabber_date_from_string
  refused_by s h rfc_3339 = ground (arith, h)
  refused_by s h rfc_3339_nano = ground (arith, h)
  refused_by s h date_layout = ground (arith, h)
  refused_by s h time_layout = ground (arith, h)

  -- A string is refused exactly if every layout refuses it.
  new_jabber_date_from_string_refuses :
      (s : GoString)
      → (new_jabber_date_from_string s ≡ err invalid_date_input)
        ↔ ((l : Layout) → times.parse l s ≡ none)
  unfolding new_jabber_date_from_string
  new_jabber_date_from_string_refuses s =
      (refused_by s, λ h. ground (arith, h rfc_3339, h rfc_3339_nano, h date_layout, h time_layout))

  -- Where the date and the time that are written have one "T" between them, the time is what is behind
  -- it.
  time_to_string-date_time_to_string :
      (nanos : Bool) (d : T) (day clock : GoString)
      → Lacks b'T' day
      → Lacks b'T' clock
      → date_time_to_string nanos d ≡ day ++ b'T' ∷ clock
      → time_to_string nanos d ≡ ok clock
  unfolding time_to_string
  time_to_string-date_time_to_string nanos d day clock h k e =
      ap (λ s. second_part (split b'T' s)) e
      ∙ ap second_part
          (split-append b'T' day clock h ∙ ap (λ l. day ∷ l) (split-Lacks b'T' clock k))

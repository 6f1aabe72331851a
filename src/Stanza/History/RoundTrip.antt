-- ===== src/Stanza/History/RoundTrip.antt =====
-- A history that is written and read again.
use go_xmpp.Text.{str, text_eq}
use go_xmpp.Text.Decimal.{max_int}
use go_xmpp.Text.Decimal.RoundTrip.{atoi-itoa, atoi-itoa_minus}
use go_xmpp.Result.{ok}
use go_xmpp.Stanza.Packet.{Attribute}
use go_xmpp.Stanza.Error.{itoa_int}
use go_xmpp.Stanza.History.{
  History, NullableInt, TimeLayout, history_attrs, history_name, history_start, int_attr, int_of,
  is_empty_history, marshal_history, no_history, no_int, since_attr, unmarshal_history,
}
use go_xmpp.Prelude.{
  Bool-cases, List, [], arith, false, inl, inr, negsuc, pos, refl, suc, true, ℤ, ◌++◌, ◌<◌, ◌^◌,
  ◌∙◌, ◌∷◌, ◌≡◌, ◌≤◌, ◌⊎◌,
}
use go_xmpp.Stanza.Xml.{Fault, Token, end_token, name_eq_iff, start_token}
use go_xmpp.Stanza.Xml.Loop.{read_children, rounds}

-- An int of 64 bits.
abbrev pub IsInt : ℤ → Type 0
IsInt (pos n) = n ≤ max_int
IsInt (negsuc n) = n < 2 ^ 63

-- A field that is set, or that was never touched.
abbrev pub IsField : NullableInt → Type 0
IsField n = IsInt n.value × ((n.is_set ≡ true) ⊎ (n ≡ no_int))

-- A time that the layout keeps, or the zero time.
abbrev pub IsKept : {T : Type 0} → TimeLayout T → T → Type 0
IsKept layout t =
    ((layout.is_zero t ≡ true) × (t ≡ layout.zero_time))
    ⊎ ((layout.is_zero t ≡ false) × (layout.parse (layout.format t) ≡ ok t))

int_of-itoa : (n : ℤ) → IsInt n → int_of (itoa_int n) ≡ ok n
unfolding int_of itoa_int
int_of-itoa (pos n) h = ground (arith, atoi-itoa n h)
int_of-itoa (negsuc n) h = ground (arith, atoi-itoa_minus (suc n))

module _ {T : Type 0} (layout : TimeLayout T) where
  since-read :
      (h : History T) (t : T)
      → h.since ≡ layout.zero_time
      → IsKept layout t
      → history_attrs layout (since_attr layout t) h ≡ ok (record h { since = t })
  unfolding history_attrs str text_eq
  since-read h t e (inl k) = ground (arith, e, k)
  since-read h t e (inr k) = ground (arith, e, k)

  seconds-read :
      (h : History T) (n : NullableInt) (l : List Attribute)
      → IsField n
      → h.seconds ≡ no_int
      → history_attrs layout (int_attr (str "seconds") n ++ l) h
        ≡ history_attrs layout l (record h { seconds = n })
  unfolding history_attrs str text_eq
  seconds-read h n l (i, inl k) e = ground (arith, e, k, int_of-itoa n.value i)
  seconds-read h n l (i, inr k) e = ground (arith, e, k)

  max_stanzas-read :
      (h : History T) (n : NullableInt) (l : List Attribute)
      → IsField n
      → h.max_stanzas ≡ no_int
      → history_attrs layout (int_attr (str "maxstanzas") n ++ l) h
        ≡ history_attrs layout l (record h { max_stanzas = n })
  unfolding history_attrs str text_eq
  max_stanzas-read h n l (i, inl k) e = ground (arith, e, k, int_of-itoa n.value i)
  max_stanzas-read h n l (i, inr k) e = ground (arith, e, k)

  max_chars-read :
      (h : History T) (n : NullableInt) (l : List Attribute)
      → IsField n
      → h.max_chars ≡ no_int
      → history_attrs layout (int_attr (str "maxchars") n ++ l) h
        ≡ history_attrs layout l (record h { max_chars = n })
  unfolding history_attrs str text_eq
  max_chars-read h n l (i, inl k) e = ground (arith, e, k, int_of-itoa n.value i)
  max_chars-read h n l (i, inr k) e = ground (arith, e, k)

  attrs-read :
      (h : History T)
      → IsField h.max_chars
      → IsField h.max_stanzas
      → IsField h.seconds
      → IsKept layout h.since
      → history_attrs layout (history_start layout h).attr (no_history layout history_name)
        ≡ ok (record h { xml_name = history_name })
  attrs-read h a b d k =
      let h1 = record (no_history layout history_name) { max_chars = h.max_chars } in
      let h2 = record h1 { max_stanzas = h.max_stanzas } in
      let h3 = record h2 { seconds = h.seconds } in
      let tail = int_attr (str "seconds") h.seconds ++ since_attr layout h.since in
      max_chars-read (no_history layout history_name) h.max_chars
        (int_attr (str "maxstanzas") h.max_stanzas ++ tail) a refl
      ∙ (max_stanzas-read h1 h.max_stanzas tail b refl
          ∙ (seconds-read h2 h.seconds (since_attr layout h.since) d refl
              ∙ since-read h3 h.since refl k))

  element-read :
      (h : History T) (fault : Fault) (rest : List Token)
      → IsField h.max_chars
      → IsField h.max_stanzas
      → IsField h.seconds
      → IsKept layout h.since
      → unmarshal_history layout (history_start layout h) fault (end_token history_name ∷ rest)
        ≡ ok (record h { xml_name = history_name }, rest)
  unfolding unmarshal_history read_children rounds
  element-read h fault rest a b d k =
      ground (arith, attrs-read h a b d k, name_eq_iff history_name history_name)

  -- A history whose numbers are those of an int of 64 bits, or were never set, and whose time the layout
  -- keeps, or is the zero time: either MarshalXML writes nothing, and then no field is set; or it
  -- writes one element, and UnmarshalXML reads from it the same history, whatever follows it.
  pub unmarshal-marshal_history :
      (h : History T) (fault : Fault) (rest : List Token)
      → IsField h.max_chars
      → IsField h.max_stanzas
      → IsField h.seconds
      → IsKept layout h.since
      → ((marshal_history layout h ≡ []) × (h ≡ no_history layout h.xml_name))
        ⊎ ((marshal_history layout h
              ≡ start_token (history_start layout h) ∷ end_token history_name ∷ [])
            × (unmarshal_history layout
                  (history_start layout h)
                  fault
                  (end_token history_name ∷ rest)
                ≡ ok (record h { xml_name = history_name }, rest)))
  unfolding marshal_history
  unmarshal-marshal_history h fault rest a b d k = elim (Bool-cases (is_empty_history layout h)) [
    | inl empty ↦ inl (ground (arith, empty), ground (arith, empty, a, b, d, k))
    | inr set ↦ inr (ground (arith, set), element-read h fault rest a b d k)
  ]

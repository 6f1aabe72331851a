-- ===== src/Stanza/History.antt =====
-- stanza/pres_muc.go: the history that is asked for when a room is entered, read and written.
pub mod RoundTrip
use go_xmpp.Text.{GoString, str, text_eq_instance}
use go_xmpp.Text.Decimal.{Parsed, atoi, minus, plus, syntax}
use go_xmpp.Result.{Result, err, ok, text_error, ◌>>=◌}
use go_xmpp.Stanza.Packet.{Attribute, XmlName, name}
use go_xmpp.Stanza.Xml.{Decode, StartElement, Token, end_token, name_eq_instance, start_token}
use go_xmpp.Stanza.Xml.Loop.{read_children}
use go_xmpp.Stanza.Error.{itoa_int, plain_attr}
use go_xmpp.Prelude.{
  Bool, List, [], false, if◌then◌else◌, nat_eq, negsuc, not, pos, suc, true, zero, ℤ, ◌&&◌, ◌++◌,
  ◌==◌, ◌∷◌,
}

pub record NullableInt : Type 0 where
  pub value : ℤ
  pub is_set : Bool

abbrev pub no_int : NullableInt
no_int = record { value = pos 0; is_set = false }

abbrev pub new_nullable_int : ℤ → NullableInt
new_nullable_int n = record { value = n; is_set = true }

-- strconv.Atoi; the text of its error is that of its kind alone.
unfoldable pub int_of : GoString → Result ℤ
int_of s = elim (atoi s) [
  | syntax ↦ err (text_error (str "strconv.Atoi"))
  | plus n ↦ ok (pos n)
  | minus n ↦ elim n [ zero ↦ ok (pos 0) | suc k ↦ ok (negsuc k) ]
]

-- What the code uses of package time: the layout timeLayout in both directions, and IsZero.
pub record TimeLayout (T : Type 0) : Type 0 where
  pub parse : GoString → Result T
  pub format : T → GoString
  pub zero_time : T
  pub is_zero : T → Bool

pub record History (T : Type 0) : Type 0 where
  pub xml_name : XmlName
  pub max_chars : NullableInt
  pub max_stanzas : NullableInt
  pub seconds : NullableInt
  pub since : T

abbrev pub history_name : XmlName
history_name = record { space = []; local = str "history" }

-- Other tokens than the end tag are passed over, the tags of inner elements too.
abbrev pub pass_over : {S : Type 0} → StartElement → S → Decode S
pass_over se s fault ts = ok (s, ts)

abbrev pub int_attr : GoString → NullableInt → List Attribute
int_attr local n = if n.is_set then plain_attr local (itoa_int n.value) ∷ [] else []

module _ {T : Type 0} (layout : TimeLayout T) where
  abbrev pub no_history : XmlName → History T
  no_history n = record {
    xml_name = n;
    max_chars = no_int;
    max_stanzas = no_int;
    seconds = no_int;
    since = layout.zero_time;
  }

  unfoldable pub history_attr : Attribute → History T → Result (History T)
  unfolding int_of
  history_attr a h =
      if a.name.local == str "maxchars"
      then int_of a.value >>= (λ v. ok (record h { max_chars = new_nullable_int v }))
      else if a.name.local == str "maxstanzas"
      then int_of a.value >>= (λ v. ok (record h { max_stanzas = new_nullable_int v }))
      else if a.name.local == str "seconds"
      then int_of a.value >>= (λ v. ok (record h { seconds = new_nullable_int v }))
      else if a.name.local == str "since"
      then layout.parse a.value >>= (λ t. ok (record h { since = t }))
      else ok h

  unfoldable pub history_attrs : List Attribute → History T → Result (History T)
  unfolding history_attr
  history_attrs [] h = ok h
  history_attrs (a ∷ l) h = history_attr a h >>= history_attrs l

  -- History.UnmarshalXML, on an empty value.
  unfoldable pub unmarshal_history : StartElement → Decode (History T)
  unfolding history_attrs read_children
  unmarshal_history se fault ts =
      history_attrs se.attr (no_history se.name) >>= λ h. read_children pass_over se.name h fault ts

  abbrev pub since_attr : T → List Attribute
  since_attr t = if layout.is_zero t then [] else plain_attr (str "since") (layout.format t) ∷ []

  abbrev pub history_start : History T → StartElement
  history_start h = record {
    name = history_name;
    attr =
        int_attr (str "maxchars") h.max_chars
        ++ (int_attr (str "maxstanzas") h.max_stanzas
            ++ (int_attr (str "seconds") h.seconds ++ since_attr h.since));
  }

  -- The test that MarshalXML begins with.
  abbrev pub is_empty_history : History T → Bool
  is_empty_history h =
      layout.is_zero h.since
      && not h.max_chars.is_set
      && not h.max_stanzas.is_set
      && not h.seconds.is_set

  -- History.MarshalXML: nothing if no field is set.
  unfoldable pub marshal_history : History T → List Token
  marshal_history h =
      if is_empty_history h then [] else start_token (history_start h) ∷ end_token history_name ∷ []

-- ===== src/Stanza/Xml/Loop.antt =====
-- The loop of the UnmarshalXML methods: tokens are read until the end tag of the element, each start
-- tag is given to the method's switch, which may read on, and other tokens are passed over.
use go_xmpp.Result.{err, ok, panic, ◌>>=◌}
use go_xmpp.Stanza.Packet.{XmlName}
use go_xmpp.Stanza.Xml.{
  Decode, StartElement, char_data, end_token, fault_error, name_eq_instance, noise, start_token,
}
use go_xmpp.Prelude.{[], if◌then◌else◌, length, nat_eq, suc, zero, ℕ, ◌==◌, ◌∷◌}

module _ {S : Type 0} (child : StartElement → S → Decode S) (own : XmlName) where
  -- With fuel; every round reads a token.
  unfoldable pub rounds : ℕ → S → Decode S
  rounds zero s fault ts = err panic
  rounds (suc f) s fault [] = err (fault_error fault)
  rounds (suc f) s fault (start_token se ∷ ts) = child se s fault ts >>= λ p. rounds f p.0 fault p.1
  rounds (suc f) s fault (end_token n ∷ ts) =
      let rest = rounds f s fault ts in if n == own then ok (s, ts) else rest
  rounds (suc f) s fault (char_data c ∷ ts) = rounds f s fault ts
  rounds (suc f) s fault (noise ∷ ts) = rounds f s fault ts

  unfoldable pub read_children : S → Decode S
  unfolding rounds
  read_children s fault ts = rounds (suc (length ts)) s fault ts

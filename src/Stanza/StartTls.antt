-- ===== src/Stanza/StartTls.antt =====
-- TlsStartTLS.UnmarshalXML of stanza/stream_features.go.
use go_xmpp.Text.{str, text_eq_instance}
use go_xmpp.Result.{ok, ◌>>=◌}
use go_xmpp.Stanza.Packet.{Node, XmlName, node}
use go_xmpp.Stanza.Xml.{Decode, StartElement, name_eq_instance}
use go_xmpp.Stanza.Xml.Loop.{read_children}
use go_xmpp.Stanza.Node.{decode_node}
use go_xmpp.Prelude.{Bool, false, if◌then◌else◌, nat_eq, true, ◌==◌}

pub record TlsStartTls : Type 0 where
  pub xml_name : XmlName
  pub required : Bool

abbrev pub require : Node → TlsStartTls → TlsStartTls
require (node n attrs text nodes) s =
    if n.local == str "required" then record s { required = true } else s

unfoldable pub start_tls_child : StartElement → TlsStartTls → Decode TlsStartTls
unfolding decode_node
start_tls_child se s fault ts = decode_node se fault ts >>= λ p. ok (require p.0 s, p.1)

unfoldable pub unmarshal_start_tls : StartElement → Decode TlsStartTls
unfolding read_children start_tls_child
unmarshal_start_tls se =
    read_children start_tls_child se.name (record { xml_name = se.name; required = false })

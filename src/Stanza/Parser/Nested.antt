-- ===== src/Stanza/Parser/Nested.antt =====
-- stanza/parser.go and message.go: a message that holds another message.
use go_xmpp.Stanza.Packet.{Message}
use go_xmpp.Stanza.Xml.{StartElement, Token, end_token, start_token}
use go_xmpp.Stanza.Message.Fields.{TextElement, elements_of}
use go_xmpp.Prelude.{List, [], ◌++◌, ◌∷◌}

-- The tokens of an element with text elements in it, inside the elements `wraps`, the outermost first,
-- and what follows them.
unfoldable pub nested :
    List StartElement → StartElement → List TextElement → List Token → List Token
nested [] se inner after = start_token se ∷ elements_of inner ++ end_token se.name ∷ after
nested (w ∷ wraps) se inner after = start_token w ∷ nested wraps se inner (end_token w.name ∷ after)

-- The end tags of the wraps.
closes : List StartElement → List Token → List Token
closes [] after = after
closes (w ∷ wraps) after = closes wraps (end_token w.name ∷ after)

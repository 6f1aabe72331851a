-- ===== src/Lib.antt =====
-- A model of the Go library go-xmpp and the theorems that make it correct.
--
-- The library connects a client or a component to an XMPP server. A transport carries the stream; a
-- session negotiates TLS, authentication, resumption or binding, and stream management on it; a client
-- or a component sends stanzas and runs a receiver, which hands what arrives to a router; a stream
-- manager connects again when the connection is lost.
--
--   Text, Text/Split, Text/Decimal   Go strings as lists of characters, and what the code uses of the
--                          packages strings, strconv and fmt
--   Result                 errors as values (conn_error.go); a run-time panic is one of them
--   Stanza                 package stanza: the queue of unacknowledged stanzas (UnAckQueue, from
--                          stanza/stream_management.go), addresses (Jid), the extension registry
--                          (Registry, Extensions), the packets (Packet), IQs (Iq)
--   Stanza/Xml             what the decoders use of encoding/xml: tokens, the loop of the UnmarshalXML
--                          methods, DecodeElement
--   Stanza/Node, Error, Message, Presence, IqXml, Failed, StartTls   the UnmarshalXML and MarshalXML
--                          methods of stanza/node.go, error.go, message.go, presence.go, iq.go,
--                          stream_management.go and stream_features.go
--   Stanza/History, Stanza/DateTime   the history of stanza/pres_muc.go, and
--                          stanza/datetime_profiles.go
--   Stanza/Parser          stanza/parser.go: InitStream, NextPacket and the dispatch by names;
--                          Parser/Nonza has the decoders of stanza/stream_management.go
--   Stanza/Payload, Stanza/PubSub   stanza/form.go, results_sets.go, pubsub.go, pubsub_owner.go and
--                          commands.go: the payloads as data and the builders of requests
--                          (PubSub, PubSub/Owner), GetFormFields (PubSub/FormFields), the UnmarshalXML
--                          methods (PubSub/Decode), and the notifications of
--                          stanza/msg_pubsub_event.go (PubSub/Event)
--   Transport, Transport/Io   xmpp_transport.go and the level of stanza/parser.go at which elements are
--                          complete. What the network and the server do is a script in the
--                          transport; Io is the monad of code that uses it and may return early
--   Transport/WebSocket    websocket_transport.go, without its reader
--   Auth                   auth.go: mechanisms, PLAIN, SCRAM, downgrade protection
--   Session                session.go: the steps of the negotiation, Session/Resume for resume,
--                          Session/Bind for bind and rfc3921Session, Session/Negotiate for
--                          EnableStreamManagement and NewSession
--   Router, Router/Dispatch   router.go: routes and matchers, temporary routes for IQ results, and the
--                          dispatch, over an interface Sender that clients and components fill
--   EventManager, Client   client.go: NewClient (Client/Setup), Send, SendRaw and SendIQ
--                          (Client), Connect and Resume (Client/Connect), recv
--                          (Client/Receive). Client/QueueChange takes what a program may do
--                          with a connected client as a step relation, Client/Lifetime adds
--                          connecting, resuming and disconnecting
--   Component              component.go; Component/Receive for its recv
--   Backoff, StreamManager backoff.go and stream_manager.go; StreamManager/Run for Run and Stop
--   Network                network.go, and extractParams of cert_checker.go
--   Tests                  small runs, and the theorems at concrete inputs
--
-- The state of a Go object is a record with the source's fields; a method is a function that gives the
-- new record. A pointer that may be nil is an Option. Handlers of the user are names that are recorded
-- where they would run, and goroutines that are started are recorded too. The receiver of a client
-- takes fuel, one unit for each turn of its loop: each turn takes an element from the script, so that
-- one more than there are elements is enough, which is proved. The loops over the tokens of an XML
-- element take one unit for each token, and one more; a decoder that ran out would give a panic, which
-- is proved not to happen. The reconnection loop runs along the
-- script of results of its attempts. Cryptography, randomness, the
-- encoders of encoding/xml, its filling of structs by their tags, and the reading and
-- writing of times by a layout are arguments.
--
-- The scripts of Transport/Io are lists of what NextPacket returned.
--
-- Not modelled: the bytes below the XML tokens, the other extensions of package stanza, which
-- are mostly structures with XML tags, the reading side of the WebSocket transport,
-- locks and the interleavings of goroutines, and timers. The DNS look-up is an argument.
mod Prelude
pub mod Text
pub mod Result
pub mod Stanza
pub mod Transport
pub mod Auth
pub mod Backoff
pub mod Network
pub mod StreamManager
pub mod Session
pub mod Router
pub mod EventManager
pub mod Client
pub mod Component
pub mod Tests

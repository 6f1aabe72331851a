-- ===== src/Stanza.antt =====
-- Package stanza: the parts of the XMPP protocol as Go values.
pub mod UnAckQueue
pub mod Jid
pub mod Registry
pub mod Payload
pub mod Packet
pub mod Iq
pub mod Xml
pub mod Node
pub mod Error
pub mod History
pub mod DateTime
pub mod Extensions
pub mod Message
pub mod Presence
pub mod IqXml
pub mod Failed
pub mod StartTls
pub mod Parser
pub mod PubSub

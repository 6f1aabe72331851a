-- ===== src/Stanza/Registry.antt =====
-- stanza/registry.go: which Go type decodes an element, by packet type, namespace and tag. The types
-- are a parameter: reflect.Type is not looked into.
use go_xmpp.Text.{GoString, str, text_eq_iff, text_eq_instance}
use go_xmpp.Stanza.Packet.{XmlName, name}
use go_xmpp.Prelude.{
  Assoc, Bool, Comparable, Option, [], arith, false, if◌then◌else◌, insert, is_some, lookup,
  lookup-insert, nat_eq, none, not, some, true, ◌&&◌, ◌==◌, ◌↔◌, ◌≡◌,
}

pub data PacketType : Type 0 where
  pkt_presence pkt_message pkt_iq : PacketType

unfoldable pub packet_type_eq : PacketType → PacketType → Bool
packet_type_eq pkt_presence pkt_presence = true
packet_type_eq pkt_message pkt_message = true
packet_type_eq pkt_iq pkt_iq = true
packet_type_eq _ _ = false

packet_type_eq_iff : (a b : PacketType) → (packet_type_eq a b ≡ true) ↔ (a ≡ b)
unfolding packet_type_eq
packet_type_eq_iff a b = ground arith

pub record RegistryKey : Type 0 where
  pub packet_type : PacketType
  pub namespace : GoString

unfoldable pub key_eq : RegistryKey → RegistryKey → Bool
key_eq a b = packet_type_eq a.packet_type b.packet_type && a.namespace == b.namespace

pub key_eq_iff : (a b : RegistryKey) → (key_eq a b ≡ true) ↔ (a ≡ b)
unfolding key_eq
key_eq_iff a b =
    ground
      (arith, packet_type_eq_iff a.packet_type b.packet_type, text_eq_iff a.namespace b.namespace)

instance abbrev pub key_eq_instance : Comparable RegistryKey
key_eq_instance = record { equal = key_eq; equal_iff = key_eq_iff }

abbrev pub key_of : PacketType → XmlName → RegistryKey
key_of p n = record { packet_type = p; namespace = n.space }

module _ (T : Type 0) where
  abbrev pub RegistryForNamespace : Type 0
  RegistryForNamespace = Assoc GoString T

  pub record Registry : Type 0 where
    pub msg_types : Assoc RegistryKey (Assoc GoString T)

module _ {T : Type 0} where
  abbrev pub new_registry : Registry T
  new_registry = record { msg_types = [] }

  -- store := r.msgTypes[key]; reading a nil map gives nothing.
  unfoldable pub store_of : Registry T → RegistryKey → Assoc GoString T
  store_of r key = elim (lookup key r.msg_types) [ none ↦ [] | some store ↦ store ]

  unfoldable pub map_extension : PacketType → XmlName → T → Registry T → Registry T
  unfolding store_of
  map_extension pkt_type name extension r =
      let key : RegistryKey = record { packet_type = pkt_type; namespace = name.space } in
      record { msg_types = insert key (insert name.local extension (store_of r key)) r.msg_types }

  unfoldable pub get_extension_type : PacketType → XmlName → Registry T → Option T
  unfolding store_of
  get_extension_type pkt_type name r =
      let store = store_of r (record { packet_type = pkt_type; namespace = name.space }) in
      elim (lookup name.local store) [
        | none ↦ if not (name.local == str "*") then lookup (str "*") store else none
        | some result ↦ some result
      ]

module _ {T : Type 0} (pkt_type : PacketType) (name : XmlName) (t : T) (r : Registry T) where
  store_of-map_extension :
      (key : RegistryKey)
      → store_of (map_extension pkt_type name t r) key ≡ (
          if key_of pkt_type name == key
          then insert name.local t (store_of r (key_of pkt_type name))
          else store_of r key)
  unfolding store_of map_extension
  store_of-map_extension key = ground (
    arith,
    lookup-insert (key_of pkt_type name) key
        (insert name.local t (store_of r (key_of pkt_type name))) r.msg_types,
  )

  -- What MapExtension does to every look-up. For another packet type or namespace nothing changes.
  -- In the same one the mapped tag gets the new type; if the mapped tag is the alias "*", so does
  -- every tag that has no type of its own; any other tag keeps what it had.
  pub get-map_extension :
      (p : PacketType) (n : XmlName)
      → get_extension_type p n (map_extension pkt_type name t r) ≡ (
          if key_of pkt_type name == key_of p n
          then if name.local == n.local
            then some t
            else if name.local == str "*"
                && not (is_some (lookup n.local (store_of r (key_of p n))))
            then some t
            else get_extension_type p n r
          else get_extension_type p n r)
  unfolding get_extension_type
  get-map_extension p n =
      let key = key_of pkt_type name in
      let store = store_of r key in
      ground (
        arith,
        store_of-map_extension (key_of p n),
        lookup-insert name.local n.local t store,
        lookup-insert name.local (str "*") t store,
        key_eq_iff key (key_of p n),
        text_eq_iff name.local n.local,
        text_eq_iff name.local (str "*"),
        text_eq_iff n.local (str "*"),
      )

-- ===== src/Tests/Components.antt =====
-- Components.
use go_xmpp.Text.{GoString, has_prefix, str}
use go_xmpp.Result.{GoError, conn_error, is_permanent, ok, text_error}
use go_xmpp.Stanza.Packet.{handshake}
use go_xmpp.Tests.Fixtures.{tcp, toy_codec, toy_component}
use go_xmpp.Transport.{Incoming, connect, element, failed, opened}
use go_xmpp.Transport.Io.{next_packet}
use go_xmpp.StreamManager.{session_established}
use go_xmpp.Component.{handshake_text, new_component_transport, resume_component}
use go_xmpp.Component.Laws.{asked, digest_of, resume_component_ok, resume_component_permanent}
use go_xmpp.Prelude.{List, [], false, refl, true, ◌+◌, ◌∷◌, ◌≡◌, ◌≢◌, ◌⊎◌}

abbrev lost : GoError
lost = conn_error (conn_error (text_error (str "connection closed")) false) true

abbrev shaken : List Incoming
shaken = opened (b'i' ∷ []) ∷ element (handshake []) ∷ []

resume_component_permanent_example :
    (is_permanent lost ≡ true)
    ⊎ ((id : GoString) × (w : GoError) × ((connect (tcp [])).0 ≡ ok id)
        × ((asked (handshake_text toy_codec id (toy_component (tcp []))) (connect (tcp [])).1).0
            ≡ failed w))
unfolding resume_component has_prefix str
resume_component_permanent_example =
    resume_component_permanent toy_codec (tcp []) (toy_component (tcp [])) lost refl

resume_component_ok_example :
    (new_component_transport (toy_component (tcp [])).address (tcp shaken) ≡ ok (tcp shaken))
    × ((id : GoString) × ((connect (tcp shaken)).0 ≡ ok id)
        × ((f : GoError)
            → (asked (digest_of toy_codec id (toy_component (tcp []))) (connect (tcp shaken)).1).0
              ≢ failed f)
        × ((v : GoString) × ((next_packet
                (asked
                  (digest_of toy_codec id (toy_component (tcp [])))
                  (connect (tcp shaken)).1).1).0
              ≡ ok (handshake v))))
    × ((resume_component toy_codec
          (tcp shaken)
          (toy_component (tcp []))).1.event_manager.current_state
        ≡ session_established)
    × ((resume_component toy_codec (tcp shaken) (toy_component (tcp []))).1.receivers
        ≡ (toy_component (tcp [])).receivers + 1)
unfolding resume_component has_prefix str
resume_component_ok_example =
    resume_component_ok toy_codec (tcp shaken) (toy_component (tcp [])) refl

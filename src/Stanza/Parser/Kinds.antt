-- ===== src/Stanza/Parser/Kinds.antt =====
-- stanza/parser.go: which elements are packets, and which packet each is.
use mathlib.Core.Path.{subst}
use go_xmpp.Text.{GoString, str, text_eq_iff, text_eq_instance}
use go_xmpp.Result.{GoError, Result, err, ok}
use go_xmpp.Stanza.Packet.{
  Packet, XmlName, handshake, iq, message, name, presence, sasl_failure, sasl_success, sm_answer,
  sm_enabled, sm_failed, sm_request, sm_resume, sm_resumed, stream_error, stream_features,
}
use go_xmpp.Stanza.Xml.{Fault, StartElement, Token, name_eq_instance}
use go_xmpp.Stanza.Extensions.{Types}
use go_xmpp.Stanza.Parser.Nonza.{as_packet, decode_nonza, decode_packet}
use go_xmpp.Stanza.Parser.{
  decode_client, decode_component, decode_sasl, decode_start, decode_stream_start, ns_client,
  ns_component, ns_sasl, ns_stream, ns_stream_management,
}
use go_xmpp.Prelude.{
  Bool, List, [], arith, false, if◌then◌else◌, nat_eq, refl, sym, true, ◌==◌, ◌∷◌, ◌≡◌, ◌⊎◌,
}

-- The elements that a stream may hold, by namespace and tag, and the names of their packets.
abbrev pub known_elements : List ((GoString × GoString) × GoString)
known_elements =
    ((ns_stream, str "error"), str "stream:error")
    ∷ ((ns_stream, str "features"), str "stream:features")
    ∷ ((ns_sasl, str "success"), str "sasl:success")
    ∷ ((ns_sasl, str "failure"), str "sasl:failure")
    ∷ ((ns_client, str "message"), str "message")
    ∷ ((ns_client, str "presence"), str "presence")
    ∷ ((ns_client, str "iq"), str "iq")
    ∷ ((ns_component, str "handshake"), str "component:handshake")
    ∷ ((ns_component, str "message"), str "message")
    ∷ ((ns_component, str "presence"), str "presence")
    ∷ ((ns_component, str "iq"), str "iq")
    ∷ ((ns_stream_management, str "enabled"), str "Stream Management: enabled")
    ∷ ((ns_stream_management, str "resumed"), str "Stream Management: resumed")
    ∷ ((ns_stream_management, str "resume"), str "Stream Management: resume")
    ∷ ((ns_stream_management, str "r"), str "Stream Management: request")
    ∷ ((ns_stream_management, str "a"), str "Stream Management: answer")
    ∷ ((ns_stream_management, str "failed"), str "Stream Management: failed")
    ∷ []

unfoldable pub Known : (n : XmlName) → GoString → List ((GoString × GoString) × GoString) → Type 0
Known n kind [] = ⊥
Known n kind (k ∷ l) = ((n.space ≡ k.0.0) × (n.local ≡ k.0.1) × (kind ≡ k.1)) ⊎ Known n kind l

-- What a decoder yields for an element is named in the table.
abbrev Names : XmlName → Result (Packet × List Token) → Type 0
Names n r = (p : Packet) (rest : List Token) → r ≡ ok (p, rest) → Known n (name p) known_elements

Names-if :
    (n : XmlName) (b : Bool) (r s : Result (Packet × List Token))
    → (b ≡ true → Names n r)
    → (b ≡ false → Names n s)
    → Names n (if b then r else s)
Names-if n true r s h k = h refl
Names-if n false r s h k = k refl

Names-err : (n : XmlName) (e : GoError) → Names n (err e)
Names-err n e p rest q = ground arith

Known-same :
    (m n : XmlName) (kind : GoString) (l : List ((GoString × GoString) × GoString))
    → m ≡ n
    → Known n kind l
    → Known m kind l
Known-same m n kind l e k = subst (λ x. Known x kind l) (sym e) k

as_packet-Names :
    {A : Type 0} (n : XmlName) (make : A → Packet) (kind : GoString) (r : Result (A × List Token))
    → ((a : A) → name (make a) ≡ kind)
    → Known n kind known_elements
    → Names n (as_packet make r)
as_packet-Names n make kind (ok q) h k p rest e =
    subst (λ s. Known n s known_elements) (ground (arith, h q.0)) k
as_packet-Names n make kind (err x) h k p rest e = ground arith

-- One case of a switch on the tag, and those behind it.
branch :
    {A : Type 0} {space : GoString} (se : StartElement) (tag : GoString) (make : A → Packet)
    (kind : GoString) (r : Result (A × List Token)) (s : Result (Packet × List Token))
    → se.name.space ≡ space
    → ((a : A) → name (make a) ≡ kind)
    → Known (record { space = space; local = tag }) kind known_elements
    → Names se.name s
    → Names se.name (if se.name.local == tag then as_packet make r else s)
branch se tag make kind r s h f k other =
    Names-if se.name (se.name.local == tag) _ _
      (λ q. as_packet-Names se.name make kind r f (
        Known-same se.name _ kind known_elements (ground (arith, text_eq_iff se.name.local tag)) k))
      (λ q. other)

module _ (types : Types) (se : StartElement) (fault : Fault) (ts : List Token) where
  decode_stream_start-Names :
      se.name.space ≡ ns_stream → Names se.name (decode_stream_start types se fault ts)
  unfolding decode_stream_start name Known decode_packet
  decode_stream_start-Names h =
      branch se (str "error") stream_error (str "stream:error") _ _ h (λ a. refl) (ground arith)
        (branch se (str "features") stream_features (str "stream:features") _ _ h (λ a. refl)
          (ground arith) (Names-err se.name _))

  decode_sasl-Names : se.name.space ≡ ns_sasl → Names se.name (decode_sasl types se fault ts)
  unfolding decode_sasl name Known decode_packet
  decode_sasl-Names h =
      branch se (str "success") sasl_success (str "sasl:success") _ _ h (λ a. refl) (ground arith)
        (branch se (str "failure") sasl_failure (str "sasl:failure") _ _ h (λ a. refl)
          (ground arith) (Names-err se.name _))

  decode_client-Names : se.name.space ≡ ns_client → Names se.name (decode_client types se fault ts)
  unfolding decode_client name Known decode_packet
  decode_client-Names h =
      branch se (str "message") message (str "message") _ _ h (λ a. refl) (ground arith)
        (branch se (str "presence") presence (str "presence") _ _ h (λ a. refl) (ground arith)
          (branch se (str "iq") iq (str "iq") _ _ h (λ a. refl) (ground arith)
            (Names-err se.name _)))

  decode_component-Names :
      se.name.space ≡ ns_component → Names se.name (decode_component types se fault ts)
  unfolding decode_component name Known decode_packet
  decode_component-Names h =
      branch se (str "handshake") handshake (str "component:handshake") _ _ h (λ a. refl)
        (ground arith)
        (branch se (str "message") message (str "message") _ _ h (λ a. refl) (ground arith)
          (branch se (str "presence") presence (str "presence") _ _ h (λ a. refl) (ground arith)
            (branch se (str "iq") iq (str "iq") _ _ h (λ a. refl) (ground arith)
              (Names-err se.name _))))

  decode_nonza-Names :
      se.name.space ≡ ns_stream_management → Names se.name (decode_nonza se fault ts)
  unfolding decode_nonza name Known decode_packet
  decode_nonza-Names h =
      branch se (str "enabled") sm_enabled (str "Stream Management: enabled") _ _ h (λ a. refl)
        (ground arith)
        (branch se (str "resumed") sm_resumed (str "Stream Management: resumed") _ _ h (λ a. refl)
          (ground arith)
          (branch se (str "resume") sm_resume (str "Stream Management: resume") _ _ h (λ a. refl)
            (ground arith)
            (branch se (str "r") (λ u. sm_request) (str "Stream Management: request") _ _ h
              (λ a. refl) (ground arith)
              (branch se (str "a") sm_answer (str "Stream Management: answer") _ _ h (λ a. refl)
                (ground arith)
                (branch se (str "failed") sm_failed (str "Stream Management: failed") _ _ h
                  (λ a. refl) (ground arith) (Names-err se.name _))))))

  -- A start tag that decodes to a packet has its namespace and its tag in the table, with the name of
  -- that packet.
  pub decode_start-Known :
      (p : Packet) (rest : List Token)
      → decode_start types se fault ts ≡ ok (p, rest)
      → Known se.name (name p) known_elements
  unfolding decode_start
  decode_start-Known =
      Names-if se.name (se.name.space == ns_stream) _ _ (λ q. decode_stream_start-Names (space q))
        (λ q.
          Names-if se.name (se.name.space == ns_sasl) _ _ (λ q. decode_sasl-Names (space q))
            (λ q.
              Names-if se.name (se.name.space == ns_client) _ _ (λ q. decode_client-Names (space q))
                (λ q.
                  Names-if se.name (se.name.space == ns_component) _ _
                    (λ q. decode_component-Names (space q))
                    (λ q.
                      Names-if se.name (se.name.space == ns_stream_management) _ _
                        (λ q. decode_nonza-Names (space q)) (λ q. Names-err se.name _)))))
    where
      space : {ns : GoString} → se.name.space == ns ≡ true → se.name.space ≡ ns
      space {ns = ns} q = ground (arith, text_eq_iff se.name.space ns)

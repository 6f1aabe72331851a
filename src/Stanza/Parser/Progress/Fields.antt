-- ===== src/Stanza/Parser/Progress/Fields.antt =====
-- The parts of stanzas that are decoded: each reads its element or nothing, or returns an error.
use go_xmpp.Text.{GoString, mem_text, str, text_eq_instance, trim_space}
use go_xmpp.Text.Decimal.{Parsed, atoi}
use go_xmpp.Result.{GoError, Result, err, ok, text_error, ◌>>=◌}
use go_xmpp.Stanza.Packet.{Err, Message, Presence}
use go_xmpp.Stanza.Xml.{Fault, StartElement, Token, decode_element, name_eq_instance, text_content}
use go_xmpp.Stanza.Xml.Consumes.{
  Consumes, Consumes-if, IsRefusal, NotLonger, read_children-Consumes, text_error-IsRefusal,
}
use go_xmpp.Stanza.Xml.Elements.{
  decode_element-Consumes, decode_made-Consumes, decode_text-Consumes, ok-IsRefusal,
}
use go_xmpp.Stanza.Node.{decode_node, unmarshal_node}
use go_xmpp.Stanza.Node.Fuel.{unmarshal_node-Consumes}
use go_xmpp.Stanza.Error.{err_attrs, err_child, err_element, stanza_errors, unmarshal_err}
use go_xmpp.Stanza.Message.{message_field}
use go_xmpp.Stanza.Failed.{condition, failed_child, group_error_names, unmarshal_failed}
use go_xmpp.Stanza.Presence.{in_int_8, presence_field, read_int_8}
use go_xmpp.Prelude.{
  Bool, List, Option, arith, false, if◌then◌else◌, nat_eq, none, some, true, ◌==◌, ◌≡◌,
}

pub decode_node-Consumes :
    (se : StartElement) (fault : Fault) (ts : List Token) → Consumes ts (decode_node se fault ts)
unfolding decode_node
decode_node-Consumes se = decode_element-Consumes unmarshal_node se (unmarshal_node-Consumes se)

-- What is made of the value that was read changes nothing.
module _ {A B : Type 0} where
  pub with_value-NotLonger :
      (f : A → B) (ts : List Token) (r : Result (A × List Token))
      → Consumes ts r
      → NotLonger ts (r >>= λ p. ok (f p.0, p.1))
  unfolding Consumes NotLonger
  with_value-NotLonger f ts (ok p) h = omega arith
  with_value-NotLonger f ts (err e) h = h

  pub with_value-Consumes :
      (f : A → B) (ts : List Token) (r : Result (A × List Token))
      → Consumes ts r
      → Consumes ts (r >>= λ p. ok (f p.0, p.1))
  unfolding Consumes
  with_value-Consumes f ts (ok p) h = h
  with_value-Consumes f ts (err e) h = h

module _ {A : Type 0} where
  pub NotLonger-if :
      (ts : List Token) (b : Bool) (r s : Result (A × List Token))
      → NotLonger ts r
      → NotLonger ts s
      → NotLonger ts (if b then r else s)
  NotLonger-if ts true r s h k = h
  NotLonger-if ts false r s h k = k

  pub stay-NotLonger : (ts : List Token) (a : A) → NotLonger ts (ok (a, ts))
  unfolding NotLonger
  stay-NotLonger ts a = omega arith

pub err_child-NotLonger :
    (se : StartElement) (x : Err) (fault : Fault) (ts : List Token)
    → NotLonger ts (err_child se x fault ts)
unfolding err_child
err_child-NotLonger se x fault ts =
    with_value-NotLonger (λ n. err_element n x) ts _ (decode_node-Consumes se fault ts)

pub decode_err-Consumes :
    (x : Err) (se : StartElement) (fault : Fault) (ts : List Token)
    → Consumes ts (decode_element (unmarshal_err x) se fault ts)
unfolding unmarshal_err
decode_err-Consumes x se = decode_element-Consumes (unmarshal_err x) se (λ fault us.
    read_children-Consumes err_child se.name err_child-NotLonger (err_attrs se.attr x) fault us)

pub message_field-NotLonger :
    (se : StartElement) (m : Message) (fault : Fault) (ts : List Token)
    → NotLonger ts (message_field se m fault ts)
unfolding message_field
message_field-NotLonger se m fault ts =
    NotLonger-if ts (se.name.local == str "body") _ _
      (with_value-NotLonger (λ s. record m { body = s }) ts _ (decode_text-Consumes se fault ts))
      (NotLonger-if ts (se.name.local == str "thread") _ _
        (with_value-NotLonger (λ s. record m { thread = s }) ts _
          (decode_text-Consumes se fault ts))
        (NotLonger-if ts (se.name.local == str "subject") _ _
          (with_value-NotLonger (λ s. record m { subject = s }) ts _
            (decode_text-Consumes se fault ts))
          (NotLonger-if ts (se.name.local == str "error") _ _
            (with_value-NotLonger (λ x. record m { error = x }) ts _
              (decode_err-Consumes m.error se fault ts))
            (stay-NotLonger ts m))))

pub refused-NotLonger :
    (A : Type 0) (ts : List Token) (m : GoString) → NotLonger {A = A} ts (err (text_error m))
unfolding NotLonger
refused-NotLonger A ts m = text_error-IsRefusal m

pub refused-Consumes :
    (A : Type 0) (ts : List Token) (m : GoString) → Consumes {A = A} ts (err (text_error m))
unfolding Consumes
refused-Consumes A ts m = text_error-IsRefusal m

pub condition-Consumes :
    (se : StartElement) (fault : Fault) (ts : List Token) → Consumes ts (condition se fault ts)
unfolding condition
condition-Consumes se fault ts =
    Consumes-if ts (se.name.space == stanza_errors) _ _
      (decode_made-Consumes (λ own. ok se.name.local) (λ own e q. ok-IsRefusal se.name.local e q)
        fault ts)
      (refused-Consumes _ ts _)

pub in_int_8-IsRefusal : (n : Parsed) (e : GoError) → in_int_8 n ≡ err e → IsRefusal e
in_int_8-IsRefusal n e q = ground arith

pub read_int_8-IsRefusal : (s : GoString) (e : GoError) → read_int_8 s ≡ err e → IsRefusal e
read_int_8-IsRefusal s e q = ground (arith, in_int_8-IsRefusal (atoi (trim_space s)) e)

pub presence_field-NotLonger :
    (se : StartElement) (p : Presence) (fault : Fault) (ts : List Token)
    → NotLonger ts (presence_field se p fault ts)
unfolding presence_field
presence_field-NotLonger se p fault ts =
    NotLonger-if ts (se.name.local == str "show") _ _
      (with_value-NotLonger (λ s. record p { show = s }) ts _ (decode_text-Consumes se fault ts))
      (NotLonger-if ts (se.name.local == str "status") _ _
        (with_value-NotLonger (λ s. record p { status = s }) ts _
          (decode_text-Consumes se fault ts))
        (NotLonger-if ts (se.name.local == str "priority") _ _
          (with_value-NotLonger (λ n. record p { priority = n }) ts _
            (decode_made-Consumes (λ own. read_int_8 (text_content 0 own))
              (λ own e q. read_int_8-IsRefusal (text_content 0 own) e q) fault ts))
          (NotLonger-if ts (se.name.local == str "error") _ _
            (with_value-NotLonger (λ x. record p { error = x }) ts _
              (decode_err-Consumes p.error se fault ts))
            (stay-NotLonger ts p))))

pub failed_child-NotLonger :
    (se : StartElement) (g : Option GoString) (fault : Fault) (ts : List Token)
    → NotLonger ts (failed_child se g fault ts)
unfolding failed_child
failed_child-NotLonger se g fault ts =
    NotLonger-if ts (mem_text se.name.local group_error_names) _ _
      (with_value-NotLonger some ts _ (condition-Consumes se fault ts)) (refused-NotLonger _ ts _)

pub decode_failed-Consumes :
    (se : StartElement) (fault : Fault) (ts : List Token)
    → Consumes ts (decode_element unmarshal_failed se fault ts)
unfolding unmarshal_failed
decode_failed-Consumes se =
    decode_element-Consumes unmarshal_failed se
      (λ fault us. read_children-Consumes failed_child se.name failed_child-NotLonger none fault us)

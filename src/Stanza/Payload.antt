-- ===== src/Stanza/Payload.antt =====
-- What the payloads of stanzas are made of: names, attributes and nodes, and the data forms of
-- stanza/form.go with the result sets of stanza/results_sets.go. A pointer that may be nil is an Option.
pub mod PubSub
use go_xmpp.Text.{GoString}
use go_xmpp.Prelude.{List, Option, [], none, ℤ}

-- xml.Name of encoding/xml.
pub record XmlName : Type 0 where
  pub space : GoString
  pub local : GoString

abbrev pub no_name : XmlName
no_name = record { space = []; local = [] }

pub record Attribute : Type 0 where
  pub name : XmlName
  pub value : GoString

-- Node of stanza/node.go: an element of any kind. The text is that of all its own character data.
mutual
  pub data Node : Type 0 where
    node : XmlName → List Attribute → GoString → Nodes → Node

  pub data Nodes : Type 0 where
    no_nodes : Nodes
    next_node : Node → Nodes → Nodes

-- Option of stanza/form.go.
pub record FieldOption : Type 0 where
  pub label : GoString
  pub values_list : List GoString

-- Field of stanza/form.go; Var is `variable` and Type is `kind`.
pub record Field : Type 0 where
  pub description : GoString
  pub required : Option GoString
  pub values_list : List GoString
  pub options : List FieldOption
  pub variable : GoString
  pub kind : GoString
  pub label : GoString

pub record FormItem : Type 0 where
  pub xml_name : XmlName
  pub fields : List Field

pub record Form : Type 0 where
  pub instructions : List GoString
  pub title : GoString
  pub fields : List Field
  pub reported : Option FormItem
  pub items : List FormItem
  pub kind : GoString

unfoldable pub new_form : List Field → GoString → Form
new_form fields form_type = record {
  instructions = [];
  title = [];
  fields = fields;
  reported = none;
  items = [];
  kind = form_type;
}

pub record First : Type 0 where
  pub content : GoString
  pub index : Option ℤ

pub record ResultSet : Type 0 where
  pub after : Option GoString
  pub before : Option GoString
  pub count : Option ℤ
  pub first : Option First
  pub index : Option ℤ
  pub last : Option GoString
  pub max : Option ℤ

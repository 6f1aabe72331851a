-- ===== src/Stanza/Jid.antt =====
-- stanza/jid.go: XMPP addresses, node@domain/resource.
pub mod RoundTrip
use go_xmpp.Result.{GoError, text_error}
use go_xmpp.Text.{GoString, contains_func, is_empty, is_space, str}
use go_xmpp.Text.Split.{split_2}
use go_xmpp.Prelude.{
  Bool, List, Option, [], false, if◌then◌else◌, nat_beq, none, not, some, ℕ, ◌++◌, ◌||◌, ◌∷◌,
}

pub record Jid : Type 0 where
  pub node : GoString
  pub domain : GoString
  pub resource : GoString

-- isInvalid(invalidRunes)
among : ℕ → List ℕ → Bool
among c [] = false
among c (r ∷ rs) = nat_beq c r || among c rs

unfoldable pub is_invalid : List ℕ → ℕ → Bool
unfolding among
is_invalid runes c = is_space c || among c runes

abbrev pub node_runes : List ℕ
node_runes = b'@' ∷ b'/' ∷ b'\'' ∷ b'"' ∷ b':' ∷ b'<' ∷ b'>' ∷ []

abbrev pub domain_runes : List ℕ
domain_runes = b'@' ∷ b'/' ∷ []

unfoldable pub is_username_valid : GoString → Bool
is_username_valid username = not (contains_func (is_invalid node_runes) username)

unfoldable pub is_domain_valid : GoString → Bool
is_domain_valid [] = false
is_domain_valid (c ∷ domain) = not (contains_func (is_invalid domain_runes) (c ∷ domain))

-- The two tests at the end of NewJid.
validate : Jid → Jid × Option GoError
validate jid =
    if not (is_username_valid jid.node)
    then (jid, some (text_error (str "invalid Node in Jid")))
    else if not (is_domain_valid jid.domain)
    then (jid, some (text_error (str "invalid domain in Jid")))
    else (jid, none)

-- Extract the resource from the domain field.
split_resource : GoString → GoString × Option GoString → Jid
split_resource node (domain, none) = record { node = node; domain = domain; resource = [] }
split_resource node (domain, some resource) = record {
  node = node;
  domain = domain;
  resource = resource;
}

with_node : GoString → GoString → Jid × Option GoError
unfolding validate split_resource
with_node node rest = validate (split_resource node (split_2 b'/' rest))

split_node : GoString × Option GoString → Jid × Option GoError
unfolding with_node
split_node (rest, none) = with_node [] rest
split_node (node, some rest) =
    if is_empty node
    then (record { node = []; domain = []; resource = [] }, some (text_error (str "invalid jid")))
    else if is_empty rest
    then (
      record { node = node; domain = []; resource = [] },
      some (text_error (str "domain cannot be empty")),
    )
    else with_node node rest

-- NewJid: the Jid, filled as far as it got, and the error, if any. The error texts that quote the
-- input keep only their fixed part.
unfoldable pub new_jid : GoString → Jid × Option GoError
unfolding split_node
new_jid sjid =
    if is_empty sjid
    then (
      record { node = []; domain = []; resource = [] },
      some (text_error (str "jid cannot be empty")),
    )
    else split_node (split_2 b'@' sjid)

unfoldable pub bare : Jid → GoString
bare j = if is_empty j.node then j.domain else j.node ++ b'@' ∷ j.domain

unfoldable pub full : Jid → GoString
unfolding bare
full j =
    if is_empty j.resource
    then bare j
    else if is_empty j.node
    then j.domain ++ b'/' ∷ j.resource
    else j.node ++ b'@' ∷ (j.domain ++ b'/' ∷ j.resource)

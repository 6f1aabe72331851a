-- ===== src/Client/Setup.antt =====
-- client.go: NewClient, which completes the configuration; NewClientTransport of transport.go.
-- net.LookupSRV is an argument: the entries for a domain, or `none` for an error.
pub mod Best
use go_xmpp.Text.{GoString, has_prefix, is_empty, str}
use go_xmpp.Result.{Result, err, new_conn_error, ok, text_error}
use go_xmpp.Stanza.Jid.{Jid, new_jid}
use go_xmpp.Auth.{Credential}
use go_xmpp.Network.{ensure_port}
use go_xmpp.Prelude.{
  List, Option, [], if◌then◌else◌, leb, none, some, suc, true, zero, ℕ, ◌&&◌, ◌||◌, ◌∷◌,
}

-- net.SRV
pub record Srv : Type 0 where
  pub target : GoString
  pub port : ℕ
  pub priority : ℕ
  pub weight : ℕ

-- What NewClient reads and sets of Config. Config.Domain is the field of the embedded
-- TransportConfiguration, and the timeouts are in seconds.
pub record Settings : Type 0 where
  pub jid : GoString
  pub credential : Credential
  pub address : GoString
  pub domain : GoString
  pub keepalive_interval : ℕ
  pub connect_timeout : ℕ
  pub transport_connect_timeout : ℕ

pub data TransportKind : Type 0 where
  websocket tcp_to : GoString → TransportKind

-- NewClientTransport
unfoldable pub new_client_transport : GoString → TransportKind
new_client_transport address =
    if has_prefix address (str "ws:") || has_prefix address (str "wss:")
    then websocket address
    else tcp_to (ensure_port address 5222)

-- A turn of the loop over the entries: bestSrv and config.Address.
consider : Srv → Srv × GoString → Srv × GoString
consider srv (best, address) =
    if leb srv.priority best.priority && leb best.weight srv.weight
    then (srv, ensure_port srv.target srv.port)
    else (best, address)

unfoldable pub choose : List Srv → Srv × GoString → Srv × GoString
unfolding consider
choose [] found = found
choose (srv ∷ entries) found = choose entries (consider srv found)

-- The address that replaces an empty one: the domain, or the best entry's host and port.
unfoldable pub find_address : Option (List Srv) → GoString → GoString
unfolding choose
find_address none domain = domain
find_address (some []) domain = domain
find_address (some (first ∷ entries)) domain = (choose (first ∷ entries) (first, domain)).1

-- `if x == 0 { x = d }`
or_else : ℕ → ℕ → ℕ
or_else zero d = d
or_else (suc n) d = suc n

complete : (GoString → Option (List Srv)) → Jid → Settings → Settings
unfolding find_address or_else
complete look_up parsed o =
    let timeout = or_else o.connect_timeout 15 in
    record o {
      address =
          if is_empty o.address
          then find_address (look_up parsed.domain) parsed.domain
          else o.address;
      domain = if is_empty o.domain then parsed.domain else o.domain;
      keepalive_interval = or_else o.keepalive_interval 30;
      connect_timeout = timeout;
      transport_connect_timeout = timeout;
    }

-- NewClient: the completed configuration, its parsed JID, and the transport. The configuration of a
-- client that is refused is not used.
unfoldable pub new_client :
    (GoString → Option (List Srv)) → Settings → Result (Settings × Jid × TransportKind)
unfolding complete new_client_transport new_conn_error
new_client look_up o =
    let (parsed, e) = new_jid o.jid in
    elim e [
      | some failure ↦ err (new_conn_error (text_error (str "missing jid")) true)
      | none ↦
          if is_empty o.credential.secret
          then err (new_conn_error (text_error (str "missing credential")) true)
          else let done = complete look_up parsed o in
            ok (done, parsed, new_client_transport done.address)
    ]

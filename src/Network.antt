-- ===== src/Network.antt =====
-- network.go, and extractParams of cert_checker.go: host names with a port.
pub mod Port
use go_xmpp.Text.{GoString, count, has_prefix, is_empty, last_index_1, str}
use go_xmpp.Text.Split.{split}
use go_xmpp.Result.{GoError, text_error}
use go_xmpp.Text.Decimal.{itoa}
use go_xmpp.Prelude.{Option, [], if◌then◌else◌, leb, none, some, suc, zero, ℕ, ◌++◌, ◌∷◌}

-- The switch on strings.Count(addr, ":").
by_colons : GoString → ℕ → ℕ → GoString
by_colons addr port zero = addr ++ b':' ∷ itoa port
by_colons addr port (suc zero) = addr
by_colons addr port (suc (suc n)) = b'[' ∷ (addr ++ b']' ∷ b':' ∷ itoa port)

-- ensurePort. last_index_1 is Go's LastIndex plus one, so the comparison is that of the source.
unfoldable pub ensure_port : GoString → ℕ → GoString
unfolding by_colons
ensure_port addr port =
    if has_prefix addr (b'[' ∷ [])
    then if leb (last_index_1 b':' addr) (last_index_1 b']' addr)
      then addr ++ b':' ∷ itoa port
      else addr
    else by_colons addr port (count b':' addr)

-- extractParams: the address with a port, the host, and the error if there is one.
unfoldable pub extract_params : GoString → GoString × GoString × Option GoError
extract_params addr = elim (split b':' addr) [
  | [] ↦ (addr, [], none)
  | host ∷ [] ↦ (host ++ b':' ∷ str "5222", host, none)
  | host ∷ port ∷ [] ↦
      if is_empty port then (host ++ b':' ∷ str "5222", host, none) else (addr, host, none)
  | host ∷ port ∷ more ∷ rest ↦
      (addr, host, some (text_error (str "too many colons in xmpp server address")))
]

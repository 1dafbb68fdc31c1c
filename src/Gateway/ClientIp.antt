-- ===== src/Gateway/ClientIp.antt =====
-- The address that a request is counted under (services/gateway/internal/middleware/clientip.go). The
-- packages net and net/netip are parameters.
use quantsim.Prelude.{Bool, true, false, Option, none, some, List, [], ◌∷◌, if◌then◌else◌}
use quantsim.Prelude.Text.{Text, Unicode, is_empty, trim_space, split}
use quantsim.Gateway.Http.{Request, get}

-- `split_host_port` keeps the host alone; `print` is `addr.Unmap().String()`, `contains` takes the
-- address unmapped, and `single` is the prefix of one host.
pub record Netip (A P : Type 0) : Type 0 where
  pub parse_addr : Text → Option A
  pub parse_prefix : Text → Option P
  pub single : A → P
  pub contains : P → A → Bool
  pub print : A → Text
  pub split_host_port : Text → Option Text

-- An entry that is neither a prefix nor an address is an error, `none`.
module _ {A P : Type 0} (u : Unicode) (net : Netip A P) where
  -- One field of the list
  parse_field : Text → Option P
  parse_field field = elim (net.parse_prefix field) [
    | some prefix ↦ some prefix
    | none ↦ elim (net.parse_addr field) [ some addr ↦ some (net.single addr) | none ↦ none ]
  ]

  -- `append`, unless one of the two is an error
  abbrev put : Option P → Option (List P) → Option (List P)
  put none rest = none
  put (some prefix) none = none
  put (some prefix) (some prefixes) = some (prefix ∷ prefixes)

  parse_fields : List Text → Option (List P)
  unfolding parse_field
  parse_fields [] = some []
  parse_fields (raw ∷ fields) =
      let field = trim_space u raw in
      let rest = parse_fields fields in
      if is_empty field then rest else put (parse_field field) rest

  unfoldable pub parse_trusted_proxies : Text → Option (List P)
  unfolding parse_fields
  parse_trusted_proxies raw = parse_fields (split 44 raw)

module _ {A P : Type 0} (net : Netip A P) where
  any_contains : A → List P → Bool
  any_contains addr [] = false
  any_contains addr (prefix ∷ prefixes) =
      let rest = any_contains addr prefixes in if net.contains prefix addr then true else rest

  -- `trusts`: with no prefix the loop finds none.
  unfoldable pub trusts : List P → Text → Bool
  unfolding any_contains
  trusts prefixes host = elim (net.parse_addr host) [
    | none ↦ false
    | some addr ↦ any_contains addr prefixes
  ]

  unfoldable pub peer_ip : Request → Text
  peer_ip r = elim (net.split_host_port r.remote_addr) [ none ↦ r.remote_addr | some host ↦ host ]

  -- The address that a field of the header gives, "" where it gives none
  unfoldable pub address_of : Text → Text
  address_of field = elim (net.parse_addr field) [
    | some addr ↦ net.print addr
    | none ↦ elim (net.split_host_port field) [
      | none ↦ []
      | some host ↦ elim (net.parse_addr host) [ some addr ↦ net.print addr | none ↦ [] ]
    ]
  ]

abbrev rest_of : List Text → List Text
rest_of [] = []
rest_of (field ∷ fields) = fields

module _ {A P : Type 0} (u : Unicode) (net : Netip A P) where
  -- The loop from the last field back: the first one that is not blank decides.
  last_filled : List Text → Text
  last_filled [] = []
  last_filled (raw ∷ fields) =
      let later = last_filled fields in if is_empty later then trim_space u raw else later

  unfoldable pub rightmost_forwarded : Text → Text
  unfolding last_filled address_of
  rightmost_forwarded header =
      let field = last_filled (split 44 header) in
      if is_empty field then [] else address_of net field

  unfoldable pub client_ip : List P → Request → Text
  unfolding peer_ip trusts rightmost_forwarded get
  client_ip trusted r =
      let peer = peer_ip net r in
      let forwarded = rightmost_forwarded (get "X-Forwarded-For" r.header) in
      if trusts net trusted peer then (if is_empty forwarded then peer else forwarded) else peer

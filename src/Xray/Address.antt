-- ===== src/Xray/Address.antt =====
-- src/core/XrayAdapter.cpp: which address and port Xray takes from a generated outbound.
use zarya.Prelude.{
  suc, Bool, true, false, not, ◌&&◌, ◌||◌, length, Option, none, some, Text, codes, trimmed,
  starts_with, contains_char, last_index_of, left, mid, ltb, ◌==◌, ℤ, pos, negsuc, parse_int,
  if◌then◌else◌,
}
use zarya.Profiles.Profile.{ProtocolType, wire_guard, Profile}
use zarya.Xray.Reading.{Server, host_port, endpoint, Outbound, xray_name, credential_of, layers_of}

-- Go's net.SplitHostPort, which Xray reads the endpoint of a WireGuard peer with: the port is
-- behind the last colon; a host with a colon in it must stand in brackets.
unfoldable pub host_and_port : Text → Text → Option (Text × ℤ)
host_and_port host port = elim (parse_int port) [
  | none ↦ none
  | some n ↦
      if contains_char host b':' || contains_char host b'[' || contains_char host b']'
      then none
      else some (host, n)
]

unfoldable pub bracketed : Text → Text → Option (Text × ℤ)
bracketed host port = elim (last_index_of host b']') [
  | none ↦ none
  | some i ↦ elim (parse_int port) [
    | none ↦ none
    | some n ↦ if suc i == length host then some (mid (left host i) 1, n) else none
  ]
]

unfoldable pub split_host_port : Text → Option (Text × ℤ)
split_host_port text = elim (last_index_of text b':') [
  | none ↦ none
  | some i ↦
      if starts_with text (codes "[")
      then bracketed (left text i) (mid text (suc i))
      else host_and_port (left text i) (mid text (suc i))
]

-- Where an outbound connects to, if Xray can make it out.
unfoldable pub address_of : Server → Option (Text × ℤ)
address_of (host_port host port) = some (host, port)
address_of (endpoint text) = split_host_port text

-- The address and the port are ones that can be written and read: the address of a WireGuard peer
-- has none of % [ ], and its port is a number of 31 bits.
unfoldable pub is_writable : ProtocolType → Text → ℤ → Bool
is_writable wire_guard address (pos n) =
    ltb n 0x80000000
    && not (contains_char address b'%')
    && not (contains_char address b'[')
    && not (contains_char address b']')
is_writable wire_guard address (negsuc n) = false
is_writable _ address port = true

abbrev pub is_wire_guard : ProtocolType → Bool
is_wire_guard wire_guard = true
is_wire_guard _ = false

-- What Xray takes from an outbound.
pub record View : Type 0 where
  pub tag : Text
  pub protocol : Text
  pub address : Option (Text × ℤ)
  pub credential : Text
  pub network : Text
  pub security : Text

abbrev pub view : Outbound → View
view o = record {
  tag = o.tag;
  protocol = o.protocol;
  address = address_of o.server;
  credential = o.credential;
  network = o.network;
  security = o.security;
}

-- What a profile stands for. No address can be made out for WireGuard where it is an IPv6 address.
unfoldable pub stands_for : Profile → ProtocolType → View
stands_for p k = record {
  tag = codes "proxy";
  protocol = xray_name k;
  address =
      if is_wire_guard k && contains_char (trimmed p.address) b':'
      then none
      else some (trimmed p.address, p.port);
  credential = credential_of p k;
  network = (layers_of p k).0;
  security = (layers_of p k).1;
}

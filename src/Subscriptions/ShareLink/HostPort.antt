-- ===== src/Subscriptions/ShareLink/HostPort.antt =====
-- parseShadowsocksHostPort of src/subscription/ShareLinkParser.cpp: reading back what was written.
use zarya.Prelude.{
  ℕ, suc, ◌≡◌, refl, ◌∙◌, ◌≤◌, false, ◌||◌, leb, ◌==◌, is_digit, [], ◌∷◌, ◌++◌, append-nil, length,
  Option, none, some, Text, trimmed-eq, has_space, has_space-append, contains_char,
  contains_char-append, contains_char-number, has_space-number, is_empty-number, index_of-absent,
  index_of-append, last_index_of-append, left_of, left-append, mid, mid-append, get_elem?, is_empty,
  ℤ, pos, number, parse_int, parse_int-number, arith,
}
use zarya.Subscriptions.ShareLink.Shadowsocks.{
  port_in_range, endpoint, plain_endpoint, bracketed_endpoint, host_port_of, before,
  parse_host_port,
}

-- A query behind the endpoint.
abbrev pub query_text : Option Text → Text
query_text none = []
query_text (some query) = b'?' ∷ query

-- A host that the endpoint can be told from: not empty, without blanks and the characters / ? [ ].
abbrev pub IsHost : Text → Type 0
IsHost host =
    (is_empty host ≡ false)
    × (has_space host ≡ false)
    × (contains_char host b'?' ≡ false)
    × (contains_char host b'/' ≡ false)
    × (contains_char host b'[' ≡ false)
    × (contains_char host b']' ≡ false)

abbrev pub IsPort : ℕ → Type 0
IsPort port = (1 ≤ port) × (port ≤ 65535)

before-absent : (s : Text) (d : ℕ) → contains_char s d ≡ false → before s d ≡ s
unfolding before left_of
before-absent s d h = rw (index_of-absent s d h)

before-query :
    (s : Text) (query : Option Text)
    → contains_char s b'?' ≡ false
    → before (s ++ query_text query) b'?' ≡ s
unfolding before left_of
before-query s none h = rw (append-nil s, index_of-absent s b'?' h)
before-query s (some query) h = rw (index_of-append s query b'?' h, left-append s (b'?' ∷ query))

parse_host_port-plain :
    (s : Text) (query : Option Text)
    → contains_char s b'?' ≡ false
    → contains_char s b'/' ≡ false
    → has_space s ≡ false
    → parse_host_port (s ++ query_text query) ≡ host_port_of s
unfolding parse_host_port
parse_host_port-plain s query h k l =
    rw (before-query s query h, before-absent s b'/' k, trimmed-eq s l)

port_in_range-number :
    (port : ℕ) → IsPort port → port_in_range (parse_int (number (pos port))) ≡ some (pos port)
unfolding port_in_range
port_in_range-number port h = ground (arith, parse_int-number port)

endpoint-some :
    (host : Text) (port : ℤ) → is_empty host ≡ false → endpoint host (some port) ≡ some (host, port)
unfolding endpoint
endpoint-some host port h = ground arith

get_elem?-behind :
    (s : Text) (c d : ℕ) (t : Text) → get_elem? (s ++ c ∷ d ∷ t) (suc (length s)) ≡ some d
get_elem?-behind [] c d t = refl
get_elem?-behind (e ∷ s) c d t = get_elem?-behind s c d t

mid-behind : (s : Text) (c d : ℕ) (t : Text) → mid (s ++ c ∷ d ∷ t) (suc (suc (length s))) ≡ t
mid-behind [] c d t = refl
mid-behind (e ∷ s) c d t = mid-behind s c d t

no_cut :
    (s t : Text) (c : ℕ)
    → is_empty s ≡ false
    → is_empty t ≡ false
    → ((length s == 0) || leb (length (s ++ c ∷ t)) (suc (length s))) ≡ false
no_cut [] t c h k = cc
no_cut (d ∷ []) [] c h k = cc
no_cut (d ∷ []) (e ∷ t) c h k = ground arith
no_cut (d ∷ e ∷ s) t c h k = ground (arith, no_cut (e ∷ s) t c)

module _ (host : Text) (port : ℕ) (h : IsHost host) (k : IsPort port) where
  plain_endpoint-some :
      plain_endpoint (host ++ b':' ∷ number (pos port)) (some (length host)) ≡ some (host, pos port)
  unfolding plain_endpoint
  plain_endpoint-some =
      rw
        (
          no_cut host (number (pos port)) b':' h.0 (is_empty-number port),
          left-append host (b':' ∷ number (pos port)),
          mid-append host (number (pos port)) b':',
          port_in_range-number port k,
        )
        (endpoint-some host (pos port) h.0)

  bracketed_endpoint-some :
      bracketed_endpoint (b'[' ∷ host ++ b']' ∷ b':' ∷ number (pos port)) (some (suc (length host)))
      ≡ some (host, pos port)
  unfolding bracketed_endpoint
  bracketed_endpoint-some = ground (
    arith,
    h,
    left-append host (b']' ∷ b':' ∷ number (pos port)),
    get_elem?-behind host b']' b':' (number (pos port)),
    mid-behind host b']' b':' (number (pos port)),
    port_in_range-number port k,
    endpoint-some host (pos port),
  )

host_port_of-plain :
    (host : Text) (port : ℕ)
    → IsHost host
    → IsPort port
    → host_port_of (host ++ b':' ∷ number (pos port)) ≡ some (host, pos port)
unfolding host_port_of contains_char
host_port_of-plain [] port h k = ground (arith, h)
host_port_of-plain (c ∷ s) port h k = ground (
  arith,
  h,
  last_index_of-append (c ∷ s) (number (pos port)) b':' (contains_char-number port b':' refl),
  plain_endpoint-some (c ∷ s) port h k,
)

host_port_of-bracketed :
    (host : Text) (port : ℕ)
    → IsHost host
    → IsPort port
    → host_port_of (b'[' ∷ host ++ b']' ∷ b':' ∷ number (pos port)) ≡ some (host, pos port)
unfolding host_port_of
host_port_of-bracketed host port h k = ground (
  arith,
  h,
  index_of-append host (b':' ∷ number (pos port)) b']',
  bracketed_endpoint-some host port h k,
)

clear_of :
    (host : Text) (port d : ℕ)
    → contains_char host d ≡ false
    → is_digit d ≡ false
    → (d == b':') ≡ false
    → (d == b'[') ≡ false
    → (d == b']') ≡ false
    → (contains_char (host ++ b':' ∷ number (pos port)) d ≡ false)
      × (contains_char (b'[' ∷ host ++ b']' ∷ b':' ∷ number (pos port)) d ≡ false)
unfolding contains_char
clear_of host port d h k e f g = ground (
  arith,
  contains_char-number port d k,
  contains_char-append host (b':' ∷ number (pos port)) d,
  contains_char-append host (b']' ∷ b':' ∷ number (pos port)) d,
)

no_space :
    (host : Text) (port : ℕ)
    → has_space host ≡ false
    → (has_space (host ++ b':' ∷ number (pos port)) ≡ false)
      × (has_space (b'[' ∷ host ++ b']' ∷ b':' ∷ number (pos port)) ≡ false)
unfolding has_space
no_space host port h = (
  has_space-append host (b':' ∷ number (pos port)) h (has_space-number port),
  has_space-append host (b']' ∷ b':' ∷ number (pos port)) h (has_space-number port),
)

-- A host that is not empty and has no blanks and none of the characters / ? [ ], and a port from 1
-- to 65535, are read back from `host:port` and from `[host]:port`, with or without a query behind.
pub parse_host_port-host_port :
    (host : Text) (port : ℕ) (query : Option Text)
    → IsHost host
    → IsPort port
    → (parse_host_port ((host ++ b':' ∷ number (pos port)) ++ query_text query)
        ≡ some (host, pos port))
      × (parse_host_port ((b'[' ∷ host ++ b']' ∷ b':' ∷ number (pos port)) ++ query_text query)
          ≡ some (host, pos port))
unfolding is_digit
parse_host_port-host_port host port query h k =
    let clear = clear_of host port b'?' h.2 refl refl refl refl in
    let whole = clear_of host port b'/' h.3 refl refl refl refl in
    let spaces = no_space host port h.1 in
    (
      parse_host_port-plain (host ++ b':' ∷ number (pos port)) query clear.0 whole.0 spaces.0
          ∙ host_port_of-plain host port h k,
      parse_host_port-plain (b'[' ∷ host ++ b']' ∷ b':' ∷ number (pos port)) query clear.1 whole.1
            spaces.1
          ∙ host_port_of-bracketed host port h k,
    )

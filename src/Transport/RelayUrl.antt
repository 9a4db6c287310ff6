-- ===== src/Transport/RelayUrl.antt =====
-- crates/stross-transport/src/relay_url.rs: the addresses at which relays are dialled.
-- A text is the list of its codes.
pub mod Print
mod Tests
use stross.Base.{ℕ, Bool, true, false, List, [], ◌∷◌, ◌++◌, Option, none, some, if◌then◌else◌, ◌==◌}
use stross.Base.Split.{strip_prefix, split_once, rsplit_once, or_else, contains}
use stross.Base.Decimal.{to_decimal, from_decimal}
use stross.Proto.Message.{Text}

-- The transports that an address can have.
pub data TransportId : Type 0 where
  ws srt quic : TransportId

pub record RelayUrl : Type 0 where
  pub transport : TransportId
  pub host : Text
  pub port : ℕ
  pub path : Option Text

abbrev pub u16_mod : ℕ
u16_mod = 65536

abbrev pub slash : ℕ
slash = b'/'

abbrev pub colon : ℕ
colon = b':'

abbrev pub opening : ℕ
opening = b'['

abbrev pub closing : ℕ
closing = b']'

abbrev pub after_scheme : Text
after_scheme = colon ∷ slash ∷ slash ∷ []

abbrev pub ws_scheme : Text
ws_scheme = b'w' ∷ b's' ∷ after_scheme

abbrev pub wss_scheme : Text
wss_scheme = b'w' ∷ b's' ∷ b's' ∷ after_scheme

abbrev pub srt_scheme : Text
srt_scheme = b's' ∷ b'r' ∷ b't' ∷ after_scheme

abbrev pub quic_scheme : Text
quic_scheme = b'q' ∷ b'u' ∷ b'i' ∷ b'c' ∷ after_scheme

abbrev pub http_scheme : Text
http_scheme = b'h' ∷ b't' ∷ b't' ∷ b'p' ∷ after_scheme

abbrev pub ws_push : Text
ws_push = slash ∷ b'w' ∷ b's' ∷ slash ∷ b'p' ∷ b'u' ∷ b's' ∷ b'h' ∷ []

abbrev pub ws_watch : Text
ws_watch =
    slash ∷ b'w' ∷ b's' ∷ slash ∷ b'w' ∷ b'a' ∷ b't' ∷ b'c' ∷ b'h' ∷ b'?' ∷ b's' ∷ b't' ∷ b'r'
    ∷ b'e' ∷ b'a' ∷ b'm' ∷ b'=' ∷ []

abbrev pub of_transport : TransportId → Option Text → Option (TransportId × Text)
of_transport t none = none
of_transport t (some rest) = some (t, rest)

-- The scheme, with TLS counted as `ws`.
unfoldable pub scheme_of : Text → Option (TransportId × Text)
scheme_of s = or_else (of_transport ws (strip_prefix ws_scheme s)) (
    or_else (of_transport ws (strip_prefix wss_scheme s)) (
      or_else (of_transport srt (strip_prefix srt_scheme s))
        (of_transport quic (strip_prefix quic_scheme s))))

abbrev pub at_port : Text → Option Text → Option (Text × ℕ)
at_port host none = none
at_port host (some digits) = elim (from_decimal u16_mod digits) [
  | none ↦ none
  | some port ↦ some (host, port)
]

-- A host in brackets, or the part before the last colon.
unfoldable pub split_host_port : Text → Option (Text × ℕ)
split_host_port hp = elim (strip_prefix (opening ∷ []) hp) [
  | some rest ↦ elim (split_once closing rest) [
    | none ↦ none
    | some (host, after) ↦ at_port host (strip_prefix (colon ∷ []) after)
  ]
  | none ↦ elim (rsplit_once colon hp) [
    | none ↦ none
    | some (host, port) ↦ at_port host (some port)
  ]
]

abbrev pub at_slash : Text → Option (Text × Text) → Text × Option Text
at_slash rest none = (rest, none)
at_slash rest (some (hp, [])) = (hp, none)
at_slash rest (some (hp, c ∷ p)) = (hp, some (slash ∷ c ∷ p))

-- What follows the first slash is the path, unless it is empty.
unfoldable pub split_path : Text → Text × Option Text
split_path rest = at_slash rest (split_once slash rest)

abbrev pub at_host : TransportId → Option Text → Option (Text × ℕ) → Option RelayUrl
at_host t path none = none
at_host t path (some (host, port)) =
    some (record { transport = t; host = host; port = port; path = path })

abbrev pub at_path : TransportId → Text × Option Text → Option RelayUrl
at_path t (hp, path) = at_host t path (split_host_port hp)

abbrev pub at_scheme : Option (TransportId × Text) → Option RelayUrl
at_scheme none = none
at_scheme (some (t, rest)) = at_path t (split_path rest)

unfoldable pub parse : Text → Option RelayUrl
parse s = at_scheme (scheme_of s)

unfoldable pub fmt_host : RelayUrl → Text
fmt_host u = if contains u.host colon then opening ∷ (u.host ++ closing ∷ []) else u.host

-- `host:port`, where a port has at most five digits.
unfoldable pub fmt_address : RelayUrl → Text
unfolding fmt_host
fmt_address u = fmt_host u ++ colon ∷ to_decimal 5 u.port

unfoldable pub push_path : TransportId → Option Text → Text
push_path ws (some p) = p
push_path ws none = ws_push
push_path _ _ = []

abbrev pub scheme : TransportId → Text
scheme ws = ws_scheme
scheme srt = srt_scheme
scheme quic = quic_scheme

unfoldable pub push_url : RelayUrl → Text
unfolding fmt_address push_path
push_url u = scheme u.transport ++ (fmt_address u ++ push_path u.transport u.path)

unfoldable pub watch_url : RelayUrl → Text → Text
unfolding push_url
watch_url u id = elim u.transport [
  | ws ↦ ws_scheme ++ (fmt_address u ++ (ws_watch ++ id))
  | _ ↦ push_url u
]

unfoldable pub base_http : RelayUrl → Text
unfolding fmt_address
base_http u = http_scheme ++ (fmt_address u ++ slash ∷ [])

-- `RelayUrl::http`.
unfoldable pub http : Text → ℕ → Text
unfolding base_http
http host port = base_http (record { transport = ws; host = host; port = port; path = none })

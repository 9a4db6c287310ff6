-- ===== src/Transport/RelayUrl/Tests.antt =====
-- Addresses of relays, and their theorem at a concrete input.
use stross.Base.{◌≡◌, refl, [], ◌∷◌, ◌++◌, some, none, arith}
use stross.Base.Split.{split_once, rsplit_once}
use stross.Base.Decimal.{to_decimal, from_decimal}
use stross.Transport.RelayUrl.{
  RelayUrl, ws, quic, parse, push_url, scheme_of, split_host_port, split_path, http_scheme,
}
use stross.Transport.RelayUrl.Print.{parse-push_url, printed_path}

-- `quic://[::1]:80`
abbrev loopback : RelayUrl
loopback = record { transport = quic; host = b':' ∷ b':' ∷ b'1' ∷ []; port = 80; path = none }

prints :
    push_url loopback
    ≡ b'q' ∷ b'u' ∷ b'i' ∷ b'c' ∷ b':' ∷ b'/' ∷ b'/' ∷ b'[' ∷ b':' ∷ b':' ∷ b'1' ∷ b']' ∷ b':'
      ∷ b'8' ∷ b'0' ∷ []
unfolding push_url to_decimal
prints = refl

http_refused : parse (http_scheme ++ b'h' ∷ b':' ∷ b'1' ∷ []) ≡ none
unfolding parse scheme_of
http_refused = refl

-- `ws://h:1/`
empty_path :
    parse (b'w' ∷ b's' ∷ b':' ∷ b'/' ∷ b'/' ∷ b'h' ∷ b':' ∷ b'1' ∷ b'/' ∷ [])
    ≡ some (record { transport = ws; host = b'h' ∷ []; port = 1; path = none })
unfolding parse scheme_of split_path split_host_port split_once rsplit_once from_decimal
empty_path = refl

parse-push_url_example :
    parse (push_url loopback)
    ≡ some (record loopback { path = printed_path loopback.transport loopback.path })
parse-push_url_example = parse-push_url loopback (record {
  no_slash = (λ e. ground (arith, e), (λ e. ground (arith, e), (λ e. ground (arith, e), tt)));
  no_closing =
      λ e. (λ e. ground (arith, e), (λ e. ground (arith, e), (λ e. ground (arith, e), tt)));
  no_opening = λ e. ground (arith, e);
  port_u16 = omega arith;
  path_fits = tt;
})

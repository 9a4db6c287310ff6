-- ===== src/Transport/RelayUrl/Print.antt =====
-- An address that is printed reads back.
use stross.Base.{
  ℕ, ◌<◌, ◌≡◌, ◌≢◌, refl, ap, ◌∙◌, subst, true, false, List, [], ◌∷◌, ◌++◌, append_assoc,
  append-nil, Option, none, some, arith, Bool-cases, inl, inr, All-append, if◌then◌else◌,
}
use stross.Base.Split.{
  strip_prefix, Lacks, contains, split_once-append, split_once-Lacks, rsplit_once-append,
}
use stross.Base.Decimal.{
  to_decimal, is_digit, IsDigits, to_decimal-IsDigits, from_decimal-to_decimal,
}
use stross.Proto.Message.{Text}
use stross.Transport.RelayUrl.{
  RelayUrl, TransportId, ws, srt, quic, u16_mod, slash, colon, opening, closing, scheme, scheme_of,
  split_host_port, split_path, parse, fmt_host, fmt_address, push_path, push_url, ws_push, at_port,
  at_slash, at_host, at_path, at_scheme,
}

IsDigits→Lacks : (sep : ℕ) (cs : List ℕ) → is_digit sep ≡ false → IsDigits cs → Lacks sep cs
IsDigits→Lacks sep [] n h = tt
IsDigits→Lacks sep (c ∷ cs) n h =
    (λ e. ground (arith, subst (λ x. is_digit x ≡ true) e h.0, n), IsDigits→Lacks sep cs n h.1)

-- A path stands with `ws` alone and is a slash and more.
abbrev pub PathFits : TransportId → Option Text → Type 0
PathFits ws (some (c ∷ d ∷ p)) = c ≡ slash
PathFits ws (some _) = ⊥
PathFits _ none = Unit {0}
PathFits _ (some _) = ⊥

-- What an address must be to be told from its text: no slash in the host, no closing bracket if it
-- is to be put in brackets, no opening bracket in front if not, and a port of 16 bits.
pub record IsUrl (u : RelayUrl) : Type 0 where
  pub no_slash : Lacks slash u.host
  pub no_closing : contains u.host colon ≡ true → Lacks closing u.host
  pub no_opening : contains u.host colon ≡ false → strip_prefix (opening ∷ []) u.host ≡ none
  pub port_u16 : u.port < u16_mod
  pub path_fits : PathFits u.transport u.path

plain_start :
    (host rest : Text)
    → strip_prefix (opening ∷ []) host ≡ none
    → strip_prefix (opening ∷ []) (host ++ colon ∷ rest) ≡ none
plain_start [] rest h = refl
plain_start (c ∷ host) rest h = ground (arith, h)

module _ (u : RelayUrl) (v : IsUrl u) where
  digits : Text
  digits = to_decimal 5 u.port

  digits-IsDigits : IsDigits digits
  unfolding digits
  digits-IsDigits = to_decimal-IsDigits 5 u.port

  port_back : at_port u.host (some digits) ≡ some (u.host, u.port)
  unfolding digits
  port_back =
      ap (λ (o : Option ℕ). elim o [ none ↦ none | some port ↦ some (u.host, port) ])
        (from_decimal-to_decimal u16_mod 4 u.port v.port_u16 (omega (arith, v.port_u16)))

  fmt_address_bracketed :
      contains u.host colon ≡ true → fmt_address u ≡ opening ∷ (u.host ++ closing ∷ colon ∷ digits)
  unfolding fmt_address digits
  fmt_address_bracketed e =
      ap
        (λ b.
          (if b then opening ∷ (u.host ++ closing ∷ []) else u.host) ++ colon ∷ to_decimal 5 u.port)
        e
      ∙ ap (◌∷◌ opening) (append_assoc u.host (closing ∷ []) (colon ∷ to_decimal 5 u.port))

  fmt_address_plain : contains u.host colon ≡ false → fmt_address u ≡ u.host ++ colon ∷ digits
  unfolding fmt_address digits
  fmt_address_plain e =
      ap
        (λ b.
          (if b then opening ∷ (u.host ++ closing ∷ []) else u.host) ++ colon ∷ to_decimal 5 u.port)
        e

  split_host_port-fmt_address : split_host_port (fmt_address u) ≡ some (u.host, u.port)
  unfolding split_host_port
  split_host_port-fmt_address = elim (Bool-cases (contains u.host colon)) [
    | inl bracketed ↦
        ap split_host_port (fmt_address_bracketed bracketed)
        ∙ rw
            (
              split_once-append closing u.host (colon ∷ digits) (v.no_closing bracketed),
              split_host_port,
            )
            port_back
    | inr plain ↦
        ap split_host_port (fmt_address_plain plain)
        ∙ rw
            (
              plain_start u.host digits (v.no_opening plain),
              rsplit_once-append colon u.host digits
                  (IsDigits→Lacks colon digits refl digits-IsDigits),
              split_host_port,
            )
            port_back
  ]

  fmt_host-Lacks : Lacks slash (fmt_host u)
  unfolding fmt_host
  fmt_host-Lacks = elim (Bool-cases (contains u.host colon)) [
    | inl bracketed ↦ rw bracketed (
      λ e. ground (arith, e),
      All-append (λ c. c ≢ slash) u.host (closing ∷ []) v.no_slash (λ e. ground (arith, e), tt),
    )
    | inr plain ↦ rw plain v.no_slash
  ]

  fmt_address-Lacks : Lacks slash (fmt_address u)
  unfolding fmt_address digits
  fmt_address-Lacks =
      All-append (λ c. c ≢ slash) (fmt_host u) (colon ∷ to_decimal 5 u.port) fmt_host-Lacks
        (λ e. ground (arith, e), IsDigits→Lacks slash digits refl digits-IsDigits)

-- The path that `push_url` prints.
abbrev pub printed_path : TransportId → Option Text → Option Text
printed_path ws none = some ws_push
printed_path ws (some p) = some p
printed_path _ _ = none

bare_path : (a : Text) → Lacks slash a → split_path (a ++ []) ≡ (a, none)
unfolding split_path
bare_path a h = ap split_path (append-nil a) ∙ ap (at_slash a) (split_once-Lacks slash a h)

split_path-push_path :
    (a : Text) (t : TransportId) (path : Option Text)
    → Lacks slash a
    → PathFits t path
    → split_path (a ++ push_path t path) ≡ (a, printed_path t path)
unfolding split_path push_path
split_path-push_path a ws none h f =
    ap (at_slash (a ++ ws_push))
      (split_once-append slash a (b'w' ∷ b's' ∷ slash ∷ b'p' ∷ b'u' ∷ b's' ∷ b'h' ∷ []) h)
split_path-push_path a ws (some []) h f = elim f [ ]
split_path-push_path a ws (some (c ∷ [])) h f = elim f [ ]
split_path-push_path a ws (some (c ∷ d ∷ p)) h f =
    rw f (ap (at_slash (a ++ slash ∷ d ∷ p)) (split_once-append slash a (d ∷ p) h))
split_path-push_path a srt none h f = bare_path a h
split_path-push_path a quic none h f = bare_path a h
split_path-push_path a srt (some p) h f = elim f [ ]
split_path-push_path a quic (some p) h f = elim f [ ]

scheme_of-scheme : (t : TransportId) (rest : Text) → scheme_of (scheme t ++ rest) ≡ some (t, rest)
unfolding scheme_of
scheme_of-scheme ws rest = refl
scheme_of-scheme srt rest = refl
scheme_of-scheme quic rest = refl

-- The push address of a well-formed relay address parses to that relay address, with `/ws/push` as the
-- path where a `ws` address has none.
pub parse-push_url :
    (u : RelayUrl)
    → IsUrl u
    → parse (push_url u) ≡ some (record u { path = printed_path u.transport u.path })
unfolding parse push_url
parse-push_url u v =
    ap at_scheme (scheme_of-scheme u.transport (fmt_address u ++ push_path u.transport u.path))
    ∙ ap (at_path u.transport) (
        split_path-push_path (fmt_address u) u.transport u.path (fmt_address-Lacks u v) v.path_fits)
    ∙ ap (at_host u.transport (printed_path u.transport u.path)) (split_host_port-fmt_address u v)

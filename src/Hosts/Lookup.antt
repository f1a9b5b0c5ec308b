-- ===== src/Hosts/Lookup.antt =====
-- Parser::Host::ipLookup (template_cpp/src/include/parser.hpp): the first IPv4 address of a host.
use localized_causal_broadca.Prelude.{
  ℕ, ◌≡◌, refl, sym, ap, ◌∙◌, append-nil, true, false, List, [], ◌∷◌, ◌++◌, All, some, err, ok,
  runtime_error,
}
use localized_causal_broadca.Decimal.{Bytes}
use localized_causal_broadca.Hosts.{AddrInfo, Resolver, first_inet, ip_lookup}

abbrev IsOther : AddrInfo → Type 0
IsOther a = a.is_inet ≡ false

module _ (r : Resolver) where
  -- Entries of other families are passed over.
  first_inet-others :
      (before rest : List AddrInfo)
      → All IsOther before
      → first_inet r (before ++ rest) ≡ first_inet r rest
  unfolding first_inet
  first_inet-others [] rest h = refl
  first_inet-others (a ∷ before) rest (other, h) = rw other (first_inet-others before rest h)

  -- Where inet_addr reads what inet_ntop writes, the look-up of a host gives the first of its
  -- addresses that is of IPv4.
  ip_lookup-first :
      (host : Bytes) (before after : List AddrInfo) (a : AddrInfo)
      → ((n : ℕ) → r.inet_addr (r.inet_ntop n) ≡ n)
      → r.getaddrinfo host ≡ some (before ++ a ∷ after)
      → All IsOther before
      → a.is_inet ≡ true
      → ip_lookup r host ≡ ok a.sin_addr
  unfolding ip_lookup first_inet
  ip_lookup-first host before after a inverse resolved others inet =
      rw (resolved, first_inet-others before (a ∷ after) others, inet) (ap ok (inverse a.sin_addr))

  -- A host without one is refused.
  ip_lookup-none :
      (host : Bytes) (all : List AddrInfo)
      → r.getaddrinfo host ≡ some all
      → All IsOther all
      → ip_lookup r host ≡ err runtime_error
  unfolding ip_lookup first_inet
  ip_lookup-none host all resolved others =
      rw resolved (ap (first_inet r) (sym (append-nil all)) ∙ first_inet-others all [] others)

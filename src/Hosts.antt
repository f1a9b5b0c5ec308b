-- ===== src/Hosts.antt =====
-- template_cpp/src/include/parser.hpp: the hosts file, and Parser::Host. The calls of inet_pton,
-- inet_addr, inet_ntop and getaddrinfo are parameters.
pub mod Lookup
pub mod Compact
pub mod RoundTrip
use localized_causal_broadca.Prelude.{
  ℕ, suc, ◌+◌, ◌*◌, ◌/◌, ◌%◌, ◌^◌, Bool, true, false, not, ◌&&◌, ◌||◌, List, [], ◌∷◌, ◌++◌, ◌==◌,
  ltb, leb, if◌then◌else◌, length, Option, none, some, word_size, Result, ok, err, invalid_argument,
  runtime_error, ◌>>=◌, ◌>>◌, require,
}
use localized_causal_broadca.Decimal.{Bytes, is_space, skip_spaces}
use localized_causal_broadca.Stream.{
  Stream, is_empty, open_stream, read_unsigned, read_string, lines,
}

-- an entry of the list that getaddrinfo gives: whether its family is AF_INET, and then its address
pub record AddrInfo : Type 0 where
  pub is_inet : Bool
  pub sin_addr : ℕ

-- The calls that resolve host names: whether inet_pton gives other than 0 for a text, the address
-- of a text in the network's byte order, the text of an address, and the addresses of a host,
-- `none` on an error.
pub record Resolver : Type 0 where
  pub inet_pton : Bytes → Bool
  pub inet_addr : Bytes → ℕ
  pub inet_ntop : ℕ → Bytes
  pub getaddrinfo : Bytes → Option (List AddrInfo)

-- the loop of `ipLookup`
unfoldable pub first_inet : Resolver → List AddrInfo → Result ℕ
first_inet r [] = err runtime_error
first_inet r (res ∷ rest) =
    if res.is_inet then ok (r.inet_addr (r.inet_ntop res.sin_addr)) else first_inet r rest

found : Resolver → Option (List AddrInfo) → Result ℕ
found r none = err runtime_error
found r (some res) = first_inet r res

unfoldable pub ip_lookup : Resolver → Bytes → Result ℕ
unfolding found
ip_lookup r host = found r (r.getaddrinfo host)

pub record Host : Type 0 where
  pub id : ℕ
  pub ip : ℕ
  pub port : ℕ

-- htons and ntohs, on a machine whose byte order is not the network's
abbrev pub htons : ℕ → ℕ
htons port = port % 256 * 256 + port / 256

abbrev pub port_readable : Host → ℕ
port_readable h = htons h.port

-- the constructor
unfoldable pub make_host : Resolver → ℕ → Bytes → ℕ → Result Host
make_host r id ip_or_hostname port = do
  ip ←
      if r.inet_pton ip_or_hostname
      then ok (r.inet_addr ip_or_hostname)
      else ip_lookup r ip_or_hostname
  ok (record { id = id; ip = ip; port = htons port })

-- ltrim, rtrim and trim
unfoldable pub ltrim : Bytes → Bytes
ltrim s = skip_spaces s

unfoldable pub rtrim : Bytes → Bytes
rtrim [] = []
rtrim (c ∷ s) = let rest = rtrim s in if is_empty rest && is_space c then [] else c ∷ rest

unfoldable pub trim : Bytes → Bytes
trim s = rtrim (ltrim s)

-- The three extractions `iss >> id >> ip >> port`, which see the line as it was before `trim`.
unfoldable pub read_host : Bytes → Stream × ℕ × Bytes × ℕ
read_host line =
    let (s1, id) = read_unsigned word_size (open_stream line) 0 in
    let (s2, ip) = read_string s1 [] in
    let (s3, port) = read_unsigned (2 ^ 16) s2 0 in (s3, id, ip, port)

-- a line that is not empty
unfoldable pub parse_line : Resolver → Bytes → Result Host
parse_line r line = do
  let (s, id, ip, port) = read_host line
  require (not s.fail) invalid_argument
  make_host r id ip port

-- the loop over the lines
unfoldable pub read_hosts : Resolver → List Bytes → Result (List Host)
read_hosts r [] = ok []
read_hosts r (line ∷ rest) =
    let others = read_hosts r rest in
    if is_empty (trim line)
    then others
    else (parse_line r line >>= λ h. others >>= λ hs. ok (h ∷ hs))

-- std::minmax_element by the ids
unfoldable pub min_id : ℕ → List Host → ℕ
min_id least [] = least
min_id least (h ∷ hs) = min_id (if ltb h.id least then h.id else least) hs

unfoldable pub max_id : ℕ → List Host → ℕ
max_id most [] = most
max_id most (h ∷ hs) = max_id (if ltb h.id most then most else h.id) hs

-- std::sort by the ids. Its order of hosts with one id is not specified; here they keep theirs.
unfoldable pub insert_host : Host → List Host → List Host
insert_host h [] = h ∷ []
insert_host h (g ∷ hs) = if leb h.id g.id then h ∷ g ∷ hs else g ∷ insert_host h hs

unfoldable pub sort_hosts : List Host → List Host
sort_hosts [] = []
sort_hosts (h ∷ hs) = insert_host h (sort_hosts hs)

-- the tests behind the loop, and the order that is returned
unfoldable pub check_hosts : List Host → Result (List Host)
check_hosts [] = err invalid_argument
check_hosts (h ∷ hs) = do
  require (not (ltb (length (h ∷ hs)) 2)) invalid_argument
  require (not (not (min_id h.id hs == 1) || not (max_id h.id hs == length (h ∷ hs))))
      invalid_argument
  ok (sort_hosts (h ∷ hs))

-- `hosts`, of the file's content; `none` is a file that cannot be opened.
unfoldable pub hosts : Resolver → Option Bytes → Result (List Host)
hosts r none = err invalid_argument
hosts r (some content) = read_hosts r (lines content) >>= check_hosts

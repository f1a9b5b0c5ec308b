-- ===== src/Hosts/RoundTrip.antt =====
-- What is read of a hosts file in the usual form: a line `ID ADDRESS PORT` for each host.
use localized_causal_broadca.Prelude.{
  ℕ, ◌^◌, ◌≡◌, refl, sym, true, false, List, [], ◌∷◌, ◌++◌, append-nil, arith, ◌==◌, word_size,
  length, ◌<◌, All, All-append, some, Result, ok, ◌>>=◌,
}
use localized_causal_broadca.Decimal.{Bytes, is_space, skip_spaces, to_string}
use localized_causal_broadca.Decimal.RoundTrip.{IsDigit, to_string-All, length-to_string}
use localized_causal_broadca.Stream.{is_empty, lines}
use localized_causal_broadca.Stream.Tokens.{
  IsToken, read_unsigned-to_string, read_string-token, lines-append, NoNewline, NoNewline-digits,
  skip_spaces-digit,
}
use localized_causal_broadca.Prelude.{if◌then◌else◌, err, >>=-eq-ok, ap, ◌∙◌}
use localized_causal_broadca.Hosts.{
  htons, port_readable, Resolver, Host, ip_lookup, make_host, ltrim, rtrim, trim, read_host,
  parse_line, read_hosts, check_hosts, hosts,
}

-- what a line says
pub record Entry : Type 0 where
  pub id : ℕ
  pub address : Bytes
  pub port : ℕ

pub record IsEntry (e : Entry) : Type 0 where
  pub id_fits : e.id < word_size
  pub token : IsToken e.address
  pub port_fits : e.port < 2 ^ 16

abbrev pub line_of : Entry → Bytes
line_of e = to_string e.id ++ (b' ' ∷ (e.address ++ (b' ' ∷ to_string e.port)))

abbrev pub file_of : List Entry → Bytes
file_of [] = []
file_of (e ∷ es) = line_of e ++ b'\n' ∷ file_of es

abbrev pub make_all : Resolver → List Entry → Result (List Host)
make_all r [] = ok []
make_all r (e ∷ es) = make_host r e.id e.address e.port >>= λ h. make_all r es >>= λ hs. ok (h ∷ hs)

NoNewline-token : (t : Bytes) → All (λ c. is_space c ≡ false) t → NoNewline t
NoNewline-token [] d = tt
NoNewline-token (c ∷ t) (d, h) = (ground arith, NoNewline-token t h)

line_of-NoNewline : (e : Entry) → IsEntry e → NoNewline (line_of e)
line_of-NoNewline e h =
    let last = NoNewline-digits (to_string e.port) (to_string-All e.port) in
    let middle =
      All-append (λ c. (c == b'\n') ≡ false) e.address (b' ' ∷ to_string e.port)
        (NoNewline-token e.address h.token.0) (refl, last) in
    All-append (λ c. (c == b'\n') ≡ false) (to_string e.id)
      (b' ' ∷ (e.address ++ (b' ' ∷ to_string e.port)))
      (NoNewline-digits (to_string e.id) (to_string-All e.id)) (refl, middle)

read_host-line_of :
    (e : Entry)
    → IsEntry e
    → read_host (line_of e)
      ≡ (record { rest = []; eof = true; fail = false }, e.id, e.address, e.port)
unfolding read_host skip_spaces
read_host-line_of e h =
    let port = b' ' ∷ to_string e.port in
    let port_end = b' ' ∷ (to_string e.port ++ []) in
    rw
      (
        read_unsigned-to_string word_size e.id 0 (line_of e) (b' ' ∷ (e.address ++ port)) refl
            h.id_fits refl,
        read_string-token e.address [] (b' ' ∷ (e.address ++ port)) port refl h.token refl,
      )
      (rw (sym (append-nil (to_string e.port)))
        (rw (read_unsigned-to_string (2 ^ 16) e.port 0 port_end [] refl h.port_fits tt) refl))

rtrim-digit :
    (ds rest : Bytes) → All IsDigit ds → 0 < length ds → is_empty (rtrim (ds ++ rest)) ≡ false
unfolding rtrim
rtrim-digit [] rest d h = absurd (omega arith)
rtrim-digit (c ∷ ds) rest (d, a) h = ground arith

is_empty-trim : (e : Entry) → is_empty (trim (line_of e)) ≡ false
unfolding trim ltrim
is_empty-trim e =
    let others = b' ' ∷ (e.address ++ (b' ' ∷ to_string e.port)) in
    let digits = to_string-All e.id in
    rw (skip_spaces-digit (to_string e.id) others digits (length-to_string e.id))
      (rtrim-digit (to_string e.id) others digits (length-to_string e.id))

parse_line-line_of :
    (r : Resolver) (e : Entry)
    → IsEntry e
    → parse_line r (line_of e) ≡ make_host r e.id e.address e.port
unfolding parse_line
parse_line-line_of r e h = rw (read_host-line_of e h) refl

read_hosts-file_of :
    (r : Resolver) (es : List Entry)
    → All IsEntry es
    → read_hosts r (lines (file_of es)) ≡ make_all r es
unfolding read_hosts
read_hosts-file_of r [] h = unfold lines in refl
read_hosts-file_of r (e ∷ es) (h, hs) =
    rw
      (
        lines-append (line_of e) (file_of es) (line_of-NoNewline e h),
        is_empty-trim e,
        parse_line-line_of r e h,
        read_hosts-file_of r es hs,
      )
      refl

-- A hosts file with a line `ID ADDRESS PORT` for each host, whose ids fit in an unsigned long and
-- whose ports in an unsigned short, is read as these hosts, with their addresses resolved; then the
-- ids are tested.
pub hosts-file_of :
    (r : Resolver) (es : List Entry)
    → All IsEntry es
    → hosts r (some (file_of es)) ≡ (make_all r es >>= check_hosts)
unfolding hosts
hosts-file_of r es h = rw (read_hosts-file_of r es h) refl

-- what is shown of a result, and 0 of an error
shown : Result Host → ℕ
shown (err fault) = 0
shown (ok h) = port_readable h

-- The port that a host shows is the one it was made with, where that fits in an unsigned short.
port_readable-make_host :
    (r : Resolver) (id port : ℕ) (address : Bytes) (h : Host)
    → port < 2 ^ 16
    → make_host r id address port ≡ ok h
    → port_readable h ≡ port
unfolding make_host shown
port_readable-make_host r id port address h small made =
    let (ip, found, same) =
      >>=-eq-ok (λ (ip : ℕ). ok (record { id = id; ip = ip; port = htons port })) h
        (if r.inet_pton address then ok (r.inet_addr address) else ip_lookup r address) made in
    let back : htons (htons port) ≡ port = omega arith in ap shown (sym same) ∙ back

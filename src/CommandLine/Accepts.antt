-- ===== src/CommandLine/Accepts.antt =====
-- Which command lines are accepted, and what the parser holds then.
use localized_causal_broadca.Prelude.{
  ℕ, ◌≤◌, ◌<◌, ◌≡◌, refl, ◌∙◌, ap, sym, subst, ◌↔◌, Bool, true, false, List, [], ◌∷◌, arith, ltb,
  if◌then◌else◌, length, get_or, word_size, All, some, ok, err, out_of_range,
}
use localized_causal_broadca.Decimal.{Bytes, stoul, number}
use localized_causal_broadca.Decimal.RoundTrip.{IsDigit}
use localized_causal_broadca.CommandLine.{
  Parser, create, same_string, all_digits, is_positive_number, id_option, hosts_option,
  output_option, parse_id, parse_host_path, parse_output_path, parse_config_path, parse_internal,
  parse, argc, arg, and_then,
}

same_string_iff : (a b : Bytes) → (same_string a b ≡ true) ↔ (a ≡ b)
unfolding same_string
same_string_iff [] [] = (λ _. refl, λ _. refl)
same_string_iff [] (d ∷ b) = (λ e. cc, λ e. cc)
same_string_iff (c ∷ a) [] = (λ e. cc, λ e. cc)
same_string_iff (c ∷ a) (d ∷ b) =
    (λ e. ground (arith, (same_string_iff a b).0), λ e. ground (arith, (same_string_iff a b).1))

-- a numeral of a size_t
abbrev pub IsNumeral : Bytes → ℕ → Type 0
IsNumeral s n = All IsDigit s × (0 < length s) × (number 0 s ≡ n) × (n < word_size)

all_digits_iff : (s : Bytes) → (all_digits s ≡ true) ↔ All IsDigit s
unfolding all_digits
all_digits_iff [] = (λ _. tt, λ _. refl)
all_digits_iff (c ∷ s) =
    (λ e. ground (arith, (all_digits_iff s).0), λ h. ground (arith, (all_digits_iff s).1 h.1))

-- std::stoul of digits, with what it does above the range
stoul-digits :
    (s : Bytes)
    → is_positive_number s ≡ true
    → stoul s ≡ (if ltb (number 0 s) word_size then ok (number 0 s) else err out_of_range)
unfolding is_positive_number stoul number
stoul-digits [] h = cc
stoul-digits (c ∷ s) h = ground (arith, all_digits_iff (c ∷ s))

is_positive_number_iff :
    (s : Bytes) → (is_positive_number s ≡ true) ↔ (All IsDigit s × (0 < length s))
unfolding is_positive_number
is_positive_number_iff [] = (λ e. cc, λ h. absurd (omega arith))
is_positive_number_iff (c ∷ s) =
    (λ e. ((all_digits_iff (c ∷ s)).0 e, omega arith), λ h. (all_digits_iff (c ∷ s)).1 h.0)

parse_id_done :
    (p q : Parser)
    → parse_id p ≡ (q, true)
    → (3 ≤ argc p)
      × (arg p 1 ≡ id_option)
      × IsNumeral (arg p 2) q.id_
      × (q ≡ record p { id_ = q.id_ })
unfolding parse_id
parse_id_done p q h =
    let is_id = (same_string_iff (arg p 1) id_option).0 in
    let digits = (is_positive_number_iff (arg p 2)).0 in
    let read = stoul-digits (arg p 2) in
    (
      ground arith,
      ground (arith, is_id),
      (ground (arith, digits), ground (arith, digits), ground (arith, read), ground (arith, read)),
      ground (arith, read),
    )

parse_id_does :
    (p : Parser) (n : ℕ)
    → 3 ≤ argc p
    → arg p 1 ≡ id_option
    → IsNumeral (arg p 2) n
    → parse_id p ≡ (record p { id_ = n }, true)
unfolding parse_id
parse_id_does p n enough option (digits, some_digit, value, small) =
    let named = (same_string_iff (arg p 1) id_option).1 option in
    let positive = (is_positive_number_iff (arg p 2)).1 (digits, some_digit) in
    ground (arith, named, positive, stoul-digits (arg p 2) positive, value, small)

parse_host_path_iff :
    (p q : Parser)
    → (parse_host_path p ≡ (q, true))
      ↔ ((5 ≤ argc p) × (arg p 3 ≡ hosts_option) × (q ≡ record p { hosts_path_ = arg p 4 }))
unfolding parse_host_path
parse_host_path_iff p q =
    let named = same_string_iff (arg p 3) hosts_option in
    (
      λ h. (ground arith, ground (arith, named.0), ground arith),
      λ h. ground (arith, named.1 h.1, h.0, h.2),
    )

parse_output_path_iff :
    (p q : Parser)
    → (parse_output_path p ≡ (q, true))
      ↔ ((7 ≤ argc p) × (arg p 5 ≡ output_option) × (q ≡ record p { output_path_ = arg p 6 }))
unfolding parse_output_path
parse_output_path_iff p q =
    let named = same_string_iff (arg p 5) output_option in
    (
      λ h. (ground arith, ground (arith, named.0), ground arith),
      λ h. ground (arith, named.1 h.1, h.0, h.2),
    )

parse_config_path_iff :
    (p q : Parser)
    → p.with_config ≡ true
    → (parse_config_path p ≡ (q, true)) ↔ ((8 ≤ argc p) × (q ≡ record p { config_path_ = arg p 7 }))
unfolding parse_config_path
parse_config_path_iff p q required =
    (λ h. (ground arith, ground arith), λ h. ground (arith, h.0, h.1))

-- The parts that a chain of `if (!…) return false;` went through.
and_then_done :
    (r : Parser × Bool) (next : Parser → Parser × Bool) (q : Parser)
    → and_then r next ≡ (q, true)
    → (p : Parser) × (r ≡ (p, true)) × (next p ≡ (q, true))
and_then_done (p, true) next q h = (p, refl, h)
and_then_done (p, false) next q h = cc

parse_done :
    (p q : Parser)
    → parse p ≡ some q
    → (r : Parser) × (parse_internal p ≡ (r, true)) × (q ≡ record r { parsed = true })
unfolding parse
parse_done p q h = ((parse_internal p).0, ground arith, ground arith)

-- The arguments have the form `PROGRAM --id ID --hosts HOSTS --output OUTPUT CONFIG …`, and the
-- parser holds what they say.
abbrev pub Accepted : List Bytes → Parser → Type 0
Accepted argv p =
    (8 ≤ length argv)
    × (get_or argv 1 [] ≡ id_option)
    × IsNumeral (get_or argv 2 []) p.id_
    × (get_or argv 3 [] ≡ hosts_option)
    × (get_or argv 5 [] ≡ output_option)
    × (p ≡ record {
      argv = argv;
      with_config = true;
      parsed = true;
      id_ = p.id_;
      hosts_path_ = get_or argv 4 [];
      output_path_ = get_or argv 6 [];
      config_path_ = get_or argv 7 [];
    })

accepts_parts :
    (argv : List Bytes) (x : ℕ) (p1 p2 p3 r p : Parser)
    → parse_id (create argv true x) ≡ (p1, true)
    → parse_host_path p1 ≡ (p2, true)
    → parse_output_path p2 ≡ (p3, true)
    → parse_config_path p3 ≡ (r, true)
    → p ≡ record r { parsed = true }
    → Accepted argv p
accepts_parts argv x p1 p2 p3 r p done1 done2 done3 done4 e =
    let (_, is_id, number, e1) = parse_id_done (create argv true x) p1 done1 in
    let a1 : p1.argv ≡ argv = ap (λ p. p.argv) e1 in
    let (_, is_hosts, e2) = (parse_host_path_iff p1 p2).0 done2 in
    let a2 : p2.argv ≡ argv = ap (λ p. p.argv) e2 ∙ a1 in
    let (_, is_output, e3) = (parse_output_path_iff p2 p3).0 done3 in
    let a3 : p3.argv ≡ argv = ap (λ p. p.argv) e3 ∙ a2 in
    let required : p3.with_config ≡ true =
      ap (λ p. p.with_config) e3 ∙ ap (λ p. p.with_config) e2 ∙ ap (λ p. p.with_config) e1 in
    let (enough, e4) = (parse_config_path_iff p3 r required).0 done4 in
    let id : p.id_ ≡ p1.id_ =
      ap (λ p. p.id_) e ∙ ap (λ p. p.id_) e4 ∙ ap (λ p. p.id_) e3 ∙ ap (λ p. p.id_) e2 in
    (
      rw (← a3) enough,
      is_id,
      subst (IsNumeral (get_or argv 2 [])) (sym id) number,
      rw (← a1) is_hosts,
      rw (← a2) is_output,
      ground (arith, e, e4, e3, e2, e1, a1, a2, a3),
    )

accepts_only :
    (argv : List Bytes) (x : ℕ) (p : Parser) → parse (create argv true x) ≡ some p → Accepted argv p
unfolding parse_internal
accepts_only argv x p h =
    let (r, done, e) = parse_done (create argv true x) p h in
    let (p1, done1, rest1) = and_then_done (parse_id (create argv true x)) _ r done in
    let (p2, done2, rest2) = and_then_done (parse_host_path p1) _ r rest1 in
    let (p3, done3, done4) = and_then_done (parse_output_path p2) _ r rest2 in
    accepts_parts argv x p1 p2 p3 r p done1 done2 done3 done4 e

accepts_all :
    (argv : List Bytes) (x : ℕ) (p : Parser) → Accepted argv p → parse (create argv true x) ≡ some p
unfolding parse parse_internal
accepts_all argv x p (enough, is_id, number, is_hosts, is_output, e) =
    let p1 = record (create argv true x) { id_ = p.id_ } in
    let p2 = record p1 { hosts_path_ = get_or argv 4 [] } in
    let p3 = record p2 { output_path_ = get_or argv 6 [] } in
    let r = record p3 { config_path_ = get_or argv 7 [] } in
    let done1 = parse_id_does (create argv true x) p.id_ (omega arith) is_id number in
    let done2 = (parse_host_path_iff p1 p2).1 (omega arith, is_hosts, refl) in
    let done3 = (parse_output_path_iff p2 p3).1 (omega arith, is_output, refl) in
    let done4 = (parse_config_path_iff p3 r refl).1 (enough, refl) in
    rw (done1, done2, done3, done4) (ap some (sym e))

-- With a configuration required, as the program does: `parse` returns exactly for the arguments
-- `PROGRAM --id ID --hosts HOSTS --output OUTPUT CONFIG …`, where ID is a row of digits that spells
-- a size_t, and then holds what they say; for all others it ends the program. More arguments
-- behind these do not matter.
pub parse-iff-Accepted :
    (argv : List Bytes) (x : ℕ) (p : Parser)
    → (parse (create argv true x) ≡ some p) ↔ Accepted argv p
parse-iff-Accepted argv x p = (accepts_only argv x p, accepts_all argv x p)

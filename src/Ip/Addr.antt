-- ===== src/Ip/Addr.antt =====
-- `ip_addr_to_bytes` and `ip_addr_to_str` of src/protocols/ip/mod.rs. A text is the list of its
-- bytes. `split`, `parse_u8` and `to_string` are the standard library's `str::split`,
-- `str::parse::<u8>` and `u32::to_string`.
pub mod RoundTrip
use rust_user_net.Base.{
  ℕ, zero, suc, ◌+◌, ◌-◌, ◌*◌, ◌/◌, ◌%◌, ◌^◌, bit_and, bit_or, List, [], ◌∷◌, ◌++◌, ◌&&◌, Option,
  none, some, Run, done, ◌>>=◌, unwrap, ltb, leb, ◌==◌, if◌then◌else◌,
}

grow : ℕ → List (List ℕ) → List (List ℕ)
grow c [] = (c ∷ []) ∷ []
grow c (part ∷ parts) = (c ∷ part) ∷ parts

-- One part more than there are separators.
split : ℕ → List ℕ → List (List ℕ)
unfolding grow
split sep [] = [] ∷ []
split sep (c ∷ text) = let rest = split sep text in if c == sep then [] ∷ rest else grow c rest

parse_digits : ℕ → List ℕ → Option ℕ
parse_digits acc [] = some acc
parse_digits acc (c ∷ text) =
    let acc' = acc * 10 + (c - 48) in
    let rest = parse_digits acc' text in if leb 48 c && leb c 57 && leb acc' 255 then rest else none

-- A leading `+` is taken; `none` is an error.
parse_u8 : List ℕ → Option ℕ
unfolding parse_digits
parse_u8 [] = none
parse_u8 (c ∷ []) = parse_digits 0 (c ∷ [])
parse_u8 (c ∷ d ∷ text) =
    if c == 43 then parse_digits 0 (d ∷ text) else parse_digits 0 (c ∷ d ∷ text)

-- Decimal digits, on fuel; the number itself is enough.
decimal : ℕ → ℕ → List ℕ
decimal zero n = (48 + n) ∷ []
decimal (suc fuel) n =
    let rest = decimal fuel (n / 10) in
    if ltb n 10 then (48 + n) ∷ [] else rest ++ (48 + n % 10) ∷ []

to_string : ℕ → List ℕ
unfolding decimal
to_string n = decimal n n

-- The loop over `i in 0..4`, with the rounds that are left.
parse_parts : ℕ → ℕ → List (List ℕ) → ℕ → Run (Option ℕ)
parse_parts zero i parts res = done (some res)
parse_parts (suc left) i [] res = done none
parse_parts (suc left) i (part ∷ parts) res = do
  b ← unwrap (parse_u8 part)
  parse_parts left (i + 1) parts (bit_or res (b * 2 ^ (8 * i) % 2 ^ 32))

-- Text to address; the first part is the lowest byte.
unfoldable pub ip_addr_to_bytes : List ℕ → Run (Option ℕ)
unfolding split parse_u8 parse_parts
ip_addr_to_bytes addr = parse_parts 4 0 (split 46 addr) 0

-- `parts.join(".")`.
join : List (List ℕ) → List ℕ
join [] = []
join (part ∷ []) = part
join (part ∷ next ∷ parts) = part ++ 46 ∷ join (next ∷ parts)

-- The loop over `i in 0..4`, with the rounds that are left.
print_parts : ℕ → ℕ → ℕ → List (List ℕ)
print_parts zero i addr = []
print_parts (suc left) i addr =
    to_string (bit_and (addr / 2 ^ (8 * i)) 255) ∷ print_parts left (i + 1) addr

unfoldable pub ip_addr_to_str : ℕ → List ℕ
unfolding to_string print_parts join
ip_addr_to_str addr = join (print_parts 4 0 addr)

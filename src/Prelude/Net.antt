-- ===== src/Prelude/Net.antt =====
-- `std::net::IpAddr`: addresses, their parser and their print, as the standard library has them.
use Prim.Native.Nat.{ℕ, zero, suc, ◌+◌, ◌-◌, ◌*◌, ◌/◌, ◌%◌, ◌<◌, ◌^◌}
use mathlib.Core.Bool.{Bool, true, false, not, ◌&&◌, ◌||◌}
use mathlib.Core.Option.{Option, none, some}
use mathlib.Core.List.{List, [], ◌∷◌, ◌++◌}
use mathlib.Core.Path.{◌≡◌}
use native.Mathlib.Omega.{arith}
use nc_server_rs.Prelude.Tests.{ltb, leb, ◌==◌, if◌then◌else◌, ◌>>=◌, >>=-eq-some, Option-cases}
use mathlib.Core.Logic.{inl, inr, ◌≢◌}
use nc_server_rs.Prelude.Lists.{length, take, drop, all}
use nc_server_rs.Prelude.Text.{Text, codes, is_digit}
use nc_server_rs.Prelude.Decimal.{decimal}

-- The 32 bits of a v4 address, and the groups of 16 bits of a v6 address.
pub data IpAddr : Type 0 where
  v4 : ℕ → IpAddr
  v6 : List ℕ → IpAddr

abbrev pub value_of : List ℕ → ℕ → ℕ → ℕ
value_of [] base acc = acc
value_of (g ∷ gs) base acc = value_of gs base (acc * base + g)

-- The number whose digits in base 2^16 are the groups.
abbrev pub bits_v6 : List ℕ → ℕ
bits_v6 groups = value_of groups 65_536 0

abbrev hex_digit : ℕ → Option ℕ
hex_digit c =
    if is_digit c
    then some (c - b'0')
    else if leb b'a' c && leb c b'f'
    then some (c - b'a' + 10)
    else if leb b'A' c && leb c b'F'
    then some (c - b'A' + 10)
    else none

abbrev decimal_digit : ℕ → Option ℕ
decimal_digit c = if is_digit c then some (c - b'0') else none

-- The digits at the front, how many they are, and what follows.
read_digits : (ℕ → Option ℕ) → ℕ → ℕ → ℕ → Text → ℕ × ℕ × Text
read_digits digit radix count value [] = (count, value, [])
read_digits digit radix count value (c ∷ s) = elim (digit c) [
  | none ↦ (count, value, c ∷ s)
  | some d ↦ read_digits digit radix (suc count) (value * radix + d) s
]

-- An octet's digits: at most three digits, no leading zero, below 256.
read_octet : ℕ × ℕ × Text → Option (ℕ × Text)
read_octet (count, value, rest) =
    if count == 0 || ltb 3 count || ltb 255 value
    then none
    else if ltb 1 count && not (leb 10 value && (count == 2 || leb 100 value))
    then none
    else some (value, rest)

octet : Text → Option (ℕ × Text)
unfolding read_digits read_octet
octet s = read_octet (read_digits decimal_digit 10 0 0 s)

-- One group: at most four hexadecimal digits.
group : Text → Option (ℕ × Text)
unfolding read_digits
group s =
    let (count, value, rest) = read_digits hex_digit 16 0 0 s in
    if count == 0 || ltb 4 count then none else some (value, rest)

abbrev separated : ℕ → ℕ → Text → Option Text
separated sep zero s = some s
separated sep (suc index) [] = none
separated sep (suc index) (c ∷ s) = if c == sep then some s else none

read_v4 : Text → Option (ℕ × Text)
unfolding octet
read_v4 s = octet s >>= λ a. separated b'.' 1 a.1 >>= λ s1. octet s1 >>= λ b.
    separated b'.' 1 b.1 >>= λ s2. octet s2 >>= λ c. separated b'.' 1 c.1 >>= λ s3.
    octet s3 >>= λ d. some (((a.0 * 256 + b.0) * 256 + c.0) * 256 + d.0, d.1)

-- Up to `left` groups from the `index`th on; an embedded v4 address ends them and counts for two.
read_groups : ℕ → ℕ → Text → List ℕ × Bool × Text
unfolding read_v4 group
read_groups index zero s = ([], false, s)
read_groups index (suc left) s =
    let embedded = if leb 1 left then (separated b':' index s >>= λ t. read_v4 t) else none in
    elim embedded [
      | some (addr, rest) ↦ ((addr / 65_536) ∷ (addr % 65_536) ∷ [], true, rest)
      | none ↦ elim (separated b':' index s >>= λ t. group t) [
        | none ↦ ([], false, s)
        | some (g, rest) ↦
            let (gs, v4_tail, final) = read_groups (suc index) left rest in (g ∷ gs, v4_tail, final)
      ]
    ]

abbrev zero_groups : ℕ → List ℕ
zero_groups zero = []
zero_groups (suc n) = 0 ∷ zero_groups n

abbrev two_colons : Text → Option Text
two_colons [] = none
two_colons (c ∷ []) = none
two_colons (c ∷ d ∷ s) = if c == b':' && d == b':' then some s else none

read_v6 : Text → Option (List ℕ × Text)
unfolding read_groups
read_v6 s =
    let (head, head_v4, rest) = read_groups 0 8 s in
    if length head == 8
    then some (head, rest)
    else if head_v4
    then none
    else (two_colons rest >>= λ t.
        let (tail, _, final) = read_groups 0 (7 - length head) t in
        some (head ++ (zero_groups (8 - length head - length tail) ++ tail), final))

abbrev complete {ℓ} : {A : Type ℓ} → A × Text → Option A
complete (a, []) = some a
complete (a, c ∷ s) = none

-- `str::parse::<IpAddr>()`.
unfoldable pub parse_ip : Text → Option IpAddr
unfolding read_v4 read_v6
parse_ip s = elim (read_v4 s) [
  | some found ↦ (complete found >>= λ addr. some (v4 addr))
  | none ↦ (read_v6 s >>= λ found. complete found >>= λ groups. some (v6 groups))
]

read_octet_fits : (digits : ℕ × ℕ × Text) (o : ℕ × Text) → read_octet digits ≡ some o → o.0 < 256
unfolding read_octet
read_octet_fits (count, value, rest) o e = ground arith

octet_fits : (s : Text) (o : ℕ × Text) → octet s ≡ some o → o.0 < 256
unfolding octet
octet_fits s o e = read_octet_fits (read_digits decimal_digit 10 0 0 s) o e

read_v4_fits : (s : Text) (found : ℕ × Text) → read_v4 s ≡ some found → found.0 < 2 ^ 32
unfolding read_v4
read_v4_fits s found e =
    let (a, ea, e1) = >>=-eq-some (octet s) _ e in
    let (s1, _, e2) = >>=-eq-some (separated b'.' 1 a.1) _ e1 in
    let (b, eb, e3) = >>=-eq-some (octet s1) _ e2 in
    let (s2, _, e4) = >>=-eq-some (separated b'.' 1 b.1) _ e3 in
    let (c, ec, e5) = >>=-eq-some (octet s2) _ e4 in
    let (s3, _, e6) = >>=-eq-some (separated b'.' 1 c.1) _ e5 in
    let (d, ed, e7) = >>=-eq-some (octet s3) _ e6 in
    ground (arith, octet_fits s a, octet_fits s1 b, octet_fits s2 c, octet_fits s3 d)

found_v4 :
    (found : ℕ × Text) (addr : ℕ)
    → (complete found >>= λ a. some (v4 a)) ≡ some (v4 addr)
    → found.0 ≡ addr
found_v4 (a, []) addr e = ground arith
found_v4 (a, c ∷ s) addr e = absurd (cc)

found_v6 :
    (found : Option (List ℕ × Text)) (addr : ℕ)
    → (found >>= λ f. complete f >>= λ groups. some (v6 groups)) ≢ some (v4 addr)
found_v6 none addr e = absurd (cc)
found_v6 (some (a, [])) addr e = ground arith
found_v6 (some (a, c ∷ s)) addr e = absurd (cc)

-- A v4 address is 32 bits wide.
pub parse_ip-v4_fits : (s : Text) {addr : ℕ} → parse_ip s ≡ some (v4 addr) → addr < 2 ^ 32
unfolding parse_ip
parse_ip-v4_fits s {addr} e = elim (Option-cases (read_v4 s)) [
  | inl other ↦ absurd (found_v6 (read_v6 s) addr (rw (other, parse_ip) at e))
  | inr (found, e1) ↦
      let whole = found_v4 found addr (rw (e1, parse_ip) at e) in
      let fits = read_v4_fits s found e1 in omega (arith, whole, fits)
]

unfoldable pub octets : ℕ → List ℕ
octets addr = (addr / 16_777_216) ∷ (addr / 65_536 % 256) ∷ (addr / 256 % 256) ∷ (addr % 256) ∷ []

abbrev joined : ℕ → (ℕ → Text) → List ℕ → Text
joined sep print [] = []
joined sep print (n ∷ []) = print n
joined sep print (n ∷ m ∷ ns) = print n ++ sep ∷ joined sep print (m ∷ ns)

hex_char : ℕ → ℕ
hex_char d = if ltb d 10 then b'0' + d else b'a' + (d - 10)

-- A group of 16 bits in hexadecimal, with no leading zero.
unfoldable pub hex_group : ℕ → Text
unfolding hex_char
hex_group g =
    if ltb g 16
    then hex_char g ∷ []
    else if ltb g 256
    then hex_char (g / 16) ∷ hex_char (g % 16) ∷ []
    else if ltb g 4096
    then hex_char (g / 256) ∷ hex_char (g / 16 % 16) ∷ hex_char (g % 16) ∷ []
    else hex_char (g / 4096)
      ∷ hex_char (g / 256 % 16)
      ∷ hex_char (g / 16 % 16)
      ∷ hex_char (g % 16)
      ∷ []

-- The first longest run of zero groups: its start and its length. `start` and `run` are the run
-- that ends at `index`.
longest_zeros : List ℕ → ℕ → ℕ → ℕ × ℕ → ℕ × ℕ
longest_zeros [] index run best = best
longest_zeros (g ∷ gs) index run best =
    if g == 0
    then longest_zeros gs (suc index) (suc run)
        (if ltb best.1 (suc run) then (index - run, suc run) else best)
    else longest_zeros gs (suc index) 0 best

print_v4 : ℕ → Text
unfolding octets
print_v4 addr = joined b'.' decimal (octets addr)

print_v6 : List ℕ → Text
unfolding longest_zeros print_v4 hex_group
print_v6 groups =
    if all (λ g. g == 0) (take 5 groups) && all (λ g. g == 65_535) (take 1 (drop 5 groups))
    then codes "::ffff:" ++ print_v4 (bits_v6 (drop 6 groups))
    else (let (start, run) = longest_zeros groups 0 0 (0, 0) in
        if ltb 1 run
        then joined b':' hex_group (take start groups)
          ++ (codes "::" ++ joined b':' hex_group (drop (start + run) groups))
        else joined b':' hex_group groups)

-- `IpAddr::to_string`.
unfoldable pub print_ip : IpAddr → Text
unfolding print_v4 print_v6
print_ip (v4 addr) = print_v4 addr
print_ip (v6 groups) = print_v6 groups

abbrev pub is_v4 : IpAddr → Bool
is_v4 (v4 addr) = true
is_v4 (v6 groups) = false

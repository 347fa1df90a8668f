-- ===== src/Server/ClientIdentity/Cidr.antt =====
-- core-rs/crates/nc-server/src/client_identity.rs: which addresses an entry of the trusted proxies
-- covers.
use nc_server_rs.Prelude.{
  ℕ, zero, suc, ◌+◌, ◌-◌, ◌*◌, ◌/◌, ◌^◌, ◌≤◌, ◌<◌, ◌≡◌, sym, ◌∙◌, ap, ◌↔◌, Bool, true, false,
  Option, none, some, arith, >>=-eq-some, ltb, if◌then◌else◌, ◌==◌,
}
use Prim.Native.Nat.{bit_and}
use native.Mathlib.Nat.{div-eq_of_lt, eq_of_mul-eq-mul_right}
use nc_server_rs.Prelude.Masks.{mask, bit_and-mask, bit_and-high, pow_positive}
use nc_server_rs.Prelude.Net.{IpAddr, v4, v6, parse_ip, parse_ip-v4_fits}
use nc_server_rs.Prelude.Text.{Text}
use nc_server_rs.Server.ClientIdentity.{masked_eq, match_prefix, entry_parts, cidr_matches}

same_test : (x y z u : ℕ) → x ≡ z → y ≡ u → ((x == y) ≡ true) ↔ (z ≡ u)
same_test x y z u e f = ground arith

-- No mask at all.
unmasked :
    (k a b : ℕ)
    → a < 2 ^ k
    → b < 2 ^ k
    → ((bit_and a 0 == bit_and b 0) ≡ true) ↔ (a / 2 ^ k ≡ b / 2 ^ k)
unmasked k a b ha hb =
    let cleared_a = bit_and-high k 0 a (omega arith) in
    let cleared_b = bit_and-high k 0 b (omega arith) in
    let zero_a = div-eq_of_lt ha in
    let zero_b = div-eq_of_lt hb in
    let to : (a / 2 ^ k ≡ b / 2 ^ k) = zero_a ∙ sym zero_b in ground arith

-- Under the mask of n ones above k zeros, equal means equal above the low k bits.
masked_high :
    (n k a b : ℕ)
    → a < 2 ^ (n + k)
    → b < 2 ^ (n + k)
    → ((bit_and a (mask (n + k) k) == bit_and b (mask (n + k) k)) ≡ true) ↔ (a / 2 ^ k ≡ b / 2 ^ k)
masked_high n k a b ha hb =
    let (to, from) = same_test _ _ _ _ (bit_and-mask n k a ha) (bit_and-mask n k b hb) in
    (
      λ h. eq_of_mul-eq-mul_right (2 ^ k) (pow_positive k) (a / 2 ^ k) (b / 2 ^ k) (to h),
      λ h. from (ap (λ (t : ℕ). t * 2 ^ k) h),
    )

masked_eq_iff :
    (n k a b : ℕ)
    → a < 2 ^ (n + k)
    → b < 2 ^ (n + k)
    → (masked_eq (n + k) n a b ≡ true) ↔ (a / 2 ^ k ≡ b / 2 ^ k)
unfolding masked_eq
masked_eq_iff zero k a b ha hb =
    let plain : 0 + k ≡ k = omega arith in unmasked k a b (rw plain at ha) (rw plain at hb)
masked_eq_iff (suc n) k a b ha hb =
    let rest : suc n + k - suc n ≡ k = omega arith in
    let some_bits : (suc n == 0) ≡ false = ground arith in
    rw (some_bits, rest) (masked_high (suc n) k a b ha hb)

abbrev prefix_length : Option ℕ → ℕ
prefix_length bits = elim bits [ some b ↦ b | none ↦ 32 ]

-- Why an entry covers a v4 address: it reads as a v4 network with a prefix of at most 32 bits, and
-- the address lies in it.
pub record Covers (entry : Text) (ip : ℕ) : Type 0 where
  pub address : Text
  pub bits : Option ℕ
  pub network : ℕ
  pub parts : entry_parts entry ≡ some (address, bits)
  pub reads : parse_ip address ≡ some (v4 network)
  pub short : prefix_length bits ≤ 32
  pub agree : network / 2 ^ (32 - prefix_length bits) ≡ ip / 2 ^ (32 - prefix_length bits)

short_masks :
    (n net ip : ℕ)
    → n ≤ 32
    → net < 2 ^ 32
    → ip < 2 ^ 32
    → (masked_eq 32 n net ip ≡ true) ↔ (net / 2 ^ (32 - n) ≡ ip / 2 ^ (32 - n))
short_masks n net ip h hn hi =
    let whole : n + (32 - n) ≡ 32 = omega arith in
    let net_fits : net < 2 ^ (n + (32 - n)) = rw whole hn in
    let ip_fits : ip < 2 ^ (n + (32 - n)) = rw whole hi in
    let iff = masked_eq_iff n (32 - n) net ip net_fits ip_fits in rw whole at iff

length_test :
    (n : ℕ) (m : Bool) → ((if ltb 32 n then none else some m) ≡ some true) ↔ ((n ≤ 32) × (m ≡ true))
length_test n m = ground arith

match_v4 :
    (bits : Option ℕ) (net ip : ℕ)
    → net < 2 ^ 32
    → ip < 2 ^ 32
    → (match_prefix bits (v4 net) (v4 ip) ≡ some true) ↔ (
        (prefix_length bits ≤ 32)
        × (net / 2 ^ (32 - prefix_length bits) ≡ ip / 2 ^ (32 - prefix_length bits)))
unfolding match_prefix
match_v4 bits net ip hn hi =
    let n = prefix_length bits in
    let (to, from) = length_test n (masked_eq 32 n net ip) in
    (
      λ e. let (short, agree) = to e in (short, (short_masks n net ip short hn hi).0 agree),
      λ h. from (h.0, (short_masks n net ip h.0 hn hi).1 h.1),
    )

match-Covers :
    (entry address : Text) (bits : Option ℕ) (parsed : IpAddr) (ip : ℕ)
    → ip < 2 ^ 32
    → entry_parts entry ≡ some (address, bits)
    → parse_ip address ≡ some parsed
    → match_prefix bits parsed (v4 ip) ≡ some true
    → Covers entry ip
unfolding match_prefix
match-Covers entry address bits (v6 groups) ip h parts reads e = absurd (cc)
match-Covers entry address bits (v4 net) ip h parts reads e =
    let (short, agree) = (match_v4 bits net ip (parse_ip-v4_fits address reads) h).0 e in
    record {
      address = address;
      bits = bits;
      network = net;
      parts = parts;
      reads = reads;
      short = short;
      agree = agree;
    }

-- An entry of the trusted proxies matches a v4 address exactly when it reads as a v4 network, with
-- a prefix of at most 32 bits (32 where it names none), and network and address agree above the
-- other bits. An entry that is malformed, or a v6 network, matches no v4 address.
pub cidr_matches-Covers :
    (entry : Text) (ip : ℕ)
    → ip < 2 ^ 32
    → (cidr_matches entry (v4 ip) ≡ some true) ↔ Covers entry ip
unfolding cidr_matches
cidr_matches-Covers entry ip h = (
  λ e.
      let ((address, bits), parts, e1) = >>=-eq-some (entry_parts entry) _ e in
      let (parsed, reads, e2) = >>=-eq-some (parse_ip address) _ e1 in
      match-Covers entry address bits parsed ip h parts reads e2,
  λ c.
      let fits = parse_ip-v4_fits c.address c.reads in
      rw (c.parts, c.reads) ((match_v4 c.bits c.network ip fits h).1 (c.short, c.agree)),
)

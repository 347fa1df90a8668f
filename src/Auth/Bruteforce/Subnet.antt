-- ===== src/Auth/Bruteforce/Subnet.antt =====
-- core-rs/crates/nc-auth/src/bruteforce.rs: which v4 addresses share their attempts.
use nc_server_rs.Prelude.{ℕ, ◌/◌, ◌%◌, ◌≡◌, refl, sym, ◌∙◌, ap, ◌↔◌, Option, some, ◌∷◌, ◌++◌, arith}
use nc_server_rs.Prelude.Decimal.{
  decimal, decimal-IsDigits, value_from, value_from-decimal, digits-lack,
}
use nc_server_rs.Prelude.Net.{v4, parse_ip, octets}
use nc_server_rs.Prelude.Text.{Text, codes, split_once}
use nc_server_rs.Prelude.Splits.{split_once-append}
use nc_server_rs.Auth.Bruteforce.{ip_to_subnet}

decimal_injective : (m n : ℕ) → decimal m ≡ decimal n → m ≡ n
decimal_injective m n e =
    sym (value_from-decimal m) ∙ ap (λ s. value_from 0 s) e ∙ value_from-decimal n

dotted : ℕ → Text → Text
dotted n rest = decimal n ++ (b'.' ∷ rest)

dotted_split : (n : ℕ) (rest : Text) → split_once b'.' (dotted n rest) ≡ some (decimal n, rest)
unfolding dotted
dotted_split n rest =
    split_once-append b'.' (decimal n) rest
      (digits-lack b'.' (decimal n) (ground arith) (decimal-IsDigits n))

some_pair :
    (a b c d : Text)
    → ◌≡◌ {A = Option (Text × Text)} (some (a, b)) (some (c, d))
    → (a ≡ c) × (b ≡ d)
some_pair a b c d e = (cc, cc)

dotted_injective : (m n : ℕ) (s t : Text) → dotted m s ≡ dotted n t → (m ≡ n) × (s ≡ t)
dotted_injective m n s t e =
    let (same, rest) =
      some_pair (decimal m) s (decimal n) t
        (sym (dotted_split m s) ∙ ap (λ u. split_once b'.' u) e ∙ dotted_split n t) in
    (decimal_injective m n same, rest)

subnet_of : ℕ → Text
unfolding dotted
subnet_of addr =
    dotted (addr / 16_777_216)
      (dotted (addr / 65_536 % 256) (dotted (addr / 256 % 256) (codes "0/24")))

v4_subnet : (ip : Text) (addr : ℕ) → parse_ip ip ≡ some (v4 addr) → ip_to_subnet ip ≡ subnet_of addr
unfolding ip_to_subnet octets subnet_of dotted
v4_subnet ip addr e = rw (e, ip_to_subnet) refl

same_subnet : (a b : ℕ) → a / 256 ≡ b / 256 → subnet_of a ≡ subnet_of b
same_subnet a b e =
    let first : a / 16_777_216 ≡ b / 16_777_216 = omega arith in
    let second : a / 65_536 % 256 ≡ b / 65_536 % 256 = omega arith in
    let third : a / 256 % 256 ≡ b / 256 % 256 = omega arith in
    unfold subnet_of in rw (first, second, third) refl

-- Two v4 addresses have one subnet exactly when they agree in their first three octets.
ip_to_subnet_iff :
    (ip other : Text) (a b : ℕ)
    → parse_ip ip ≡ some (v4 a)
    → parse_ip other ≡ some (v4 b)
    → (ip_to_subnet ip ≡ ip_to_subnet other) ↔ (a / 256 ≡ b / 256)
unfolding subnet_of
ip_to_subnet_iff ip other a b ea eb =
    let sa = v4_subnet ip a ea in
    let sb = v4_subnet other b eb in
    (
      λ e.
          let (first, e1) =
            dotted_injective (a / 16_777_216) (b / 16_777_216) _ _ (sym sa ∙ e ∙ sb) in
          let (second, e2) = dotted_injective (a / 65_536 % 256) (b / 65_536 % 256) _ _ e1 in
          let (third, e3) = dotted_injective (a / 256 % 256) (b / 256 % 256) _ _ e2 in omega arith,
      λ e. sa ∙ same_subnet a b e ∙ sym sb,
    )

-- ===== src/Server/ClientIdentity/Remote.antt =====
-- core-rs/crates/nc-server/src/client_identity.rs: which address counts as the client's.
use nc_server_rs.Prelude.{
  ◌≡◌, refl, ap, sym, ◌∙◌, ◌>>=◌, append_assoc, ◌⊎◌, true, false, Option, none, some, subst, List,
  [], ◌∷◌, ◌++◌, arith, All, Option-cases, Bool-cases, inl, inr,
}
use mathlib.Core.List.{
  reverse, reverse_aux, reverse-reverse, reverse-append, reverse-cons, append-nil,
}
use nc_server_rs.Prelude.Net.{IpAddr, parse_ip}
use nc_server_rs.Prelude.Text.{Text, split}
use nc_server_rs.Server.ClientIdentity.{
  Config, Headers, is_trusted_proxy, candidate_of, first_untrusted, header_entries, walk_headers,
  forwarded_header_wire_name, header_value, forwarded_headers, remote_address,
}

-- The entries of one forwarding header, as they are written.
abbrev pub written_in : Headers → Text → List Text
written_in headers param =
    elim (forwarded_header_wire_name param >>= λ wire. header_value headers wire) [
      | none ↦ []
      | some value ↦ split b',' value
    ]

abbrev pub entries_of : Headers → List Text → List Text
entries_of headers [] = []
entries_of headers (param ∷ params) = written_in headers param ++ entries_of headers params

-- Every entry of the forwarding headers: the headers as they are configured, each as it is
-- written.
abbrev pub chain : Headers → Config → List Text
chain headers cfg = entries_of headers (forwarded_headers cfg)

All-reverse_aux :
    (P : Text → Type 0) (xs ys : List Text) → All P xs → All P ys → All P (reverse_aux xs ys)
All-reverse_aux P [] ys h k = k
All-reverse_aux P (x ∷ xs) ys (p, h) k = All-reverse_aux P xs (x ∷ ys) h (p, k)

All-of_reverse : (P : Text → Type 0) (xs : List Text) → All P (reverse xs) → All P xs
All-of_reverse P xs h = subst (All P) (reverse-reverse xs) (All-reverse_aux P (reverse xs) [] h tt)

module _ (cfg : Config) where
  -- An entry that the walk passes over: no address, or a trusted proxy's.
  abbrev pub Skipped : Text → Type 0
  Skipped raw =
      (parse_ip (candidate_of raw) ≡ none)
      ⊎ ((ip : IpAddr) × (parse_ip (candidate_of raw) ≡ some ip) × (is_trusted_proxy cfg ip ≡ true))

  -- An address is the last in the chain that is not passed over.
  pub record Chosen (entries : List Text) (ip : IpAddr) : Type 0 where
    pub earlier : List Text
    pub raw : Text
    pub later : List Text
    pub order : entries ≡ earlier ++ raw ∷ later
    pub passed : All Skipped later
    pub reads : parse_ip (candidate_of raw) ≡ some ip
    pub untrusted : is_trusted_proxy cfg ip ≡ false

  -- The same of the order of the walk.
  record First (entries : List Text) (ip : IpAddr) : Type 0 where
    skipped : List Text
    raw : Text
    rest : List Text
    order : entries ≡ skipped ++ raw ∷ rest
    passed : All Skipped skipped
    reads : parse_ip (candidate_of raw) ≡ some ip
    untrusted : is_trusted_proxy cfg ip ≡ false

  First-Chosen :
      (entries : List Text) (ip : IpAddr) → First (reverse entries) ip → Chosen entries ip
  First-Chosen entries ip f =
      let turned : entries ≡ reverse (f.skipped ++ f.raw ∷ f.rest) =
        sym (reverse-reverse entries) ∙ ap reverse f.order in
      record {
        earlier = reverse f.rest;
        raw = f.raw;
        later = reverse f.skipped;
        order =
            turned
            ∙ reverse-append f.skipped (f.raw ∷ f.rest)
            ∙ ap (λ s. s ++ reverse f.skipped) (reverse-cons f.raw f.rest)
            ∙ append_assoc (reverse f.rest) (f.raw ∷ []) (reverse f.skipped);
        passed = All-reverse_aux Skipped f.skipped [] f.passed tt;
        reads = f.reads;
        untrusted = f.untrusted;
      }

  First-later :
      (raw : Text) {entries : List Text} {ip : IpAddr}
      → Skipped raw
      → First entries ip
      → First (raw ∷ entries) ip
  First-later raw s c = record {
    skipped = raw ∷ c.skipped;
    raw = c.raw;
    rest = c.rest;
    order = ap (λ t. raw ∷ t) c.order;
    passed = (s, c.passed);
    reads = c.reads;
    untrusted = c.untrusted;
  }

  first_untrusted-First :
      (entries : List Text) (ip : IpAddr) → first_untrusted cfg entries ≡ some ip → First entries ip
  unfolding first_untrusted
  first_untrusted-First [] ip e = absurd (cc)
  first_untrusted-First (raw ∷ raws) ip e = elim (Option-cases (parse_ip (candidate_of raw))) [
    | inl bad ↦ First-later raw (inl bad) (first_untrusted-First raws ip (ground arith))
    | inr (a, good) ↦ elim (Bool-cases (is_trusted_proxy cfg a)) [
      | inl proxy ↦
          First-later raw (inr (a, good, proxy)) (first_untrusted-First raws ip (ground arith))
      | inr other ↦
          let same : a ≡ ip = ground arith in
          record {
            skipped = [];
            raw = raw;
            rest = raws;
            order = refl;
            passed = tt;
            reads = rw same at good;
            untrusted = rw same at other;
          }
    ]
  ]

  none-Skipped : (entries : List Text) → first_untrusted cfg entries ≡ none → All Skipped entries
  unfolding first_untrusted
  none-Skipped [] e = tt
  none-Skipped (raw ∷ raws) e = elim (Option-cases (parse_ip (candidate_of raw))) [
    | inl bad ↦ (inl bad, none-Skipped raws (ground arith))
    | inr (a, good) ↦ elim (Bool-cases (is_trusted_proxy cfg a)) [
      | inl proxy ↦ (inr (a, good, proxy), none-Skipped raws (ground arith))
      | inr other ↦ absurd (ground arith)
    ]
  ]

  first_untrusted-append :
      (xs ys : List Text)
      → first_untrusted cfg (xs ++ ys)
        ≡ elim (first_untrusted cfg xs) [ some ip ↦ some ip | none ↦ first_untrusted cfg ys ]
  unfolding first_untrusted
  first_untrusted-append [] ys = refl
  first_untrusted-append (raw ∷ xs) ys = ground (arith, first_untrusted-append xs ys)

  -- The entries of the configured headers in the order of the walk.
  abbrev walked : Headers → List Text → List Text
  walked headers [] = []
  walked headers (param ∷ params) = header_entries headers param ++ walked headers params

  walk_headers-walked :
      (headers : Headers) (params : List Text)
      → walk_headers cfg headers params ≡ first_untrusted cfg (walked headers params)
  unfolding walk_headers first_untrusted
  walk_headers-walked headers [] = refl
  walk_headers-walked headers (param ∷ params) = ground (
    arith,
    walk_headers-walked headers params,
    first_untrusted-append (header_entries headers param) (walked headers params),
  )

  turned :
      (value : Option Text)
      → elim value [ none ↦ [] | some v ↦ reverse (split b',' v) ]
        ≡ reverse (elim value [ none ↦ [] | some v ↦ split b',' v ])
  turned none = refl
  turned (some v) = refl

  header_entries-written_in :
      (headers : Headers) (param : Text)
      → header_entries headers param ≡ reverse (written_in headers param)
  unfolding header_entries
  header_entries-written_in headers param =
      turned (forwarded_header_wire_name param >>= λ wire. header_value headers wire)

  walked-append :
      (headers : Headers) (xs ys : List Text)
      → walked headers (xs ++ ys) ≡ walked headers xs ++ walked headers ys
  walked-append headers [] ys = refl
  walked-append headers (param ∷ xs) ys =
      ap (λ s. header_entries headers param ++ s) (walked-append headers xs ys)
      ∙ sym (append_assoc (header_entries headers param) (walked headers xs) (walked headers ys))

  -- The walk takes the chain from its end.
  walked-reverse :
      (headers : Headers) (params : List Text)
      → walked headers (reverse params) ≡ reverse (entries_of headers params)
  walked-reverse headers [] = refl
  walked-reverse headers (param ∷ params) =
      let own = written_in headers param in
      let rest = entries_of headers params in
      ap (walked headers) (reverse-cons param params)
      ∙ walked-append headers (reverse params) (param ∷ [])
      ∙ ap (λ s. s ++ walked headers (param ∷ [])) (walked-reverse headers params)
      ∙ ap (λ s. reverse rest ++ s)
          (append-nil (header_entries headers param) ∙ header_entries-written_in headers param)
      ∙ sym (reverse-append own rest)

  -- Where the client's address comes from.
  pub data Origin (peer : IpAddr) (headers : Headers) (ip : IpAddr) : Type 0 where
    direct : is_trusted_proxy cfg peer ≡ false → ip ≡ peer → Origin peer headers ip
    forwarded :
        is_trusted_proxy cfg peer ≡ true → Chosen (chain headers cfg) ip → Origin peer headers ip
    unnamed :
        is_trusted_proxy cfg peer ≡ true
        → All Skipped (chain headers cfg)
        → ip ≡ peer
        → Origin peer headers ip

  -- The client's address is the peer's if the peer is no trusted proxy. Otherwise it is the last
  -- entry of the forwarding headers, taken as they are configured and written, that reads as an
  -- address which is no trusted proxy, with only unreadable entries and trusted proxies behind it;
  -- and the peer's if all entries are such.
  pub remote_address-Origin :
      (peer : IpAddr) (headers : Headers) → Origin peer headers (remote_address peer headers cfg)
  unfolding remote_address
  remote_address-Origin peer headers =
      let params = forwarded_headers cfg in
      let same = walk_headers-walked headers (reverse params) in
      let turned = walked-reverse headers params in
      let back = reverse (chain headers cfg) in
      elim (Bool-cases (is_trusted_proxy cfg peer)) [
        | inr other ↦ direct other (ground arith)
        | inl proxy ↦ elim (Option-cases (first_untrusted cfg back)) [
          | inl missed ↦
              let nothing = All-of_reverse Skipped (chain headers cfg) (none-Skipped back missed) in
              unnamed proxy nothing (ground arith)
          | inr (ip, found) ↦
              let chosen =
                First-Chosen (chain headers cfg) ip (first_untrusted-First back ip found) in
              let result : remote_address peer headers cfg ≡ ip = ground arith in
              rw result (forwarded proxy chosen)
        ]
      ]

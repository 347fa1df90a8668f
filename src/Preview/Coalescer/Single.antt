-- ===== src/Preview/Coalescer/Single.antt =====
-- core-rs/crates/nc-preview/src/concurrency.rs: one generation for a key at a time.
use nc_server_rs.Prelude.{
  ℕ, suc, ◌≡◌, refl, ap, true, false, none, some, List, [], ◌∷◌, arith, Option-cases, inl, inr,
}
use nc_server_rs.Preview.Coalescer.{
  CoalesceKey, same_key, Flight, State, get, remove, run, Among, here, there, Step, request, settle,
  finish, Reachable, start, step,
}

-- No two flights have one key.
abbrev pub IsSingle : List Flight → Type 0
IsSingle [] = Unit
IsSingle (f ∷ fs) = (get f.key fs ≡ none) × IsSingle fs

-- The map holds what the running drivers generate, once for each key.
pub record IsConsistent (s : State) : Type 0 where
  pub same : s.in_flight ≡ s.drivers
  pub single : IsSingle s.drivers

same_key_refl : (k : CoalesceKey) → same_key k k ≡ true
same_key_refl k = ground arith

same_key_sym : (a b : CoalesceKey) → same_key a b ≡ same_key b a
same_key_sym a b = ground arith

other_key :
    (key : CoalesceKey) (f : Flight) (fs rest : List Flight)
    → Among f fs rest
    → get key fs ≡ none
    → (same_key f.key key ≡ false) × (get key rest ≡ none)
unfolding get
other_key key f fs rest (here f' fs') e = ground arith
other_key key f fs rest (there f' g fs' rest' a) e = ground (arith, other_key key f' fs' rest' a)

removed :
    (f : Flight) (fs rest : List Flight) → Among f fs rest → IsSingle fs → remove f.key fs ≡ rest
unfolding remove
removed f fs rest (here f' fs') s = ground (arith, same_key_refl f'.key)
removed f fs rest (there f' g fs' rest' a) (own, s) =
    ground (
      arith,
      removed f' fs' rest' a s,
      other_key g.key f' fs' rest' a own,
      same_key_sym f'.key g.key,
    )

rest-IsSingle : (f : Flight) (fs rest : List Flight) → Among f fs rest → IsSingle fs → IsSingle rest
rest-IsSingle f fs rest (here f' fs') (own, s) = s
rest-IsSingle f fs rest (there f' g fs' rest' a) (own, s) =
    ((other_key g.key f' fs' rest' a own).1, rest-IsSingle f' fs' rest' a s)

run-IsConsistent : (key : CoalesceKey) (s : State) → IsConsistent s → IsConsistent (run key s).1
unfolding run
run-IsConsistent key s c = elim (Option-cases (get key s.in_flight)) [
  | inr (g, existing) ↦ let kept : (run key s).1 ≡ s = ground arith in rw kept c
  | inl missed ↦
      let flight : Flight = record { key = key; generation = s.next } in
      let fresh : (run key s).1 ≡ record s {
        in_flight = flight ∷ s.in_flight;
        drivers = flight ∷ s.drivers;
        next = suc s.next;
      } =
        ground arith in
      rw fresh (record {
        same = ap (λ (fs : List Flight). flight ∷ fs) c.same;
        single = (rw c.same at missed, c.single);
      })
]

preserved : (s t : State) → Step s t → IsConsistent s → IsConsistent t
preserved s t (request key s' t' e) c = rw e (run-IsConsistent key s' c)
preserved s t (settle f rest s' t' a open_still e) c =
    rw e (record { same = c.same; single = c.single })
preserved s t (finish f rest s' t' a settled e) c = rw e (record {
  same = rw c.same (removed f s'.drivers rest a c.single);
  single = rest-IsSingle f s'.drivers rest a c.single;
})

-- Whatever requests come and whatever generations and drivers end, in any order, the map in flight
-- holds exactly the drivers that run, and no two of them have one key: for a preview there is at
-- most one generation at a time, and a driver that ends drops the entry it was spawned for.
pub Reachable-IsConsistent : (s : State) → Reachable s → IsConsistent s
Reachable-IsConsistent s start = record { same = refl; single = tt }
Reachable-IsConsistent s (step s' t' r move) = preserved s' t' move (Reachable-IsConsistent s' r)

same_key_sound : (a b k : CoalesceKey) → same_key a k ≡ true → same_key a b ≡ same_key k b
same_key_sound a b k h = ground arith

get-run : (key : CoalesceKey) (s : State) → get key (run key s).1.in_flight ≡ some (run key s).0
unfolding run get
get-run key s = ground (arith, same_key_refl key)

run_again :
    (key : CoalesceKey) (s : State) (g : ℕ) → get key s.in_flight ≡ some g → run key s ≡ (g, s)
unfolding run
run_again key s g e = ground arith

-- Two requests for one preview with nothing between them share its generation, and the second one
-- changes nothing.
pub run-run : (key : CoalesceKey) (s : State) → run key (run key s).1 ≡ run key s
run-run key s = run_again key (run key s).1 (run key s).0 (get-run key s)

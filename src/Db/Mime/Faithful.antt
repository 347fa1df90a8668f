-- ===== src/Db/Mime/Faithful.antt =====
-- core-rs/crates/nc-db/src/mime.rs: what the cache says is in the table, as long as the database
-- answers.
use nc_server_rs.Prelude.{
  ℕ, ◌==◌, ◌≡◌, refl, sym, ◌∙◌, ap, Bool, true, false, ◌&&◌, none, some, [], ◌∷◌, arith,
  if◌then◌else◌, any, Bool-cases, Option-cases, inl, inr,
}
use nc_server_rs.Prelude.Text.{Text, text_eq, text_eq_sound, text_eq_refl}
use nc_server_rs.Db.Mime.{
  MimeCache, get_id, get_name, insert, MimeTable, select_id, insert_mime, remember,
  get_or_insert_mime_id, fill, load_mime_cache, empty_cache,
}

abbrev pub has_row : ℕ → Text → MimeTable → Bool
has_row id mime table = any (λ r. r.0 == id && text_eq r.1 mime) table

-- Everything in the cache is a row.
pub record IsFaithful (cache : MimeCache) (table : MimeTable) : Type 0 where
  pub names : (mime : Text) (id : ℕ) → get_id cache mime ≡ some id → has_row id mime table ≡ true
  pub ids : (id : ℕ) (mime : Text) → get_name cache id ≡ some mime → has_row id mime table ≡ true

select_id-has_row :
    (mime : Text) (id : ℕ) (table : MimeTable)
    → select_id mime table ≡ some id
    → has_row id mime table ≡ true
unfolding select_id
select_id-has_row mime id [] e = absurd (cc)
select_id-has_row mime id ((i, m) ∷ table) e = elim (Bool-cases (text_eq m mime)) [
  | inl here ↦
      let first : some i ≡ some id = (rw here at e) in
      let same : i ≡ id = cc in let eq : (i == id) ≡ true = ground arith in rw (eq, here) refl
  | inr apart ↦
      let later : select_id mime table ≡ some id = (rw apart at e) in
      let rest = select_id-has_row mime id table later in ground arith
]

has_row-insert_mime :
    (new_id id : ℕ) (mime m : Text) (table : MimeTable)
    → has_row id m table ≡ true
    → has_row id m (insert_mime new_id mime table) ≡ true
unfolding insert_mime
has_row-insert_mime new_id id mime m table there = elim (Option-cases (select_id mime table)) [
  | inr (i, known) ↦ rw (known, insert_mime) there
  | inl fresh ↦ rw (fresh, insert_mime) (ground arith)
]

new_first :
    (id : ℕ) (mime : Text) (table : MimeTable) → select_id mime ((id, mime) ∷ table) ≡ some id
unfolding select_id
new_first id mime table = rw (text_eq_refl mime) refl

selected :
    (new_id : ℕ) (mime : Text) (table : MimeTable)
    → (id : ℕ) × (select_id mime (insert_mime new_id mime table) ≡ some id)
unfolding insert_mime
selected new_id mime table = elim (Option-cases (select_id mime table)) [
  | inr (i, known) ↦ (i, rw (known, insert_mime) known)
  | inl fresh ↦ (new_id, rw (fresh, insert_mime) (new_first new_id mime table))
]

moved :
    (a b : ℕ) (s t : Text) (table : MimeTable)
    → a ≡ b
    → s ≡ t
    → has_row a s table ≡ true
    → has_row b t table ≡ true
moved a b s t table n m there =
    ap (λ (i : ℕ). has_row i t table) (sym n)
    ∙ (ap (λ (x : Text). has_row a x table) (sym m) ∙ there)

insert-IsFaithful :
    (cache : MimeCache) (id : ℕ) (mime : Text) (table : MimeTable)
    → has_row id mime table ≡ true
    → IsFaithful cache table
    → IsFaithful (insert cache id mime) table
unfolding insert get_id get_name
insert-IsFaithful cache id mime table there faithful = record {
  names = λ m i e. elim (Bool-cases (text_eq m mime)) [
    | inl same ↦
        let first : some id ≡ some i = (rw same at e) in
        let one : id ≡ i = cc in moved id i mime m table one (sym (text_eq_sound m mime same)) there
    | inr apart ↦ faithful.names m i (rw apart at e)
  ];
  ids = λ i m e. elim (Bool-cases (i == id)) [
    | inl same ↦
        let first : some mime ≡ some m = (rw same at e) in
        let one : mime ≡ m = cc in
        let number : id ≡ i = ground arith in moved id i mime m table number one there
    | inr apart ↦ faithful.ids i m (rw apart at e)
  ];
}

grown-IsFaithful :
    (cache : MimeCache) (new_id : ℕ) (mime : Text) (table : MimeTable)
    → IsFaithful cache table
    → IsFaithful cache (insert_mime new_id mime table)
grown-IsFaithful cache new_id mime table faithful = record {
  names = λ m i e. has_row-insert_mime new_id i mime m table (faithful.names m i e);
  ids = λ i m e. has_row-insert_mime new_id i mime m table (faithful.ids i m e);
}

-- What a request for the number of a type owes: the number is that of the type's row, the cache
-- then knows it, and the cache stays faithful.
pub record IsKnown (mime : Text) (result : ℕ × MimeCache × MimeTable) : Type 0 where
  pub row : has_row result.0 mime result.2 ≡ true
  pub cached : get_id result.1 mime ≡ some result.0
  pub faithful : IsFaithful result.1 result.2

remembered-IsKnown :
    (cache : MimeCache) (id : ℕ) (mime : Text) (table : MimeTable)
    → get_id cache mime ≡ none
    → has_row id mime table ≡ true
    → IsFaithful cache table
    → IsKnown mime (id, remember cache id mime, table)
unfolding remember
remembered-IsKnown cache id mime table missed there faithful =
    let got : get_id (insert cache id mime) mime ≡ some id =
      unfold get_id insert in rw (text_eq_refl mime) refl in
    rw (missed, remember)
      (record {
        row = there;
        cached = got;
        faithful = insert-IsFaithful cache id mime table there faithful;
      })

-- As long as the database answers, a request for the number of any type gives the number of the
-- type's row, which is in the table then, and from then on the cache gives it too; and a cache in
-- which everything is a row of the table, each way, stays one.
pub get_or_insert_mime_id-IsKnown :
    (new_id : ℕ) (cache : MimeCache) (mime : Text) (table : MimeTable)
    → IsFaithful cache table
    → IsKnown mime (get_or_insert_mime_id true true new_id cache mime table)
unfolding get_or_insert_mime_id
get_or_insert_mime_id-IsKnown new_id cache mime table faithful =
    elim (Option-cases (get_id cache mime)) [
      | inr (id, hit) ↦
          rw (hit, get_or_insert_mime_id)
            (record { row = faithful.names mime id hit; cached = hit; faithful = faithful })
      | inl missed ↦
          let rows = insert_mime new_id mime table in
          let (id, found) = selected new_id mime table in
          rw (missed, get_or_insert_mime_id)
            (rw found (
              remembered-IsKnown cache id mime rows missed (select_id-has_row mime id rows found)
                (grown-IsFaithful cache new_id mime table faithful)))
    ]

unanswered :
    (inserts : Bool) (new_id : ℕ) (cache : MimeCache) (mime : Text) (table : MimeTable)
    → get_id cache mime ≡ none
    → get_or_insert_mime_id inserts false new_id cache mime table
      ≡ (1, insert cache 1 mime, if inserts then insert_mime new_id mime table else table)
unfolding get_or_insert_mime_id remember
unanswered inserts new_id cache mime table missed =
    rw (missed, get_or_insert_mime_id) (rw (missed, remember) refl)

-- If the query is not answered for a type that the cache does not know, the number is 1, and the
-- cache then gives this type's name for 1, whatever the name was.
pub get_or_insert_mime_id-poisoned :
    (inserts : Bool) (new_id : ℕ) (cache : MimeCache) (mime : Text) (table : MimeTable)
    → get_id cache mime ≡ none
    → let (id, after, rows) = get_or_insert_mime_id inserts false new_id cache mime table in
      (id ≡ 1) × (get_name after 1 ≡ some mime) × (get_id after mime ≡ some 1)
get_or_insert_mime_id-poisoned inserts new_id cache mime table missed =
    let after = insert cache 1 mime in
    let given = unanswered inserts new_id cache mime table missed in
    let name : get_name after 1 ≡ some mime = unfold get_name insert in refl in
    let number : get_id after mime ≡ some 1 = unfold get_id insert in rw (text_eq_refl mime) refl in
    (
      ap (λ (r : ℕ × MimeCache × MimeTable). r.0) given,
      ap (λ (r : ℕ × MimeCache × MimeTable). get_name r.1 1) given ∙ name,
      ap (λ (r : ℕ × MimeCache × MimeTable). get_id r.1 mime) given ∙ number,
    )

fill-IsFaithful :
    (whole table : MimeTable) (cache : MimeCache)
    → ((id : ℕ) (mime : Text) → has_row id mime table ≡ true → has_row id mime whole ≡ true)
    → IsFaithful cache whole
    → IsFaithful (fill table cache) whole
unfolding fill
fill-IsFaithful whole [] cache within faithful = faithful
fill-IsFaithful whole ((id, mime) ∷ table) cache within faithful =
    fill-IsFaithful whole table (insert cache id mime) (λ i m there. within i m (ground arith))
      (insert-IsFaithful cache id mime whole (within id mime (ground (arith, text_eq_refl mime)))
        faithful)

pub load_mime_cache-IsFaithful : (table : MimeTable) → IsFaithful (load_mime_cache table) table
unfolding load_mime_cache
load_mime_cache-IsFaithful table =
    fill-IsFaithful table table empty_cache (λ id mime there. there)
      (record {
        names = λ m i e. absurd (unfold get_id in cc);
        ids = λ i m e. absurd (unfold get_name in cc);
      })

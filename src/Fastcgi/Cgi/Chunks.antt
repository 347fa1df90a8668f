-- ===== src/Fastcgi/Cgi/Chunks.antt =====
-- core-rs/crates/nc-fastcgi/src/lib.rs: a response does not depend on the records it comes in.
use nc_server_rs.Prelude.{
  ℕ, zero, suc, ◌+◌, ◌≤◌, ◌<◌, ◌≡◌, refl, sym, ◌∙◌, ap, Bool, true, false, none, some, List, [],
  ◌∷◌, ◌++◌, arith, ltb, take, drop, length, length-append, append-nil, append_assoc, Option-cases,
  inl, inr,
}
use nc_server_rs.Prelude.Search.{find_subsequence, found-append, found_length}
use nc_server_rs.Prelude.Text.{Text}
use nc_server_rs.Fastcgi.Cgi.{
  Event, stdout, stderr, failed, separator, max_header_block, missing_separator, CgiBodyStream,
  HeaderPhase, ready, broken, parse_cgi_header_block, split_at, parse_streaming_headers, pull,
  poll_next, read_body,
}

-- All that PHP wrote, and that the stream does not break.
abbrev pub output : List Event → Text
output [] = []
output (stdout b ∷ stream) = b ++ output stream
output (stderr b ∷ stream) = output stream
output (failed ∷ stream) = output stream

abbrev pub IsUnbroken : List Event → Type 0
IsUnbroken [] = Unit
IsUnbroken (stdout b ∷ stream) = IsUnbroken stream
IsUnbroken (stderr b ∷ stream) = IsUnbroken stream
IsUnbroken (failed ∷ stream) = ⊥

take-append_le : (n : ℕ) (s t : Text) → n ≤ length s → take n (s ++ t) ≡ take n s
take-append_le zero s t h = refl
take-append_le (suc n) [] t h = absurd (omega arith)
take-append_le (suc n) (c ∷ s) t h = ap (λ (r : Text). c ∷ r) (take-append_le n s t (omega arith))

drop-append_le : (n : ℕ) (s t : Text) → n ≤ length s → drop n (s ++ t) ≡ drop n s ++ t
drop-append_le zero s t h = refl
drop-append_le (suc n) [] t h = absurd (omega arith)
drop-append_le (suc n) (c ∷ s) t h = drop-append_le n s t (omega arith)

read_events :
    (stream : List Event) (rounds : ℕ)
    → length stream < rounds
    → IsUnbroken stream
    → read_body rounds (record { prefix = []; inner = stream }) ≡ (output stream, true)
unfolding read_body poll_next pull
read_events stream zero h whole = absurd (omega arith)
read_events [] (suc rounds) h whole = refl
read_events (stdout [] ∷ stream) (suc rounds) h whole =
    read_events stream (suc rounds) (omega arith) whole
read_events (stdout (c ∷ b) ∷ stream) (suc rounds) h whole =
    let rest = read_events stream rounds (omega arith) whole in
    ap (λ (r : Text × Bool). ((c ∷ b) ++ r.0, r.1)) rest
read_events (stderr b ∷ stream) (suc rounds) h whole =
    read_events stream (suc rounds) (omega arith) whole
read_events (failed ∷ stream) (suc rounds) h whole = absurd whole

read_whole :
    (body : CgiBodyStream)
    → IsUnbroken body.inner
    → read_body (suc (suc (length body.inner))) body ≡ (body.prefix ++ output body.inner, true)
unfolding read_body poll_next
read_whole body whole = go body.prefix
  where
    go :
        (prefix : Text)
        → read_body (suc (suc (length body.inner))) (record { prefix = prefix; inner = body.inner })
          ≡ (prefix ++ output body.inner, true)
    go [] = read_events body.inner (suc (suc (length body.inner))) (omega arith) whole
    go (c ∷ b) =
        ap (λ (r : Text × Bool). ((c ∷ b) ++ r.0, r.1))
          (read_events body.inner (suc (length body.inner)) (omega arith) whole)

module _ (lossy : Text → Text) where
  -- The response is the one of the whole output: its first separator ends the headers, and what
  -- follows it is the body.
  abbrev pub Agrees : HeaderPhase → Text → Type 0
  Agrees (broken e) out = (find_subsequence separator out ≡ none) × (e ≡ missing_separator)
  Agrees (ready status headers body) out =
      (at : ℕ) × (find_subsequence separator out ≡ some at)
      × ((status, headers) ≡ parse_cgi_header_block lossy (take at out))
      × (read_body (suc (suc (length body.inner))) body ≡ (drop (at + 4) out, true))

  split-Agrees :
      (accum : Text) (at : ℕ) (stream : List Event)
      → find_subsequence separator accum ≡ some at
      → IsUnbroken stream
      → Agrees (split_at lossy accum at stream) (accum ++ output stream)
  split-Agrees accum at stream found whole =
      let fits = found_length separator accum at found in
      let body : CgiBodyStream = record { prefix = drop (at + 4) accum; inner = stream } in
      (
        at,
        found-append separator accum (output stream) at found,
        ap (parse_cgi_header_block lossy)
            (sym (take-append_le at accum (output stream) (omega arith))),
        read_whole body whole
            ∙ ap (λ (b : Text). (b, true))
                (sym (drop-append_le (at + 4) accum (output stream) (omega arith))),
      )

  streamed :
      (accum : Text) (events : List Event)
      → IsUnbroken events
      → find_subsequence separator accum ≡ none
      → length (accum ++ output events) ≤ max_header_block
      → Agrees (parse_streaming_headers lossy accum events) (accum ++ output events)
  unfolding parse_streaming_headers
  streamed accum [] whole none_yet small =
      (ap (find_subsequence separator) (append-nil accum) ∙ none_yet, refl)
  streamed accum (failed ∷ stream) whole none_yet small = absurd whole
  streamed accum (stderr b ∷ stream) whole none_yet small =
      streamed accum stream whole none_yet small
  streamed accum (stdout chunk ∷ stream) whole none_yet small =
      let regroup : accum ++ (chunk ++ output stream) ≡ (accum ++ chunk) ++ output stream =
        sym (append_assoc accum chunk (output stream)) in
      let sizes = length-append (accum ++ chunk) (output stream) in
      let small' : length ((accum ++ chunk) ++ output stream) ≤ max_header_block =
        rw (← regroup) small in
      let fits : ltb max_header_block (length (accum ++ chunk)) ≡ false = ground arith in
      elim (Option-cases (find_subsequence separator (accum ++ chunk))) [
        | inl not_yet ↦
            rw (regroup, fits, not_yet) (streamed (accum ++ chunk) stream whole not_yet small')
        | inr (at, found) ↦
            rw (regroup, fits, found) (split-Agrees (accum ++ chunk) at stream found whole)
      ]

  -- If the stream does not break and PHP writes at most the 64 KiB that the headers may take, the
  -- response is a function of the bytes alone, in whatever records they come and with whatever
  -- is written to the error log between: the headers end at the first separator of all that PHP
  -- wrote and are read from what stands before it, the body that a reader has, in at most two
  -- rounds more than there are records left, is all that stands behind it, and its end is
  -- reached. Without a separator the response is refused as one without headers.
  pub parse_streaming_headers-Agrees :
      (events : List Event)
      → IsUnbroken events
      → length (output events) ≤ max_header_block
      → Agrees (parse_streaming_headers lossy [] events) (output events)
  parse_streaming_headers-Agrees events whole small =
      streamed [] events whole (unfold find_subsequence in refl) small

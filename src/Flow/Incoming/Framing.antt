-- ===== src/Flow/Incoming/Framing.antt =====
-- src/grbl/flow.rs: the loops of `parse_incoming` end by their tests, and no complete line stays in
-- the buffer.
use raydriver.Base.{
  ℕ, zero, suc, ◌+◌, sym, ◌≤◌, ◌<◌, ◌≡◌, refl, ◌∙◌, ap, inl, inr, List, [], ◌∷◌, Option, none, some,
  arith, Option-cases, take, drop, length, length-drop, length-take, length-append,
}
use raydriver.Flow.{FlowInner}
use raydriver.Flow.Account.{ack_ok_locked-fields}
use raydriver.Flow.Incoming.{
  Parsing, set_buffer, push_ok, push_error, push_line, ok_loop, take_text, take_texts, take_message,
  message_loop, error_marker, find_error, take_error, next_search, error_loop, slice,
  extract_acks_from_buffer, parse_incoming, received, drained,
}
use raydriver.Flow.Scan.{position, find_subslice}
use raydriver.Flow.Scan.Sound.{position-some}
use raydriver.Text.Trim.{trim, lines}
use raydriver.Text.Utf8.{Bytes, Text, from_utf8}

abbrev buffer : Parsing → Bytes
buffer p = p.inner.status_buffer

pub buffer-push_ok : (p : Parsing) → buffer (push_ok p) ≡ buffer p
unfolding push_ok
buffer-push_ok p = let (_, _, _, _, e) = ack_ok_locked-fields p.inner in e

pub buffer-push_error : (p : Parsing) (text : Text) → buffer (push_error p text) ≡ buffer p
unfolding push_error
buffer-push_error p text = let (_, _, _, _, e) = ack_ok_locked-fields p.inner in e

pub buffer-push_line : (p : Parsing) (text : Text) → buffer (push_line p text) ≡ buffer p
unfolding push_line
buffer-push_line p text = refl

buffer-take_text : (p : Parsing) (text : Text) → buffer (take_text p text) ≡ buffer p
unfolding take_text
buffer-take_text p text =
    ground (arith, buffer-push_ok p, buffer-push_error p text, buffer-push_line p text)

buffer-take_texts : (texts : List Text) (p : Parsing) → buffer (take_texts p texts) ≡ buffer p
unfolding take_texts
buffer-take_texts [] p = refl
buffer-take_texts (text ∷ rest) p =
    buffer-take_texts rest (take_text p text) ∙ buffer-take_text p text

buffer-take_message : (p : Parsing) (nl : ℕ) → buffer (take_message p nl) ≡ drop (suc nl) (buffer p)
unfolding take_message
buffer-take_message p nl = elim (Option-cases (from_utf8 (take (suc nl) (buffer p)))) [
  | inl e ↦ rw (e, take_message) refl
  | inr (message, e) ↦
      rw (e, take_message)
        (buffer-take_texts (lines (trim message)) (set_buffer p (drop (suc nl) (buffer p))))
]

message_loop-no_newline :
    (fuel : ℕ) (p : Parsing)
    → length (buffer p) ≤ fuel
    → position b'\n' (buffer (message_loop fuel p)) ≡ none
unfolding message_loop
message_loop-no_newline zero p enough = empty (buffer p) enough
  where
    empty : (bs : Bytes) → length bs ≤ 0 → position b'\n' bs ≡ none
    empty [] h = unfold position in refl
    empty (b ∷ bs) h = absurd (omega arith)
message_loop-no_newline (suc fuel) p enough = elim (Option-cases (position b'\n' (buffer p))) [
  | inl e ↦ rw (e, message_loop) e
  | inr (nl, e) ↦
      let found = position-some b'\n' (buffer p) e in
      rw (e, message_loop)
        (message_loop-no_newline fuel (take_message p nl) (
          omega (
            arith,
            found.0,
            ap length (buffer-take_message p nl),
            length-drop (suc nl) (buffer p),
          )))
]

-- After `parse_incoming` no newline is left in the buffer, whatever arrived: every complete line
-- was taken out, and the bytes in the buffer were fuel enough for that.
pub parse_incoming-no_newline :
    (find_ok : Bytes → Option (ℕ × ℕ)) (s : FlowInner) (input : Bytes)
    → position b'\n' (parse_incoming find_ok s input).inner.status_buffer ≡ none
unfolding parse_incoming
parse_incoming-no_newline find_ok s input =
    let extracted = extract_acks_from_buffer find_ok (received s input) in
    message_loop-no_newline (length extracted.inner.status_buffer) extracted (omega arith)

-- A loop over acknowledgements ends with none left, if a match holds a byte at least and lies in
-- the buffer: the bytes there are fuel enough.
pub ok_loop-none_left :
    (find : Bytes → Option (ℕ × ℕ))
    → ((bs : Bytes) (i j : ℕ) → find bs ≡ some (i, j) → (i < j) × (j ≤ length bs))
    → (fuel : ℕ) (p : Parsing) → length (buffer p) ≤ fuel
    → find (buffer (ok_loop find fuel p)) ≡ none
unfolding ok_loop
ok_loop-none_left find range zero p enough = elim (Option-cases (find (buffer p))) [
  | inl e ↦ e
  | inr ((i, j), e) ↦ absurd (omega (arith, range (buffer p) i j e))
]
ok_loop-none_left find range (suc fuel) p enough = elim (Option-cases (find (buffer p))) [
  | inl e ↦ rw (e, ok_loop) e
  | inr ((i, j), e) ↦
      let in_range = range (buffer p) i j e in
      let rest = drained (buffer p) i j in
      rw (e, ok_loop)
        (ok_loop-none_left find range fuel (push_ok (set_buffer p rest)) (
          omega (
            arith,
            in_range.0,
            in_range.1,
            ap length (buffer-push_ok (set_buffer p rest)),
            length-append (take i (buffer p)) (drop j (buffer p)),
            length-take i (buffer p),
            length-drop j (buffer p),
          )))
]

-- A complete error line lies in the buffer and has a byte at least.
find_error-range :
    (buf : Bytes) (search_from start stop : ℕ)
    → find_error buf search_from ≡ some (start, stop)
    → (start < stop) × (stop ≤ length buf)
unfolding find_error
find_error-range buf search_from start stop e =
    by_marker (find_subslice (drop search_from buf) error_marker) e
  where
    by_end :
        (rel : ℕ) (found : Option ℕ)
        → position b'\n' (drop (search_from + rel) buf) ≡ found
        → elim found as (λ _. Option (ℕ × ℕ)) [
          | none ↦ none
          | some end_rel ↦ some (search_from + rel, search_from + rel + end_rel + 1)
        ]
          ≡ some (start, stop)
        → (start < stop) × (stop ≤ length buf)
    by_end rel none d e = cc
    by_end rel (some end_rel) d e =
        let start_is : search_from + rel ≡ start = cc in
        let stop_is : search_from + rel + end_rel + 1 ≡ stop = cc in
        let inside = (position-some b'\n' (drop (search_from + rel) buf) d).0 in
        let left = length-drop (search_from + rel) buf in (omega arith, omega arith)

    by_marker :
        (found : Option ℕ)
        → elim found as (λ _. Option (ℕ × ℕ)) [
          | none ↦ none
          | some rel ↦
              elim (position b'\n' (drop (search_from + rel) buf)) as (λ _. Option (ℕ × ℕ)) [
                | none ↦ none
                | some end_rel ↦ some (search_from + rel, search_from + rel + end_rel + 1)
              ]
        ]
          ≡ some (start, stop)
        → (start < stop) × (stop ≤ length buf)
    by_marker none e = cc
    by_marker (some rel) e = by_end rel (position b'\n' (drop (search_from + rel) buf)) refl e

buffer-take_error :
    (p : Parsing) (start stop : ℕ)
    → buffer (take_error p start stop) ≡ drained (buffer p) start stop
unfolding take_error
buffer-take_error p start stop = elim (Option-cases (from_utf8 (slice (buffer p) start stop))) [
  | inl e ↦ rw (e, take_error) refl
  | inr (text, e) ↦
      rw (e, take_error)
        (buffer-push_error (set_buffer p (drained (buffer p) start stop)) (trim text))
]

error_loop-none :
    (n search_from : ℕ) (p : Parsing)
    → find_error (buffer p) search_from ≡ none
    → error_loop n search_from p ≡ p
unfolding error_loop
error_loop-none zero search_from p e = refl
error_loop-none (suc n) search_from p e = rw (e, error_loop) refl

error_loop-some :
    (n search_from : ℕ) (p : Parsing) {start stop : ℕ}
    → find_error (buffer p) search_from ≡ some (start, stop)
    → error_loop (suc n) search_from p
      ≡ error_loop n (next_search p search_from start stop) (take_error p start stop)
unfolding error_loop
error_loop-some n search_from p e = rw (e, error_loop) refl

shorter-take_error :
    (p : Parsing) (start stop n : ℕ)
    → (start < stop) × (stop ≤ length (buffer p))
    → length (buffer p) ≤ suc n
    → length (buffer (take_error p start stop)) ≤ n
shorter-take_error p start stop n (ahead, inside) h = omega (
  arith,
  ap length (buffer-take_error p start stop),
  length-append (take start (buffer p)) (drop stop (buffer p)),
  length-take start (buffer p),
  length-drop stop (buffer p),
)

-- The bytes in the buffer are fuel enough for the loop over error lines: with more it does the same.
pub error_loop-fuel :
    (n m search_from : ℕ) (p : Parsing)
    → length (buffer p) ≤ n
    → length (buffer p) ≤ m
    → error_loop n search_from p ≡ error_loop m search_from p
unfolding error_loop
error_loop-fuel zero zero search_from p h k = refl
error_loop-fuel zero (suc m) search_from p h k =
    elim (Option-cases (find_error (buffer p) search_from)) [
      | inl e ↦ sym (error_loop-none (suc m) search_from p e) ∙ refl
      | inr ((start, stop), e) ↦
          let range = find_error-range (buffer p) search_from start stop e in
          absurd (omega (arith, range.0, range.1))
    ]
error_loop-fuel (suc n) zero search_from p h k =
    elim (Option-cases (find_error (buffer p) search_from)) [
      | inl e ↦ error_loop-none (suc n) search_from p e
      | inr ((start, stop), e) ↦
          let range = find_error-range (buffer p) search_from start stop e in
          absurd (omega (arith, range.0, range.1))
    ]
error_loop-fuel (suc n) (suc m) search_from p h k =
    elim (Option-cases (find_error (buffer p) search_from)) [
      | inl e ↦
          error_loop-none (suc n) search_from p e ∙ sym (error_loop-none (suc m) search_from p e)
      | inr ((start, stop), e) ↦
          let range = find_error-range (buffer p) search_from start stop e in
          error_loop-some n search_from p e
          ∙ error_loop-fuel n m (next_search p search_from start stop) (take_error p start stop)
              (shorter-take_error p start stop n range h)
              (shorter-take_error p start stop m range k)
          ∙ sym (error_loop-some m search_from p e)
    ]

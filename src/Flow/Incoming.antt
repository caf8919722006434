-- ===== src/Flow/Incoming.antt =====
-- src/grbl/flow.rs: `parse_incoming` and the loops that it runs over the byte buffer. The regex
-- `OK_ACK_RE` belongs to a library: its `find` is the parameter `find_ok`, and what is relied on of
-- it stands in `OkAck`. Each loop runs on fuel, for which the bytes in the buffer suffice.
pub mod Emits
pub mod OkAck
pub mod Framing
use raydriver.Base.{
  ℕ, zero, suc, ◌+◌, Bool, true, ◌||◌, List, [], ◌∷◌, ◌++◌, Option, none, some, if◌then◌else◌,
  is_empty, take, drop, length,
}
use raydriver.Flow.{
  PendingCommand, GrblResponseType, GrblResponse, FlowInner, ack_ok_locked, pop_pending,
}
use raydriver.Flow.Scan.{position, find_subslice, find_null_corrupted_ok}
use raydriver.Text.Affix.{equal, starts_with}
use raydriver.Text.Trim.{trim, lines}
use raydriver.Text.Utf8.{Bytes, Text, codes, from_utf8}

-- What the loops work on: the locked state and the responses so far.
pub record Parsing : Type 0 where
  pub inner : FlowInner
  pub responses : List GrblResponse

abbrev pub set_buffer : Parsing → Bytes → Parsing
set_buffer p buf = record p { inner = record (p.inner) { status_buffer = buf } }

abbrev pub push_response : Parsing → GrblResponse → Parsing
push_response p r = record p { responses = p.responses ++ r ∷ [] }

-- An acknowledgement: `ack_ok_locked`, then the two flags.
abbrev pub mark_acked : FlowInner → FlowInner
mark_acked s = record s {
  acked_since_flush = true;
  drained_since_flush = s.drained_since_flush || is_empty s.pending;
}

unfoldable pub push_ok : Parsing → Parsing
unfolding ack_ok_locked
push_ok p =
    let (pending, s) = ack_ok_locked p.inner in
    record {
      inner = mark_acked s;
      responses =
          p.responses
          ++ record { rtype = GrblResponseType.ok; text = codes "ok"; pending = pending } ∷ [];
    }

unfoldable pub push_error : Parsing → Text → Parsing
unfolding ack_ok_locked
push_error p text = record {
  inner = mark_acked (ack_ok_locked p.inner).1;
  responses =
      p.responses ++ record { rtype = GrblResponseType.error; text = text; pending = none } ∷ [];
}

unfoldable pub push_line : Parsing → Text → Parsing
push_line p text =
    push_response p (record { rtype = GrblResponseType.line; text = text; pending = none })

-- `drain(start..end)`: what stays, and what is taken out.
abbrev pub drained : Bytes → ℕ → ℕ → Bytes
drained buf start stop = take start buf ++ drop stop buf

abbrev pub slice : Bytes → ℕ → ℕ → Bytes
slice buf start stop = drop start (take stop buf)

-- The loops over whole and over corrupted acknowledgements differ in their search.
unfoldable pub ok_loop : (Bytes → Option (ℕ × ℕ)) → ℕ → Parsing → Parsing
unfolding push_ok
ok_loop find zero p = p
ok_loop find (suc fuel) p = elim (find p.inner.status_buffer) [
  | none ↦ p
  | some (start, stop) ↦
      ok_loop find fuel (push_ok (set_buffer p (drained p.inner.status_buffer start stop)))
]

abbrev pub error_marker : Bytes
error_marker = codes "error:"

-- The bytes of a complete error line from `search_from` on: where it starts and ends.
unfoldable pub find_error : Bytes → ℕ → Option (ℕ × ℕ)
unfolding find_subslice position
find_error buf search_from = elim (find_subslice (drop search_from buf) error_marker) [
  | none ↦ none
  | some rel ↦ elim (position b'\n' (drop (search_from + rel) buf)) [
    | none ↦ none
    | some end_rel ↦ some (search_from + rel, search_from + rel + end_rel + 1)
  ]
]

-- A line that is not UTF-8 is dropped and acknowledges nothing.
unfoldable pub take_error : Parsing → ℕ → ℕ → Parsing
unfolding push_error from_utf8 trim
take_error p start stop =
    let rest = set_buffer p (drained p.inner.status_buffer start stop) in
    elim (from_utf8 (slice p.inner.status_buffer start stop)) [
      | none ↦ rest
      | some text ↦ push_error rest (trim text)
    ]

-- `search_from` moves up only behind a line that was UTF-8.
unfoldable pub next_search : Parsing → ℕ → ℕ → ℕ → ℕ
unfolding from_utf8
next_search p search_from start stop = elim (from_utf8 (slice p.inner.status_buffer start stop)) [
  | none ↦ search_from
  | some text ↦ start
]

unfoldable pub error_loop : ℕ → ℕ → Parsing → Parsing
unfolding find_error take_error next_search
error_loop zero search_from p = p
error_loop (suc fuel) search_from p = elim (find_error p.inner.status_buffer search_from) [
  | none ↦ p
  | some (start, stop) ↦
      error_loop fuel (next_search p search_from start stop) (take_error p start stop)
]

unfoldable pub extract_acks_from_buffer : (Bytes → Option (ℕ × ℕ)) → Parsing → Parsing
unfolding ok_loop error_loop find_null_corrupted_ok
extract_acks_from_buffer find_ok p =
    let whole = ok_loop find_ok (length p.inner.status_buffer) p in
    let corrupted = ok_loop find_null_corrupted_ok (length whole.inner.status_buffer) whole in
    error_loop (length corrupted.inner.status_buffer) 0 corrupted

-- One line of a message.
unfoldable pub take_text : Parsing → Text → Parsing
unfolding push_ok push_error push_line equal starts_with
take_text p text =
    if is_empty text
    then p
    else if equal text (codes "ok")
    then push_ok p
    else if starts_with (codes "error:") text
    then push_error p text
    else push_line p text

unfoldable pub take_texts : Parsing → List Text → Parsing
unfolding take_text
take_texts p [] = p
take_texts p (text ∷ rest) = take_texts (take_text p text) rest

-- The bytes up to a newline at index `nl`.
unfoldable pub take_message : Parsing → ℕ → Parsing
unfolding take_texts from_utf8 trim lines
take_message p nl =
    let rest = set_buffer p (drop (suc nl) p.inner.status_buffer) in
    elim (from_utf8 (take (suc nl) p.inner.status_buffer)) [
      | none ↦ rest
      | some message ↦ take_texts rest (lines (trim message))
    ]

unfoldable pub message_loop : ℕ → Parsing → Parsing
unfolding take_message position
message_loop zero p = p
message_loop (suc fuel) p = elim (position b'\n' p.inner.status_buffer) [
  | none ↦ p
  | some nl ↦ message_loop fuel (take_message p nl)
]

abbrev pub received : FlowInner → Bytes → Parsing
received s input = record {
  inner = record s { status_buffer = s.status_buffer ++ input };
  responses = [];
}

unfoldable pub parse_incoming : (Bytes → Option (ℕ × ℕ)) → FlowInner → Bytes → Parsing
unfolding extract_acks_from_buffer message_loop
parse_incoming find_ok s input =
    let extracted = extract_acks_from_buffer find_ok (received s input) in
    message_loop (length extracted.inner.status_buffer) extracted

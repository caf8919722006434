-- ===== src/Flow/Incoming/OkAck.antt =====
-- src/grbl/flow.rs: what the parser relies on in `OK_ACK_RE`, the pattern `ok\r*\n` of the regex
-- crate, and bytes that arrive in pieces.
use mathlib.Core.List.{append_assoc}
use raydriver.Base.{
  ℕ, zero, suc, ◌+◌, ◌-◌, ◌≤◌, ◌<◌, ◌≡◌, refl, inl, inr, [], ◌++◌, Option, none, some, Option-cases,
  drop, length, get_elem?,
}
use raydriver.Flow.{FlowInner}
use raydriver.Flow.Incoming.{
  Parsing, ok_loop, error_loop, find_error, error_marker, extract_acks_from_buffer, message_loop,
  parse_incoming, received,
}
use raydriver.Flow.Scan.{position, find_subslice, find_null_corrupted_ok}
use raydriver.Flow.Scan.Sound.{position-none, position-drop-none}
use raydriver.Flow.Scan.Extent.{find_null_corrupted_ok-newline}
use raydriver.Text.Utf8.{Bytes}

-- A match of the pattern holds a byte at least, lies in the haystack and ends with a newline.
pub record IsOkAckFind (find_ok : Bytes → Option (ℕ × ℕ)) : Type 0 where
  pub in_range : (bs : Bytes) (i j : ℕ) → find_ok bs ≡ some (i, j) → (i < j) × (j ≤ length bs)
  pub newline :
      (bs : Bytes) (i j : ℕ) → find_ok bs ≡ some (i, j) → get_elem? bs (j - 1) ≡ some b'\n'

-- Where no newline stands, a search whose matches end with one fails.
none_of_newline :
    (find : Bytes → Option (ℕ × ℕ)) (bs : Bytes)
    → ((i j : ℕ) → find bs ≡ some (i, j) → get_elem? bs (j - 1) ≡ some b'\n')
    → position b'\n' bs ≡ none
    → find bs ≡ none
none_of_newline find bs newline h = elim (Option-cases (find bs)) [
  | inl e ↦ e
  | inr ((i, j), e) ↦ absurd (position-none b'\n' bs (j - 1) h (newline i j e))
]

ok_loop-none :
    (find : Bytes → Option (ℕ × ℕ)) (fuel : ℕ) (p : Parsing)
    → find p.inner.status_buffer ≡ none
    → ok_loop find fuel p ≡ p
unfolding ok_loop
ok_loop-none find zero p e = refl
ok_loop-none find (suc fuel) p e = rw (e, ok_loop) refl

find_error-none : (bs : Bytes) (k : ℕ) → position b'\n' bs ≡ none → find_error bs k ≡ none
unfolding find_error
find_error-none bs k h = elim (Option-cases (find_subslice (drop k bs) error_marker)) [
  | inl e ↦ rw (e, find_error) refl
  | inr (rel, e) ↦ rw (e, find_error, position-drop-none b'\n' (k + rel) bs h) refl
]

error_loop-none :
    (fuel k : ℕ) (p : Parsing)
    → position b'\n' p.inner.status_buffer ≡ none
    → error_loop fuel k p ≡ p
unfolding error_loop
error_loop-none zero k p h = refl
error_loop-none (suc fuel) k p h = rw (find_error-none p.inner.status_buffer k h, error_loop) refl

message_loop-none :
    (fuel : ℕ) (p : Parsing) → position b'\n' p.inner.status_buffer ≡ none → message_loop fuel p ≡ p
unfolding message_loop
message_loop-none zero p h = refl
message_loop-none (suc fuel) p h = rw (h, message_loop) refl

parse_incoming-received :
    (find_ok : Bytes → Option (ℕ × ℕ)) (s : FlowInner) (first second : Bytes)
    → parse_incoming find_ok (received s first).inner second
      ≡ parse_incoming find_ok s (first ++ second)
unfolding parse_incoming
parse_incoming-received find_ok s first second = rw (append_assoc s.status_buffer first second) refl

module _ (find_ok : Bytes → Option (ℕ × ℕ)) (laws : IsOkAckFind find_ok) where
  extract-no_newline :
      (p : Parsing)
      → position b'\n' p.inner.status_buffer ≡ none
      → extract_acks_from_buffer find_ok p ≡ p
  unfolding extract_acks_from_buffer
  extract-no_newline p h =
      let bs = p.inner.status_buffer in
      let no_ok = none_of_newline find_ok bs (laws.newline bs) h in
      let no_null =
        none_of_newline find_null_corrupted_ok bs (λ i j e. find_null_corrupted_ok-newline bs e)
          h in
      rw
        (
          ok_loop-none find_ok (length bs) p no_ok,
          ok_loop-none find_null_corrupted_ok (length bs) p no_null,
          error_loop-none (length bs) 0 p h,
        )
        refl

  -- Bytes without a newline only go into the buffer.
  parse_incoming-partial :
      (s : FlowInner) (input : Bytes)
      → position b'\n' (s.status_buffer ++ input) ≡ none
      → parse_incoming find_ok s input ≡ received s input
  unfolding parse_incoming
  parse_incoming-partial s input h =
      rw (extract-no_newline (received s input) h)
        (message_loop-none (length (s.status_buffer ++ input)) (received s input) h)

  -- A read that ends before a newline may as well arrive with the next one: the responses and the
  -- state after both are those of a single read of all the bytes.
  pub parse_incoming-split :
      (s : FlowInner) (first second : Bytes)
      → position b'\n' (s.status_buffer ++ first) ≡ none
      → ((parse_incoming find_ok s first).responses ≡ [])
        × (parse_incoming find_ok (parse_incoming find_ok s first).inner second
            ≡ parse_incoming find_ok s (first ++ second))
  parse_incoming-split s first second h =
      rw (parse_incoming-partial s first h) (refl, parse_incoming-received find_ok s first second)

-- ===== src/Flow/Incoming/Emits.antt =====
-- src/grbl/flow.rs: parsing as a sequence of elementary steps. `parse_incoming` and each of its
-- loops does nothing but cut the buffer, acknowledge with an `ok` or an error, and pass on lines,
-- so an invariant of these four steps is one of the whole.
use raydriver.Base.{
  ℕ, zero, suc, List, [], ◌∷◌, Option, ◌≡◌, refl, inl, inr, Bool-cases, Option-cases, is_empty,
  take, drop, length,
}
use raydriver.Flow.{FlowInner}
use raydriver.Flow.Incoming.{
  Parsing, set_buffer, push_ok, push_error, push_line, ok_loop, error_loop, find_error, take_error,
  next_search, extract_acks_from_buffer, take_text, take_texts, take_message, message_loop,
  received, parse_incoming, drained, slice,
}
use raydriver.Flow.Scan.{position, find_null_corrupted_ok}
use raydriver.Text.Affix.{equal, starts_with}
use raydriver.Text.Trim.{trim, lines}
use raydriver.Text.Utf8.{Bytes, Text, codes, from_utf8}

-- `Emits q p`: elementary steps lead from `p` to `q`.
pub data Emits (q : Parsing) : Parsing → Type 0 where
  stop : {p : Parsing} → p ≡ q → Emits q p
  cut : {p : Parsing} (buf : Bytes) → Emits q (set_buffer p buf) → Emits q p
  acks : {p : Parsing} → Emits q (push_ok p) → Emits q p
  fails : {p : Parsing} (text : Text) → Emits q (push_error p text) → Emits q p
  says : {p : Parsing} (text : Text) → Emits q (push_line p text) → Emits q p

pub Emits-trans : {q r p : Parsing} → Emits q p → Emits r q → Emits r p
Emits-trans {r} (stop e) g = rw e g
Emits-trans (cut buf f) g = cut buf (Emits-trans f g)
Emits-trans (acks f) g = acks (Emits-trans f g)
Emits-trans (fails text f) g = fails text (Emits-trans f g)
Emits-trans (says text f) g = says text (Emits-trans f g)

-- The rule of invariants.
pub record Keeps (P : Parsing → Type 0) : Type 0 where
  pub on_cut : (p : Parsing) (buf : Bytes) → P p → P (set_buffer p buf)
  pub on_ok : (p : Parsing) → P p → P (push_ok p)
  pub on_error : (p : Parsing) (text : Text) → P p → P (push_error p text)
  pub on_line : (p : Parsing) (text : Text) → P p → P (push_line p text)

pub Emits-invariant : (P : Parsing → Type 0) {q p : Parsing} → Keeps P → Emits q p → P p → P q
Emits-invariant P k (stop e) h = rw e at h
Emits-invariant P {p} k (cut buf f) h = Emits-invariant P k f (k.on_cut p buf h)
Emits-invariant P {p} k (acks f) h = Emits-invariant P k f (k.on_ok p h)
Emits-invariant P {p} k (fails text f) h = Emits-invariant P k f (k.on_error p text h)
Emits-invariant P {p} k (says text f) h = Emits-invariant P k f (k.on_line p text h)

here : (p : Parsing) → Emits p p
here p = stop refl

ok_loop-Emits :
    (find : Bytes → Option (ℕ × ℕ)) (fuel : ℕ) (p : Parsing) → Emits (ok_loop find fuel p) p
unfolding ok_loop
ok_loop-Emits find zero p = here p
ok_loop-Emits find (suc fuel) p = elim (Option-cases (find p.inner.status_buffer)) [
  | inl e ↦ rw (e, ok_loop) (here p)
  | inr ((start, end), e) ↦
      rw (e, ok_loop)
        (let buf = drained p.inner.status_buffer start end in
          cut buf (acks (ok_loop-Emits find fuel (push_ok (set_buffer p buf)))))
]

take_error-Emits : (p : Parsing) (start end : ℕ) → Emits (take_error p start end) p
unfolding take_error
take_error-Emits p start end =
    elim (Option-cases (from_utf8 (slice p.inner.status_buffer start end))) [
      | inl e ↦ rw (e, take_error) (cut (drained p.inner.status_buffer start end) (here _))
      | inr (text, e) ↦
          rw (e, take_error)
            (cut (drained p.inner.status_buffer start end) (fails (trim text) (here _)))
    ]

error_loop-Emits : (fuel search_from : ℕ) (p : Parsing) → Emits (error_loop fuel search_from p) p
unfolding error_loop
error_loop-Emits zero search_from p = here p
error_loop-Emits (suc fuel) search_from p =
    elim (Option-cases (find_error p.inner.status_buffer search_from)) [
      | inl e ↦ rw (e, error_loop) (here p)
      | inr ((start, end), e) ↦
          rw (e, error_loop)
            (Emits-trans (take_error-Emits p start end) (
              error_loop-Emits fuel (next_search p search_from start end) (take_error p start end)))
    ]

pub extract_acks_from_buffer-Emits :
    (find_ok : Bytes → Option (ℕ × ℕ)) (p : Parsing) → Emits (extract_acks_from_buffer find_ok p) p
unfolding extract_acks_from_buffer
extract_acks_from_buffer-Emits find_ok p =
    let whole = ok_loop find_ok (length p.inner.status_buffer) p in
    let corrupted = ok_loop find_null_corrupted_ok (length whole.inner.status_buffer) whole in
    Emits-trans (ok_loop-Emits find_ok (length p.inner.status_buffer) p) (
      Emits-trans (ok_loop-Emits find_null_corrupted_ok (length whole.inner.status_buffer) whole)
        (error_loop-Emits (length corrupted.inner.status_buffer) 0 corrupted))

take_text-Emits : (p : Parsing) (text : Text) → Emits (take_text p text) p
unfolding take_text
take_text-Emits p text = elim (Bool-cases (is_empty text)) [
  | inl e ↦ rw e (here p)
  | inr e ↦ rw e (elim (Bool-cases (equal text (codes "ok"))) [
    | inl a ↦ rw a (acks (here _))
    | inr a ↦ rw a (elim (Bool-cases (starts_with (codes "error:") text)) [
      | inl b ↦ rw b (fails text (here _))
      | inr b ↦ rw b (says text (here _))
    ])
  ])
]

take_texts-Emits : (texts : List Text) (p : Parsing) → Emits (take_texts p texts) p
unfolding take_texts
take_texts-Emits [] p = here p
take_texts-Emits (text ∷ rest) p =
    Emits-trans (take_text-Emits p text) (take_texts-Emits rest (take_text p text))

take_message-Emits : (p : Parsing) (nl : ℕ) → Emits (take_message p nl) p
unfolding take_message
take_message-Emits p nl = elim (Option-cases (from_utf8 (take (suc nl) p.inner.status_buffer))) [
  | inl e ↦ rw (e, take_message) (cut (drop (suc nl) p.inner.status_buffer) (here _))
  | inr (message, e) ↦
      rw (e, take_message)
        (cut (drop (suc nl) p.inner.status_buffer) (take_texts-Emits (lines (trim message)) _))
]

message_loop-Emits : (fuel : ℕ) (p : Parsing) → Emits (message_loop fuel p) p
unfolding message_loop
message_loop-Emits zero p = here p
message_loop-Emits (suc fuel) p = elim (Option-cases (position b'\n' p.inner.status_buffer)) [
  | inl e ↦ rw (e, message_loop) (here p)
  | inr (nl, e) ↦
      rw (e, message_loop)
        (Emits-trans (take_message-Emits p nl) (message_loop-Emits fuel (take_message p nl)))
]

pub parse_incoming-Emits :
    (find_ok : Bytes → Option (ℕ × ℕ)) (s : FlowInner) (input : Bytes)
    → Emits (parse_incoming find_ok s input) (received s input)
unfolding parse_incoming
parse_incoming-Emits find_ok s input =
    let extracted = extract_acks_from_buffer find_ok (received s input) in
    Emits-trans (extract_acks_from_buffer-Emits find_ok (received s input))
      (message_loop-Emits (length extracted.inner.status_buffer) extracted)

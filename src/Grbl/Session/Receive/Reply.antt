-- ===== src/Grbl/Session/Receive/Reply.antt =====
-- src/grbl/session.rs: what a batch of responses makes of a request.
use raydriver.Base.{
  ++_assoc, ++_nil, ◌≡◌, refl, ◌∙◌, inl, inr, Bool, true, false, not, ◌&&◌, List, [], ◌∷◌, ◌++◌,
  if◌then◌else◌, Bool-cases, arith,
}
use raydriver.Device.{F64}
use raydriver.Flow.{GrblResponse, GrblResponseType}
use raydriver.Grbl.Session.{RequestShared, add_line, finish}
use raydriver.Grbl.Session.Receive.{is_fragment, is_line, select, lines_first}
use raydriver.Grbl.Session.Receive.FirstError.{is_report}
use raydriver.Text.Regex.{Regex}
use raydriver.Text.Utf8.{Text, codes}

-- What one answer makes of a request.
abbrev pub completed : RequestShared → Text → RequestShared
completed r line = if not r.finished then finish (add_line r line) else r

abbrev pub extended : RequestShared → Text → RequestShared
extended r line = if not r.finished then add_line r line else r

module _ (F : F64) where
  module _ (re : Regex) where
    abbrev pub is_collected : Text → Bool
    is_collected line = not (is_fragment F re line) && not (is_report F re line)

    unfoldable pub answer_line : RequestShared → Text → RequestShared
    answer_line r line =
        if is_fragment F re line then r else if is_report F re line then r else extended r line

    abbrev pub answer_by : GrblResponseType → RequestShared → GrblResponse → RequestShared
    answer_by GrblResponseType.ok r x = completed r (codes "ok")
    answer_by GrblResponseType.error r x = completed r x.text
    answer_by GrblResponseType.line r x = answer_line r x.text

    abbrev pub answer_all : RequestShared → List GrblResponse → RequestShared
    answer_all r [] = r
    answer_all r (x ∷ rest) = answer_all (answer_by x.rtype r x) rest

    -- The lines of a batch that a request collects, and the texts of its acknowledgements.
    abbrev pub line_of : GrblResponseType → GrblResponse → List Text
    line_of GrblResponseType.line x = if is_collected x.text then x.text ∷ [] else []
    line_of GrblResponseType.ok x = []
    line_of GrblResponseType.error x = []

    abbrev pub ack_of : GrblResponseType → GrblResponse → List Text
    ack_of GrblResponseType.line x = []
    ack_of GrblResponseType.ok x = codes "ok" ∷ []
    ack_of GrblResponseType.error x = x.text ∷ []

    abbrev pub lines_of : List GrblResponse → List Text
    lines_of [] = []
    lines_of (x ∷ rest) = line_of x.rtype x ++ lines_of rest

    abbrev pub acks_of : List GrblResponse → List Text
    acks_of [] = []
    acks_of (x ∷ rest) = ack_of x.rtype x ++ acks_of rest

    -- The lines, then the first acknowledgement, which finishes the request.
    abbrev pub reply : RequestShared → List Text → List Text → RequestShared
    reply r lines [] = record r { response_lines = r.response_lines ++ lines }
    reply r lines (ack ∷ rest) =
        finish (add_line (record r { response_lines = r.response_lines ++ lines }) ack)

    answer_all-append :
        (xs ys : List GrblResponse) (r : RequestShared)
        → answer_all r (xs ++ ys) ≡ answer_all (answer_all r xs) ys
    answer_all-append [] ys r = refl
    answer_all-append (x ∷ xs) ys r = answer_all-append xs ys (answer_by x.rtype r x)

    answer_by-finished :
        (k : GrblResponseType) (r : RequestShared) (x : GrblResponse)
        → r.finished ≡ true
        → answer_by k r x ≡ r
    unfolding answer_line
    answer_by-finished GrblResponseType.ok r x f = rw f refl
    answer_by-finished GrblResponseType.error r x f = rw f refl
    answer_by-finished GrblResponseType.line r x f = ground arith

    -- A finished request gets nothing more.
    pub answer_all-finished :
        (xs : List GrblResponse) (r : RequestShared) → r.finished ≡ true → answer_all r xs ≡ r
    answer_all-finished [] r f = refl
    answer_all-finished (x ∷ xs) r f =
        rw (answer_by-finished x.rtype r x f) (answer_all-finished xs r f)

    answer_line-open :
        (r : RequestShared) (x : GrblResponse)
        → r.finished ≡ false
        → answer_line r x.text
          ≡ record r { response_lines = r.response_lines ++ line_of GrblResponseType.line x }
    unfolding answer_line
    answer_line-open r x f =
        let nil = ++_nil r.response_lines in
        elim (Bool-cases (is_fragment F re x.text)) [
          | inl e ↦ rw (e, nil) refl
          | inr e ↦ rw e (elim (Bool-cases (is_report F re x.text)) [
            | inl e' ↦ rw (e', nil) refl
            | inr e' ↦ rw (e', f) refl
          ])
        ]

    with_lines : RequestShared → List Text → RequestShared
    with_lines r lines = record r { response_lines = r.response_lines ++ lines }

    with_lines-append :
        (r : RequestShared) (ls ms : List Text)
        → with_lines (with_lines r ls) ms ≡ with_lines r (ls ++ ms)
    unfolding with_lines
    with_lines-append r ls ms = rw (++_assoc r.response_lines ls ms) refl

    line_first :
        (k : GrblResponseType) (x : GrblResponse) (xs : List GrblResponse) (r : RequestShared)
        → x.rtype ≡ k
        → r.finished ≡ false
        → ((q : RequestShared)
            → q.finished ≡ false
            → answer_all q (select is_line xs) ≡ with_lines q (lines_of xs))
        → answer_all r (select is_line (x ∷ xs)) ≡ with_lines r (lines_of (x ∷ xs))
    unfolding with_lines
    line_first GrblResponseType.ok x xs r e f more = rw e (more r f)
    line_first GrblResponseType.error x xs r e f more = rw e (more r f)
    line_first GrblResponseType.line x xs r e f more =
        rw (e, answer_line-open r x f)
          (more (with_lines r (line_of GrblResponseType.line x)) f
            ∙ with_lines-append r (line_of GrblResponseType.line x) (lines_of xs))

    -- An open request collects the lines of the batch.
    answer_all-lines :
        (xs : List GrblResponse) (r : RequestShared)
        → r.finished ≡ false
        → answer_all r (select is_line xs) ≡ with_lines r (lines_of xs)
    unfolding with_lines
    answer_all-lines [] r f = rw (++_nil r.response_lines) refl
    answer_all-lines (x ∷ xs) r f = line_first x.rtype x xs r refl f (answer_all-lines xs)

    ack_first :
        (k : GrblResponseType) (x : GrblResponse) (xs : List GrblResponse) (r : RequestShared)
        → x.rtype ≡ k
        → r.finished ≡ false
        → answer_all r (select (λ x. not (is_line x)) xs) ≡ reply r [] (acks_of xs)
        → answer_all r (select (λ x. not (is_line x)) (x ∷ xs)) ≡ reply r [] (acks_of (x ∷ xs))
    ack_first GrblResponseType.line x xs r e f more = rw e more
    ack_first GrblResponseType.ok x xs r e f more =
        let rest = select (λ x. not (is_line x)) xs in
        rw (e, f, ++_nil r.response_lines)
          (answer_all-finished rest (finish (add_line r (codes "ok"))) refl)
    ack_first GrblResponseType.error x xs r e f more =
        let rest = select (λ x. not (is_line x)) xs in
        rw (e, f, ++_nil r.response_lines)
          (answer_all-finished rest (finish (add_line r x.text)) refl)

    -- The first acknowledgement finishes it.
    answer_all-acks :
        (xs : List GrblResponse) (r : RequestShared)
        → r.finished ≡ false
        → answer_all r (select (λ x. not (is_line x)) xs) ≡ reply r [] (acks_of xs)
    answer_all-acks [] r f = rw (++_nil r.response_lines) refl
    answer_all-acks (x ∷ xs) r f = ack_first x.rtype x xs r refl f (answer_all-acks xs r f)

    reply-with_lines :
        (r : RequestShared) (ls acks : List Text)
        → reply (with_lines r ls) [] acks ≡ reply r ls acks
    unfolding with_lines
    reply-with_lines r ls [] = rw (++_nil (r.response_lines ++ ls)) refl
    reply-with_lines r ls (a ∷ rest) = rw (++_nil (r.response_lines ++ ls)) refl

    -- An open request gets the lines of the batch, whatever their place in it, and then the first
    -- acknowledgement.
    pub answer_all-lines_first :
        (xs : List GrblResponse) (r : RequestShared)
        → r.finished ≡ false
        → answer_all r (lines_first xs) ≡ reply r (lines_of xs) (acks_of xs)
    unfolding with_lines
    answer_all-lines_first xs r f =
        rw
          (
            answer_all-append (select is_line xs) (select (λ x. not (is_line x)) xs) r,
            answer_all-lines xs r f,
            answer_all-acks xs (with_lines r (lines_of xs)) f,
          )
          (reply-with_lines r (lines_of xs) (acks_of xs))

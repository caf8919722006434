-- ===== src/Flow/Account/Incoming.antt =====
-- src/grbl/flow.rs: what `parse_incoming` does to the account.
use raydriver.Base.{
  ℕ, ◌+◌, ◌≡◌, refl, ◌∙◌, true, ◌||◌, ◌&&◌, List, [], ◌∷◌, ◌++◌, Option, none, some, arith, drop,
  drop-drop, is_empty, ltb,
}
use raydriver.Flow.{
  PendingCommand, GrblResponseType, GrblResponse, FlowInner, ack_ok_locked, pop_pending,
}
use raydriver.Flow.Account.{IsAccounted, ack_ok_locked-IsAccounted, ack_ok_locked-fields}
use raydriver.Flow.Incoming.{
  Parsing, set_buffer, push_ok, push_error, push_line, parse_incoming, received,
}
use raydriver.Flow.Incoming.Emits.{Keeps, Emits-invariant, parse_incoming-Emits}
use raydriver.Text.Utf8.{Bytes, Text, codes}

-- How many commands a response acknowledges.
abbrev pub weight : GrblResponseType → ℕ
weight GrblResponseType.ok = 1
weight GrblResponseType.error = 1
weight GrblResponseType.line = 0

abbrev pub ack_count : List GrblResponse → ℕ
ack_count [] = 0
ack_count (r ∷ rs) = weight r.rtype + ack_count rs

-- The command that a response should carry when `queue` was pending before it.
abbrev pub carried : GrblResponseType → List PendingCommand → Option PendingCommand
carried GrblResponseType.ok [] = none
carried GrblResponseType.ok (p ∷ rest) = some p
carried GrblResponseType.error queue = none
carried GrblResponseType.line queue = none

-- Each `ok` carries the command at the head of what the responses before it left.
abbrev pub InOrder : List PendingCommand → List GrblResponse → Type 0
InOrder queue [] = Unit
InOrder queue (r ∷ rs) =
    (r.pending ≡ carried r.rtype queue) × InOrder (drop (weight r.rtype) queue) rs

ack_count-append :
    (rs : List GrblResponse) (r : GrblResponse)
    → ack_count (rs ++ r ∷ []) ≡ ack_count rs + weight r.rtype
ack_count-append [] r = omega arith
ack_count-append (x ∷ rs) r = omega (arith, ack_count-append rs r)

InOrder-append :
    (queue : List PendingCommand) (rs : List GrblResponse) (r : GrblResponse)
    → InOrder queue rs
    → r.pending ≡ carried r.rtype (drop (ack_count rs) queue)
    → InOrder queue (rs ++ r ∷ [])
InOrder-append queue [] r h e = (e, tt)
InOrder-append queue (x ∷ rs) r h e = (
  h.0,
  InOrder-append (drop (weight x.rtype) queue) rs r h.1
      (rw (drop-drop (weight x.rtype) (ack_count rs) queue) e),
)

-- Against the state before: the queue has lost one command for each acknowledgement.
pub record Tracks (s : FlowInner) (p : Parsing) : Type 0 where
  pub dropped : p.inner.pending ≡ drop (ack_count p.responses) s.pending
  pub accounted : IsAccounted p.inner
  pub in_order : InOrder s.pending p.responses
  pub same_size : p.inner.rx_size ≡ s.rx_size
  pub acked : p.inner.acked_since_flush ≡ (s.acked_since_flush || ltb 0 (ack_count p.responses))
  pub emptied :
      p.inner.drained_since_flush
      ≡ (s.drained_since_flush || (ltb 0 (ack_count p.responses) && is_empty p.inner.pending))

is_empty-tail {ℓ} : {A : Type ℓ} (xs : List A) → is_empty xs ≡ true → is_empty (drop 1 xs) ≡ true
is_empty-tail [] h = refl
is_empty-tail (x ∷ xs) h = cc

carried-ok : (s : FlowInner) → (ack_ok_locked s).0 ≡ carried GrblResponseType.ok s.pending
unfolding ack_ok_locked
carried-ok s = by_queue s.pending
  where
    by_queue : (q : List PendingCommand) → (pop_pending s q).0 ≡ carried GrblResponseType.ok q
    by_queue [] = refl
    by_queue (p ∷ rest) = refl

module _ (s : FlowInner) where
  -- One acknowledgement, by an `ok` that carries its command or by an error that carries none.
  Tracks-acked :
      (p q : Parsing) (r : GrblResponse)
      → weight r.rtype ≡ 1
      → r.pending ≡ carried r.rtype p.inner.pending
      → q.responses ≡ p.responses ++ r ∷ []
      → q.inner.pending ≡ drop 1 p.inner.pending
      → IsAccounted q.inner
      → q.inner.rx_size ≡ p.inner.rx_size
      → q.inner.acked_since_flush ≡ true
      → q.inner.drained_since_flush ≡ (p.inner.drained_since_flush || is_empty q.inner.pending)
      → Tracks s p
      → Tracks s q
  Tracks-acked p q r w c e d a z f g t = record {
    dropped =
        rw
          (
            e,
            ack_count-append p.responses r,
            w,
            d,
            t.dropped,
            drop-drop (ack_count p.responses) 1 s.pending,
          )
          refl;
    accounted = a;
    in_order = rw e (InOrder-append s.pending p.responses r t.in_order (rw (← t.dropped) c));
    same_size = z ∙ t.same_size;
    acked = rw e (ground (arith, ack_count-append p.responses r));
    emptied = rw e (ground (arith, ack_count-append p.responses r, is_empty-tail p.inner.pending));
  }

  Tracks-push_ok : (p : Parsing) → Tracks s p → Tracks s (push_ok p)
  unfolding push_ok
  Tracks-push_ok p t =
      let (pending, size, _, drained, _) = ack_ok_locked-fields p.inner in
      Tracks-acked p (push_ok p)
        (record {
          rtype = GrblResponseType.ok;
          text = codes "ok";
          pending = (ack_ok_locked p.inner).0;
        })
        refl (carried-ok p.inner) refl pending (ack_ok_locked-IsAccounted p.inner t.accounted) size
        refl (rw drained refl) t

  Tracks-push_error : (p : Parsing) (text : Text) → Tracks s p → Tracks s (push_error p text)
  unfolding push_error
  Tracks-push_error p text t =
      let (pending, size, _, drained, _) = ack_ok_locked-fields p.inner in
      Tracks-acked p (push_error p text)
        (record { rtype = GrblResponseType.error; text = text; pending = none }) refl refl refl
        pending (ack_ok_locked-IsAccounted p.inner t.accounted) size refl (rw drained refl) t

  Tracks-push_line : (p : Parsing) (text : Text) → Tracks s p → Tracks s (push_line p text)
  unfolding push_line
  Tracks-push_line p text t =
      let r : GrblResponse = record {
        rtype = GrblResponseType.line;
        text = text;
        pending = none;
      } in
      let same : ack_count (p.responses ++ r ∷ []) ≡ ack_count p.responses =
        omega (arith, ack_count-append p.responses r) in
      record {
        dropped = rw same t.dropped;
        accounted = t.accounted;
        in_order = InOrder-append s.pending p.responses r t.in_order refl;
        same_size = t.same_size;
        acked = rw same t.acked;
        emptied = rw same t.emptied;
      }

  Tracks-set_buffer : (p : Parsing) (buf : Bytes) → Tracks s p → Tracks s (set_buffer p buf)
  Tracks-set_buffer p buf t = record {
    dropped = t.dropped;
    accounted = t.accounted;
    in_order = t.in_order;
    same_size = t.same_size;
    acked = t.acked;
    emptied = t.emptied;
  }

  Tracks-Keeps : Keeps (Tracks s)
  Tracks-Keeps = record {
    on_cut = Tracks-set_buffer;
    on_ok = Tracks-push_ok;
    on_error = Tracks-push_error;
    on_line = Tracks-push_line;
  }

  Tracks-received : (input : Bytes) → IsAccounted s → Tracks s (received s input)
  Tracks-received input h = record {
    dropped = refl;
    accounted = h;
    in_order = tt;
    same_size = refl;
    acked = ground arith;
    emptied = ground arith;
  }

-- Whatever bytes arrive, and whatever the regex finds: the queue loses exactly one command, from
-- its front, for each `ok` or error response; each `ok` carries the command that it acknowledges
-- and errors and lines carry none; the byte counter stays the sum over the queue; the RX size is
-- left alone; `acked_since_flush` is raised by an acknowledgement, and `drained_since_flush` by one
-- that leaves the queue empty in the end, and neither is lowered.
pub parse_incoming-Tracks :
    (find_ok : Bytes → Option (ℕ × ℕ)) (s : FlowInner) (input : Bytes)
    → IsAccounted s
    → Tracks s (parse_incoming find_ok s input)
parse_incoming-Tracks find_ok s input h =
    Emits-invariant (Tracks s) (Tracks-Keeps s) (parse_incoming-Emits find_ok s input)
      (Tracks-received s input h)

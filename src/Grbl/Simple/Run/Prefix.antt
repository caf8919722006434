-- ===== src/Grbl/Simple/Run/Prefix.antt =====
-- src/grbl/simple.rs: what a job sends is the start of its script, however it ends.
use raydriver.Base.{
  ℕ, ◌+◌, ◌≡◌, ◌⊎◌, ap, ◌∙◌, inl, inr, sym, false, List, [], ◌∷◌, ◌++◌, ++_assoc, Option, is_empty,
  is_some,
}
use raydriver.Base.Int.{ℤ}
use raydriver.Device.{F64}
use raydriver.Grbl.Simple.{SimpleCore}
use raydriver.Grbl.Simple.Exchange.{World, ping_pong}
use raydriver.Grbl.Simple.Run.{Progress, must_stop, code_of, report_op, run_lines}
use raydriver.Grbl.Simple.Run.Order.{
  Said, said, script, news, next_last, Says, IsQuiet, Says-report_op, Says-ping_pong, line_cases,
}
use raydriver.Session.{ok_not_err}
use raydriver.Text.Regex.{Regex}
use raydriver.Text.Utf8.{Text}

-- The first list is the start of the second.
abbrev pub Start : List Said → List Said → Type 0
Start xs ys = (rest : List Said) × (xs ++ rest ≡ ys)

Start-append : {xs ys : List Said} (more : List Said) → xs ≡ ys → Start xs (ys ++ more)
Start-append more e = (more, ap (λ l. l ++ more) e)

-- The parts of a script behind a log, put together in either way.
pub regroup :
    (log told : List Said) (line : Said) (others : List Said)
    → ((log ++ told) ++ line ∷ []) ++ others ≡ log ++ (told ++ line ∷ others)
regroup log told line others =
    ++_assoc (log ++ told) (line ∷ []) others ∙ ++_assoc log told (line ∷ others)

module _ {F : F64} where
  either :
      {s : SimpleCore F} {E : Type 0} {log log' : List Said} {last : ℤ}
      → (Says s log last × E) ⊎ Says s log' last
      → Says s log last ⊎ Says s log' last
  either (inl (h, e)) = inl h
  either (inr h) = inr h

  -- Where the loop ends behind an exchange.
  Start-exchange :
      {s : SimpleCore F} {last : ℤ} (log told : List Said) (line : Said) (others : List Said)
      → Says s (log ++ told) last ⊎ Says s ((log ++ told) ++ line ∷ []) last
      → Start (said s.events) (log ++ (told ++ line ∷ others))
  Start-exchange log told line others (inl h) =
      rw⁻¹ (++_assoc log told (line ∷ others)) (Start-append (line ∷ others) h.log_is)
  Start-exchange log told line others (inr h) =
      rw⁻¹ (regroup log told line others) (Start-append others h.log_is)

module _ {F : F64} (re : Regex) (world : World F) (quiet : IsQuiet world) where
  -- However the other tasks read and answer, and however the loop ends: what it has sent and told is
  -- the start of its script, each line with code in order, behind its operation where that differs
  -- from the last one told.
  pub run_lines-Start :
      (lines : List Text) (op_map : ℕ → Option ℤ) (line_idx : ℕ) (p : Progress F) (log : List Said)
      (last : ℤ)
      → Says p.core log last
      → Start
          (said (run_lines F re world op_map line_idx p lines).core.events)
          (log ++ script re op_map line_idx last lines)
  unfolding run_lines script
  run_lines-Start [] op_map line_idx p log last h = Start-append [] h.log_is
  run_lines-Start (raw_line ∷ rest) op_map line_idx p log last h =
      let line = code_of re raw_line in
      let op = op_map line_idx in
      let told = Says-report_op op h in
      let exchange = ping_pong F world (report_op F p.core op) line in
      let whole = log ++ script re op_map line_idx last (raw_line ∷ rest) in
      let others = script re op_map (line_idx + 1) (next_last last op) rest in
      let exchanged = Says-ping_pong world quiet line told in
      let ended : is_empty line ≡ false → Start (said exchange.0.events) whole =
        λ e. rw e (Start-exchange log (news last op) (Said.sent line) others (either exchanged)) in
      line_cases (λ q. Start (said q.core.events) whole) (must_stop F p.core) (is_empty line)
        exchange.1 (is_some exchange.0.job_exception) (λ stop. Start-append _ h.log_is)
        (λ e. rw e (run_lines-Start rest op_map (line_idx + 1) p log last h))
        (λ e error failed. ended e) (λ e failed. ended e)
        (λ e reply acked. elim exchanged [
          | inl (unsent, (error, failed)) ↦ ok_not_err acked failed
          | inr sent ↦
              rw (e, sym (regroup log (news last op) (Said.sent line) others))
                (run_lines-Start rest op_map (line_idx + 1) _ _ (next_last last op)
                  (quiet.waiting _ _ _ sent))
        ])

-- ===== src/Marlin/Session/Receive/Queue.antt =====
-- src/marlin/session.rs: which command the received lines reach.
use raydriver.Base.{length}
use raydriver.Base.{
  ℕ, ◌≡◌, refl, ap, ◌∙◌, sym, inl, inr, Bool, true, false, ◌||◌, List, [], ◌∷◌, some, Option-cases,
  if◌then◌else◌, modify, modify-modify, modify-identity,
}
use raydriver.Device.{F64, DeviceError}
use raydriver.Marlin.Parser.{is_ok, is_error, is_m114_position, parse_m114_line}
use raydriver.Marlin.Session.{PendingCmd, add_line, finish, MarlinCore, emit}
use raydriver.Marlin.Session.Receive.{
  maybe_announce_handshake, finish_pending, set_first_error, reported_error, handle_error_line,
  handle_position_report, handle_line, handle_lines,
}
use raydriver.Session.{Event}
use raydriver.Text.Regex.{Regex}
use raydriver.Text.Unicode.{Unicode}
use raydriver.Text.Utf8.{Text}
use raydriver.Marlin.Session.Receive.Front.{
  hear, hear_all, unless_finished, Changes, Leaves, Leaves-if, Changes-if, Changes-then,
  Changes-behind, finish_pending-Changes, collect_for_pending-Changes,
}

-- `hear`, by the tests of the handler.
hear_by_tests :
    (F : F64) (re : Regex) (unicode : Unicode) (line : Text) (p : PendingCmd)
    → (if is_ok unicode line
          then unless_finished (λ q. finish (add_line line q))
          else if is_error line
          then unless_finished (λ q. finish (add_line line q))
          else if is_m114_position F re line
          then unless_finished (add_line line)
          else unless_finished (add_line line))
        p
      ≡ hear unicode line p
unfolding hear
hear_by_tests F re unicode line p =
    tests (is_ok unicode line) (is_error line) (is_m114_position F re line)
  where
    tests :
        (acked failed position : Bool)
        → (if acked
              then unless_finished (λ q. finish (add_line line q))
              else if failed
              then unless_finished (λ q. finish (add_line line q))
              else if position
              then unless_finished (add_line line)
              else unless_finished (add_line line))
            p
          ≡ (if p.finished
              then p
              else if acked || failed
              then finish (add_line line p)
              else add_line line p)
    tests true failed position = refl
    tests false true position = refl
    tests false false true = refl
    tests false false false = refl

module _ {F : F64} where
  maybe_announce_handshake-Leaves :
      (s : MarlinCore F) (line : Text)
      → Leaves s (emit F (maybe_announce_handshake F s line) (Event.raw_rx line))
  unfolding maybe_announce_handshake
  maybe_announce_handshake-Leaves s line = told (
      Leaves-if s.handshake_received (record { commands_are = refl; queue_is = refl })
        (record { commands_are = refl; queue_is = refl }))
    where
      told : {t : MarlinCore F} → Leaves s t → Leaves s (emit F t (Event.raw_rx line))
      told h = record { commands_are = h.commands_are; queue_is = h.queue_is }

  set_first_error-Leaves :
      (s : MarlinCore F) (error : DeviceError) → Leaves s (set_first_error F s error)
  unfolding set_first_error
  set_first_error-Leaves s error = elim (Option-cases s.state.error) [
    | inl e ↦ rw (e, set_first_error) (record { commands_are = refl; queue_is = refl })
    | inr (first, e) ↦ rw (e, set_first_error) (record { commands_are = refl; queue_is = refl })
  ]

  module _ (unicode : Unicode) (re : Regex) where
    handle_error_line-Changes :
        (s : MarlinCore F) (line : Text)
        → Changes s
            (unless_finished (λ p. finish (add_line line p)))
            (handle_error_line F unicode re s line)
    unfolding handle_error_line
    handle_error_line-Changes s line =
        let failed = set_first_error F s (reported_error F unicode re line) in
        let answered = finish_pending F failed (some line) in
        Changes-then
          (Changes-behind (set_first_error-Leaves s (reported_error F unicode re line))
            (finish_pending-Changes failed line))
          (Leaves-if answered.job_running (record { commands_are = refl; queue_is = refl })
            (record { commands_are = refl; queue_is = refl }))

    handle_position_report-Leaves :
        (s : MarlinCore F) (line : Text) → Leaves s (handle_position_report F unicode re s line)
    unfolding handle_position_report
    handle_position_report-Leaves s line = elim (Option-cases (parse_m114_line F re line)) [
      | inl e ↦ rw (e, handle_position_report) (record { commands_are = refl; queue_is = refl })
      | inr ((x, y, z), e) ↦
          rw (e, handle_position_report) (record { commands_are = refl; queue_is = refl })
    ]

    handle_line-Changes :
        (s : MarlinCore F) (line : Text)
        → Changes s (hear unicode line) (handle_line F unicode re s line)
    unfolding handle_line
    handle_line-Changes s line =
        let told = emit F (maybe_announce_handshake F s line) (Event.raw_rx line) in
        let positioned = handle_position_report F unicode re told line in
        let by_tests = Changes-behind (maybe_announce_handshake-Leaves s line) (
          Changes-if (is_ok unicode line) (finish_pending-Changes told line) (
            Changes-if (is_error line) (handle_error_line-Changes told line) (
              Changes-if (is_m114_position F re line)
                (Changes-behind (handle_position_report-Leaves told line)
                  (collect_for_pending-Changes positioned line))
                (collect_for_pending-Changes told line)))) in
        record {
          commands_are = λ i later e.
              by_tests.commands_are i later e
              ∙ ap (λ f. modify i f s.commands) (λ j. λ p. hear_by_tests F re unicode line p j);
          queue_is = by_tests.queue_is;
          count_is = by_tests.count_is;
        }

    pub handle_lines-count :
        (lines : List Text) (s : MarlinCore F)
        → length (handle_lines F unicode re s lines).commands ≡ length s.commands
    unfolding handle_lines
    handle_lines-count [] s = refl
    handle_lines-count (line ∷ rest) s =
        handle_lines-count rest (handle_line F unicode re s line)
        ∙ (handle_line-Changes s line).count_is

    pub handle_lines-queue :
        (lines : List Text) (s : MarlinCore F)
        → (handle_lines F unicode re s lines).pending_queue ≡ s.pending_queue
    unfolding handle_lines
    handle_lines-queue [] s = refl
    handle_lines-queue (line ∷ rest) s =
        handle_lines-queue rest (handle_line F unicode re s line)
        ∙ (handle_line-Changes s line).queue_is

    -- The lines of a read all go to the command at the front of the queue, and to no other: up to its
    -- acknowledgement or its error, both of which are among its lines. The queue stays as it is, so a
    -- command behind the front hears nothing, not even a second acknowledgement of the same read.
    pub handle_lines-commands :
        (lines : List Text) (s : MarlinCore F) (i : ℕ) (later : List ℕ)
        → s.pending_queue ≡ i ∷ later
        → ((handle_lines F unicode re s lines).commands
            ≡ modify i (hear_all unicode lines) s.commands)
          × ((handle_lines F unicode re s lines).pending_queue ≡ i ∷ later)
    unfolding handle_lines hear_all
    handle_lines-commands [] s i later e = (sym (modify-identity i s.commands), e)
    handle_lines-commands (line ∷ rest) s i later e =
        let first = handle_line-Changes s line in
        let (commands_are, queue_is) =
          handle_lines-commands rest (handle_line F unicode re s line) i later
            (first.queue_is ∙ e) in
        (
          commands_are
              ∙ ap (modify i (hear_all unicode rest)) (first.commands_are i later e)
              ∙ modify-modify i (hear unicode line) (hear_all unicode rest) s.commands,
          queue_is,
        )

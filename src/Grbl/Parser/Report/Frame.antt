-- ===== src/Grbl/Parser/Report/Frame.antt =====
-- src/grbl/parser.rs: what a status report leaves alone.
use raydriver.Base.{
  ◌≡◌, refl, ◌∙◌, ◌⊎◌, inl, inr, Bool, true, false, List, [], ◌∷◌, Option, none, some,
  if◌then◌else◌, Option-cases, Bool-cases,
}
use raydriver.Base.Int.{ℤ}
use raydriver.Device.{F64, DeviceStatus, DeviceState}
use raydriver.Grbl.Parser.Report.{
  parse_status_part, Scan, read_attribute, read_attributes, read_status, recalculated, read_parts,
  inner_part, parse_state, scanning, non_empty, to_mm, is_alarm, splitn_2, set_feed, set_buffers,
  parse_position_attribute, parse_feed_rate, parse_buffer_state,
}
use raydriver.Device.Status.{from_name}
use raydriver.Text.Affix.{split, starts_with}
use raydriver.Text.Regex.{Regex}
use raydriver.Text.Utf8.{Text, codes}

module _ (F : F64) (re : Regex) where
  -- The fields that the attributes of a report do not touch.
  record SameHead (s t : DeviceState F) : Type 0 where
    status : t.status ≡ s.status
    error : t.error ≡ s.error
    spindle : t.spindle_speed ≡ s.spindle_speed

  SameHead-refl : (s : DeviceState F) → SameHead s s
  SameHead-refl s = record { status = refl; error = refl; spindle = refl }

  SameHead-trans : {s t u : DeviceState F} → SameHead s t → SameHead t u → SameHead s u
  SameHead-trans f g = record {
    status = g.status ∙ f.status;
    error = g.error ∙ f.error;
    spindle = g.spindle ∙ f.spindle;
  }

  set_feed-SameHead : (s : Scan F re) (o : Option ℤ) → SameHead s.state (set_feed F re s o).state
  set_feed-SameHead s none = SameHead-refl s.state
  set_feed-SameHead s (some rate) = record { status = refl; error = refl; spindle = refl }

  set_buffers-SameHead :
      (s : Scan F re) (o : Option (ℤ × ℤ)) → SameHead s.state (set_buffers F re s o).state
  set_buffers-SameHead s none = SameHead-refl s.state
  set_buffers-SameHead s (some (a, b)) = record { status = refl; error = refl; spindle = refl }

  read_attribute-SameHead :
      (s : Scan F re) (attrib : Text) → SameHead s.state (read_attribute F re s attrib).state
  unfolding read_attribute
  read_attribute-SameHead s attrib =
      elim (Option-cases (parse_position_attribute F re attrib (codes "MPos"))) [
        | inr (p, e) ↦
            rw (e, read_attribute) (record { status = refl; error = refl; spindle = refl })
        | inl e ↦
            rw (e, read_attribute)
              (elim (Option-cases (parse_position_attribute F re attrib (codes "WPos"))) [
                | inr (p, e') ↦ rw e' (record { status = refl; error = refl; spindle = refl })
                | inl e' ↦
                    rw e'
                      (elim (Option-cases (parse_position_attribute F re attrib (codes "WCO"))) [
                        | inr (p, e'') ↦
                            rw e'' (record { status = refl; error = refl; spindle = refl })
                        | inl e'' ↦ rw e'' (elim (Bool-cases (starts_with (codes "FS:") attrib)) [
                          | inl h ↦ rw h (set_feed-SameHead s (parse_feed_rate F re attrib))
                          | inr h ↦ rw h (elim (Bool-cases (starts_with (codes "Bf:") attrib)) [
                            | inl k ↦ rw k (set_buffers-SameHead s (parse_buffer_state F re attrib))
                            | inr k ↦ rw k (SameHead-refl s.state)
                          ])
                        ])
                      ])
              ])
      ]

  read_attributes-SameHead :
      (attribs : List Text) (s : Scan F re)
      → SameHead s.state (read_attributes F re s attribs).state
  unfolding read_attributes
  read_attributes-SameHead [] s = SameHead-refl s.state
  read_attributes-SameHead (attrib ∷ rest) s =
      SameHead-trans (read_attribute-SameHead s attrib)
        (read_attributes-SameHead rest (read_attribute F re s attrib))

  recalculated-SameHead : (s : Scan F re) → SameHead s.state (recalculated F re s)
  unfolding recalculated
  recalculated-SameHead s = record { status = refl; error = refl; spindle = refl }

  to_mm-SameHead : (inches : Bool) (s : Scan F re) → SameHead s.state (to_mm F re inches s).state
  to_mm-SameHead true s = record { status = refl; error = refl; spindle = refl }
  to_mm-SameHead false s = SameHead-refl s.state

  finished-SameHead :
      (inches : Bool) (s : Scan F re) → SameHead s.state (recalculated F re (to_mm F re inches s))
  finished-SameHead inches s =
      SameHead-trans (to_mm-SameHead inches s) (recalculated-SameHead (to_mm F re inches s))

  -- What the status part may do: an error comes with an alarm only.
  record HeadOf (s t : DeviceState F) : Type 0 where
    error : (t.error ≡ s.error) ⊎ (t.status ≡ DeviceStatus.alarm)
    spindle : t.spindle_speed ≡ s.spindle_speed

  suffix_of_alarm :
      (part code : Text)
      → (parse_status_part part).1 ≡ some code
      → (parse_status_part part).0 ≡ DeviceStatus.alarm
  unfolding parse_status_part
  suffix_of_alarm part code e = by_status (from_name (splitn_2 part).0) e
    where
      by_status :
          (status : DeviceStatus)
          → (if is_alarm status then (splitn_2 part).1 else none) ≡ some code
          → status ≡ DeviceStatus.alarm
      by_status DeviceStatus.alarm h = refl
      by_status _ h = cc

  read_status-HeadOf : (s : DeviceState F) (part : Text) → HeadOf s (read_status F re s part)
  unfolding read_status
  read_status-HeadOf s part = elim (Option-cases (parse_status_part part).1) [
    | inl e ↦ rw (e, read_status) (record { error = inl refl; spindle = refl })
    | inr (code, e) ↦
        rw (e, read_status) (record { error = inr (suffix_of_alarm part code e); spindle = refl })
  ]

  HeadOf-same : {s t u : DeviceState F} → HeadOf s t → SameHead t u → HeadOf s u
  HeadOf-same h g = record {
    error = elim h.error [ inl e ↦ inl (g.error ∙ e) | inr a ↦ inr (g.status ∙ a) ];
    spindle = g.spindle ∙ h.spindle;
  }

  read_parts-HeadOf :
      (s : DeviceState F) (inches : Bool) (parts : List Text)
      → HeadOf s (read_parts F re s inches parts)
  unfolding read_parts
  read_parts-HeadOf s inches [] =
      HeadOf-same (record { error = inl refl; spindle = refl })
        (finished-SameHead inches (scanning F re s))
  read_parts-HeadOf s inches (part ∷ attribs) =
      let read = read_attributes F re (scanning F re (read_status F re s part)) attribs in
      HeadOf-same (read_status-HeadOf s part) (
        SameHead-trans (read_attributes-SameHead attribs (scanning F re (read_status F re s part)))
          (finished-SameHead inches read))

  parse_state-HeadOf :
      (report : Text) (default : DeviceState F) (inches : Bool)
      → HeadOf default (parse_state F re report default inches)
  unfolding parse_state
  parse_state-HeadOf report default inches = elim (Option-cases (inner_part F re report)) [
    | inl e ↦ rw (e, parse_state) (record { error = inl refl; spindle = refl })
    | inr (inner, e) ↦
        rw (e, parse_state) (read_parts-HeadOf default inches (non_empty (split b'|' inner)))
  ]

  -- Whatever the text and the regex engine: a status report changes the error only together with
  -- the status `Alarm`, so neither the sub-state of `Hold:0` nor that of `Door:1` is one; and it
  -- never changes the spindle speed, though an `FS:` attribute reports that too.
  pub parse_state_frame :
      (report : Text) (default : DeviceState F) (inches : Bool)
      → (((parse_state F re report default inches).error ≡ default.error)
          ⊎ ((parse_state F re report default inches).status ≡ DeviceStatus.alarm))
        × ((parse_state F re report default inches).spindle_speed ≡ default.spindle_speed)
  parse_state_frame report default inches =
      let h = parse_state-HeadOf report default inches in (h.error, h.spindle)

-- ===== src/Grbl/Errors/Codes.antt =====
-- src/grbl/errors.rs: the code that an error carries.
use raydriver.Base.{
  ℕ, ◌≡◌, refl, ◌∙◌, inl, inr, Bool, true, ◌&&◌, List, [], ◌∷◌, Option, none, some, arith, ◌+◌,
  ◌==◌, leb, ltb, length, is_some, Option-cases,
}
use raydriver.Base.Int.{ℤ, pos, negsuc}
use raydriver.Device.{DeviceError}
use raydriver.Grbl.Errors.{
  grbl_error_for_code, grbl_alarm_for_code, error_code_to_device_error, alarm_code_to_device_error,
}
use raydriver.Grbl.Errors.AlarmTable.{alarm_arms}
use raydriver.Grbl.Errors.Arms.{Arm, match_arms, match_code}
use raydriver.Grbl.Errors.ErrorTable.{error_arms}
use raydriver.Text.Number.{parse_i32}
use raydriver.Text.Utf8.{Text}

-- Each arm builds an error with the code that it matches.
all_agree : List Arm → Bool
all_agree [] = true
all_agree (a ∷ arms) = a.matches == a.code && all_agree arms

match_arms-code :
    (arms : List Arm) (n : ℕ) (e : DeviceError)
    → all_agree arms ≡ true
    → match_arms arms n ≡ some e
    → e.code ≡ pos n
unfolding match_arms all_agree
match_arms-code [] n e h m = cc
match_arms-code (a ∷ arms) n e h m = ground (arith, match_arms-code arms n e)

match_code-code :
    (arms : List Arm) (code : ℤ) {e : DeviceError}
    → all_agree arms ≡ true
    → match_code arms code ≡ some e
    → e.code ≡ code
unfolding match_code
match_code-code arms (pos n) {e = found} h e = match_arms-code arms n found h e
match_code-code arms (negsuc n) h e = cc

-- The code that a text stands for, -1 where it stands for none.
abbrev pub code_or_minus_one : Option ℤ → ℤ
code_or_minus_one none = negsuc 0
code_or_minus_one (some code) = code

error_arms_agree : all_agree error_arms ≡ true
unfolding all_agree error_arms
error_arms_agree = refl

alarm_arms_agree : all_agree alarm_arms ≡ true
unfolding all_agree alarm_arms
alarm_arms_agree = refl

pub grbl_error_for_code-code :
    (code : ℤ) {e : DeviceError} → grbl_error_for_code code ≡ some e → e.code ≡ code
unfolding grbl_error_for_code
grbl_error_for_code-code code h = match_code-code error_arms code error_arms_agree h

pub grbl_alarm_for_code-code :
    (code : ℤ) {e : DeviceError} → grbl_alarm_for_code code ≡ some e → e.code ≡ code
unfolding grbl_alarm_for_code
grbl_alarm_for_code-code code h = match_code-code alarm_arms code alarm_arms_agree h

error_code_to_device_error-code :
    (text : Text) → (error_code_to_device_error text).code ≡ code_or_minus_one (parse_i32 text)
unfolding error_code_to_device_error
error_code_to_device_error-code text = elim (Option-cases (parse_i32 text)) [
  | inl e ↦ rw (e, error_code_to_device_error) refl
  | inr (code, e) ↦ elim (Option-cases (grbl_error_for_code code)) [
    | inl unlisted ↦ rw (e, error_code_to_device_error, unlisted) refl
    | inr (found, listed) ↦
        rw (e, error_code_to_device_error, listed) (grbl_error_for_code-code code listed)
  ]
]

alarm_code_to_device_error-code :
    (text : Text) → (alarm_code_to_device_error text).code ≡ code_or_minus_one (parse_i32 text)
unfolding alarm_code_to_device_error
alarm_code_to_device_error-code text = elim (Option-cases (parse_i32 text)) [
  | inl e ↦ rw (e, alarm_code_to_device_error) refl
  | inr (code, e) ↦ elim (Option-cases (grbl_alarm_for_code code)) [
    | inl unlisted ↦ rw (e, alarm_code_to_device_error, unlisted) refl
    | inr (found, listed) ↦
        rw (e, alarm_code_to_device_error, listed) (grbl_alarm_for_code-code code listed)
  ]
]

-- The error made from a reply, be it an error or an alarm, listed in the table or not, carries the
-- number that the reply holds, and -1 where that does not parse as an `i32`.
pub device_error-code :
    (text : Text)
    → ((error_code_to_device_error text).code ≡ code_or_minus_one (parse_i32 text))
      × ((alarm_code_to_device_error text).code ≡ code_or_minus_one (parse_i32 text))
device_error-code text =
    (error_code_to_device_error-code text, alarm_code_to_device_error-code text)

-- The arms match the numbers from `low` up, in order.
consecutive : ℕ → List Arm → Bool
consecutive low [] = true
consecutive low (a ∷ arms) = a.matches == low && consecutive (low + 1) arms

match_arms-consecutive :
    (arms : List Arm) (low n : ℕ)
    → consecutive low arms ≡ true
    → is_some (match_arms arms n) ≡ (leb low n && ltb n (low + length arms))
unfolding match_arms consecutive
match_arms-consecutive [] low n h = ground arith
match_arms-consecutive (a ∷ arms) low n h = ground (arith, match_arms-consecutive arms (low + 1) n)

error_arms-consecutive : consecutive 1 error_arms ≡ true
unfolding consecutive error_arms
error_arms-consecutive = refl

alarm_arms-consecutive : consecutive 1 alarm_arms ≡ true
unfolding consecutive alarm_arms
alarm_arms-consecutive = refl

-- The tables have an entry for exactly the error codes 1 to 38 and the alarm codes 1 to 10.
pub listed_codes :
    (n : ℕ)
    → (is_some (grbl_error_for_code (pos n)) ≡ (leb 1 n && leb n 38))
      × (is_some (grbl_alarm_for_code (pos n)) ≡ (leb 1 n && leb n 10))
unfolding grbl_error_for_code grbl_alarm_for_code
listed_codes n = (
  match_arms-consecutive error_arms 1 n error_arms-consecutive ∙ ground arith,
  match_arms-consecutive alarm_arms 1 n alarm_arms-consecutive ∙ ground arith,
)

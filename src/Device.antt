-- ===== src/Device.antt =====
-- src/core/types.rs: the device's statuses, errors and state. `f64` and what the program does with
-- one are the record `F64`, of which nothing is assumed but where a theorem says so.
pub mod Status
pub mod Equal
pub mod Sample
use raydriver.Base.{ℕ, Bool, ◌&&◌, List, [], ◌∷◌, Option, none, some, map}
use raydriver.Base.Int.{ℤ}
use raydriver.Text.Utf8.{Text}

pub record F64 : Type 1 where
  pub Float : Type 0
  pub zero_point_zero : Float
  pub one_point_one : Float
  pub epsilon : Float
  pub mm_per_inch : Float
  pub add : Float → Float → Float
  pub sub : Float → Float → Float
  pub mul : Float → Float → Float
  pub abs : Float → Float
  pub less : Float → Float → Bool
  pub equals : Float → Float → Bool
  pub is_whole_below_1e16 : Float → Bool
  pub as_i64 : Float → ℤ
  pub of_i64 : ℤ → Float
  pub parse : Text → Option Float
  pub display : Float → Text
  pub display_digits : ℕ → Float → Text

pub data DeviceStatus : Type 0 where
  unknown idle run hold jog alarm door check home sleep tool queue lock unlock cycle test :
      DeviceStatus

pub data TransportStatus : Type 0 where
  unknown idle connecting connected error closing disconnected sleeping : TransportStatus

pub data UnitSystem : Type 0 where
  metric imperial : UnitSystem

pub record DeviceError : Type 0 where
  pub code : ℤ
  pub title : Text
  pub description : Text

module _ (F : F64) where
  open F use {Float, zero_point_zero, mm_per_inch, mul}

  abbrev pub Pos : Type 0
  Pos = List (Option Float)

  pub record DeviceState : Type 0 where
    pub status : DeviceStatus
    pub error : Option DeviceError
    pub machine_pos : List (Option Float)
    pub work_pos : List (Option Float)
    pub wco : List (Option Float)
    pub feed_rate : Option ℤ
    pub spindle_speed : Option ℤ
    pub buffer_available : Option ℤ
    pub buffer_rx_available : Option ℤ

  unfoldable pub default_state : DeviceState
  default_state = record {
    status = DeviceStatus.unknown;
    error = none;
    machine_pos = none ∷ none ∷ none ∷ [];
    work_pos = none ∷ none ∷ none ∷ [];
    wco = some zero_point_zero ∷ some zero_point_zero ∷ some zero_point_zero ∷ [];
    feed_rate = none;
    spindle_speed = none;
    buffer_available = none;
    buffer_rx_available = none;
  }

  unfoldable pub inches_to_mm : Float → Float
  inches_to_mm v = mul v mm_per_inch

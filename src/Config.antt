-- ===== src/Config.antt =====
-- src/pactix/config.py. A `timedelta` is its microseconds; a `float` is a value of a type `F`, whose
-- operations stand in `Float`.
use pactix.Prelude.{
  ℕ, ◌+◌, some, ◌≤◌, ◌≡◌, refl, Bool, true, false, Option, String, str_eq, if◌then◌else◌, Result,
  ok, err, validation_error, arith, eq_iff,
}
use Prim.Native.String.{◌++◌}

-- A `timedelta` that may be negative: so many microseconds ahead, less so many behind.
pub record TimeDelta : Type 0 where
  pub ahead : ℕ
  pub behind : ℕ

abbrev pub positive : ℕ → TimeDelta
positive d = record { ahead = d; behind = 0 }

-- The part of Python's float arithmetic that the program uses, over the floats other than NaN.
pub record Float (F : Type 0) : Type 0 where
  pub total_seconds : ℕ → F  -- timedelta.total_seconds()
  pub from_seconds : F → TimeDelta  -- timedelta(seconds=x)
  pub mul : F → F → F
  pub pow : F → ℕ → Option F  -- x ** n; `none` is an OverflowError
  pub inf : F
  pub lt : F → F → Bool

-- `timedelta` keeps every duration below 2 ** 53 microseconds exactly, and rounds monotonically; powers
-- and products of floats that are not negative are not negative.
pub record IsFloat {F : Type 0} (float : Float F) : Type 0 where
  pub round_trip :
      (d : ℕ) → d ≤ 9007199254740992 → float.from_seconds (float.total_seconds d) ≡ positive d
  pub monotone :
      (x y : F)
      → float.lt y x ≡ false
      → (float.from_seconds x).ahead + (float.from_seconds y).behind
        ≤ (float.from_seconds y).ahead + (float.from_seconds x).behind
  pub asymmetric : (x y : F) → float.lt x y ≡ true → float.lt y x ≡ false
  pub below_inf : (d : ℕ) → float.lt (float.total_seconds d) float.inf ≡ true
  pub seconds-nonnegative :
      (d : ℕ) → float.lt (float.total_seconds d) (float.total_seconds 0) ≡ false
  pub mul-nonnegative :
      (x y : F)
      → float.lt x (float.total_seconds 0) ≡ false
      → float.lt y (float.total_seconds 0) ≡ false
      → float.lt (float.mul x y) (float.total_seconds 0) ≡ false
  pub pow-nonnegative :
      (x y : F) (n : ℕ)
      → float.lt x (float.total_seconds 0) ≡ false
      → float.pow x n ≡ some y
      → float.lt y (float.total_seconds 0) ≡ false

-- `min(x, y)`: the first unless the second is smaller.
unfoldable pub float_min : {F : Type 0} → Float F → F → F → F
float_min float x y = if float.lt y x then y else x

pub record RetryPolicy (F : Type 0) : Type 0 where
  pub max_attempts : ℕ
  pub initial_interval : ℕ
  pub max_interval : ℕ
  pub multiplier : F
  pub jitter_factor : F

pub data NotifyMode : Type 0 where
  trigger coalesced off : NotifyMode

unfoldable pub as_str : NotifyMode → String
as_str trigger = "trigger"
as_str coalesced = "coalesced"
as_str off = "off"

unfoldable pub from_str : String → Result NotifyMode
from_str value =
    if str_eq value "trigger"
    then ok trigger
    else if str_eq value "coalesced"
    then ok coalesced
    else if str_eq value "off"
    then ok off
    else err (validation_error ("unknown notify mode '" ++ value ++ "'"))

pub record WakeupPolicy (F : Type 0) : Type 0 where
  pub enabled : Bool
  pub notify_mode : NotifyMode
  pub channel : String
  pub coalesce_interval : ℕ
  pub fallback_initial_interval : ℕ
  pub fallback_max_interval : ℕ
  pub fallback_multiplier : F

pub record PactixConfig (F : Type 0) : Type 0 where
  pub outbox_batch_size : ℕ
  pub inbox_batch_size : ℕ
  pub outbox_poll_interval : ℕ
  pub inbox_poll_interval : ℕ
  pub lease_duration : ℕ
  pub retry_policy : RetryPolicy F
  pub wakeup : WakeupPolicy F

-- The defaults, given the three floats that they name.
abbrev pub default_retry_policy : {F : Type 0} → F → F → RetryPolicy F
default_retry_policy two quarter = record {
  max_attempts = 10;
  initial_interval = 1_000_000;
  max_interval = 60_000_000;
  multiplier = two;
  jitter_factor = quarter;
}

abbrev pub default_wakeup_policy : {F : Type 0} → F → WakeupPolicy F
default_wakeup_policy two = record {
  enabled = false;
  notify_mode = coalesced;
  channel = "outbox_wake";
  coalesce_interval = 50_000;
  fallback_initial_interval = 1_000_000;
  fallback_max_interval = 60_000_000;
  fallback_multiplier = two;
}

abbrev pub default_config : {F : Type 0} → F → F → PactixConfig F
default_config two quarter = record {
  outbox_batch_size = 100;
  inbox_batch_size = 100;
  outbox_poll_interval = 250_000;
  inbox_poll_interval = 250_000;
  lease_duration = 30_000_000;
  retry_policy = default_retry_policy two quarter;
  wakeup = default_wakeup_policy two;
}

-- Every notify mode is read back from its text.
pub from_str-as_str : (m : NotifyMode) → from_str (as_str m) ≡ ok m
unfolding from_str as_str
from_str-as_str trigger = refl
from_str-as_str coalesced = refl
from_str-as_str off = refl

-- A text that is read as a notify mode is the text of that mode.
as_str-from_str : (s : String) (m : NotifyMode) → from_str s ≡ ok m → as_str m ≡ s
unfolding from_str as_str
as_str-from_str s trigger h =
    ground (arith, eq_iff s "trigger", eq_iff s "coalesced", eq_iff s "off")
as_str-from_str s coalesced h =
    ground (arith, eq_iff s "trigger", eq_iff s "coalesced", eq_iff s "off")
as_str-from_str s off h = ground (arith, eq_iff s "trigger", eq_iff s "coalesced", eq_iff s "off")

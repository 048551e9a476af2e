-- ===== src/TlsStatis.antt =====
-- 722device/statis/tls_statis_rate.c: how many bytes come in and go out in a second.
--
-- A `Meter` is the part of `tls_statis_rate_tx_t` for one direction, or `tls_statis_rate_rx_t`. The functions of a
-- thread take the answers of the clock as arguments. Two of the three rates are computed in double
-- precision, which is a parameter of the model.
pub mod Totals
mod Tests
use ai_coding_for_business.Common.{
  ℕ, ◌+◌, ◌-◌, ◌*◌, ◌/◌, ◌%◌, ◌^◌, Bool, true, false, Option, none, some, List, [], ◌∷◌, ltb,
  if◌then◌else◌,
}

pub record Meter : Type 0 where
  pub bytes : ℕ
  pub rate : ℕ
  pub interval : ℕ
  pub tv_start : ℕ
  pub tv_tick : ℕ

-- A meter as `tls_statis_rate_start` leaves it.
abbrev pub started : Meter
started = record { bytes = 0; rate = 0; interval = 1000; tv_start = 0; tv_tick = 0 }

-- `tls_statis_rate_tx_input`, `tls_statis_rate_tx_output` and `tls_statis_rate_rx`. The meter is `none` while the
-- pointer to it is null.
pub count : Meter → ℕ → Meter
count m n = record m { bytes = (m.bytes + n) % 2 ^ 64 }

pub count_where : Option Meter → ℕ → Option Meter
unfolding count
count_where none n = none
count_where (some m) n = some (count m n)

-- `tls_statis_rate_get_tx_input` and its two kin.
abbrev pub get_rate : Option Meter → ℕ
get_rate none = 0
get_rate (some m) = m.rate

-- The rate of `tsr_tx_output_poll`.
abbrev pub integer_rate : ℕ → ℕ → ℕ
integer_rate bytes interval = bytes * 1000 % 2 ^ 64 / interval

-- `tsr_tx_input_poll`, `tsr_tx_output_poll` and `tsr_rx_thread_poll`, with their ways to compute a rate. The clock is
-- read for the start of the next interval, and then for the tick.
abbrev pub expired : Meter → Bool
expired m = ltb (m.interval * 1000 % 2 ^ 32) ((m.tv_tick + (2 ^ 64 - m.tv_start)) % 2 ^ 64)

abbrev pub reset : (scale : ℕ → ℕ → ℕ) → (first : ℕ) → Meter → Meter
reset scale first m = record m { rate = scale m.bytes m.interval; bytes = 0; tv_start = first }

pub poll : (scale : ℕ → ℕ → ℕ) → (first second : ℕ) → Meter → Meter
poll scale first second m = record (if expired m then reset scale first m else m) {
  tv_tick = second;
}

abbrev pub output_poll : (first second : ℕ) → Meter → Meter
output_poll first second m = poll integer_rate first second m

-- ===== src/Time.antt =====
-- ext/rbkit_time_helper.c: the wall clock. The time of day is what gettimeofday returned; the
-- conversion of the result to a double is the packer's.
use rbkit.Prelude.{ℕ, ◌+◌, ◌*◌, ◌/◌}

pub record Timeval : Type 0 where
  pub tv_sec : ℕ
  pub tv_usec : ℕ

unfoldable pub get_wall_time_in_usec : Timeval → ℕ
get_wall_time_in_usec tv = tv.tv_sec * 1_000_000 + tv.tv_usec

unfoldable pub get_wall_time_in_msec : Timeval → ℕ
get_wall_time_in_msec tv = tv.tv_sec * 1000 + tv.tv_usec / 1000

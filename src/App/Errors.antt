-- ===== src/App/Errors.antt =====
-- The errors of internal/app/, header.go, and those of the builder and of free format. An error that wraps
-- another at an offset is the wrapped one.
use go_dnp.Common.{ℕ}

pub data Error : Type 0 where
  short_fragment truncated fragment_too_large : Error
  bad_qualifier : (octet : ℕ) → Error
  stop_below_start : (stop start : ℕ) → Error
  too_many : (count : ℕ) → Error
  unknown_object : (group variation : ℕ) → Error
  wrong_direction : (func : ℕ) → Error
  header_already_written header_not_written : Error
  object_too_long : (octets : ℕ) → Error
  not_free_format no_object : Error

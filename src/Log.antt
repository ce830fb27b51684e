-- ===== src/Log.antt =====
-- util/log/log.go: where log lines go, in which form and from which level on. zap and lumberjack write
-- them; the functions that only call zap are not modelled.
use cbsignal_redis.Base.{Bool, if◌then◌else◌, Bytes, str, str_eq}
use cbsignal_redis.Base.Int.{ℤ, pos}
use cbsignal_redis.RateLimit.{is_zero}

pub data Level : Type 0 where
  debug_level info_level warn_level error_level fatal_level : Level

-- The settings of lumberjack's file, in megabytes, files and days, or the console.
pub data Writer : Type 0 where
  file_writer : Bytes → ℤ → ℤ → ℤ → Writer
  console_writer : Writer

pub data Encoder : Type 0 where
  console_encoder json_encoder : Encoder

pub record Logger : Type 0 where
  pub encoder : Encoder
  pub writer : Writer
  pub level : Level

unfoldable pub get_log_level : Bytes → Level
get_log_level log_level =
    if str_eq log_level (str "DEBUG")
    then debug_level
    else if str_eq log_level (str "INFO")
    then info_level
    else if str_eq log_level (str "WARN")
    then warn_level
    else if str_eq log_level (str "ERROR")
    then error_level
    else if str_eq log_level (str "FATAL")
    then fatal_level
    else warn_level

unfoldable pub get_encoder : Bool → Encoder
get_encoder text_format = if text_format then console_encoder else json_encoder

unfoldable pub get_file_writer : Bytes → ℤ → ℤ → ℤ → Writer
get_file_writer file_path rotate_size backup_count max_age =
    file_writer file_path rotate_size backup_count (if is_zero max_age then pos 7 else max_age)

unfoldable pub init_logger : Bytes → Bytes → Bool → Bytes → ℤ → ℤ → ℤ → Logger
unfolding get_log_level get_encoder get_file_writer
init_logger writer_type log_level text_format file_path rotate_size backup_count max_age = record {
  encoder = get_encoder text_format;
  writer =
      if str_eq writer_type (str "file")
      then get_file_writer file_path rotate_size backup_count max_age
      else console_writer;
  level = get_log_level log_level;
}

-- ===== src/Logging.antt =====
-- pkg/logging/logging.go: the levels, where lines are written, and the options of the log file. The
-- package's variables are the state; `now` is the time as text and `lower` is strings.ToLower.
pub mod Configured
use multus_cni.Base.{
  ℕ, ◌<◌, String, ◌<>◌, Bool, true, false, ◌||◌, Option, none, some, List, [], ◌∷◌, ◌==◌, ◌!=◌,
  string_eq, nat_eq, if◌then◌else◌, ltb,
}
use multus_cni.Base.Result.{Error, errorf}

pub data Level : Type 0 where
  panic_level error_level verbose_level debug_level max_level unknown_level : Level

-- The number of a level.
unfoldable pub rank : Level → ℕ
rank panic_level = 0
rank error_level = 1
rank verbose_level = 2
rank debug_level = 3
rank max_level = 4
rank unknown_level = 5

-- An `int` of Go, which these options only pass on.
pub data ℤ : Type 0 where
  pos : ℕ → ℤ
  negsuc : ℕ → ℤ

-- What LogOptions gives of the four, as nil or a value.
pub record LogOptions : Type 0 where
  pub max_age : Option ℤ
  pub max_size : Option ℤ
  pub max_backups : Option ℤ
  pub compress : Option Bool

-- The fields of lumberjack.Logger that the source sets.
pub record Logger : Type 0 where
  pub filename : String
  pub max_age : ℤ
  pub max_backups : ℤ
  pub compress : Bool
  pub max_size : ℤ
  pub local_time : Bool

-- `logging_w` is the file that lines go to; the lines that were written, the last one first.
pub record Logging : Type 0 where
  pub logging_stderr : Bool
  pub logging_w : Option Logger
  pub logging_level : Level
  pub logger : Option Logger
  pub stderr : List String
  pub written : List (Logger × String)

abbrev pub init : Logging
init = record {
  logging_stderr = true;
  logging_w = none;
  logging_level = panic_level;
  logger = none;
  stderr = [];
  written = [];
}

abbrev pub given {ℓ} : {A : Type ℓ} → A → Option A → A
given default none = default
given default (some a) = a

abbrev pub default_logger : String → Bool → Logger
default_logger filename local_time = record {
  filename = filename;
  max_age = pos 5;
  max_backups = pos 5;
  compress = true;
  max_size = pos 100;
  local_time = local_time;
}

unfoldable pub with_options : Option LogOptions → Logger → Logger
with_options none l = l
with_options (some o) l = record l {
  max_age = given l.max_age o.max_age;
  max_size = given l.max_size o.max_size;
  max_backups = given l.max_backups o.max_backups;
  compress = given l.compress o.compress;
}

abbrev logs_to : Logger → Logging → Logging
logs_to l s = record s { logger = some l; logging_w = some l }

set_options_of : Option LogOptions → Option Logger → Logging → Logging
unfolding with_options
set_options_of options none s = s
set_options_of options (some l) s =
    if l.filename == ""
    then s
    else logs_to (with_options options (default_logger l.filename l.local_time)) s

unfoldable pub set_log_options : Option LogOptions → Logging → Logging
unfolding set_options_of
set_log_options options s = set_options_of options s.logger s

-- The logger of a new file keeps the options of the one before.
unfoldable pub renamed : String → Option Logger → Logger
renamed filename none = default_logger filename false
renamed filename (some l) = record (default_logger filename false) {
  max_age = l.max_age;
  max_backups = l.max_backups;
  compress = l.compress;
  max_size = l.max_size;
}

unfoldable pub set_log_file : String → Logging → Logging
unfolding renamed
set_log_file filename s = if filename == "" then s else logs_to (renamed filename s.logger) s

unfoldable pub set_log_stderr : Bool → Logging → Logging
set_log_stderr enable s = record s { logging_stderr = enable }

-- Level.String
unfoldable pub level_name : Level → String
level_name panic_level = "panic"
level_name verbose_level = "verbose"
level_name error_level = "error"
level_name debug_level = "debug"
level_name _ = "unknown"

unfoldable pub level_of_lower : String → Level
level_of_lower s =
    if s == "debug"
    then debug_level
    else if s == "verbose"
    then verbose_level
    else if s == "error"
    then error_level
    else if s == "panic"
    then panic_level
    else unknown_level

unfoldable pub complain : String → Level → Logging → Logging
complain level_str unknown_level s = record s {
  stderr = ("multus logging: cannot set logging level to " <> level_str) ∷ s.stderr;
}
complain level_str _ s = s

module _ (lower : String → String) where
  unfoldable pub get_logging_level : String → Logging → Level × Logging
  unfolding level_of_lower complain
  get_logging_level level_str s =
      let level = level_of_lower (lower level_str) in (level, complain level_str level s)

  unfoldable pub set_log_level : String → Logging → Logging
  unfolding get_logging_level rank
  set_log_level level_str s =
      let (level, s') = get_logging_level level_str s in
      if ltb (rank level) (rank max_level) then record s' { logging_level = level } else s'

-- The settings that LoadNetConf makes from its configuration, in its order.
unfoldable pub load_logging :
    (String → String) → Bool → Option LogOptions → String → String → Logging → Logging
unfolding set_log_stderr set_log_options set_log_file set_log_level
load_logging lower log_to_stderr options log_file log_level s =
    let s1 = set_log_options options (set_log_stderr log_to_stderr s) in
    let s2 = if log_file != "" then set_log_file log_file s1 else s1 in
    if log_level != "" then set_log_level lower log_level s2 else s2

abbrev on_stderr : String → Logging → Logging
on_stderr line s = if s.logging_stderr then record s { stderr = line ∷ s.stderr } else s

abbrev to_file : String → Option Logger → Logging → Logging
to_file line none s = s
to_file line (some l) s = record s { written = (l, line) ∷ s.written }

module _ (now : String) where
  unfoldable pub printf : Level → String → Logging → Logging
  unfolding level_name rank
  printf level text s =
      let line = now <> (" [" <> (level_name level <> ("] " <> text))) in
      if ltb (rank s.logging_level) (rank level)
      then s
      else to_file line s.logging_w (on_stderr line s)

  unfoldable pub debugf : String → Logging → Logging
  unfolding printf
  debugf = printf debug_level

  unfoldable pub verbosef : String → Logging → Logging
  unfolding printf
  verbosef = printf verbose_level

  -- logging.Errorf: the error is made whatever the level is.
  unfoldable pub errorf_logged : String → Logging → Error × Logging
  unfolding printf
  errorf_logged text s = (errorf text, printf error_level text s)

  -- `trace` is the stack as text.
  unfoldable pub panicf : String → String → Logging → Logging
  unfolding printf
  panicf trace text s = printf panic_level "========= Stack trace output end ========" (
      printf panic_level trace
        (printf panic_level "========= Stack trace output ========" (printf panic_level text s)))

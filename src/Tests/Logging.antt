-- ===== src/Tests/Logging.antt =====
-- A new process that names a log file and its options.
use multus_cni.Base.{◌≡◌, some, none, true, false, ne_by_test, refl}
use multus_cni.Logging.{LogOptions, pos, init, default_logger, load_logging}
use multus_cni.Logging.Configured.{load_logging-default}

abbrev options : LogOptions
options = record { max_age = some (pos 30); max_size = none; max_backups = none; compress = none }

load_logging-default_example :
    (load_logging (λ s. s) true (some options) "/var/log/multus.log" "debug" init).logger
    ≡ some (default_logger "/var/log/multus.log" false)
load_logging-default_example =
    load_logging-default (λ s. s) true (some options) "/var/log/multus.log" "debug" init refl
      (ne_by_test "/var/log/multus.log" "" refl)

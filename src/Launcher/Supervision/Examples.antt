-- ===== src/Launcher/Supervision/Examples.antt =====
-- A child that fails twice, is started again after a stable run, and exits.
use aul_private_location.Launcher.Supervision.{Supervisor}

abbrev supervisor : Supervisor
supervisor = record { min_backoff = 1; max_backoff = 30; stable_run = 60 }

-- ===== src/Watchdog.antt =====
-- The watchdog pinger of internal/watchdog/watchdog.go. What systemd is told is a list of notifications.
use tidewatch.Base.{
  ℕ, zero, suc, ◌*◌, ◌/◌, Bool, true, false, not, ◌||◌, Option, none, some, List, [], ◌∷◌,
  if◌then◌else◌, Text,
}
use tidewatch.Config.Validate.{is_empty}

-- Intervals are in nanoseconds.
pub record Pinger : Type 0 where
  pub enabled : Bool
  pub interval : ℕ

pub data Notification : Type 0 where
  ready : Notification
  keepalive : Notification
  stopping : Notification

-- NewPinger, with the microseconds that daemon.SdWatchdogEnabled reads from the environment; `none`
-- is an error, and 0 a watchdog that is off.
unfoldable pub new_pinger : Option ℕ → Pinger
new_pinger none = record { enabled = false; interval = 0 }
new_pinger (some zero) = record { enabled = false; interval = 0 }
new_pinger (some (suc n)) = record { enabled = true; interval = suc n * 1000 / 2 }

-- What the loop of Start wakes up for.
pub data Wakeup : Type 0 where
  ticked : Wakeup
  done : Wakeup

abbrev pinged : List Wakeup → List Notification
pinged [] = []
pinged (ticked ∷ ws) = keepalive ∷ pinged ws
pinged (done ∷ ws) = stopping ∷ []

unfoldable pub start : Pinger → List Wakeup → List Notification
start p ws = if p.enabled then pinged ws else []

unfoldable pub notify_ready : Pinger → List Notification
notify_ready p = if p.enabled then ready ∷ [] else []

unfoldable pub notify_stopping : Pinger → List Notification
notify_stopping p = if p.enabled then stopping ∷ [] else []

-- With the values of NOTIFY_SOCKET and INVOCATION_ID, which are empty where they are not set.
unfoldable pub is_running_under_systemd : Text → Text → Bool
is_running_under_systemd notify_socket invocation_id =
    not (is_empty notify_socket) || not (is_empty invocation_id)

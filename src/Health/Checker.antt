-- ===== src/Health/Checker.antt =====
-- The checker's state, its updates and its report, of internal/health/health.go. Times are
-- nanoseconds; a comparison of Seconds() with a whole number of seconds is made on the nanoseconds.
use tidewatch.Base.{
  ℕ, suc, ◌*◌, ◌/◌, Bool, true, false, ◌&&◌, ◌||◌, Option, none, some, [], ◌∷◌, ◌++◌, ltb,
  if◌then◌else◌, Text, codes, Dict, insert,
}
use tidewatch.Base.Int.{ℤ, pos, negsuc, ltb_ℤ, leb_ℤ, eqb_ℤ, ◌-ℤ◌}

pub data Status : Type 0 where
  status_ok : Status
  status_degraded : Status
  status_error : Status

abbrev pub is_error : Status → Bool
is_error status_error = true
is_error status_ok = false
is_error status_degraded = false

abbrev pub is_degraded : Status → Bool
is_degraded status_degraded = true
is_degraded status_ok = false
is_degraded status_error = false

-- A value of the details map.
pub data Detail : Type 0 where
  number : ℤ → Detail
  text : Text → Detail

pub record ComponentStatus : Type 0 where
  pub status : Status
  pub message : Text
  pub timestamp : ℤ
  pub details : Dict Detail

pub record Thresholds : Type 0 where
  pub upload_ok_interval : ℤ
  pub upload_degraded_interval : ℤ
  pub upload_error_interval : ℤ
  pub pending_ok_limit : ℤ
  pub pending_degraded_limit : ℤ
  pub pending_error_limit : ℤ
  pub clock_skew_threshold_ms : ℤ

pub record Checker : Type 0 where
  pub components : Dict ComponentStatus
  pub start_time : ℤ
  pub thresholds : Thresholds

abbrev pub second : ℕ
second = 1000000000

-- int(d.Seconds()) of a duration that is not negative
abbrev pub whole_seconds : ℤ → ℤ
whole_seconds (pos d) = pos (d / second)
whole_seconds (negsuc d) = negsuc 0

abbrev pub at_least_one : ℤ → ℕ
at_least_one (pos n) = if ltb n 1 then 1 else n
at_least_one (negsuc n) = 1

unfoldable pub default_thresholds : Thresholds
default_thresholds = record {
  upload_ok_interval = pos 60;
  upload_degraded_interval = pos 300;
  upload_error_interval = pos 600;
  pending_ok_limit = pos 5000;
  pending_degraded_limit = pos 10000;
  pending_error_limit = pos 10000;
  clock_skew_threshold_ms = pos 2000;
}

unfoldable pub thresholds_from_upload_interval : ℤ → Thresholds
thresholds_from_upload_interval interval =
    let n = at_least_one (whole_seconds interval) in
    record {
      upload_ok_interval = pos (n * 2);
      upload_degraded_interval = pos (n * 10);
      upload_error_interval = pos 600;
      pending_ok_limit = pos 5000;
      pending_degraded_limit = pos 10000;
      pending_error_limit = pos 10000;
      clock_skew_threshold_ms = pos 2000;
    }

abbrev pub new_checker : ℤ → Thresholds → Checker
new_checker now t = record { components = []; start_time = now; thresholds = t }

unfoldable pub update_component : ℤ → Text → ComponentStatus → Checker → Checker
update_component now name s c = record c {
  components = insert name (record s { timestamp = now }) c.components;
}

-- an error by its text
unfoldable pub update_collector_status : ℤ → Text → Option Text → ℤ → Checker → Checker
unfolding update_component
update_collector_status now name err collected c =
    let details = insert (codes "metrics_collected") (number collected) [] in
    update_component now (codes "collector." ++ name)
      (elim err [
        | some e ↦ record { status = status_error; message = e; timestamp = now; details = details }
        | none ↦ record {
          status = status_ok;
          message = codes "collecting metrics";
          timestamp = now;
          details = details;
        }
      ])
      c

-- Seconds() > float64(t), for nanoseconds d
unfoldable pub longer : ℤ → ℤ → Bool
longer (pos d) (pos t) = ltb (t * second) d
longer (pos d) (negsuc t) = true
longer (negsuc d) (pos t) = false
longer (negsuc d) (negsuc t) = ltb (suc d) (suc t * second)

-- the two bytes of the multiplication sign
abbrev times : Text
times = 195 ∷ 151 ∷ []

-- The branches of UpdateUploaderStatus, by the time since the last upload.
unfoldable pub uploader_status : Thresholds → ℤ → Option Text → ℤ → Status × Text
unfolding longer
uploader_status t since (some e) pending = (status_error, e)
uploader_status t since none pending =
    if longer since t.upload_error_interval && ltb_ℤ t.pending_error_limit pending
    then (status_error, codes "no successful upload in over 10 minutes and high pending count")
    else if longer since t.upload_degraded_interval
    then (status_degraded, codes "no upload within 10" ++ times ++ codes " interval threshold")
    else if longer since t.upload_ok_interval
    then (status_degraded, codes "no upload within 2" ++ times ++ codes " interval threshold")
    else if leb_ℤ t.pending_degraded_limit pending
    then (status_degraded, codes "high pending metric count")
    else if leb_ℤ t.pending_ok_limit pending
    then (status_degraded, codes "elevated pending metric count")
    else (status_ok, codes "uploading metrics")

-- int64(timeSinceUpload)
abbrev truncated_seconds : ℤ → ℤ
truncated_seconds (pos d) = pos (d / second)
truncated_seconds (negsuc d) = pos 0 -ℤ pos (suc d / second)

-- The status that UpdateUploaderStatus sets; `written` is lastUploadTime in the format RFC3339.
abbrev pub uploader_component : Thresholds → ℤ → ℤ → Text → Option Text → ℤ → ComponentStatus
uploader_component t now last written err pending =
    let since = now -ℤ last in
    let (status, message) = uploader_status t since err pending in
    record {
      status = status;
      message = message;
      timestamp = now;
      details = insert (codes "time_since_upload_seconds") (number (truncated_seconds since)) (
          insert (codes "pending_count") (number pending)
            (insert (codes "last_upload_time") (text written) []));
    }

unfoldable pub update_uploader_status : ℤ → ℤ → Text → Option Text → ℤ → Checker → Checker
unfolding uploader_status update_component
update_uploader_status now last written err pending c =
    update_component now (codes "uploader")
      (uploader_component c.thresholds now last written err pending) c

unfoldable pub update_storage_status : ℤ → ℤ → ℤ → ℤ → Checker → Checker
unfolding update_component
update_storage_status now db_size wal_size pending c =
    let large = ltb_ℤ (pos (64 * 1024 * 1024)) wal_size in
    update_component now (codes "storage")
      (record {
        status = if large then status_degraded else status_ok;
        message = if large then codes "WAL size exceeds threshold" else codes "storage operational";
        timestamp = now;
        details = insert (codes "pending_count") (number pending) (
            insert (codes "wal_size_bytes") (number wal_size)
              (insert (codes "database_size_bytes") (number db_size) []));
      })
      c

unfoldable pub skew_status : Thresholds → ℤ → Option Text → Status × Text
skew_status t skew (some e) = (status_error, e)
skew_status t skew none =
    let limit = t.clock_skew_threshold_ms in
    let limit = if eqb_ℤ limit (pos 0) then pos 2000 else limit in
    if ltb_ℤ limit skew || ltb_ℤ skew (pos 0 -ℤ limit)
    then (status_degraded, codes "clock skew exceeds threshold")
    else (status_ok, codes "time synchronized")

unfoldable pub update_clock_skew_status : ℤ → ℤ → Option Text → Checker → Checker
unfolding skew_status update_component
update_clock_skew_status now skew err c =
    let (status, message) = skew_status c.thresholds skew err in
    update_component now (codes "time")
      (record {
        status = status;
        message = message;
        timestamp = now;
        details = insert (codes "skew_ms") (number skew) [];
      })
      c

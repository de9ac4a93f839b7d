-- ===== src/Pipeline/Reports.antt =====
-- Collections and upload ticks are reported as they went, and a failing one loses nothing.
use tidewatch.Base.{◌≡◌, refl, false, Option, none, some, Text, codes}
use tidewatch.Base.Int.{ℤ}
use tidewatch.Storage.Table.{Db}
use tidewatch.Health.Checker.{Checker, update_uploader_status, uploader_status, uploader_component}
use tidewatch.Health.Overall.{is_collector, get_report, health_code}
use tidewatch.Health.Reports.{update_component-unavailable}
use tidewatch.Pipeline.Rounds.{Setup, Round, RoundError, upload_metrics}
use tidewatch.Pipeline.Marks.{IsUploadable}
use tidewatch.Pipeline.Outcome.{Outcome, not_read, not_uploaded, uploaded, upload_metrics-Outcome}
use tidewatch.Pipeline.Loops.{if_present, LoopState, Tick, after_round, report_upload, upload_tick}

Outcome-error :
    (s : Setup) (t : Tick) (db : Db) (r : Round) (e : RoundError)
    → Outcome s t.weather db r
    → r.error ≡ some e
    → r.db ≡ db
Outcome-error s t db r e (not_read q) h = refl
Outcome-error s t db r e (not_uploaded f taken) h = refl
Outcome-error s t db r e (uploaded ids taken ms scanned covers p) h = absurd (cc)

uploader_is_other : is_collector (codes "uploader") ≡ false
uploader_is_other = unfold is_collector in refl

uploader-unavailable :
    (now later last pending : ℤ) (written e : Text) (c : Checker)
    → health_code (get_report later (update_uploader_status now last written (some e) pending c))
      ≡ 503
unfolding update_uploader_status uploader_status
uploader-unavailable now later last pending written e c =
    (update_component-unavailable now later (codes "uploader")
      (uploader_component c.thresholds now last written (some e) pending) c uploader_is_other
      refl).0

-- What holds of a value that may be missing.
abbrev pub IfPresent : {A : Type 0} → (A → Type 0) → Option A → Type 0
IfPresent P none = Unit
IfPresent P (some a) = P a

IfPresent-if_present :
    {A : Type 0} (P : A → Type 0) (f : A → A) (o : Option A)
    → ((a : A) → P (f a))
    → IfPresent P (if_present f o)
IfPresent-if_present P f none h = tt
IfPresent-if_present P f (some a) h = h a

-- An upload tick whose round returns an error leaves the table and the time of the last upload as they
-- were, remembers the error, and makes the health endpoint answer 503 from then on until it is updated,
-- whatever the other components are.
pub upload_tick-failed :
    (s : Setup) (t : Tick) (st : LoopState) (e : RoundError)
    → IsUploadable s.codec st.system.db
    → (upload_metrics s t.weather st.system.db).error ≡ some e
    → ((upload_tick s t st).system.db ≡ st.system.db)
      × ((upload_tick s t st).last_upload_time ≡ st.last_upload_time)
      × ((upload_tick s t st).last_upload_err ≡ some (t.error_text e))
      × IfPresent
          (λ c. (later : ℤ) → health_code (get_report later c) ≡ 503)
          (upload_tick s t st).system.health
unfolding upload_tick after_round report_upload
upload_tick-failed s t st e u h =
    let same =
      Outcome-error s t st.system.db _ e (upload_metrics-Outcome s t.weather st.system.db u) h in
    rw (h, upload_tick)
      (
        same,
        refl,
        refl,
        IfPresent-if_present _ _ st.system.health
            λ c later. uploader-unavailable t.now later st.last_upload_time _ _ (t.error_text e) c,
      )

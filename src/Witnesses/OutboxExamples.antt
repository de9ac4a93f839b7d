-- ===== src/Witnesses/OutboxExamples.antt =====
-- The theorems on the outbox at concrete inputs.
use tidewatch.Base.{true, none, some, List, [], ◌∷◌}
use tidewatch.Base.Int.{pos}
use tidewatch.Pipeline.Turns.{Turn, uploads, measures}
use tidewatch.Witnesses.Fixtures.{calm}
use tidewatch.Witnesses.PipelineExamples.{tick}

-- A size check and an upload that the server takes.
abbrev short : List Turn
short =
    measures
      (record { db_size = none; wal_size = some (pos 4096); count_fails = true; now = pos 1 })
    ∷ uploads (record tick { weather = calm })
    ∷ []

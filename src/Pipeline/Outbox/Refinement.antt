-- ===== src/Pipeline/Outbox/Refinement.antt =====
-- The agent's loops, in any order, implement the outbox.
use mathlib.Core.Quot
use mathlib.Core.Quot.{Quot}
use mathlib.Core.List.Perm
use tidewatch.Base.{List, [], ◌∷◌}
use tidewatch.Storage.Insert.Batch
use tidewatch.Uploader.Chunks.{Chunk}
use tidewatch.Pipeline.Rounds.{Setup, upload_metrics}
use tidewatch.Pipeline.Loops.{LoopState}
use tidewatch.Pipeline.Marks.{IsUploadable}
use tidewatch.Pipeline.Outcome.{Outcome}
use tidewatch.Pipeline.Turns.{Turn, uploads, take_turn}

-- The chunks that the server takes in a turn.
pub taken_in : Setup → LoopState → Turn → List Chunk
taken_in s st (uploads t) = (upload_metrics s t.weather st.system.db).taken
taken_in s st t = []

-- The table is one that uploadMetrics can tell apart by the ids, before every turn.
unfoldable pub StaysUploadable : Setup → LoopState → List Turn → Type 0
StaysUploadable s st [] = Unit
StaysUploadable s st (t ∷ ts) =
    IsUploadable s.codec st.system.db × StaysUploadable s (take_turn s st t) ts

-- ===== src/Witnesses/Fixtures.antt =====
-- The data of the examples: encodings, an uploader, metrics and a table with a queue.
use tidewatch.Base.{
  ℕ, zero, suc, ◌+◌, ◌-◌, ◌*◌, ◌/◌, ◌^◌, false, Option, none, some, [], ◌∷◌, ◌++◌, ltb, ◌==◌, Text,
  codes, length, gather, Preorder, Sorter, insertion_sorter, arith,
}
use tidewatch.Base.Int.{ℤ, pos, negsuc}
use tidewatch.Models.{Metric, Tags, new_metric, new_string_metric, with_tag}
use tidewatch.Storage.Table.{Row, Db}
use tidewatch.Storage.Codec.{Codec}
use tidewatch.Storage.Insert.{Faults}
use tidewatch.Storage.Select.{time_le, upload_le}
use tidewatch.Uploader.Chunks.{metric_time_le}
use tidewatch.Uploader.Errors.{response, transport_error}
use tidewatch.Uploader.Retry.{FloatOps, Attempt, Remote}
use tidewatch.Uploader.Upload.{Uploader}
use tidewatch.Pipeline.Rounds.{Setup, Weather}

-- Tag maps as texts with a zero byte after each key and each value.
cut : Text → Text × Text
cut [] = ([], [])
cut (zero ∷ s) = ([], s)
cut (suc c ∷ s) = let (word, rest) = cut s in (suc c ∷ word, rest)

pub decode : ℕ → Text → Tags
decode zero s = []
decode (suc n) [] = []
decode (suc n) (c ∷ s) = let (k, r) = cut (c ∷ s) in let (v, r') = cut r in (k, v) ∷ decode n r'

abbrev pub encode : Tags → Text
encode = gather λ e. e.0 ++ 0 ∷ e.1 ++ 0 ∷ []

abbrev pub codec : Codec
codec = record {
  digest = λ d. d.name ++ 0 ∷ encode d.tags;
  marshal_tags = λ t. some (encode t);
  unmarshal_tags = λ s. some (decode (length s) s);
  bind_real = λ x. some x;
}

-- The orders are total preorders.
pub time_le-Preorder : Preorder time_le
time_le-Preorder = record { total = λ a b. ground arith; trans = λ a b c h k. ground arith }

pub upload_le-Preorder : Preorder upload_le
upload_le-Preorder = record { total = λ a b. ground arith; trans = λ a b c h k. ground arith }

pub metric_time_le-Preorder : Preorder metric_time_le
metric_time_le-Preorder = record { total = λ a b. ground arith; trans = λ a b c h k. ground arith }

abbrev pub by_time : Sorter time_le
by_time = insertion_sorter time_le-Preorder

abbrev pub by_upload : Sorter upload_le
by_upload = insertion_sorter upload_le-Preorder

abbrev pub by_metric_time : Sorter metric_time_le
by_metric_time = insertion_sorter metric_time_le-Preorder

abbrev pub floats : FloatOps
floats = record {
  of_int = λ z. elim z [ pos n ↦ n | negsuc n ↦ 0 ];
  pow = λ x y. x ^ y;
  mul = λ x y. x * y;
  div = λ x y. x / y;
  add = λ x y. x + y;
  sub = λ x y. x - y;
  lt = ltb;
  to_duration = pos;
}

abbrev pub remote : Remote
remote = record {
  floats = floats;
  settings = record {
    max_retries = pos 2;
    retry_delay = pos 1000000000;
    max_backoff = pos 30000000000;
    backoff_multiplier = 2;
    jitter_percent = pos 20;
  };
  until = λ s. none;
}

abbrev pub accepted : Attempt
accepted = record {
  cancelled = false;
  exchange = response 204 [];
  rand = 0;
  cancelled_wait = false;
}

abbrev pub unreachable : Attempt
unreachable = record {
  cancelled = false;
  exchange = transport_error;
  rand = 0;
  cancelled_wait = false;
}

abbrev pub unauthorized : Attempt
unauthorized = record {
  cancelled = false;
  exchange = response 401 [];
  rand = 0;
  cancelled_wait = false;
}

-- The first attempt fails, the others are accepted.
unfoldable pub recovering : ℕ → Attempt
recovering zero = unreachable
recovering (suc n) = accepted

abbrev pub uploader : Uploader
uploader = record {
  wire = record { marshal = λ m. some (codes "{}"); gzip = λ s. some s };
  by_time = by_metric_time;
  remote = remote;
  chunk_size = pos 1;
}

abbrev pub temperature : Metric
temperature = new_metric (pos 2000) (codes "cpu.temperature") 4631107791820423168 (codes "device-1")

abbrev pub usage : Metric
usage =
    with_tag (new_metric (pos 1000) (codes "cpu.usage") 4621819117588971520 (codes "device-1"))
      (codes "core") (codes "0")

abbrev pub state : Metric
state = new_string_metric (pos 1500) (codes "srt.state") (codes "connected") (codes "device-1")

abbrev pub session : Text
session = codes "session"

abbrev pub row : ℕ → ℤ → Text → ℕ → Option Text → Row
row id time name type tags = record {
  id = id;
  timestamp_ms = time;
  metric_name = name;
  metric_value = some 4631107791820423168;
  device_id = some (codes "device-1");
  uploaded = 0;
  priority = 1;
  session_id = some session;
  dedup_key = some name;
  tags_json = tags;
  value_text = none;
  value_type = type;
}

-- Two numeric rows and a text row, nothing uploaded.
abbrev pub queue : Db
queue = record {
  rows =
      row 1 (pos 2000) (codes "cpu.temperature") 0 (some [])
      ∷ row 2 (pos 1500) (codes "srt.state") 1 none
      ∷ row 4 (pos 1000) (codes "cpu.usage") 0 none
      ∷ [];
  seq = 4;
}

abbrev pub no_faults : Faults
no_faults = record { begins = false; prepares = false; exec = λ i. false; commits = false }

-- The second execution of the statement fails.
abbrev pub second_fails : Faults
second_fails = record { begins = false; prepares = false; exec = λ i. i == 1; commits = false }

abbrev pub setup : Setup
setup = record { codec = codec; by_upload = by_upload; uploader = uploader; batch_size = pos 1 }

abbrev pub calm : Weather
calm = record {
  read = record { query = false; rows = false };
  answers = λ chunk attempt. recovering attempt;
  mark = record { begins = false; exec = false; commits = false };
}

-- The server refuses every chunk.
abbrev pub refusing : Weather
refusing = record calm { answers = λ chunk attempt. unauthorized }

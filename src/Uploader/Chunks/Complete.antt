-- ===== src/Uploader/Chunks/Complete.antt =====
-- BuildChunks loses no metric and keeps its chunks within the limits.
use tidewatch.Base.{
  ℕ, ◌≤◌, ◌<◌, ◌≡◌, refl, sym, ap, ◌∙◌, Option, none, some, List, [], ◌∷◌, ◌++◌, append-nil, arith,
  length, keep, keep-append, keep-perm, gather, gather-append, gather-perm, Perm, Perm-of_eq, All,
  All-append, All-imp,
}
use mathlib.Core.List.Perm
use tidewatch.Base.Int.{ℤ}
use tidewatch.Models.{Metric}
use tidewatch.Uploader.Jsonl.{Wire, id_list, build_vm_jsonl}
use tidewatch.Uploader.Chunks.{
  Chunk, Built, BuildError, built, failed, or_failed, max_chunk_size_bytes, ◌>>=◌,
}
use tidewatch.Uploader.Chunks.Lines.{numeric, ids_of, build_vm_jsonl_lem}

-- The metrics of the chunks, and the ids that the chunks report.
abbrev pub metrics_in : List Chunk → List Metric
metrics_in = gather λ c. c.metrics

abbrev pub ids_in : List Chunk → List ℤ
ids_in = gather λ c. c.included_ids

-- A chunk is what its fields say, is not empty, and respects both limits.
pub record IsGoodChunk (w : Wire) (n : ℕ) (c : Chunk) : Type 0 where
  pub lines : build_vm_jsonl w c.metrics ≡ some (c.jsonl_data, c.included_ids)
  pub packed : w.gzip c.jsonl_data ≡ some c.compressed_data
  pub sized : c.size ≡ length c.compressed_data
  pub not_empty : 0 < length c.jsonl_data
  pub few : length c.metrics ≤ n
  pub small : c.size ≤ max_chunk_size_bytes

-- The chunks hold the numeric metrics of `ms`, each as often as `ms` does, and report their ids.
pub record Covers (w : Wire) (n : ℕ) (ms : List Metric) (chunks : List Chunk) : Type 0 where
  pub metrics : Perm (numeric (metrics_in chunks)) (numeric ms)
  pub ids : Perm (ids_in chunks) (ids_of ms)
  pub good : All (IsGoodChunk w n) chunks

abbrev pub OnBuilt {ℓ κ} : {A : Type ℓ} → (A → Type κ) → Built A → Type κ
OnBuilt P (built a) = P a
OnBuilt P (failed e) = Unit

pub OnBuilt-bind {ℓ κ μ} :
    {A : Type ℓ} {B : Type κ} (P : B → Type μ) (m : Built A) (f : A → Built B)
    → ((a : A) → m ≡ built a → OnBuilt P (f a))
    → OnBuilt P (m >>= f)
OnBuilt-bind P (built a) f h = h a refl
OnBuilt-bind P (failed e) f h = tt

pub or_failed-eq-built {ℓ} :
    {A : Type ℓ} (o : Option A) (e : BuildError) {a : A} → or_failed o e ≡ built a → o ≡ some a
or_failed-eq-built none e h = cc
or_failed-eq-built (some b) e h = cc

module _ (w : Wire) (n : ℕ) where
  pub Covers-none : (ms : List Metric) → numeric ms ≡ [] → Covers w n ms []
  unfolding gather keep
  Covers-none ms e = record {
    metrics = Perm-of_eq (sym e);
    ids = Perm-of_eq (sym (ap (gather id_list) e));
    good = tt;
  }

  pub Covers-one : (c : Chunk) → IsGoodChunk w n c → Covers w n c.metrics (c ∷ [])
  unfolding gather
  Covers-one c g = record {
    metrics = Perm-of_eq (ap numeric (append-nil c.metrics));
    ids = Perm-of_eq (
        append-nil c.included_ids
        ∙ (build_vm_jsonl_lem w c.metrics c.jsonl_data c.included_ids g.lines).0);
    good = (g, tt);
  }

  pub Covers-append :
      (ms ns : List Metric) (cs ds : List Chunk)
      → Covers w n ms cs
      → Covers w n ns ds
      → Covers w n (ms ++ ns) (cs ++ ds)
  Covers-append ms ns cs ds h k = record {
    metrics =
        rw
          (
            gather-append (λ (c : Chunk). c.metrics) cs ds,
            keep-append _ (metrics_in cs) (metrics_in ds),
            keep-append _ ms ns,
          )
          (Perm.append h.metrics k.metrics);
    ids =
        rw
          (
            gather-append (λ (c : Chunk). c.included_ids) cs ds,
            keep-append _ ms ns,
            gather-append id_list (numeric ms) (numeric ns),
          )
          (Perm.append h.ids k.ids);
    good = All-append _ cs ds h.good k.good;
  }

  pub Covers-perm :
      (ms ns : List Metric) (cs : List Chunk) → Perm ms ns → Covers w n ms cs → Covers w n ns cs
  Covers-perm ms ns cs p h = record {
    metrics = Perm.trans h.metrics (keep-perm _ p);
    ids = Perm.trans h.ids (gather-perm id_list (keep-perm _ p));
    good = h.good;
  }

pub Covers-mono :
    (w : Wire) (m n : ℕ) (ms : List Metric) (cs : List Chunk)
    → m ≤ n
    → Covers w m ms cs
    → Covers w n ms cs
Covers-mono w m n ms cs le h = record {
  metrics = h.metrics;
  ids = h.ids;
  good =
      All-imp
        (λ c g. record {
          lines = g.lines;
          packed = g.packed;
          sized = g.sized;
          not_empty = g.not_empty;
          few = omega (arith, g.few);
          small = g.small;
        })
        cs h.good;
}

-- ===== src/Uploader/Chunks/Lines.antt =====
-- What BuildVMJSONL writes and which ids it reports.
use tidewatch.Base.{
  ◌+◌, ◌≤◌, ◌≡◌, refl, sym, ap, ◌∙◌, not, Option, none, some, inl, inr, List, [], ◌∷◌, ◌++◌,
  append-nil, append_assoc, arith, Bool-cases, Option-cases, length, length-append, keep, Text,
  gather,
}
use tidewatch.Base.Int.{ℤ}
use tidewatch.Models.{Metric}
use tidewatch.Uploader.Jsonl.{Wire, is_string, id_list, vm_metric, jsonl_loop, build_vm_jsonl}

-- The metrics that VictoriaMetrics takes: all but the string metrics.
abbrev pub numeric : List Metric → List Metric
numeric = keep λ m. not (is_string m)

-- The positive storage ids on the numeric metrics.
abbrev pub ids_of : List Metric → List ℤ
ids_of ms = gather id_list (numeric ms)

-- What an optional result satisfies, where there is one.
abbrev pub OnSome {ℓ κ} : {A : Type ℓ} → (A → Type κ) → Option A → Type κ
OnSome P none = Unit
OnSome P (some a) = P a

pub OnSome-imp {ℓ κ μ} :
    {A : Type ℓ} {P : A → Type κ} {Q : A → Type μ} (o : Option A)
    → ((a : A) → P a → Q a)
    → OnSome P o
    → OnSome Q o
OnSome-imp none imp h = tt
OnSome-imp (some a) imp h = imp a h

pub OnSome-eq {ℓ κ} :
    {A : Type ℓ} (P : A → Type κ) (o : Option A) {a : A} → OnSome P o → o ≡ some a → P a
OnSome-eq P none h e = cc
OnSome-eq P (some b) {a} h e = rw (← some_eq) h
  where
    some_eq : b ≡ a
    some_eq = cc

jsonl_loop_lem :
    (w : Wire) (ms : List Metric) (buf : Text) (ids : List ℤ)
    → OnSome
        (λ (r : Text × List ℤ).
          (length buf + length (numeric ms) ≤ length r.0) × (r.1 ≡ ids ++ ids_of ms))
        (jsonl_loop w ms buf ids)
unfolding jsonl_loop gather keep
jsonl_loop_lem w [] buf ids = (omega arith, sym (append-nil ids))
jsonl_loop_lem w (m ∷ ms) buf ids = elim (Bool-cases (is_string m)) [
  | inl e ↦ rw (e, jsonl_loop) (jsonl_loop_lem w ms buf ids)
  | inr e ↦ elim (Option-cases (w.marshal (vm_metric m))) [
    | inl h ↦ rw (e, h, jsonl_loop) tt
    | inr (line, h) ↦
        rw (e, h, jsonl_loop)
          (OnSome-imp (jsonl_loop w ms (buf ++ line ++ b'\n' ∷ []) (ids ++ id_list m))
            (λ r k. (
              omega (arith, k.0, length-append (buf ++ line) (b'\n' ∷ []), length-append buf line),
              k.1 ∙ append_assoc ids (id_list m) (ids_of ms),
            ))
            (jsonl_loop_lem w ms (buf ++ line ++ b'\n' ∷ []) (ids ++ id_list m)))
  ]
]

nil_of_length : {A : Type 0} (l : List A) → length l ≤ 0 → l ≡ []
nil_of_length [] h = refl
nil_of_length (x ∷ xs) h = absurd (omega arith)

-- The ids that BuildVMJSONL reports are those of the numeric metrics, in order, and it writes nothing
-- only where there is no numeric metric.
pub build_vm_jsonl_lem :
    (w : Wire) (ms : List Metric) (jsonl : Text) (ids : List ℤ)
    → build_vm_jsonl w ms ≡ some (jsonl, ids)
    → (ids ≡ ids_of ms) × (jsonl ≡ [] → numeric ms ≡ [])
unfolding build_vm_jsonl
build_vm_jsonl_lem w ms jsonl ids e =
    let (lines, reported) = OnSome-eq _ (jsonl_loop w ms [] []) (jsonl_loop_lem w ms [] []) e in
    (reported, λ h. nil_of_length (numeric ms) (omega (arith, lines, ap length h)))

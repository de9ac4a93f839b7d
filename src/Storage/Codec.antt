-- ===== src/Storage/Codec.antt =====
-- What storage.go takes from elsewhere: encoding/json on tag maps, sha256 and hex over the
-- canonical JSON of a metric's identity, the driver's binding of REAL values, and the failures
-- that the SQLite driver reports.
use tidewatch.Base.{◌≡◌, ◌⊎◌, inl, inr, refl, Bool, true, false, Option, none, some, Text}
use tidewatch.Base.Int.{ℤ}
use tidewatch.Models.{Float64, ValueType, Tags}

-- `dedupData` of generateDedupKey
pub record DedupData : Type 0 where
  pub name : Text
  pub timestamp_ms : ℤ
  pub device_id : Text
  pub tags : Tags
  pub value_type : ValueType

pub record Codec : Type 0 where
  -- hex(sha256(json.Marshal(data)))
  pub digest : DedupData → Text
  -- json.Marshal of a tag map
  pub marshal_tags : Tags → Option Text
  -- json.Unmarshal into an empty tag map
  pub unmarshal_tags : Text → Option Tags
  -- a float64 as a REAL column keeps it: SQLite turns a NaN into NULL
  pub bind_real : Float64 → Option Float64

pub data Error : Type 0 where
  begin_failed prepare_failed serialize_failed insert_failed commit_failed : Error
  query_failed scan_failed unmarshal_failed update_failed delete_failed rows_failed : Error
  count_failed schema_failed : Error

pub data Result {ℓ} (A : Type ℓ) : Type ℓ where
  ok : A → Result A
  err : Error → Result A

module _ {ℓ κ} {A : Type ℓ} {B : Type κ} where
  infixl 5 ◌>>=◌
  -- `if err != nil { return …, err }`
  abbrev pub ◌>>=◌ : Result A → (A → Result B) → Result B
  err failure >>= next = err failure
  ok a >>= next = next a

  -- The steps of a chain that succeeded.
  pub >>=-eq-ok :
      (first : Result A) (next : A → Result B) {b : B}
      → (first >>= next) ≡ ok b
      → (a : A) × (first ≡ ok a) × (next a ≡ ok b)
  >>=-eq-ok (err failure) next h = cc
  >>=-eq-ok (ok a) next h = (a, refl, h)

-- A step that only may fail.
infixl 5 ◌>>◌
abbrev pub ◌>>◌ {κ} : {B : Type κ} → Result (Unit {0}) → Result B → Result B
step >> rest = step >>= (λ u. rest)

-- What a result satisfies, where it is not an error.
abbrev pub OnOk {ℓ κ} : {A : Type ℓ} → (A → Type κ) → Result A → Type κ
OnOk P (ok a) = P a
OnOk P (err e) = Unit

pub OnOk-bind {ℓ κ μ} :
    {A : Type ℓ} {B : Type κ} (P : B → Type μ) (m : Result A) (f : A → Result B)
    → ((a : A) → m ≡ ok a → OnOk P (f a))
    → OnOk P (m >>= f)
OnOk-bind P (ok a) f h = h a refl
OnOk-bind P (err e) f h = tt

abbrev pub fail_if : Bool → Error → Result (Unit {0})
fail_if true e = err e
fail_if false e = ok tt

abbrev pub or_fail {ℓ} : {A : Type ℓ} → Option A → Error → Result A
or_fail none e = err e
or_fail (some a) e = ok a

pub Result-cases {ℓ} :
    {A : Type ℓ} (r : Result A) → ((a : A) × (r ≡ ok a)) ⊎ ((e : Error) × (r ≡ err e))
Result-cases (ok a) = inl (a, refl)
Result-cases (err e) = inr (e, refl)

pub or_fail-eq-ok {ℓ} :
    {A : Type ℓ} (o : Option A) (e : Error) {a : A} → or_fail o e ≡ ok a → o ≡ some a
or_fail-eq-ok none e h = cc
or_fail-eq-ok (some b) e h = cc

pub OnOk-imp {ℓ κ μ} :
    {A : Type ℓ} {P : A → Type κ} {Q : A → Type μ} (r : Result A)
    → ((a : A) → P a → Q a)
    → OnOk P r
    → OnOk Q r
OnOk-imp (ok a) imp h = imp a h
OnOk-imp (err e) imp h = tt

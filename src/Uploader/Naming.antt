-- ===== src/Uploader/Naming.antt =====
-- sanitizeMetricName and isCounter of internal/uploader/victoriametrics.go, for ASCII names.
use tidewatch.Base.{
  Bool, false, ◌||◌, List, [], ◌∷◌, ◌++◌, map, if◌then◌else◌, ◌==◌, Text, codes, text_eq, contains,
  has_prefix, has_suffix, to_lower,
}

abbrev pub counter_keywords : List Text
counter_keywords =
    codes "total"
    ∷ codes "count"
    ∷ codes "sent"
    ∷ codes "received"
    ∷ codes "tx"
    ∷ codes "rx"
    ∷ codes "read"
    ∷ codes "write"
    ∷ codes "uploaded"
    ∷ codes "downloaded"
    ∷ codes "failed"
    ∷ codes "success"
    ∷ codes "error"
    ∷ codes "request"
    ∷ codes "response"
    ∷ []

unfoldable pub contains_any : Text → List Text → Bool
contains_any s [] = false
contains_any s (p ∷ ps) = contains s p || contains_any s ps

unfoldable pub is_counter : Text → Bool
unfolding contains_any
is_counter name = contains_any (to_lower name) counter_keywords

-- strings.ReplaceAll(name, ".", "_")
unfoldable pub dots_to_underscores : Text → Text
dots_to_underscores = map λ c. if c == b'.' then b'_' else c

-- Append a suffix that is missing.
unfoldable pub ensure_suffix : Text → Text → Text
ensure_suffix s suffix = if has_suffix s suffix then s else s ++ suffix

unfoldable pub is_temperature : Text → Bool
is_temperature lower_name =
    contains lower_name (codes "temperature")
    || contains lower_name (codes ".temp.")
    || contains lower_name (codes ".temp_")
    || contains lower_name (codes "_temp.")
    || contains lower_name (codes "_temp_")
    || has_prefix lower_name (codes "temp.")
    || has_prefix lower_name (codes "temp_")
    || has_suffix lower_name (codes ".temp")
    || has_suffix lower_name (codes "_temp")
    || text_eq lower_name (codes "temp")

add_celsius : Text → Text → Text
unfolding is_temperature ensure_suffix
add_celsius name safe =
    if is_temperature (to_lower name) then ensure_suffix safe (codes "_celsius") else safe

add_bytes : Text → Text → Text
unfolding ensure_suffix
add_bytes name safe =
    if contains name (codes "bytes") || contains name (codes "byte")
    then ensure_suffix safe (codes "_bytes")
    else safe

unfoldable pub sanitize_metric_name : Text → Text
unfolding is_counter dots_to_underscores ensure_suffix add_celsius add_bytes
sanitize_metric_name name =
    let safe = dots_to_underscores name in
    if is_counter name
    then ensure_suffix safe (codes "_total")
    else add_bytes name (add_celsius name safe)

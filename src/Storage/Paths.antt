-- ===== src/Storage/Paths.antt =====
-- normalizeDBPath of internal/storage/storage.go.
use tidewatch.Base.{[], ◌∷◌, ◌==◌, if◌then◌else◌, drop, Text, codes, has_prefix}

-- everything before the first question mark
unfoldable pub without_query : Text → Text
without_query [] = []
without_query (c ∷ s) = let rest = without_query s in if c == b'?' then [] else c ∷ rest

unfoldable pub normalize_db_path : Text → Text
unfolding without_query
normalize_db_path path =
    if has_prefix path (codes "file:")
    then (let path = without_query (drop 5 path) in
        if has_prefix path (codes "///") then drop 2 path else path)
    else path

-- ===== src/Http/Headers.antt =====
-- Header lookup of src/api.rs: `find_header` and `find_all_headers`.
use whatsrust.Prelude.{Option, none, some, List, [], ◌∷◌, if◌then◌else◌}
use whatsrust.Prelude.Texts.{Text, eq_ignore_case}
use whatsrust.Http.{Header}

-- The names match by `eq_ignore_ascii_case`.
unfoldable pub find_header : List Header → Text → Option Text
find_header [] name = none
find_header (h ∷ hs) name =
    let rest = find_header hs name in
    if eq_ignore_case (Header.name h) name then some (Header.value h) else rest

unfoldable pub find_all_headers : List Header → Text → List Text
find_all_headers [] name = []
find_all_headers (h ∷ hs) name =
    let rest = find_all_headers hs name in
    if eq_ignore_case (Header.name h) name then Header.value h ∷ rest else rest

-- ===== src/Local/Places.antt =====
-- Paths of the machine, as deploy/data/backup.mjs resolves and takes them apart.
use cartyx_infrastructure.Base.{
  Text, text, List, [], ◌∷◌, ◌++◌, ◌||◌, ◌==◌, text_eq, starts_with, if◌then◌else◌,
}

-- An absolute path in normal form, its last segment first.
abbrev pub Place : Type 0
Place = List Text

-- `dirname` of such a path, where the root is its own directory.
abbrev pub dirname : Place → Place
dirname [] = []
dirname (name ∷ place) = place

-- `basename` of such a path.
abbrev pub last_name : Place → Text
last_name [] = []
last_name (name ∷ place) = name

-- `path.split('/')`
unfoldable pub split : Text → List Text
split [] = [] ∷ []
split (c ∷ s) =
    let rest = split s in
    if c == b'/'
    then [] ∷ rest
    else elim rest [ [] ↦ (c ∷ []) ∷ [] | name ∷ names ↦ (c ∷ name) ∷ names ]

-- One segment after another, where an empty one and `.` stay and `..` goes up.
unfoldable pub enter : Place → Text → Place
enter place name =
    if text_eq name [] || text_eq name (text ".")
    then place
    else if text_eq name (text "..")
    then dirname place
    else name ∷ place

unfoldable pub walk : Place → List Text → Place
unfolding enter
walk place [] = place
walk place (name ∷ names) = walk (enter place name) names

-- `resolve(place, path)`
unfoldable pub resolve : Place → Text → Place
unfolding walk split
resolve place path = walk (if starts_with path (text "/") then [] else place) (split path)

-- `${place}${suffix}`
abbrev pub suffixed : Place → Text → Place
suffixed [] suffix = suffix ∷ []
suffixed (name ∷ place) suffix = (name ++ suffix) ∷ place

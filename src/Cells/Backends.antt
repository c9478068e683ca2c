-- ===== src/Cells/Backends.antt =====
-- src/storage/cells.rs, `Backend`.
use libviprs_bench.Base.{
  String, List, [], ◌∷◌, ◌≡◌, refl, Option, none, some, if◌then◌else◌, str_eq,
}

pub data Backend : Type 0 where
  pm_tiles directory : Backend

unfoldable pub as_str : Backend → String
as_str pm_tiles = "pmtiles"
as_str directory = "directory"

unfoldable pub parse : String → Option Backend
parse s =
    if str_eq s "pmtiles"
    then some pm_tiles
    else if str_eq s "directory"
    then some directory
    else none

abbrev pub all : List Backend
all = pm_tiles ∷ directory ∷ []

pub parse-as_str : (b : Backend) → parse (as_str b) ≡ some b
unfolding parse as_str
parse-as_str pm_tiles = refl
parse-as_str directory = refl

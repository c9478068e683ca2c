-- ===== src/Families.antt =====
-- src/family.rs: the benchmark families, and `Family::resolve`. Whether the `libvips` feature is
-- compiled in is an argument.
pub mod Resolved
use libviprs_bench.Base.{
  Bool, true, false, not, ◌&&◌, String, List, [], ◌∷◌, ◌++◌, Option, none, some, str_eq,
  if◌then◌else◌, Result, ok, err,
}

pub data Engine : Type 0 where
  monolithic streaming map_reduce libvips : Engine

pub data Family : Type 0 where
  engines storage vips : Family

abbrev pub all_families : List Family
all_families = engines ∷ storage ∷ vips ∷ []

abbrev pub vips_feature : String
vips_feature = "libvips"

unfoldable pub as_str : Family → String
as_str engines = "engines"
as_str storage = "storage"
as_str vips = "vips"

find_named : String → List Family → Option Family
unfolding as_str
find_named name [] = none
find_named name (f ∷ families) =
    let later = find_named name families in if str_eq (as_str f) name then some f else later

unfoldable pub parse : String → Option Family
unfolding find_named
parse name = find_named name all_families

unfoldable pub required_feature : Family → Option String
required_feature vips = some vips_feature
required_feature _ = none

unfoldable pub is_compiled_in : Bool → Family → Bool
is_compiled_in feature vips = feature
is_compiled_in feature _ = true

unfoldable pub is_implemented : Family → Bool
is_implemented family = true

unfoldable pub measured_by_engine_runners : Family → Bool
measured_by_engine_runners storage = false
measured_by_engine_runners _ = true

unfoldable pub runner_bin : Family → String
runner_bin storage = "storage"
runner_bin _ = "report"

unfoldable pub engine_set : Family → List Engine
engine_set vips = monolithic ∷ streaming ∷ map_reduce ∷ libvips ∷ []
engine_set _ = monolithic ∷ streaming ∷ map_reduce ∷ []

unfoldable pub measures_libvips : Family → Bool
measures_libvips vips = true
measures_libvips _ = false

pub data FamilyRefusal : Type 0 where
  unknown : String → FamilyRefusal
  feature_off : Family → String → FamilyRefusal
  not_yet : Family → FamilyRefusal
  other_runner : Family → String → FamilyRefusal

abbrev lacks : Option String → Bool → Option String
lacks none compiled = none
lacks (some feature) compiled = if compiled then none else some feature

resolve_known : Family → Option String → Result FamilyRefusal Family
unfolding is_implemented measured_by_engine_runners runner_bin
resolve_known family (some feature) = err (feature_off family feature)
resolve_known family none =
    if not (is_implemented family)
    then err (not_yet family)
    else if not (measured_by_engine_runners family)
    then err (other_runner family (runner_bin family))
    else ok family

resolve_parsed : Bool → String → Option Family → Result FamilyRefusal Family
unfolding required_feature is_compiled_in resolve_known
resolve_parsed feature name none = err (unknown name)
resolve_parsed feature name (some family) =
    resolve_known family (lacks (required_feature family) (is_compiled_in feature family))

unfoldable pub resolve : Bool → String → Result FamilyRefusal Family
unfolding resolve_parsed parse
resolve feature name = resolve_parsed feature name (parse name)

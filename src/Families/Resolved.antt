-- ===== src/Families/Resolved.antt =====
-- src/family.rs: lemmas on `Family::parse` and `Family::resolve`.
use libviprs_bench.Base.{
  Bool, true, false, ◌||◌, List, [], ◌∷◌, ◌≡◌, refl, some, if◌then◌else◌, ok, err,
}
use libviprs_bench.Families.{
  Engine, libvips, Family, engines, storage, vips, as_str, parse, resolve, engine_set,
  measures_libvips, other_runner, feature_off, vips_feature,
}

-- Every family is parsed back from its name.
parse-as_str : (f : Family) → parse (as_str f) ≡ some f
unfolding parse as_str
parse-as_str engines = refl
parse-as_str storage = refl
parse-as_str vips = refl

abbrev is_libvips : Engine → Bool
is_libvips libvips = true
is_libvips _ = false

abbrev has_libvips : List Engine → Bool
has_libvips [] = false
has_libvips (e ∷ es) = is_libvips e || has_libvips es

-- A family's engine set holds libvips exactly if the family may record a libvips row.
measures_libvips_lem : (f : Family) → has_libvips (engine_set f) ≡ measures_libvips f
unfolding engine_set measures_libvips
measures_libvips_lem engines = refl
measures_libvips_lem storage = refl
measures_libvips_lem vips = refl

-- Of the known names, `resolve` runs `engines` always and `vips` exactly with the feature, and refuses
-- `storage` by naming the binary that measures it and `vips` by naming the feature that is off.
resolve-as_str :
    (feature : Bool)
    → (resolve feature (as_str engines) ≡ ok engines)
      × (resolve feature (as_str storage) ≡ err (other_runner storage "storage"))
      × (resolve feature (as_str vips)
          ≡ (if feature then ok vips else err (feature_off vips vips_feature)))
unfolding resolve as_str
resolve-as_str true = (refl, refl, refl)
resolve-as_str false = (refl, refl, refl)

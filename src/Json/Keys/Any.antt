-- ===== src/Json/Keys/Any.antt =====
-- Sorting keys changes no answer about some of them.
use libviprs_bench.Base.{Bool, String, List, [], ◌∷◌, ◌≡◌, refl, ◌||◌, any, arith}
use libviprs_bench.Json.Keys.{sort_keys, insert_key}

any-insert_key :
    (p : String → Bool) (k : String) (ks : List String)
    → any p (insert_key k ks) ≡ (p k || any p ks)
unfolding insert_key
any-insert_key p k [] = refl
any-insert_key p k (j ∷ ks) = ground (arith, any-insert_key p k ks)

pub any-sort_keys : (p : String → Bool) (ks : List String) → any p (sort_keys ks) ≡ any p ks
unfolding sort_keys
any-sort_keys p [] = refl
any-sort_keys p (k ∷ ks) = ground (arith, any-insert_key p k (sort_keys ks), any-sort_keys p ks)

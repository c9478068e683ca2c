-- ===== src/Versions/Keys.antt =====
-- src/version_id.rs: the ordered keys against the history.
use libviprs_bench.Base.{
  String, Bool, true, false, not, ◌&&◌, ◌||◌, List, [], ◌∷◌, map, ◌≡◌, refl, ◌∙◌, ap, arith, All,
  Related, any, any-sort, sort, str_eq, str_eq_iff, Bool-cases, inl, inr, ◌⊎◌, sym,
}
use libviprs_bench.History.{BenchmarkSnapshot}
use libviprs_bench.Versions.{version_key, Item, item_of, item_leb, keep_first, ordered_version_keys}

-- The key is among the keys.
abbrev pub has : String → List String → Bool
has key keys = any (λ k. str_eq k key) keys

abbrev pub IsOther : String → String → Type 0
IsOther a b = str_eq a b ≡ false

unfoldable pub is_key_of : {R P : Type 0} → String → List (BenchmarkSnapshot R P) → Bool
unfolding version_key
is_key_of key [] = false
is_key_of key (s ∷ history) = str_eq (version_key s.version s.git_sha) key || is_key_of key history

has_same : (a b : String) (keys : List String) → str_eq a b ≡ true → has a keys ≡ has b keys
has_same a b keys h = ap (λ k. has k keys) ((str_eq_iff a b).0 h)

-- A key is kept exactly if it is that of an item and was not seen before.
has-keep_first :
    (key : String) (seen : List String) (items : List Item)
    → has key (keep_first seen items) ≡ (any (λ i. str_eq i.key key) items && not (has key seen))
unfolding keep_first
has-keep_first key seen [] = refl
has-keep_first key seen (item ∷ items) =
    let ih = has-keep_first key seen items in
    let ih-fresh = has-keep_first key (item.key ∷ seen) items in
    elim (Bool-cases (has item.key seen)) [
      | inl old ↦ rw old (stale (Bool-cases (str_eq item.key key)) old ih)
      | inr fresh ↦ rw fresh (kept (Bool-cases (str_eq item.key key)) fresh ih-fresh)
    ]
  where
    stale :
        (str_eq item.key key ≡ true) ⊎ (str_eq item.key key ≡ false)
        → has item.key seen ≡ true
        → has key (keep_first seen items)
          ≡ (any (λ i. str_eq i.key key) items && not (has key seen))
        → has key (keep_first seen items)
          ≡ ((str_eq item.key key || any (λ i. str_eq i.key key) items) && not (has key seen))
    stale (inl same) old ih =
        let seen-key : has key seen ≡ true = sym (has_same item.key key seen same) ∙ old in
        ground (arith, same, seen-key, ih)
    stale (inr other) old ih = rw other ih

    kept :
        (str_eq item.key key ≡ true) ⊎ (str_eq item.key key ≡ false)
        → has item.key seen ≡ false
        → has key (keep_first (item.key ∷ seen) items)
          ≡ (any (λ i. str_eq i.key key) items && not (str_eq item.key key || has key seen))
        → (str_eq item.key key || has key (keep_first (item.key ∷ seen) items))
          ≡ ((str_eq item.key key || any (λ i. str_eq i.key key) items) && not (has key seen))
    kept (inl same) fresh ih =
        let fresh-key : has key seen ≡ false = sym (has_same item.key key seen same) ∙ fresh in
        rw (same, fresh-key) refl
    kept (inr other) fresh ih = ground (arith, other, ih)

unseen :
    (seen : List String) (items : List Item) → All (λ k. has k seen ≡ false) (keep_first seen items)
unfolding keep_first
unseen seen [] = tt
unseen seen (item ∷ items) = elim (Bool-cases (has item.key seen)) [
  | inl old ↦ rw old (unseen seen items)
  | inr fresh ↦ rw fresh (fresh, All-seen item.key seen _ (unseen (item.key ∷ seen) items))
]
  where
    All-seen :
        (key : String) (seen keys : List String)
        → All (λ k. has k (key ∷ seen) ≡ false) keys
        → All (λ k. has k seen ≡ false) keys
    All-seen key seen [] h = tt
    All-seen key seen (k ∷ keys) (p, h) = (ground (arith, p), All-seen key seen keys h)

keep_first-Related :
    (seen : List String) (items : List Item) → Related IsOther (keep_first seen items)
unfolding keep_first
keep_first-Related seen [] = tt
keep_first-Related seen (item ∷ items) = elim (Bool-cases (has item.key seen)) [
  | inl old ↦ rw old (keep_first-Related seen items)
  | inr fresh ↦ rw fresh (
    All-other item.key seen _ (unseen (item.key ∷ seen) items),
    keep_first-Related (item.key ∷ seen) items,
  )
]
  where
    All-other :
        (key : String) (seen keys : List String)
        → All (λ k. has k (key ∷ seen) ≡ false) keys
        → All (IsOther key) keys
    All-other key seen [] h = tt
    All-other key seen (k ∷ keys) (p, h) = (ground (arith, p), All-other key seen keys h)

any-item_of :
    {R P : Type 0} (key : String) (history : List (BenchmarkSnapshot R P))
    → any (λ i. str_eq i.key key) (map item_of history) ≡ is_key_of key history
unfolding item_of is_key_of
any-item_of key [] = refl
any-item_of key (s ∷ history) =
    ap (λ b. str_eq (version_key s.version s.git_sha) key || b) (any-item_of key history)

-- The ordered keys of a history are pairwise different, and are the keys of its snapshots and no
-- others.
pub ordered_version_keys_lem :
    {R P : Type 0} (history : List (BenchmarkSnapshot R P))
    → Related IsOther (ordered_version_keys history)
      × ((key : String) → has key (ordered_version_keys history) ≡ is_key_of key history)
unfolding ordered_version_keys
ordered_version_keys_lem history = (
  keep_first-Related [] (sort item_leb (map item_of history)),
  λ key.
      has-keep_first key [] (sort item_leb (map item_of history))
      ∙ rw
          (any-sort item_leb (λ i. str_eq i.key key) (map item_of history), any-item_of key history)
          (ground arith),
)

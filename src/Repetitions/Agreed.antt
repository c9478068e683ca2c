-- ===== src/Repetitions/Agreed.antt =====
-- What `agreed` keeps.
use libviprs_bench.Base.{
  ℕ, Bool, true, false, ◌&&◌, String, List, [], ◌∷◌, ◌≡◌, refl, append-empty, arith, subst, sym,
  ◌∙◌, Bool-cases, inl, inr, ◌&◌, Option, none, some, str_eq, str_eq_iff, All,
}
use libviprs_bench.Repetitions.{
  Invariants, RepFacts, option_eq, nat_eq, first, all_equal, agree, agreed,
}

-- Every repetition has this value of the field.
abbrev pub Shared : {A : Type 0} → (Invariants → Option A) → Option A → List RepFacts → Type 0
Shared field a reps = All (λ (r : RepFacts). field r.invariants ≡ a) reps

both : (a b : Bool) → (a && b) ≡ true → (a ≡ true) × (b ≡ true)
both true true h = (refl, refl)
both true false h = (refl, h)
both false b h = ground (arith, h)

cons≢nil : (s : String) → ◌≡◌ {A = List String} (s ∷ []) [] → ⊥
cons≢nil s h = cc

option_eq-eq :
    {A : Type 0} (eq : A → A → Bool) (sound : (a b : A) → eq a b ≡ true → a ≡ b) (a b : Option A)
    → option_eq eq a b ≡ true
    → a ≡ b
option_eq-eq eq sound none none h = refl
option_eq-eq eq sound none (some b) h = ground (arith, h)
option_eq-eq eq sound (some a) none h = ground (arith, h)
option_eq-eq eq sound (some a) (some b) h = rw (sound a b h) refl

all_equal-Shared :
    {A : Type 0} (eq : A → A → Bool) (sound : (a b : A) → eq a b ≡ true → a ≡ b)
    (field : Invariants → Option A) (a : Option A) (reps : List RepFacts)
    → all_equal eq field a reps ≡ true
    → Shared field a reps
all_equal-Shared eq sound field a [] h = tt
all_equal-Shared eq sound field a (r ∷ reps) h =
    let (here, later) = both (option_eq eq (field r.invariants) a) (all_equal eq field a reps) h in
    (
      option_eq-eq eq sound (field r.invariants) a here,
      all_equal-Shared eq sound field a reps later,
    )

-- Where nothing is said of the field, the value kept is that of every repetition.
agree-Shared :
    {A : Type 0} (eq : A → A → Bool) (sound : (a b : A) → eq a b ≡ true → a ≡ b)
    (field : Invariants → Option A) (name : String) (reps : List RepFacts)
    → (agree eq field name reps).1 ≡ []
    → Shared field (agree eq field name reps).0 reps
unfolding agree
agree-Shared eq sound field name reps h =
    elim (Bool-cases (all_equal eq field (first field reps) reps)) [
      | inl same ↦
          let kept : (agree eq field name reps).0 ≡ first field reps = rw same refl in
          subst (λ a. Shared field a reps) (sym kept)
            (all_equal-Shared eq sound field (first field reps) reps same)
      | inr other ↦
          let said : (agree eq field name reps).1 ≡ (name & " differs between reps") ∷ [] =
            rw other refl in
          absurd (cons≢nil (name & " differs between reps") (sym said ∙ h))
    ]

combine :
    (i : Invariants) (reps : List RepFacts)
    → Shared (λ x. x.output_bytes) i.output_bytes reps
    → Shared (λ x. x.allocated_bytes) i.allocated_bytes reps
    → Shared (λ x. x.filesystem_entries) i.filesystem_entries reps
    → Shared (λ x. x.directories) i.directories reps
    → Shared (λ x. x.tiles_produced) i.tiles_produced reps
    → Shared (λ x. x.artefact_digest) i.artefact_digest reps
    → Shared (λ x. x.root_entries) i.root_entries reps
    → Shared (λ x. x.leaves) i.leaves reps
    → Shared (λ x. x.requests) i.requests reps
    → Shared (λ x. x.request_bytes) i.request_bytes reps
    → All (λ (r : RepFacts). r.invariants ≡ i) reps
combine i [] s0 s1 s2 s3 s4 s5 s6 s7 s8 s9 = tt
combine i (r ∷ reps) (h0, s0) (h1, s1) (h2, s2) (h3, s3) (h4, s4) (h5, s5) (h6, s6) (h7, s7)
      (h8, s8) (h9, s9) =
    (
      λ j. record {
        output_bytes = h0 j;
        allocated_bytes = h1 j;
        filesystem_entries = h2 j;
        directories = h3 j;
        tiles_produced = h4 j;
        artefact_digest = h5 j;
        root_entries = h6 j;
        leaves = h7 j;
        requests = h8 j;
        request_bytes = h9 j;
      },
      combine i reps s0 s1 s2 s3 s4 s5 s6 s7 s8 s9,
    )

nat_eq-eq : (m n : ℕ) → nat_eq m n ≡ true → m ≡ n
nat_eq-eq m n h = ground (arith, h)

-- Where `agreed` reports no disagreement, every repetition has exactly the invariants that it keeps.
pub agreed-Shared :
    (reps : List RepFacts)
    → (agreed reps).1 ≡ []
    → All (λ (r : RepFacts). r.invariants ≡ (agreed reps).0) reps
unfolding agreed
agreed-Shared reps h0 =
    let (h1, e9) = append-empty _ (agree nat_eq (λ i. i.request_bytes) "request_bytes" reps).1 h0 in
    let (h2, e8) = append-empty _ (agree nat_eq (λ i. i.requests) "requests" reps).1 h1 in
    let (h3, e7) = append-empty _ (agree nat_eq (λ i. i.leaves) "leaves" reps).1 h2 in
    let (h4, e6) = append-empty _ (agree nat_eq (λ i. i.root_entries) "root_entries" reps).1 h3 in
    let (h5, e5) =
      append-empty _ (agree str_eq (λ i. i.artefact_digest) "artefact_digest" reps).1 h4 in
    let (h6, e4) =
      append-empty _ (agree nat_eq (λ i. i.tiles_produced) "tiles_produced" reps).1 h5 in
    let (h7, e3) = append-empty _ (agree nat_eq (λ i. i.directories) "directories" reps).1 h6 in
    let (h8, e2) =
      append-empty _ (agree nat_eq (λ i. i.filesystem_entries) "filesystem_entries" reps).1 h7 in
    let (h9, e1) =
      append-empty _ (agree nat_eq (λ i. i.allocated_bytes) "allocated_bytes" reps).1 h8 in
    combine (agreed reps).0 reps
      (agree-Shared nat_eq nat_eq-eq (λ i. i.output_bytes) "output_bytes" reps h9)
      (agree-Shared nat_eq nat_eq-eq (λ i. i.allocated_bytes) "allocated_bytes" reps e1)
      (agree-Shared nat_eq nat_eq-eq (λ i. i.filesystem_entries) "filesystem_entries" reps e2)
      (agree-Shared nat_eq nat_eq-eq (λ i. i.directories) "directories" reps e3)
      (agree-Shared nat_eq nat_eq-eq (λ i. i.tiles_produced) "tiles_produced" reps e4)
      (agree-Shared str_eq (λ a b. (str_eq_iff a b).0) (λ i. i.artefact_digest) "artefact_digest"
        reps e5)
      (agree-Shared nat_eq nat_eq-eq (λ i. i.root_entries) "root_entries" reps e6)
      (agree-Shared nat_eq nat_eq-eq (λ i. i.leaves) "leaves" reps e7)
      (agree-Shared nat_eq nat_eq-eq (λ i. i.requests) "requests" reps e8)
      (agree-Shared nat_eq nat_eq-eq (λ i. i.request_bytes) "request_bytes" reps e9)

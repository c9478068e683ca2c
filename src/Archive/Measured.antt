-- ===== src/Archive/Measured.antt =====
-- src/storage/archive.rs, the checks of what was asked for and of the cells:
-- `check_invocation_and_reps`, `check_cells` and `check_profile_walk`.
use libviprs_bench.Base.{
  ℕ, ◌+◌, Bool, false, not, ◌||◌, String, List, [], ◌∷◌, ◌++◌, Option, none, some, ltb,
  if◌then◌else◌, str_eq, ◌&◌, show, join, length,
}
use libviprs_bench.Json.{Value, number, array, nil, cons, get, as_str, as_u64, elements, ◌>>?◌}
use libviprs_bench.Crates.{Crates}
use libviprs_bench.Integrity.{is_empty, non_null}
use libviprs_bench.Archive.Document.{Refusal, refuse, at, non_empty_str, cells, cell_name, describe}
use libviprs_bench.Archive.Provenance.{is_true, is_absent, enumerate}
use libviprs_bench.Base.{min}
use libviprs_bench.Json.{Number}
use libviprs_bench.Format.{is_far}
use libviprs_bench.Planner.{Planner, Plan}
use libviprs_bench.Cells.{Cell, coordinates}
use libviprs_bench.Cells
use libviprs_bench.Cells.Profiles.{Profile, label, read_samples}
use libviprs_bench.Cells.Profiles

-- `cell.get("outcome").and_then(as_str).unwrap_or("")`
abbrev pub outcome_of : Value → String
outcome_of cell = elim (get cell "outcome" >>? as_str) [ none ↦ "" | some s ↦ s ]

module _ (crates : Crates) where
  open crates use {fmt, serde}

  abbrev shown : Option Value → String
  shown = describe serde.to_string

  refuse_field : Value → String → List Refusal
  refuse_field invocation field =
      if not (non_null (get invocation field))
      then refuse "invocation" ("provenance.invocation." & field & " is absent") ∷ []
      else []

  says_all : List Value → Bool
  says_all [] = false
  says_all (v ∷ vs) = elim (as_str v) [ none ↦ false | some s ↦ str_eq s "all" ] || says_all vs

  refuse_unresolved : Option Value → List Refusal
  refuse_unresolved other =
      refuse "scenarios-unresolved" (
        "resolved.scenarios is "
        & shown other
        & ", so the document does not record which "
        & "scenarios the defaults expanded to")
      ∷ []

  refuse_scenarios : Option Value → List Refusal
  unfolding refuse_unresolved says_all
  refuse_scenarios (some (array nil)) = refuse_unresolved (some (array nil))
  refuse_scenarios (some (array (cons v vs))) =
      if says_all (v ∷ elements vs)
      then refuse "scenarios-unresolved" (
          "resolved.scenarios still says \"all\"; \"all\" means a different set of scenarios on "
          & "every day the suite grows, so two runs that both say it are not comparable")
        ∷ []
      else []
  refuse_scenarios other = refuse_unresolved other

  refuse_missing_reps : Option Value → Option Value → List Refusal
  refuse_missing_reps r d =
      refuse "reps-disagree" (
        "resolved.reps is "
        & shown r
        & " and measurement.reps is "
        & shown d
        & ", so there is "
        & "nothing to check the cells against")
      ∷ []

  refuse_reps : Option Value → Option Value → List Refusal
  unfolding refuse_missing_reps
  refuse_reps (some r) (some d) =
      if serde.value_eq r d
      then []
      else refuse "reps-disagree" (
          "the invocation resolved to "
          & serde.to_string r
          & " repetitions but the measurement "
          & "block declares "
          & serde.to_string d
          & "; a document that cannot agree with itself "
          & "about how many times it measured is not one to average in")
        ∷ []
  refuse_reps (some r) none = refuse_missing_reps (some r) none
  refuse_reps none d = refuse_missing_reps none d

  -- A cell that took fewer repetitions than the floor it declares.
  short_line : ℕ → Value → Option ℕ → Option ℕ → List String
  short_line i cell (some reps) (some floor) =
      if ltb reps floor
      then (cell_name i cell
          & " took "
          & show reps
          & " repetitions and declares a floor of "
          & show floor)
        ∷ []
      else []
  short_line i cell (some reps) none = []
  short_line i cell none _ = []

  short_cell : ℕ → Value → List String
  unfolding short_line
  short_cell i cell = short_line i cell (get cell "reps" >>? as_u64) (get cell "minReps" >>? as_u64)

  refuse_short : Value → List Refusal
  unfolding short_cell
  refuse_short doc =
      let short = enumerate short_cell 0 (cells doc) in
      if is_empty short then [] else refuse "reps-disagree" (join "; " short) ∷ []

  check_invocation : Value → Option Value → List Refusal
  unfolding refuse_field refuse_scenarios refuse_reps refuse_short
  check_invocation doc none =
      refuse "invocation" (
        "provenance.invocation is absent, so nothing records what was asked for and the numbers "
        & "cannot be reproduced even on this machine")
      ∷ []
  check_invocation doc (some invocation) =
      refuse_field invocation "argv"
      ++ refuse_field invocation "command"
      ++ refuse_field invocation "cwd"
      ++ refuse_field invocation "resolved"
      ++ refuse_scenarios (at doc "provenance.invocation.resolved.scenarios")
      ++ refuse_reps (at doc "provenance.invocation.resolved.reps") (at doc "measurement.reps")
      ++ refuse_short doc

  unfoldable pub check_invocation_and_reps : Value → List Refusal
  unfolding check_invocation
  check_invocation_and_reps doc = check_invocation doc (at doc "provenance.invocation")

  -- One round of the loop of `check_cells`.
  unfoldable pub refuse_cell : ℕ → Value → List Refusal
  refuse_cell i cell =
      if str_eq (outcome_of cell) "ok"
      then (if not (is_true (get cell "attested"))
          then refuse "unattested-cell" (
              cell_name i cell
              & " claims outcome ok and attested is "
              & shown (get cell "attested")
              & "; an ok cell that was never observed to have produced the artefact it names is a "
              & "label, not a measurement")
            ∷ []
          else [])
      else if is_absent (non_empty_str cell "reason")
      then refuse "outcome-without-reason"
          (cell_name i cell & " has outcome " & fmt.debug (outcome_of cell) & " and no reason")
        ∷ []
      else []

  unfoldable pub check_cells : Value → List Refusal
  unfolding refuse_cell
  check_cells doc =
      if is_empty (cells doc)
      then refuse "no-cells"
          "the document has no cells; an empty reading is a refusal, not a result"
        ∷ []
      else enumerate refuse_cell 0 (cells doc)

  abbrev as_number : Value → Option Number
  as_number (number n) = some n
  as_number _ = none

  module _ (planner : Planner) where
    -- What the profile's walk declares, against what the row found.
    refuse_walk : Profile → ℕ → Value → Option Plan → Option Number → List Refusal
    refuse_walk profile i cell (some plan) (some found) =
        let expected = min (read_samples profile) (length (coordinates plan)) + 1 in
        if is_far found expected
        then refuse "profile-walk-mismatch" (
            cell_name i cell
            & " declares "
            & fmt.display_number found
            & " requests but the "
            & "document says profile "
            & fmt.debug (label profile)
            & ", which walks "
            & show expected
            & "; the label and the coordinates came from different profiles")
          ∷ []
        else []
    refuse_walk profile i cell (some plan) none = []
    refuse_walk profile i cell none _ = []

    check_walk : Profile → ℕ → Value → List Refusal
    unfolding refuse_walk
    check_walk profile i cell =
        if elim (get cell "metric" >>? as_str) [
          | none ↦ false
          | some m ↦ str_eq m "requests_declared"
        ]
        then refuse_walk profile i cell
            (get cell "cell" >>? as_str >>? Cells.parse planner >>? Cells.plan planner)
            (get cell "median" >>? as_number)
        else []

    walks : Value → Option Profile → List Refusal
    unfolding check_walk
    walks doc none = []
    walks doc (some profile) = enumerate (check_walk profile) 0 (cells doc)

    unfoldable pub check_profile_walk : Value → List Refusal
    unfolding walks
    check_profile_walk doc = walks doc (get doc "profile" >>? as_str >>? Profiles.parse)

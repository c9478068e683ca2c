-- ===== src/Emulation/Probe/Verdict.antt =====
-- src/emulation.rs: what the probe concludes, against what there was to see.
use mathlib.Core.Option
use libviprs_bench.Base.{
  String, Bool, true, false, not, ◌&&◌, ◌||◌, List, [], ◌∷◌, Option, none, some, ◌≡◌, refl, subst,
  ◌∙◌, ap, str_eq, str_eq_iff, ◌&◌, lines, any, if◌then◌else◌, Result, ok, err, arith, Bool-cases,
  inl, inr, codes, codes-append, get_or, split_on, ◌≢◌, ◌++◌, codes-append, ◌≢◌, ◌++◌,
}
use libviprs_bench.Json.Keys.{is_some, sort_keys}
use libviprs_bench.Json.Keys.Any.{any-sort_keys}
use libviprs_bench.Emulation.{
  yes, no, unknown, normalise_arch, is_translator_name, path_is_translator, maps_path,
}
use libviprs_bench.Emulation.Probe.{
  Surroundings, mapped_translator, maps_evidence, wanted_handler, classify_binfmt, handler_names,
  is_enabled, binfmt_evidence, daemon_arch_evidence, uname_evidence, uname_machine, daemon_machine,
  is_emulated, is_native, combine, probe, is_empty, maps_verdict, evidence_at, classify_found,
}

-- Some mapping of the process is of a translator.
abbrev pub translator_mapped : Result String String → Bool
translator_mapped (ok text) = any (λ line. path_is_translator (maps_path line)) (lines text)
translator_mapped (err e) = false

abbrev is_handler : String → (String → Option String) → String → Bool
is_handler arch text name =
    (str_eq name "rosetta" || str_eq name ("qemu-" & arch)) && is_enabled (text name)

-- Some file of the directory is the enabled handler for the binary's own architecture.
abbrev pub handler_enabled : String → Result String (List String) → (String → Option String) → Bool
handler_enabled arch (ok entries) text = any (is_handler arch text) entries
handler_enabled arch (err e) text = false

-- A machine was reported, and another than the binary's.
abbrev pub differs : String → Option String → Bool
differs arch none = false
differs arch (some machine) = not (str_eq machine (normalise_arch arch))

abbrev pub is_read : {A : Type 0} → Result String A → Bool
is_read (ok a) = true
is_read (err e) = false

-- Some source shows a translation.
abbrev pub is_sighted : Surroundings → Bool
is_sighted w =
    translator_mapped w.maps
    || handler_enabled w.binary_arch w.handlers w.handler_text
    || differs w.binary_arch (daemon_machine w.daemon_env)
    || differs w.binary_arch (Option.map normalise_arch (uname_machine w.uname_output))

empty_path : (path : String) → path_is_translator path ≡ true → is_empty path ≡ false
unfolding path_is_translator split_on is_translator_name
empty_path path h = elim (Bool-cases (is_empty path)) [
  | inl e ↦
      let none_named : path_is_translator "" ≡ true =
        subst (λ p. path_is_translator p ≡ true) ((str_eq_iff path "").0 e) h in
      cc
  | inr n ↦ n
]

mapped_translator_lem :
    (ls : List String)
    → is_some (mapped_translator ls) ≡ any (λ line. path_is_translator (maps_path line)) ls
unfolding mapped_translator
mapped_translator_lem [] = refl
mapped_translator_lem (line ∷ ls) =
    ground (arith, mapped_translator_lem ls, empty_path (maps_path line))

maps_lem : (m : Result String String) → is_emulated (maps_evidence m).verdict ≡ translator_mapped m
unfolding maps_evidence maps_verdict evidence_at is_emulated
maps_lem (err e) = refl
maps_lem (ok text) =
    verdict_of text (mapped_translator (lines text)) ∙ mapped_translator_lem (lines text)
  where
    verdict_of :
        (text : String) (found : Option String)
        → is_emulated (maps_verdict text found).verdict ≡ is_some found
    verdict_of text none = refl
    verdict_of text (some path) = refl

maps_native :
    (m : Result String String)
    → is_native (maps_evidence m).verdict ≡ (is_read m && not (translator_mapped m))
unfolding maps_evidence maps_verdict evidence_at is_native
maps_native (err e) = refl
maps_native (ok text) =
    verdict_of text (mapped_translator (lines text)) ∙ ap not (mapped_translator_lem (lines text))
  where
    verdict_of :
        (text : String) (found : Option String)
        → is_native (maps_verdict text found).verdict ≡ not (is_some found)
    verdict_of text none = refl
    verdict_of text (some path) = refl

wanted_handler_lem :
    (arch : String) (enabled : String → Bool) (names : List String)
    → is_some (wanted_handler arch enabled names)
      ≡ any (λ n. (str_eq n "rosetta" || str_eq n ("qemu-" & arch)) && enabled n) names
unfolding wanted_handler
wanted_handler_lem arch enabled [] = refl
wanted_handler_lem arch enabled (n ∷ names) = ground (arith, wanted_handler_lem arch enabled names)

no_prefix :
    (arch name : String) → get_or (codes name) 0 0 ≢ b'q' → str_eq name ("qemu-" & arch) ≡ false
no_prefix arch name h = elim (Bool-cases (str_eq name ("qemu-" & arch))) [
  | inl e ↦
      let begun : codes name ≡ codes "qemu-" ++ codes arch =
        ap codes ((str_eq_iff name ("qemu-" & arch)).0 e) ∙ codes-append "qemu-" arch in
      absurd (h (ap (λ s. get_or s 0 0) begun))
  | inr n ↦ n
]

other_file :
    (arch name : String)
    → (str_eq name "register" || str_eq name "status") ≡ true
    → (str_eq name "rosetta" || str_eq name ("qemu-" & arch)) ≡ false
other_file arch name h = elim (Bool-cases (str_eq name "register")) [
  | inl e ↦ rw ((str_eq_iff name "register").0 e) (no_prefix arch "register" (λ e. omega arith))
  | inr n ↦
      rw ((str_eq_iff name "status").0 (ground (arith)))
        (no_prefix arch "status" (λ e. omega arith))
]

-- The files that hold no handler are none of the handlers looked for.
any-handler_names :
    (arch : String) (text : String → Option String) (entries : List String)
    → any (is_handler arch text) (handler_names entries) ≡ any (is_handler arch text) entries
unfolding handler_names
any-handler_names arch text [] = refl
any-handler_names arch text (name ∷ entries) =
    ground (arith, any-handler_names arch text entries, other_file arch name)

classify_binfmt_native :
    (arch : String) (enabled : String → Bool) (names : List String)
    → is_native (classify_binfmt names arch enabled).verdict ≡ false
unfolding classify_binfmt classify_found evidence_at is_native
classify_binfmt_native arch enabled names = verdict_of (wanted_handler arch enabled names)
  where
    verdict_of :
        (found : Option String) → is_native (classify_found arch names found).verdict ≡ false
    verdict_of none = refl
    verdict_of (some path) = refl

binfmt_native :
    (arch : String) (entries : Result String (List String)) (text : String → Option String)
    → is_native (binfmt_evidence arch entries text).verdict ≡ false
unfolding binfmt_evidence evidence_at is_native
binfmt_native arch (err e) text = refl
binfmt_native arch (ok entries) text =
    classify_binfmt_native arch (λ n. is_enabled (text n)) (sort_keys (handler_names entries))

classify_binfmt_lem :
    (arch : String) (enabled : String → Bool) (names : List String)
    → is_emulated (classify_binfmt names arch enabled).verdict
      ≡ any (λ n. (str_eq n "rosetta" || str_eq n ("qemu-" & arch)) && enabled n) names
unfolding classify_binfmt classify_found evidence_at is_emulated
classify_binfmt_lem arch enabled names =
    verdict_of (wanted_handler arch enabled names) ∙ wanted_handler_lem arch enabled names
  where
    verdict_of :
        (found : Option String)
        → is_emulated (classify_found arch names found).verdict ≡ is_some found
    verdict_of none = refl
    verdict_of (some path) = refl

binfmt_lem :
    (arch : String) (entries : Result String (List String)) (text : String → Option String)
    → is_emulated (binfmt_evidence arch entries text).verdict ≡ handler_enabled arch entries text
unfolding binfmt_evidence evidence_at is_emulated
binfmt_lem arch (err e) text = refl
binfmt_lem arch (ok entries) text =
    classify_binfmt_lem arch (λ n. is_enabled (text n)) (sort_keys (handler_names entries))
    ∙ any-sort_keys (is_handler arch text) (handler_names entries)
    ∙ any-handler_names arch text entries

-- Some source could have seen a translation: the maps are readable, or the runner named the machine.
abbrev pub is_observed : Surroundings → Bool
is_observed w = is_read w.maps || is_some (daemon_machine w.daemon_env)

-- The verdicts of the two sources that compare the binary with a machine.
daemon_lem :
    (arch : String) (machine : Option String)
    → is_emulated (daemon_arch_evidence arch machine).verdict ≡ differs arch machine
unfolding daemon_arch_evidence evidence_at is_emulated
daemon_lem arch none = refl
daemon_lem arch (some machine) = ground arith

uname_lem :
    (arch : String) (machine : Option String)
    → is_emulated (uname_evidence arch machine).verdict ≡ differs arch machine
unfolding uname_evidence evidence_at is_emulated
uname_lem arch none = refl
uname_lem arch (some machine) = ground arith

daemon_native :
    (arch : String) (machine : Option String)
    → is_native (daemon_arch_evidence arch machine).verdict
      ≡ (is_some machine && not (differs arch machine))
unfolding daemon_arch_evidence evidence_at is_native
daemon_native arch none = refl
daemon_native arch (some machine) = ground arith

uname_native :
    (arch : String) (machine : Option String)
    → is_native (uname_evidence arch machine).verdict ≡ false
unfolding uname_evidence evidence_at is_native
uname_native arch none = refl
uname_native arch (some machine) = ground arith

-- Whatever the surroundings, the probe says yes exactly if a mapped file is a translator, or an
-- enabled handler for the binary's architecture is among the files of binfmt_misc, or the daemon or
-- `uname` names another architecture, where a name that `normalise_arch` does not know counts as
-- another one; else it says no exactly if the maps could be read or the
-- daemon's architecture was given; and unknown in every other case.
pub emulated-probe :
    (w : Surroundings)
    → (probe w).emulated ≡ (if is_sighted w then yes else if is_observed w then no else unknown)
unfolding probe combine
emulated-probe w =
    rw
      (
        maps_lem w.maps,
        maps_native w.maps,
        binfmt_lem w.binary_arch w.handlers w.handler_text,
        binfmt_native w.binary_arch w.handlers w.handler_text,
        daemon_lem w.binary_arch (daemon_machine w.daemon_env),
        daemon_native w.binary_arch (daemon_machine w.daemon_env),
        uname_lem w.binary_arch (Option.map normalise_arch (uname_machine w.uname_output)),
        uname_native w.binary_arch (Option.map normalise_arch (uname_machine w.uname_output)),
      )
      (ground arith)

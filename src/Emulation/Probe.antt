-- ===== src/Emulation/Probe.antt =====
-- src/emulation.rs: the four sources of evidence, and the probe that combines them.
pub mod Verdict
use libviprs_bench.Base.{
  String, Bool, true, false, not, ◌&&◌, ◌||◌, List, [], ◌∷◌, Option, none, some, str_eq, ◌&◌, join,
  trim, lines, show, length, any, if◌then◌else◌, Result, ok, err,
}
use libviprs_bench.Json.Keys.{sort_keys}
use libviprs_bench.Emulation.{
  Emulated, yes, no, unknown, EvidenceVerdict, emulated, native, inconclusive, Evidence,
  EmulationReport, normalise_arch, path_is_translator, maps_path,
}
use mathlib.Core.Option

-- What the probe reads of its surroundings; an `err` holds the text of the I/O error.
pub record Surroundings : Type 0 where
  -- `std::env::consts::ARCH`
  pub binary_arch : String
  -- /proc/self/maps
  pub maps : Result String String
  -- the file names of the binfmt_misc directory, and the text of each readable file
  pub handlers : Result String (List String)
  pub handler_text : String → Option String
  -- BENCH_DAEMON_ARCH
  pub daemon_env : Option String
  -- of `uname -m`, where it ran: that it succeeded, and what it printed
  pub uname_output : Option (Bool × String)

abbrev pub is_empty : String → Bool
is_empty s = str_eq s ""

evidence_at : String → EvidenceVerdict → String → Evidence
evidence_at s v d = record { source = s; verdict = v; detail = d }

-- The loop over the lines of the maps, which returns at the first translator.
unfoldable pub mapped_translator : List String → Option String
mapped_translator [] = none
mapped_translator (line ∷ rest) =
    let later = mapped_translator rest in
    let path = maps_path line in
    if not (is_empty path) && path_is_translator path then some path else later

maps_verdict : String → Option String → Evidence
unfolding evidence_at
maps_verdict text (some path) =
    evidence_at "proc-self-maps" emulated ("a translator is mapped into this process: " & path)
maps_verdict text none =
    evidence_at "proc-self-maps" native
      ("read " & show (length (lines text)) & " mappings, none of them a translator")

unfoldable pub maps_evidence : Result String String → Evidence
unfolding maps_verdict evidence_at mapped_translator
maps_evidence (ok text) = maps_verdict text (mapped_translator (lines text))
maps_evidence (err e) =
    evidence_at "proc-self-maps" inconclusive
      ("/proc/self/maps is unreadable (" & e & "), so nothing was observed here")

wanted_handler : String → (String → Bool) → List String → Option String
wanted_handler binary_arch enabled [] = none
wanted_handler binary_arch enabled (name ∷ names) =
    let rest = wanted_handler binary_arch enabled names in
    if (str_eq name "rosetta" || str_eq name ("qemu-" & binary_arch)) && enabled name
    then some name
    else rest

no_handler : String → List String → String
no_handler binary_arch [] =
    "the directory exists and lists no handlers, which inside a Docker Desktop container is what it says whether or not translation is happening"
no_handler binary_arch (name ∷ names) =
    "handlers present ("
    & join ", " (name ∷ names)
    & "), none of them registered for "
    & binary_arch

classify_found : String → List String → Option String → Evidence
unfolding no_handler evidence_at
classify_found binary_arch names (some name) = evidence_at "binfmt-misc" emulated (
    "an enabled binfmt_misc handler '" & name
    & "' is registered for this binary's own architecture (" & binary_arch & ")")
classify_found binary_arch names none =
    evidence_at "binfmt-misc" inconclusive (no_handler binary_arch names)

unfoldable pub classify_binfmt : List String → String → (String → Bool) → Evidence
unfolding classify_found wanted_handler
classify_binfmt names binary_arch enabled =
    classify_found binary_arch names (wanted_handler binary_arch enabled names)

-- The names of the handlers among the entries.
handler_names : List String → List String
handler_names [] = []
handler_names (name ∷ names) =
    let rest = handler_names names in
    if str_eq name "register" || str_eq name "status" then rest else name ∷ rest

unfoldable pub is_enabled : Option String → Bool
is_enabled none = false
is_enabled (some text) = any (λ l. str_eq (trim l) "enabled") (lines text)

unfoldable pub binfmt_evidence :
    String → Result String (List String) → (String → Option String) → Evidence
unfolding handler_names evidence_at classify_binfmt
binfmt_evidence binary_arch (err e) handler_text =
    evidence_at "binfmt-misc" inconclusive ("/proc/sys/fs/binfmt_misc is unreadable (" & e & ")")
binfmt_evidence binary_arch (ok entries) handler_text =
    classify_binfmt (sort_keys (handler_names entries)) binary_arch
      (λ name. is_enabled (handler_text name))

unfoldable pub daemon_arch_evidence : String → Option String → Evidence
unfolding evidence_at
daemon_arch_evidence binary_arch none =
    evidence_at "daemon-arch" inconclusive
      "BENCH_DAEMON_ARCH was not set, so the runner supplied no daemon architecture to compare against"
daemon_arch_evidence binary_arch (some daemon) =
    if not (str_eq daemon (normalise_arch binary_arch))
    then evidence_at "daemon-arch" emulated (
        "the runner says the daemon runs on " & daemon & " and this binary was compiled for "
        & binary_arch & ", so something is translating it")
    else evidence_at "daemon-arch" native
        ("the runner says the daemon runs on " & daemon & ", matching this binary")

unfoldable pub uname_evidence : String → Option String → Evidence
unfolding evidence_at
uname_evidence binary_arch none = evidence_at "uname" inconclusive "uname could not be run"
uname_evidence binary_arch (some machine) =
    if not (str_eq machine (normalise_arch binary_arch))
    then evidence_at "uname" emulated (
        "the kernel reports machine " & machine & " while this binary was compiled for "
        & binary_arch)
    else evidence_at "uname" inconclusive (
        "the kernel reports machine " & machine
        & ", matching this binary, which a personality-mangling translator would also produce")

-- `(!s.is_empty()).then_some(s)`
non_empty : String → Option String
non_empty s = if is_empty s then none else some s

unfoldable pub uname_machine : Option (Bool × String) → Option String
unfolding non_empty
uname_machine none = none
uname_machine (some (false, out)) = none
uname_machine (some (true, out)) = non_empty (trim out)

unfoldable pub daemon_machine : Option String → Option String
unfolding non_empty
daemon_machine none = none
daemon_machine (some v) = Option.map normalise_arch (non_empty (trim v))

is_emulated : EvidenceVerdict → Bool
is_emulated emulated = true
is_emulated _ = false

is_native : EvidenceVerdict → Bool
is_native native = true
is_native _ = false

-- Any positive sighting wins, then a source that looked and saw nothing.
unfoldable pub combine : List Evidence → Emulated
unfolding is_emulated is_native
combine evidence =
    if any (λ e. is_emulated e.verdict) evidence
    then yes
    else if any (λ e. is_native e.verdict) evidence
    then no
    else unknown

unfoldable pub probe : Surroundings → EmulationReport
unfolding maps_evidence binfmt_evidence daemon_arch_evidence uname_evidence uname_machine
    daemon_machine combine
probe w =
    let uname = Option.map normalise_arch (uname_machine w.uname_output) in
    let daemon = daemon_machine w.daemon_env in
    let seen =
      (maps_evidence w.maps
        ∷ binfmt_evidence w.binary_arch w.handlers w.handler_text
        ∷ daemon_arch_evidence w.binary_arch daemon
        ∷ uname_evidence w.binary_arch uname
        ∷ []) in
    record {
      emulated = combine seen;
      evidence = seen;
      binary_arch = w.binary_arch;
      uname_arch = uname;
      daemon_arch = daemon;
    }

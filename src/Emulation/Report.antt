-- ===== src/Emulation/Report.antt =====
-- src/emulation.rs: the probe's report as JSON text, one key to a line.
use Prim.Native.Char.{Char, code}
use libviprs_bench.Base.{
  ℕ, ◌/◌, ◌%◌, String, List, [], ◌∷◌, Option, none, some, ◌≡◌, refl, ◌&◌, if◌then◌else◌, ltb, ◌==◌,
}
use libviprs_bench.Sha256.{from_digit}
use libviprs_bench.Emulation.{Evidence, native, no, EmulationReport, as_json, as_str}

-- `\u{:04x}`
unicode_escape : ℕ → String
unfolding from_digit
unicode_escape c =
    "\\u"
    & from_digit (c / 4096 % 16)
    & from_digit (c / 256 % 16)
    & from_digit (c / 16 % 16)
    & from_digit (c % 16)

escaped : Char → String
unfolding unicode_escape
escaped c =
    if code c == b'"'
    then "\\\""
    else if code c == b'\\'
    then "\\\\"
    else if code c == 10
    then "\\n"
    else if code c == 13
    then "\\r"
    else if code c == 9
    then "\\t"
    else if ltb (code c) 0x20
    then unicode_escape (code c)
    else String.◌∷◌ c ""

escaped_chars : String → String
unfolding escaped
escaped_chars String.[] = ""
escaped_chars (String.◌∷◌ c s) = escaped c & escaped_chars s

unfoldable pub json_string : String → String
unfolding escaped_chars
json_string s = "\"" & escaped_chars s & "\""

unfoldable pub json_opt : Option String → String
unfolding json_string
json_opt (some s) = json_string s
json_opt none = "null"

evidence_object : Evidence → String
unfolding json_string as_str
evidence_object e =
    "    {\"source\": "
    & json_string e.source
    & ", \"verdict\": "
    & json_string (as_str e.verdict)
    & ", \"detail\": "
    & json_string e.detail
    & "}"

-- One line for each source, with a comma behind each but the last.
evidence_lines : List Evidence → String
unfolding evidence_object
evidence_lines [] = ""
evidence_lines (e ∷ []) = evidence_object e & "\n"
evidence_lines (e ∷ f ∷ rest) = evidence_object e & ",\n" & evidence_lines (f ∷ rest)

unfoldable pub to_json : EmulationReport → String
unfolding as_json json_string json_opt evidence_lines
to_json r =
    "{\n"
    & "  \"emulated\": "
    & as_json r.emulated
    & ",\n"
    & "  \"binaryArch\": "
    & json_string r.binary_arch
    & ",\n"
    & "  \"unameArch\": "
    & json_opt r.uname_arch
    & ",\n"
    & "  \"daemonArch\": "
    & json_opt r.daemon_arch
    & ",\n"
    & "  \"evidence\": [\n"
    & evidence_lines r.evidence
    & "  ]\n}"

to_json_test :
    to_json (record {
      emulated = no;
      evidence = record { source = "uname"; verdict = native; detail = "a\tb" } ∷ [];
      binary_arch = "x86_64";
      uname_arch = none;
      daemon_arch = some "x86_64";
    })
    ≡ "{\n  \"emulated\": false,\n  \"binaryArch\": \"x86_64\",\n  \"unameArch\": null,\n  \"daemonArch\": \"x86_64\",\n  \"evidence\": [\n    {\"source\": \"uname\", \"verdict\": \"native\", \"detail\": \"a\\tb\"}\n  ]\n}"
unfolding to_json
to_json_test = refl

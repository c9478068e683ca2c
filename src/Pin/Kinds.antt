-- ===== src/Pin/Kinds.antt =====
-- src/pin_check.rs: which answer the check of the pin gives.
use libviprs_bench.Base.{
  String, Bool, true, false, List, Option, none, some, if◌then◌else◌, Result, ok, err, any,
}
use libviprs_bench.Integrity.{is_empty}
use libviprs_bench.Pin.{
  Version, version_ltb, LibvipsPinStatus, up_to_date, newer_release_available, sha256_mismatch,
  pinned_release_not_found, LibvipsPinError, unparsed, no_stable_release, latest, differs,
}

-- The answers without their texts.
pub data PinKind : Type 0 where
  unread nothing_stable current newer mismatch missing : PinKind

unfoldable pub kind : Result LibvipsPinError LibvipsPinStatus → PinKind
kind (err (unparsed e)) = unread
kind (err no_stable_release) = nothing_stable
kind (ok up_to_date) = current
kind (ok (newer_release_available latest)) = newer
kind (ok (sha256_mismatch pinned upstream)) = mismatch
kind (ok pinned_release_not_found) = missing

-- Some of the versions is newer than the pinned one, where that is known.
unfoldable pub some_newer : Option Version → List Version → Bool
some_newer none versions = false
some_newer (some pinned) versions = any (version_ltb pinned) versions

unfoldable pub digest_differs : Option String → String → Bool
digest_differs none sha256 = false
digest_differs (some upstream) sha256 = differs upstream sha256

abbrev pub is_absent : {A : Type 0} → Option A → Bool
is_absent none = true
is_absent (some a) = false

-- The answer by what the releases hold: a digest that differs counts before a newer release, and
-- a newer release before a missing one.
unfoldable pub expected : List Version → Option Version → Option String → String → PinKind
expected versions pinned upstream sha256 =
    if is_empty versions
    then nothing_stable
    else if digest_differs upstream sha256
    then mismatch
    else if some_newer pinned versions
    then newer
    else if is_absent upstream
    then missing
    else current

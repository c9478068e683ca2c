-- ===== src/Archive/Store.antt =====
-- src/storage/archive.rs, the directory that `archive_text` files into: the calls of `std::fs`, each
-- of which may fail, the clock, the errors, and `write_atomically`. A file is its stem and its
-- extension under the archive's root. `Path::exists` answers from the directory and does not fail;
-- the program is the directory's only writer.
pub mod Archived
pub mod Index
pub mod Filed
pub mod Fixed
pub mod Kept
pub mod Reported
use libviprs_bench.Base.{
  ℕ, Bool, true, false, String, List, [], ◌∷◌, Option, none, some, ◌&&◌, str_eq, if◌then◌else◌,
  Result, ok, err, show, ◌&◌, ◌≡◌,
}
use libviprs_bench.Canonical.{CanonicalError}
use libviprs_bench.Archive.Document.{Refusal}
use libviprs_bench.Archive.RunId.{RunIdError}

pub record FilePath : Type 0 where
  pub stem : String
  pub extension : String

abbrev pub path_eq : FilePath → FilePath → Bool
path_eq p q = str_eq p.stem q.stem && str_eq p.extension q.extension

abbrev pub Files : Type 0
Files = FilePath → Option String

-- The directory with other contents at one path; `none` is no file.
abbrev pub put : FilePath → Option String → Files → Files
put p content files q = if path_eq p q then content else files q

-- A call that fails: its message, and what an interrupted write leaves in the file.
pub record Fault : Type 0 where
  pub message : String
  pub left : Option String

-- The directory, which of the coming calls fail, the coming readings of the clock in nanoseconds,
-- and the id of the process.
pub record World : Type 0 where
  pub files : Files
  pub faults : List (Option Fault)
  pub nonces : List ℕ
  pub process_id : ℕ

pub data ArchiveError : Type 0 where
  refused : List Refusal → ArchiveError
  run_id : RunIdError → ArchiveError
  canonical : CanonicalError → ArchiveError
  collision : String → String → String → ArchiveError
  io : String → ArchiveError

abbrev pub M : Type 0 → Type 0
M A = World → Result ArchiveError A × World

abbrev pub and_then :
    {A B : Type 0} → Result ArchiveError A × World → (A → M B) → Result ArchiveError B × World
and_then (ok a, w) f = f a w
and_then (err e, w) f = (err e, w)

abbrev pub pure : {A : Type 0} → A → M A
pure a w = (ok a, w)

infixl 5 ◌>>◌
abbrev pub ◌>>◌ : {B : Type 0} → M (Unit {0}) → M B → M B
◌>>◌ step later w = and_then (step w) (λ _. later)

infixl 5 ◌>>=◌
abbrev pub ◌>>=◌ : {A B : Type 0} → M A → (A → M B) → M B
◌>>=◌ step next w = and_then (step w) next

-- `?` on a value that is there already
abbrev pub lift : {A : Type 0} → Result ArchiveError A → M A
lift r w = (r, w)

-- Whether the coming call fails.
abbrev pub next_fault : List (Option Fault) → Option Fault
next_fault [] = none
next_fault (fault ∷ faults) = fault

abbrev pub later_faults : List (Option Fault) → List (Option Fault)
later_faults [] = []
later_faults (fault ∷ faults) = faults

abbrev pub tick : World → World
tick w = record w { faults = later_faults w.faults }

-- A call that changes the directory, if it does not fail.
abbrev calling : Option Fault → (Fault → World → World) → M (Unit {0}) → M (Unit {0})
calling none broken m w = m w
calling (some fault) broken m w = (err (io fault.message), broken fault w)

abbrev pub set_file : FilePath → Option String → World → World
set_file p content w = record w { files = put p content w.files }

abbrev leave : FilePath → Fault → World → World
leave p fault w = elim fault.left [ none ↦ w | some partial ↦ set_file p (some partial) w ]

unfoldable pub create_dir_all : M (Unit {0})
create_dir_all w = calling (next_fault w.faults) (λ _ v. v) (pure tt) (tick w)

abbrev pub is_some : Option String → Bool
is_some none = false
is_some (some _) = true

abbrev pub exists : FilePath → M Bool
exists p w = (ok (is_some (w.files p)), w)

unfoldable pub read_found : Option String → M String
read_found none = lift (err (io "No such file or directory (os error 2)"))
read_found (some content) = pure content

unfoldable pub read_or_fail : Option Fault → FilePath → M String
unfolding read_found
read_or_fail none p w = read_found (w.files p) w
read_or_fail (some fault) p w = (err (io fault.message), w)

unfoldable pub read_to_string : FilePath → M String
unfolding read_or_fail
read_to_string p w = read_or_fail (next_fault w.faults) p (tick w)

unfoldable pub write : FilePath → String → M (Unit {0})
write p text w =
    calling (next_fault w.faults) (leave p) (λ v. (ok tt, set_file p (some text) v)) (tick w)

unfoldable pub move : Option String → FilePath → FilePath → M (Unit {0})
move none from to w = (err (io "No such file or directory (os error 2)"), w)
move (some content) from to w = (ok tt, set_file to (some content) (set_file from none w))

unfoldable pub rename : FilePath → FilePath → M (Unit {0})
unfolding move
rename from to w =
    calling (next_fault w.faults) (λ _ v. v) (λ v. move (w.files from) from to v) (tick w)

unfoldable pub remove_file : FilePath → M (Unit {0})
remove_file p w =
    calling (next_fault w.faults) (λ _ v. v) (λ v. (ok tt, set_file p none v)) (tick w)

abbrev next_nonce : List ℕ → ℕ × List ℕ
next_nonce [] = (0, [])
next_nonce (n ∷ ns) = (n, ns)

-- The reading of the clock, 0 for one before the epoch.
unfoldable pub nonce : M ℕ
nonce w = let (n, ns) = next_nonce w.nonces in (ok n, record w { nonces = ns })

-- `path.with_extension(format!("tmp-{}-{nonce}", std::process::id()))`
unfoldable pub temporary : FilePath → ℕ → ℕ → FilePath
temporary path process_id n = record {
  stem = path.stem;
  extension = "tmp-" & show process_id & "-" & show n;
}

-- After the rename: a failure removes the temporary file, whether that works or not.
unfoldable pub clean_up :
    FilePath → Result ArchiveError (Unit {0}) × World → Result ArchiveError (Unit {0}) × World
clean_up temp (ok u, w) = (ok u, w)
clean_up temp (err e, w) = (err e, (remove_file temp w).1)

unfoldable pub write_then_rename : FilePath → FilePath → String → M (Unit {0})
unfolding clean_up
write_then_rename temp path text = do write temp text; λ w. clean_up temp (rename temp path w)

unfoldable pub write_atomically : FilePath → String → M (Unit {0})
unfolding write_then_rename nonce
write_atomically path text w =
    (do n ← nonce; write_then_rename (temporary path w.process_id n) path text) w

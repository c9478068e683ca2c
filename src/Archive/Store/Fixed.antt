-- ===== src/Archive/Store/Fixed.antt =====
-- src/storage/archive.rs: the calls on the archive's directory, seen from the other files.
use libviprs_bench.Base.{
  ℕ, Bool, true, false, String, List, [], ◌∷◌, Option, ◌≡◌, refl, ap, ◌∙◌, sym, arith, str_eq_iff,
  codes, codes-append, if◌then◌else◌, Result, ok, err, ◌&◌, show,
}
use libviprs_bench.Archive.Store.{
  FilePath, path_eq, Files, put, World, ArchiveError, M, ◌>>=◌, and_then, create_dir_all,
  read_to_string, write, rename, remove_file, nonce, temporary, clean_up, write_then_rename,
  write_atomically,
}

-- Whatever fails on the way, the file has afterwards what it had before.
abbrev pub Fixes : {A : Type 0} → FilePath → M A → Type 0
Fixes q m = (w : World) → (m w).1.files q ≡ w.files q

pub and_then-Fixes :
    {A B : Type 0} (q : FilePath) (r : Result ArchiveError A × World) (f : A → M B)
    → ((a : A) → Fixes q (f a))
    → (and_then r f).1.files q ≡ r.1.files q
and_then-Fixes q (ok a, w) f h = h a w
and_then-Fixes q (err e, w) f h = refl

pub >>=-Fixes :
    {A B : Type 0} (q : FilePath) (m : M A) (f : A → M B)
    → Fixes q m
    → ((a : A) → Fixes q (f a))
    → Fixes q (m >>= f)
>>=-Fixes q m f h k w = and_then-Fixes q (m w) f k ∙ h w

put-other :
    (p q : FilePath) (c : Option String) (files : Files)
    → path_eq p q ≡ false
    → put p c files q ≡ files q
put-other p q c files h = rw h

first_code : List ℕ → ℕ
first_code [] = 0
first_code (c ∷ cs) = c

tmp-json : (s : String) → ("tmp-" & s) ≡ "json" → ⊥
unfolding first_code
tmp-json s h =
    let e : ◌≡◌ {A = ℕ} b't' b'j' = ap first_code (sym (codes-append "tmp-" s) ∙ ap codes h) in
    omega arith

pub temporary-other :
    (p q : FilePath) (i n : ℕ) → q.extension ≡ "json" → path_eq (temporary p i n) q ≡ false
unfolding temporary
temporary-other p q i n h =
    let rest = show i & "-" & show n in
    ground (arith, str_eq_iff ("tmp-" & rest) q.extension, tmp-json rest)

pub create_dir_all-Fixes : (q : FilePath) → Fixes q create_dir_all
unfolding create_dir_all
create_dir_all-Fixes q w = ground arith

pub read_to_string-Fixes : (p q : FilePath) → Fixes q (read_to_string p)
unfolding read_to_string
read_to_string-Fixes p q w = ground arith

nonce-Fixes : (q : FilePath) → Fixes q nonce
unfolding nonce
nonce-Fixes q w = ground arith

write-Fixes : (p q : FilePath) (text : String) → path_eq p q ≡ false → Fixes q (write p text)
unfolding write
write-Fixes p q text h w = ground arith

remove_file-Fixes : (p q : FilePath) → path_eq p q ≡ false → Fixes q (remove_file p)
unfolding remove_file
remove_file-Fixes p q h w = ground arith

rename-Fixes : (p r q : FilePath) → path_eq p q ≡ false → path_eq r q ≡ false → Fixes q (rename p r)
unfolding rename
rename-Fixes p r q h k w = ground arith

clean_up-Fixes :
    (temp q : FilePath) (r : Result ArchiveError (Unit {0}) × World)
    → path_eq temp q ≡ false
    → (clean_up temp r).1.files q ≡ r.1.files q
unfolding clean_up
clean_up-Fixes temp q (ok u, w) h = refl
clean_up-Fixes temp q (err e, w) h = remove_file-Fixes temp q h w

write_then_rename-Fixes :
    (temp path q : FilePath) (text : String)
    → path_eq temp q ≡ false
    → path_eq path q ≡ false
    → Fixes q (write_then_rename temp path text)
unfolding write_then_rename
write_then_rename-Fixes temp path q text h k =
    >>=-Fixes q (write temp text) (λ _ w. clean_up temp (rename temp path w))
      (write-Fixes temp q text h)
      (λ _ w. clean_up-Fixes temp q (rename temp path w) h ∙ rename-Fixes temp path q h k w)

pub write_atomically-Fixes :
    (path q : FilePath) (text : String)
    → q.extension ≡ "json"
    → path_eq path q ≡ false
    → Fixes q (write_atomically path text)
unfolding write_atomically
write_atomically-Fixes path q text e k w =
    >>=-Fixes q nonce (λ n. write_then_rename (temporary path w.process_id n) path text)
      (nonce-Fixes q)
      (λ n.
        write_then_rename-Fixes (temporary path w.process_id n) path q text
          (temporary-other path q w.process_id n e) k)
      w

pub if-Fixes :
    {A : Type 0} (q : FilePath) (b : Bool) (m n : M A)
    → Fixes q m
    → Fixes q n
    → Fixes q (if b then m else n)
if-Fixes q true m n h k = h
if-Fixes q false m n h k = k

-- ===== src/Memory/Filesystem/Files.antt =====
-- The file system under fmemory/src/backends/filesystem.rs: what `std::fs` does, as a parameter.
use fiddlesticks.Base.{
  inr, sym, ◌∙◌, inl, Bool-cases, String, Bool, true, false, ◌&&◌, Option, none, some, ◌≡◌, ◌≢◌,
  ◌↔◌, PartialEq, ◌==◌, string_eq, arith,
}
use fiddlesticks.Base.Map.{is_some}
use fiddlesticks.Exec.{Result, ok, err, no_return, Exec}

-- A file in a directory, with its name taken apart at the last dot.
pub record FilePath : Type 0 where
  pub directory : String
  pub stem : String
  pub extension : String

unfoldable pub path_beq : FilePath → FilePath → Bool
path_beq p q = p.directory == q.directory && p.stem == q.stem && p.extension == q.extension

pub path_beq_iff : (p q : FilePath) → (path_beq p q ≡ true) ↔ (p ≡ q)
unfolding path_beq
path_beq_iff p q =
    let directories = string_eq.beq_iff p.directory q.directory in
    let stems = string_eq.beq_iff p.stem q.stem in
    let extensions = string_eq.beq_iff p.extension q.extension in
    (λ h. ground arith, λ h. ground arith)

instance abbrev pub file_path_eq : PartialEq FilePath
file_path_eq = record { beq = path_beq; beq_iff = path_beq_iff }

-- `D` is the state of the disk; an operation that fails says why.
pub record Disk (D Bytes : Type 0) : Type 0 where
  pub create_dir_all : String → Exec D String (Unit {0})
  pub exists : FilePath → D → Bool
  pub read : FilePath → Exec D String Bytes
  pub write : FilePath → Bytes → Exec D String (Unit {0})
  pub remove_file : FilePath → Exec D String (Unit {0})
  pub rename : FilePath → FilePath → Exec D String (Unit {0})

-- What reading a file with these contents may give.
abbrev pub Reads : {Bytes : Type 0} → Option Bytes → Result String Bytes → Type 0
Reads (some bytes) (ok x) = x ≡ bytes
Reads none (ok x) = ⊥
Reads o (err e) = Unit
Reads o no_return = ⊥

-- What is documented of the operations. Each may fail; a write that fails may leave anything in its
-- own file, a removal or a renaming that fails leaves the files as they were.
pub record DiskLaws {D Bytes : Type 0} (disk : Disk D Bytes) : Type 0 where
  pub contents : D → FilePath → Option Bytes
  pub exists_only : (p : FilePath) (d : D) → disk.exists p d ≡ true → is_some (contents d p) ≡ true
  pub read_gives : (p : FilePath) (d : D) → Reads (contents d p) (disk.read p d).0
  pub read_keeps : (p q : FilePath) (d : D) → contents (disk.read p d).1 q ≡ contents d q
  pub create_returns : (s : String) (d : D) → (disk.create_dir_all s d).0 ≢ no_return
  pub create_keeps :
      (s : String) (q : FilePath) (d : D) → contents (disk.create_dir_all s d).1 q ≡ contents d q
  pub write_returns : (p : FilePath) (b : Bytes) (d : D) → (disk.write p b d).0 ≢ no_return
  pub write_puts :
      (p : FilePath) (b : Bytes) (d : D)
      → (disk.write p b d).0 ≡ ok tt
      → contents (disk.write p b d).1 p ≡ some b
  pub write_elsewhere :
      (p q : FilePath) (b : Bytes) (d : D)
      → (p == q) ≡ false
      → contents (disk.write p b d).1 q ≡ contents d q
  pub remove_returns : (p : FilePath) (d : D) → (disk.remove_file p d).0 ≢ no_return
  pub remove_takes :
      (p : FilePath) (d : D)
      → (disk.remove_file p d).0 ≡ ok tt
      → contents (disk.remove_file p d).1 p ≡ none
  pub remove_fails :
      (p : FilePath) (d : D) (e : String)
      → (disk.remove_file p d).0 ≡ err e
      → contents (disk.remove_file p d).1 p ≡ contents d p
  pub remove_elsewhere :
      (p q : FilePath) (d : D)
      → (p == q) ≡ false
      → contents (disk.remove_file p d).1 q ≡ contents d q
  pub rename_returns : (p q : FilePath) (d : D) → (disk.rename p q d).0 ≢ no_return
  pub rename_moves :
      (p q : FilePath) (d : D)
      → (disk.rename p q d).0 ≡ ok tt
      → contents (disk.rename p q d).1 q ≡ contents d p
  pub rename_fails :
      (p q : FilePath) (d : D) (e : String)
      → (disk.rename p q d).0 ≡ err e
      → contents (disk.rename p q d).1 q ≡ contents d q
  pub rename_elsewhere :
      (p q r : FilePath) (d : D)
      → (p == r) ≡ false
      → (q == r) ≡ false
      → contents (disk.rename p q d).1 r ≡ contents d r

-- The files that are there are accessible: `exists`, which also says no where it may not look, finds
-- each of them.
pub record Accessible {D Bytes : Type 0} (disk : Disk D Bytes) (laws : DiskLaws disk) : Type 0 where
  pub found : (p : FilePath) (d : D) → is_some (laws.contents d p) ≡ true → disk.exists p d ≡ true

pub exists_gives :
    {D Bytes : Type 0} (disk : Disk D Bytes) (laws : DiskLaws disk)
    (accessible : Accessible disk laws) (p : FilePath) (d : D)
    → disk.exists p d ≡ is_some (laws.contents d p)
exists_gives disk laws accessible p d =
    let only = laws.exists_only p d in
    let found = accessible.found p d in
    elim (Bool-cases (disk.exists p d)) [
      | inl e ↦ e ∙ sym (only e)
      | inr e ↦ elim (Bool-cases (is_some (laws.contents d p))) [
        | inl there ↦ found there ∙ sym there
        | inr gone ↦ e ∙ sym gone
      ]
    ]

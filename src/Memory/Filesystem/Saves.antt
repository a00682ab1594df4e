-- ===== src/Memory/Filesystem/Saves.antt =====
-- What a save of fmemory/src/backends/filesystem.rs leaves on the disk.
use fiddlesticks.Base.{
  String, false, some, ◌≡◌, ◌≢◌, refl, ap, sym, ◌∙◌, ◌==◌, string_eq, Bool-cases, inl, inr,
  is_empty_text,
}
use fiddlesticks.Exec.{
  Result, ok, err, no_return, Exec, map_err, catch_into, continue, ◌>>=◌, pure, lift,
}
use fiddlesticks.Common.{SessionId}
use fiddlesticks.Memory.Error.{MemoryError, MemoryErrorKind}
use fiddlesticks.Memory.Filesystem.{
  storage_error, with_extension, session_path, when_exists, write_atomic,
}
use fiddlesticks.Memory.Filesystem.Files.{FilePath, file_path_eq, Disk, DiskLaws}
use fiddlesticks.Memory.Filesystem.Hex.{hex_encode_injective}

-- An action comes back: with a value for which `G` holds, or with an error of the storage.
abbrev pub Ends : {D A : Type 0} → (A → D → Type 0) → Result MemoryError A × D → Type 0
Ends G (ok a, d) = G a d
Ends G (err e, d) = e.kind ≡ MemoryErrorKind.storage
Ends G (no_return, d) = ⊥

module _ {D A B : Type 0} (P : Result MemoryError B × D → Type 0)
    (f : A → Exec D MemoryError B) where
  continue-Ends :
      (G : A → D → Type 0) (r : Result MemoryError A) (d : D)
      → ((e : MemoryError) (d' : D) → e.kind ≡ MemoryErrorKind.storage → P (err e, d'))
      → Ends G (r, d)
      → ((a : A) → G a d → P (f a d))
      → P (continue r f d)
  continue-Ends G (ok a) d fails h k = k a h
  continue-Ends G (err e) d fails h k = fails e d h
  continue-Ends G no_return d fails h k = absurd h

  -- An action that ends, and then another.
  pub bind-Ends :
      (G : A → D → Type 0) (m : Exec D MemoryError A) (d : D)
      → ((e : MemoryError) (d' : D) → e.kind ≡ MemoryErrorKind.storage → P (err e, d'))
      → Ends G (m d)
      → ((a : A) (d' : D) → G a d' → P (f a d'))
      → P ((m >>= f) d)
  unfolding ◌>>=◌
  bind-Ends G m d fails h k = continue-Ends G (m d).0 (m d).1 fails h (λ a. k a (m d).1)

pub Ends-weaken :
    {D A : Type 0} (G H : A → D → Type 0) (r : Result MemoryError A × D)
    → ((a : A) (d : D) → G a d → H a d)
    → Ends G r
    → Ends H r
Ends-weaken G H (ok a, d) f h = f a d h
Ends-weaken G H (err e, d) f h = h
Ends-weaken G H (no_return, d) f h = h

module _ {D A : Type 0} (G : A → D → Type 0) (what : String) where
  pub caught :
      (r : Result String A) (d : D)
      → r ≢ no_return
      → ((a : A) → r ≡ ok a → G a d)
      → Ends G (map_err (storage_error what) r, d)
  caught (ok a) d returns h = h a refl
  caught (err e) d returns h = refl
  caught no_return d returns h = returns refl

  -- An operation of the disk, with its error made one of the storage.
  pub catch-Ends :
      (m : Exec D String A) (d : D)
      → (m d).0 ≢ no_return
      → ((a : A) → (m d).0 ≡ ok a → G a (m d).1)
      → Ends G (catch_into (storage_error what) m d)
  unfolding catch_into
  catch-Ends m d returns h = caught (m d).0 (m d).1 returns h

-- The file of a session is not the temporary file of any session, nor the file of another one.
abbrev tmp_of : FilePath → FilePath
tmp_of p = with_extension "json.tmp" p

pub session_path_injective :
    (root : String) (id j : SessionId) → session_path root id ≡ session_path root j → id ≡ j
unfolding session_path
session_path_injective root id j h = hex_encode_injective id j (ap (λ p. p.stem) h)

with_extension-extension : (e : String) (p : FilePath) → (with_extension e p).extension ≡ e
unfolding with_extension
with_extension-extension e p = elim (Bool-cases (is_empty_text p.stem)) [
  | inl h ↦ rw h refl
  | inr h ↦ rw h refl
]

pub tmp_ne_session_path :
    (root : String) (id j : SessionId) → tmp_of (session_path root id) ≢ session_path root j
unfolding session_path
tmp_ne_session_path root id j h =
    let extensions =
      sym (with_extension-extension "json.tmp" (session_path root id)) ∙ ap (λ p. p.extension) h in
    let same = (string_eq.beq_iff "json.tmp" "json").1 extensions in cc

pub ne_of_neq : (p q : FilePath) → p ≢ q → (p == q) ≡ false
ne_of_neq p q h = elim (Bool-cases (p == q)) [
  | inl e ↦ absurd (h ((file_path_eq.beq_iff p q).0 e))
  | inr e ↦ e
]

module _ {D Bytes : Type 0} (disk : Disk D Bytes) (laws : DiskLaws disk) where
  open laws use {contents}

  abbrev Same : D → {A : Type 0} → A → D → Type 0
  Same d a d' = (q : FilePath) → contents d' q ≡ contents d q

  -- A file has been replaced, and the temporary file is the only other one that may have changed.
  abbrev pub Replaced : FilePath → Bytes → D → Unit {0} → D → Type 0
  Replaced path bytes d u d' =
      (contents d' path ≡ some bytes)
      × ((q : FilePath) → tmp_of path ≢ q → path ≢ q → contents d' q ≡ contents d q)

  -- After the temporary file is written, and after the old file is removed.
  abbrev Written : FilePath → Bytes → D → Unit {0} → D → Type 0
  Written path bytes d u d' =
      (contents d' (tmp_of path) ≡ some bytes)
      × ((q : FilePath) → tmp_of path ≢ q → path ≢ q → contents d' q ≡ contents d q)

  remove-Ends :
      (path : FilePath) (bytes : Bytes) (d0 d : D)
      → tmp_of path ≢ path
      → Written path bytes d0 tt d
      → Ends (Written path bytes d0) (
          when_exists disk path
            (catch_into
              (storage_error "failed to replace existing state file")
              (disk.remove_file path))
            (pure tt)
            d)
  unfolding when_exists pure
  remove-Ends path bytes d0 d other (tmp, same) = elim (Bool-cases (disk.exists path d)) [
    | inl there ↦ rw there (
        catch-Ends (Written path bytes d0) _ (disk.remove_file path) d (laws.remove_returns path d)
          (λ u removed. (
            laws.remove_elsewhere path (tmp_of path) d
                  (ne_of_neq path (tmp_of path) (λ h. other (sym h)))
                ∙ tmp,
            λ q not_tmp not_path.
                laws.remove_elsewhere path q d (ne_of_neq path q not_path)
                ∙ same q not_tmp not_path,
          )))
    | inr gone ↦ rw gone (tmp, same)
  ]

  write-Ends :
      (path : FilePath) (bytes : Bytes) (d0 d : D)
      → Same d0 tt d
      → Ends (Written path bytes d0) (
          catch_into
            (storage_error "failed to write temporary state file")
            (disk.write (tmp_of path) bytes)
            d)
  write-Ends path bytes d0 d same =
      let tmp = tmp_of path in
      catch-Ends (Written path bytes d0) _ (disk.write tmp bytes) d (laws.write_returns tmp bytes d)
        (λ u written. (
          laws.write_puts tmp bytes d written,
          λ q not_tmp not_path.
              laws.write_elsewhere tmp q bytes d (ne_of_neq tmp q not_tmp) ∙ same q,
        ))

  rename-Ends :
      (path : FilePath) (bytes : Bytes) (d0 d : D)
      → Written path bytes d0 tt d
      → Ends (Replaced path bytes d0) (
          catch_into
            (storage_error "failed to finalize state file")
            (disk.rename (tmp_of path) path)
            d)
  rename-Ends path bytes d0 d (put, same) =
      let tmp = tmp_of path in
      catch-Ends (Replaced path bytes d0) _ (disk.rename tmp path) d
        (laws.rename_returns tmp path d)
        (λ u renamed. (
          laws.rename_moves tmp path d renamed ∙ put,
          λ q not_tmp not_path.
              laws.rename_elsewhere tmp path q d (ne_of_neq tmp q not_tmp)
                (ne_of_neq path q not_path)
              ∙ same q not_tmp not_path,
        ))

  -- A save that succeeds has replaced the file, and touched no other but the temporary one.
  pub write_atomic-Ends :
      (path : FilePath) (bytes : Bytes) (d : D)
      → tmp_of path ≢ path
      → Ends (Replaced path bytes d) (write_atomic disk path bytes d)
  unfolding write_atomic lift
  write_atomic-Ends path bytes d other =
      bind-Ends (Ends (Replaced path bytes d)) _ (Same d) _ d (λ e d' k. k) (λ q. refl)
        λ directory d1 same1.
          bind-Ends (Ends (Replaced path bytes d)) _ (Same d) _ d1 (λ e d' k. k)
            (catch-Ends (Same d) _ (disk.create_dir_all directory) d1
              (laws.create_returns directory d1)
              (λ u created q. laws.create_keeps directory q d1 ∙ same1 q))
            λ u d2 same2.
              bind-Ends (Ends (Replaced path bytes d)) _ (Written path bytes d) _ d2 (λ e d' k. k)
                (write-Ends path bytes d d2 same2)
                λ u d3 written.
                  bind-Ends (Ends (Replaced path bytes d)) _ (Written path bytes d) _ d3
                    (λ e d' k. k) (remove-Ends path bytes d d3 other written)
                    λ u d4 removed. rename-Ends path bytes d d4 removed

-- ===== src/Memory/Curated/Files.antt =====
-- What a successful call leaves in the files.
use embedded_agent.Base.{
  ◌+◌, ◌≡◌, refl, sym, ap, ◌∙◌, Bytes, true, false, Bool-cases, ◌⊎◌, inl, inr, some, List, [], ◌∷◌,
  ◌++◌, codes, length, All, All-append, arith, is_empty, ltb, if◌then◌else◌,
}
use embedded_agent.Core.Error.{Result, ok}
use embedded_agent.Io.FileSystem.{Posix, Written}
use embedded_agent.Memory.Curated.Text.{trim, file_text}
use embedded_agent.Memory.Curated.Text.RoundTrip.{IsStorable, split_entries-file_text}
use embedded_agent.Memory.Curated.{
  MemoryTarget, CuratedMemoryStore, path_for, entries_for, set_entries, has_entry, read_entries,
  write_entries, locked, total_size, char_limit_for, add_locked, add_entry,
}

-- What the store relies on: a file that another one is renamed to has the text that was written to that
-- one.
pub record FileLaws {S : Type 0} (os : Posix S) : Type 0 where
  pub written_renamed :
      (tmp path text : Bytes) (s : S)
      → (os.write tmp text s).0 ≡ Written.written
      → (os.rename tmp path (os.write tmp text s).1).0 ≡ true
      → os.read path (os.rename tmp path (os.write tmp text s).1).1 ≡ some text

Written-cases :
    (w : Written) → (w ≡ Written.not_opened) ⊎ ((w ≡ Written.incomplete) ⊎ (w ≡ Written.written))
Written-cases Written.not_opened = inl refl
Written-cases Written.incomplete = inr (inl refl)
Written-cases Written.written = inr (inr refl)

module _ {S : Type 0} (os : Posix S) where
  -- The file has the entries in `u`, or the write of their text in `t` was cut short.
  abbrev pub HasEntries : Bytes → List Bytes → S → S → Type 0
  HasEntries path list t u =
      (read_entries os path u ≡ ok list)
      ⊎ ((os.write (path ++ codes ".tmp") (file_text list) t).0 ≡ Written.incomplete)

  -- The entries with a new one behind them, unless it is there.
  abbrev pub with_entry : Bytes → List Bytes → List Bytes
  with_entry entry current = if has_entry entry current then current else current ++ entry ∷ []

  -- The end of a call of `add` from the state `s`, with `current` in the file under the lock: the entry was
  -- there and nothing was done, or the store's list is `current` with the entry, and so is the file up to
  -- the release of the lock, unless the write of its text was cut short.
  abbrev pub IsStored :
      {R : Type 0}
      → CuratedMemoryStore
      → MemoryTarget
      → Bytes
      → List Bytes
      → S
      → Result R × CuratedMemoryStore × S
      → Type 0
  IsStored c target entry current s (r, d, v) =
      ((has_entry entry (entries_for c target) ≡ true) × (d ≡ c) × (v ≡ s))
      ⊎ ((d ≡ set_entries c target (with_entry entry current))
          × ((u : S) × (v ≡ os.unlock (path_for c target ++ codes ".lock") u)
              × HasEntries (path_for c target) (with_entry entry current)
                  (os.lock (path_for c target ++ codes ".lock") s).1 u))

module _ {S : Type 0} (os : Posix S) (laws : FileLaws os) where
  -- A list that is written is read back.
  write_entries-read :
      (path : Bytes) (list : List Bytes) (s : S)
      → All IsStorable list
      → (write_entries os path list s).0 ≡ ok tt
      → HasEntries os path list s (write_entries os path list s).1
  unfolding write_entries read_entries
  write_entries-read path list s h r =
      let tmp = path ++ codes ".tmp" in
      let text = file_text list in
      let back = split_entries-file_text list h in
      elim (Written-cases (os.write tmp text s).0) [
        | inl w ↦ absurd (ground arith)
        | inr (inl w) ↦ inr w
        | inr (inr w) ↦ elim (Bool-cases (os.rename tmp path (os.write tmp text s).1).0) [
          | inl e ↦ let there = laws.written_renamed tmp path text s w e in inl (ground arith)
          | inr e ↦ absurd (ground arith)
        ]
      ]

  add_locked-there :
      (c : CuratedMemoryStore) (target : MemoryTarget) (entry : Bytes) (current : List Bytes)
      (s : S)
      → read_entries os (path_for c target) s ≡ ok current
      → has_entry entry current ≡ true
      → add_locked os c target entry s ≡ (ok tt, set_entries c target current, s)
  unfolding add_locked
  add_locked-there c target entry current s r e = rw (add_locked, r, e) refl

  add_locked-new :
      (c : CuratedMemoryStore) (target : MemoryTarget) (entry : Bytes) (current : List Bytes)
      (s : S)
      → read_entries os (path_for c target) s ≡ ok current
      → has_entry entry current ≡ false
      → let (r, t) = write_entries os (path_for c target) (current ++ entry ∷ []) s in
        add_locked os c target entry s ≡ (r, set_entries c target (current ++ entry ∷ []), t)
  unfolding add_locked
  add_locked-new c target entry current s r e = rw (add_locked, r, e) refl

  -- Under the lock: the file and the list are the same, and the entry is in them.
  add_locked-HasEntries :
      (c : CuratedMemoryStore) (target : MemoryTarget) (entry : Bytes) (current : List Bytes)
      (s : S)
      → IsStorable entry
      → All IsStorable current
      → read_entries os (path_for c target) s ≡ ok current
      → (add_locked os c target entry s).0 ≡ ok tt
      → let (r, d, u) = add_locked os c target entry s in
        (d ≡ set_entries c target (with_entry os entry current))
        × HasEntries os (path_for c target) (with_entry os entry current) s u
  add_locked-HasEntries c target entry current s h k r done =
      elim (Bool-cases (has_entry entry current)) [
        | inl e ↦
            let same = add_locked-there c target entry current s r e in rw (same, e) (refl, inl r)
        | inr e ↦
            let same = add_locked-new c target entry current s r e in
            let longer = current ++ entry ∷ [] in
            let all = All-append IsStorable current (entry ∷ []) k (h, tt) in
            let wrote = sym (ap (λ x. x.0) same) ∙ done in
            rw (same, e) (refl, write_entries-read (path_for c target) longer s all wrote)
      ]

  locked-valid :
      {R : Type 0} (c : CuratedMemoryStore) (target : MemoryTarget)
      (body : S → Result R × CuratedMemoryStore × S) (s : S)
      → (os.lock (path_for c target ++ codes ".lock") s).0 ≡ true
      → let (r, d, u) = body (os.lock (path_for c target ++ codes ".lock") s).1 in
        locked os c target body s ≡ (r, d, os.unlock (path_for c target ++ codes ".lock") u)
  unfolding locked
  locked-valid c target body s e = rw (locked, e) refl

  locked-ok :
      {R : Type 0} (c : CuratedMemoryStore) (target : MemoryTarget)
      (body : S → Result R × CuratedMemoryStore × S) (s : S) (r : R)
      → (locked os c target body s).0 ≡ ok r
      → let t = (os.lock (path_for c target ++ codes ".lock") s).1 in
        ((body t).0 ≡ ok r)
        × (locked os c target body s
            ≡ ((body t).0, (body t).1, os.unlock (path_for c target ++ codes ".lock") (body t).2))
  unfolding locked
  locked-ok c target body s r h =
      elim (Bool-cases (os.lock (path_for c target ++ codes ".lock") s).0) [
        | inl e ↦ let same = locked-valid c target body s e in (sym (ap (λ x. x.0) same) ∙ h, same)
        | inr e ↦ absurd (ground arith)
      ]

  -- A call of `add` that succeeds found the entry in the list, or went through the lock.
  add_entry-ok :
      (c : CuratedMemoryStore) (target : MemoryTarget) (content : Bytes) (s : S)
      → (add_entry os c target content s).0 ≡ ok tt
      → ((has_entry (trim content) (entries_for c target) ≡ true)
          × (add_entry os c target content s ≡ (ok tt, c, s)))
        ⊎ ((has_entry (trim content) (entries_for c target) ≡ false)
            × (add_entry os c target content s
                ≡ locked os c target (add_locked os c target (trim content)) s))
  unfolding add_entry
  add_entry-ok c target content s done =
      let entry = trim content in
      let list = entries_for c target in
      let total = (length entry + total_size list) + (if is_empty list then 0 else 2) in
      elim (Bool-cases (is_empty entry)) [
        | inl a ↦ absurd (ground arith)
        | inr a ↦ elim (Bool-cases (has_entry entry list)) [
          | inl b ↦ inl (b, rw (add_entry, a, b) refl)
          | inr b ↦ elim (Bool-cases (ltb (char_limit_for c target) total)) [
            | inl d ↦ absurd (ground arith)
            | inr d ↦ inr (b, rw (add_entry, a, b, d) refl)
          ]
        ]
      ]

  -- A call of `add` that succeeds found the entry in the store's list and changed nothing; or it leaves the
  -- entries that the file has under the lock, in their order, and the trimmed content behind them unless
  -- it was there, in the store's list, and in the file up to the release of the lock, unless the write of
  -- the file was cut short, which the code does not notice. The entries must be storable, and a renamed
  -- file must have the text that was written.
  pub add_entry-IsStored :
      (c : CuratedMemoryStore) (target : MemoryTarget) (content : Bytes) (current : List Bytes)
      (s : S)
      → IsStorable (trim content)
      → All IsStorable current
      → read_entries os (path_for c target) (os.lock (path_for c target ++ codes ".lock") s).1
        ≡ ok current
      → (add_entry os c target content s).0 ≡ ok tt
      → IsStored os c target (trim content) current s (add_entry os c target content s)
  unfolding add_entry
  add_entry-IsStored c target content current s h k r done =
      let entry = trim content in
      let t = (os.lock (path_for c target ++ codes ".lock") s).1 in
      elim (add_entry-ok c target content s done) [
        | inl (e, same) ↦ inl (e, ap (λ x. x.1) same, ap (λ x. x.2) same)
        | inr (e, same) ↦
            let wrote = sym (ap (λ x. x.0) same) ∙ done in
            let (did, how) = locked-ok c target (add_locked os c target entry) s tt wrote in
            let (kept, stored) = add_locked-HasEntries c target entry current t h k r did in
            inr (
              ap (λ x. x.1) (same ∙ how) ∙ kept,
              ((add_locked os c target entry t).2, ap (λ x. x.2) (same ∙ how), stored),
            )
      ]

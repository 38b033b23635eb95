-- ===== src/Memory/Curated/Tests.antt =====
-- A store on an empty disk.
use embedded_agent.Base.{
  ◌≡◌, ◌≢◌, refl, sym, ap, ◌∙◌, Bytes, true, false, none, some, List, [], ◌∷◌, codes, arith,
  bytes_eq, bytes_lt, bytes_eq_refl, if◌then◌else◌, inl, inr, Option,
}
use embedded_agent.Base.Map.{lookup, insert, erase, lookup-insert}
use embedded_agent.Io.FileSystem.Disk.{Disk, disk_os, move, text_of}
use embedded_agent.Memory.Curated.{
  CuratedMemoryStore, CuratedMemoryConfig, MemoryTarget, default_config, new, add, add_entry,
  entries_for, path_for, read_entries, open_store, remove, has_entry, erase_first, total_size,
  format_for_system_prompt,
}
use embedded_agent.Memory.Curated.Text.{trim, split_entries, file_text}
use embedded_agent.Memory.Curated.Text.RoundTrip.{IsStorable, split_entries-file_text}
use embedded_agent.Memory.Curated.Files.{FileLaws, IsStored, add_entry-IsStored}

abbrev two_entries : List Bytes
two_entries = codes "likes tea" ∷ codes "speaks Dutch" ∷ []

two_entries-IsStorable : embedded_agent.Base.All IsStorable two_entries
unfolding IsStorable trim embedded_agent.Memory.Curated.Text.delimiter
two_entries-IsStorable = ((refl, λ e. cc, refl), ((refl, λ e. cc, refl), tt))

split_entries-file_text_example : split_entries (file_text two_entries) ≡ two_entries
split_entries-file_text_example = split_entries-file_text two_entries two_entries-IsStorable

lookup-again :
    (path : Bytes) (file : Option Bytes) (disk : Disk)
    → lookup path (insert path file disk) ≡ some file
lookup-again path file disk = lookup-insert path path file disk ∙ rw (bytes_eq_refl path) refl

lookup-move :
    (from to : Bytes) (file : Option Bytes) (disk : Disk)
    → lookup to (move from (some file) to disk).1 ≡ some file
lookup-move from to file disk = lookup-again to file (erase from disk)

disk_laws : FileLaws disk_os
unfolding disk_os
disk_laws = record {
  written_renamed = λ tmp path text disk w renamed.
      ap (λ o. text_of (lookup path (move tmp o path (insert tmp (some text) disk)).1))
        (lookup-again tmp (some text) disk)
      ∙ ap text_of (lookup-move tmp path (some text) (insert tmp (some text) disk));
}

abbrev store : CuratedMemoryStore
store = record (new default_config) {
  dir = codes "/m";
  opened = true;
  memory_entries = codes "likes tea" ∷ [];
}

abbrev files : Disk
files = (codes "/m/MEMORY.md", some (file_text (codes "likes tea" ∷ []))) ∷ []

add_entry-IsStored_example :
    IsStored disk_os store MemoryTarget.memory
      (trim (codes " speaks Dutch "))
      (codes "likes tea" ∷ [])
      files
      (add_entry disk_os store MemoryTarget.memory (codes " speaks Dutch ") files)
unfolding add_entry disk_os read_entries path_for IsStorable trim bytes_eq bytes_lt
add_entry-IsStored_example =
    add_entry-IsStored disk_os disk_laws store MemoryTarget.memory (codes " speaks Dutch ")
      (codes "likes tea" ∷ []) files (refl, λ e. cc, refl) ((refl, λ e. cc, refl), tt) refl refl

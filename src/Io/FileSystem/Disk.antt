-- ===== src/Io/FileSystem/Disk.antt =====
-- An operating system for the examples: a map from paths to texts, or to nothing for a directory. A write
-- always goes through, and locks are free.
use embedded_agent.Base.{Bytes, Bool, true, false, Option, none, some, List, [], codes}
use embedded_agent.Base.Map.{lookup, insert, erase}
use embedded_agent.Io.FileSystem.{Posix, Stat, Made, Written}

abbrev pub Disk : Type 0
Disk = List (Bytes × Option Bytes)

abbrev pub kind_of : Option (Option Bytes) → Stat
kind_of none = Stat.missing (codes "No such file or directory")
kind_of (some none) = Stat.found true
kind_of (some (some text)) = Stat.found false

abbrev pub text_of : Option (Option Bytes) → Option Bytes
text_of none = none
text_of (some file) = file

abbrev pub move : Bytes → Option (Option Bytes) → Bytes → Disk → Bool × Disk
move from none to disk = (false, disk)
move from (some file) to disk = (true, insert to file (erase from disk))

unfoldable pub disk_os : Posix Disk
unfolding lookup insert erase
disk_os = record {
  getenv = λ name disk. none;
  executable = λ path disk. false;
  getcwd = λ disk. some (codes "/");
  stat = λ path disk. kind_of (lookup path disk);
  mkdir = λ path disk. (Made.made, insert path none disk);
  unlink = λ path disk. (none, erase path disk);
  read = λ path disk. text_of (lookup path disk);
  write = λ path text disk. (Written.written, insert path (some text) disk);
  rename = λ from to disk. move from (lookup from disk) to disk;
  lock = λ path disk. (true, disk);
  unlock = λ path disk. disk;
  readdir = λ path disk. some [];
}

-- ===== src/Agent/ContextDiscovery/Tests.antt =====
-- A file that is too long, and a directory with two context files.
use embedded_agent.Base.{
  ℕ, ◌*◌, ◌/◌, ◌≡◌, ◌≤◌, ◌<◌, refl, Bytes, some, [], ◌∷◌, ◌++◌, codes, length, arith, bytes_eq,
  bytes_lt, rfind_byte,
}
use embedded_agent.Io.FileSystem.{exists}
use embedded_agent.Io.FileSystem.Disk.{Disk, disk_os}
use embedded_agent.Agent.ContextDiscovery.{
  ContextDiscoveryConfig, truncate, discover_project_context,
}
use embedded_agent.Agent.ContextDiscovery.Bounds.{notice, truncate-keeps}

abbrev config : ContextDiscoveryConfig
config = record { cwd = codes "/w"; max_chars = 10 }

abbrev head_of : ℕ → ℕ
head_of n = n * 7 / 10

abbrev tail_of : ℕ → ℕ
tail_of n = n * 2 / 10

truncate-keeps_example :
    (length (codes "abcdefghijkl") ≤ config.max_chars
      → truncate head_of tail_of config (codes "abcdefghijkl") (codes "A.md")
        ≡ codes "abcdefghijkl")
    × (config.max_chars < length (codes "abcdefghijkl")
        → (front : Bytes) × (middle : Bytes) × (back : Bytes) × (codes "abcdefghijkl"
            ≡ front ++ middle ++ back)
          × (length front ≡ 7)
          × (length back ≡ 2)
          × (truncate head_of tail_of config (codes "abcdefghijkl") (codes "A.md")
              ≡ front ++ notice middle (codes "A.md") ++ back))
truncate-keeps_example =
    truncate-keeps head_of tail_of config (codes "abcdefghijkl") (codes "A.md") (omega arith)

abbrev files : Disk
files =
    (codes "/w/AGENTS.md", some (codes " be kind "))
    ∷ (codes "/w/CLAUDE.md", some (codes "no"))
    ∷ []

agents_first :
    discover_project_context disk_os head_of tail_of config files
    ≡ some (record {
      filename = codes "AGENTS.md";
      content = codes "be kind";
      rel_path = codes "/w/AGENTS.md";
    })
unfolding discover_project_context disk_os bytes_eq bytes_lt rfind_byte exists
agents_first = refl

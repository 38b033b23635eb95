-- ===== src/Io/FileSystem/Tests.antt =====
-- The root of a repository above /a/b.
use embedded_agent.Base.{
  ◌≡◌, refl, ◌↔◌, true, none, [], ◌∷◌, codes, arith, bytes_eq, bytes_lt, rfind_byte,
}
use embedded_agent.Core.Error.{ok}
use embedded_agent.Io.FileSystem.{mkdir_p, exists}
use embedded_agent.Io.FileSystem.Disk.{Disk, disk_os}
use embedded_agent.Io.FileSystem.Roots.{rounds, find_git_root}
use embedded_agent.Io.FileSystem.Roots.Ancestors.{dir_of, IsNearestGit, find_git_root-nearest}

abbrev repository : Disk
repository = (codes "/a/.git", none) ∷ []

find_git_root_finds : find_git_root disk_os (codes "/a/b/c/") repository ≡ ok (codes "/a")
unfolding find_git_root disk_os exists bytes_eq
find_git_root_finds = refl

mkdir_p_makes : exists disk_os (codes "x") (mkdir_p disk_os (codes "x/y") []).1 ≡ ok true
unfolding mkdir_p exists disk_os rfind_byte bytes_eq bytes_lt
mkdir_p_makes = refl

find_git_root-nearest_example :
    (find_git_root disk_os (dir_of (codes "c" ∷ codes "b" ∷ codes "a" ∷ [])) repository
      ≡ ok (codes "/a"))
    ↔ IsNearestGit disk_os repository (codes "c" ∷ codes "b" ∷ codes "a" ∷ []) (codes "/a")
unfolding rounds
find_git_root-nearest_example =
    find_git_root-nearest disk_os repository (codes "c" ∷ codes "b" ∷ codes "a" ∷ []) (codes "/a")
      (
        ((λ e. cc), ((λ e. cc), tt)),
        (((λ e. cc), ((λ e. cc), tt)), (((λ e. cc), ((λ e. cc), tt)), tt)),
      )
      (omega arith)

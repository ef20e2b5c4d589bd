-- ===== src/Tests/Git.antt =====
-- The theorem on clone directories, on a source in scp's form.
use mirrortools.Prelude.{◌≡◌, ◌≢◌, refl, some, Text, codes}
use mirrortools.FilePaths.{clean, dot_dot, join}
use mirrortools.FilePaths.Below.{IsWithin}
use mirrortools.Git.{local_path, parse_source, repo_path}
use mirrortools.Git.Contained.{local_path-parse_source}
use mirrortools.Tests.Http.{net}

local_path-parse_source_example :
    (found : Text × Text) × (parse_source net (codes "me@Git.h:a/../b.git") ≡ some found)
    × (found.1 ≢ dot_dot → IsWithin (codes "/d") found.0 (codes "/d/git.h/b"))
    × (found.1 ≡ dot_dot → codes "/d/git.h/b" ≡ clean (codes "/d"))
unfolding local_path repo_path clean join
local_path-parse_source_example =
    local_path-parse_source net (codes "/d") (codes "me@Git.h:a/../b.git") (codes "/d/git.h/b")
      (λ e. cc) refl

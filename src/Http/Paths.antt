-- ===== src/Http/Paths.antt =====
-- Where a URL is saved.
use mathlib.Core.Path.{subst}
use mirrortools.Prelude.{◌≡◌, ◌≢◌, false, [], ◌∷◌, some, Text, slash, two_guards, has_suffix}
use mirrortools.FilePaths.{clean}
use mirrortools.FilePaths.Below.{IsWithin, usable-IsName, join-IsWithin}
use mirrortools.NetUrl.{Url}
use mirrortools.Http.{local_path, file_path, unusable_host, tmp_suffix}

-- Whatever URL a server's page names: if localPath accepts it, the file is the directory of the
-- URL's host in the destination, or one of names below it, with no step up, and its path in that
-- directory does not end like the name of a temporary file.
pub local_path-IsWithin :
    (dest_dir p : Text) (u : Url)
    → dest_dir ≢ []
    → local_path dest_dir u ≡ some p
    → IsWithin dest_dir u.host p × (has_suffix (clean (slash ∷ file_path u)) tmp_suffix ≡ false)
unfolding local_path
local_path-IsWithin dest_dir p u h e =
    let (usable, kept, here) = two_guards (unusable_host u.host) _ _ e in
    let host = usable-IsName u.host (unfold unusable_host in usable) in
    (
      subst (IsWithin dest_dir u.host) here (join-IsWithin dest_dir u.host (file_path u) h host),
      kept,
    )

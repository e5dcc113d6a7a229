-- ===== src/Examples/Versions.antt =====
-- A build of a checkout that git does not know.
use vorto.Prelude.{◌≡◌, refl, true, false, none, some, [], ◌∷◌}
use vorto.Text.{text, trim, Text-discrete}
use vorto.Version.{Variables, Git, git_output, set_if_missing, build, compiled, git_sha, constants}
use vorto.Version.Report.{release, constants_of_build}

abbrev cargo : Variables
cargo =
    compiled
      ((text "CARGO_PKG_NAME", text "vorto")
        ∷ (text "CARGO_PKG_VERSION", text "1.2.0")
        ∷ (text "CARGO_PKG_REPOSITORY", text "https://example.org")
        ∷ [])
      (λ key. none)

abbrev no_repository : Git
no_repository args = some (false, some [])

name_is_set : cargo (text "CARGO_PKG_NAME") ≡ some (text "vorto")
unfolding text Text-discrete
name_is_set = refl

version_is_set : cargo (text "CARGO_PKG_VERSION") ≡ some (text "1.2.0")
unfolding text Text-discrete
version_is_set = refl

repository_is_set : cargo (text "CARGO_PKG_REPOSITORY") ≡ some (text "https://example.org")
unfolding text Text-discrete
repository_is_set = refl

constants_of_build_example :
    constants (compiled (build cargo no_repository) cargo)
    ≡ some (record {
      app_name = text "vorto";
      package_version = text "1.2.0";
      release_version = release cargo no_repository;
      repository_url = text "https://example.org";
    })
constants_of_build_example =
    constants_of_build cargo no_repository (text "vorto") (text "1.2.0")
      (text "https://example.org") name_is_set version_is_set repository_is_set

-- The output of git is trimmed, and the commit is reported.
abbrev at_commit : Git
at_commit args = some (true, some (text "0a1b2c\n"))

release-at_commit : release cargo at_commit ≡ text "1.2.0-dev+0a1b2c"
unfolding git_output trim text Text-discrete
release-at_commit = refl

commit_is_reported : git_sha (compiled (build cargo at_commit) cargo) ≡ some (text "0a1b2c")
unfolding git_sha build git_output set_if_missing trim text Text-discrete
commit_is_reported = refl

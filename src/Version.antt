-- ===== src/Version.antt =====
-- build.rs and src/version.rs: the variables that the build script sets for the compiler, and the report
-- that the program prints of them. The environment holds UTF-8.
pub mod Report
use vorto.Prelude.{
  Bool, true, false, Option, none, some, List, [], ◌∷◌, ◌++◌, is_yes, is_empty, if◌then◌else◌,
}
use vorto.Text.{Text, text, trim, Text-discrete}

abbrev pub Variables : Type 0
Variables = Text → Option Text

-- `git` with arguments: whether it succeeded, and its output if that is UTF-8; none if it does not run.
abbrev pub Git : Type 0
Git = List Text → Option (Bool × Option Text)

-- `Option::filter` by `!value.is_empty()`.
abbrev pub filter_full : Option Text → Option Text
filter_full none = none
filter_full (some value) = if is_empty value then none else some value

abbrev trimmed : Option Text → Option Text
trimmed none = none
trimmed (some stdout) = filter_full (some (trim stdout))

abbrev output_of : Option (Bool × Option Text) → Option Text
output_of none = none
output_of (some (false, stdout)) = none
output_of (some (true, stdout)) = trimmed stdout

unfoldable pub git_output : Git → List Text → Option Text
git_output git args = output_of (git args)

-- `cargo:rustc-env=key=value`.
abbrev pub Settings : Type 0
Settings = List (Text × Text)

abbrev pub if_missing : Option Text → Text → Option Text → Settings
if_missing (some present) key value = []
if_missing none key none = []
if_missing none key (some value) = (key, value) ∷ []

unfoldable pub set_if_missing : Variables → Text → Option Text → Settings
set_if_missing env key value = if_missing (env key) key value

abbrev pub fallback : Text → Option Text → Text
fallback package_version (some sha) = package_version ++ text "-dev+" ++ sha
fallback package_version none = package_version ++ text "-dev"

abbrev pub version_or_zero : Option Text → Text
version_or_zero none = text "0.0.0"
version_or_zero (some version) = version

-- `main` of build.rs; it shells out for the commit, and for its date only if no date is set.
unfoldable pub build : Variables → Git → Settings
unfolding git_output set_if_missing
build env git =
    let package_version = version_or_zero (env (text "CARGO_PKG_VERSION")) in
    let git_sha = git_output git (text "rev-parse" ∷ text "--short=12" ∷ text "HEAD" ∷ []) in
    set_if_missing env (text "VORTO_GIT_SHA") git_sha
    ++ if_missing (env (text "VORTO_RELEASE_VERSION")) (text "VORTO_RELEASE_VERSION")
        (some (fallback package_version git_sha))
    ++ set_if_missing env (text "VORTO_BUILD_TIMESTAMP")
        (git_output git (text "show" ∷ text "-s" ∷ text "--format=%cI" ∷ text "HEAD" ∷ []))

-- The variables that the compiler sees: what the script set, then the environment.
abbrev pub compiled : Settings → Variables → Variables
compiled [] env key = env key
compiled ((k, v) ∷ settings) env key =
    let rest = compiled settings env key in if is_yes (Text-discrete k key) then some v else rest

abbrev pub line_of : Text → Option Text → List Text
line_of label none = []
line_of label (some value) = (label ++ value) ∷ []

unfoldable pub git_sha : Variables → Option Text
git_sha vars = filter_full (vars (text "VORTO_GIT_SHA"))

unfoldable pub commit_range : Variables → Option Text
commit_range vars = filter_full (vars (text "VORTO_COMMIT_RANGE"))

unfoldable pub build_timestamp : Variables → Option Text
build_timestamp vars = filter_full (vars (text "VORTO_BUILD_TIMESTAMP"))

-- The four constants, without which the program does not compile.
pub record Constants : Type 0 where
  pub app_name : Text
  pub package_version : Text
  pub release_version : Text
  pub repository_url : Text

abbrev pub constants_of : Option Text → Option Text → Option Text → Option Text → Option Constants
constants_of (some name) (some version) (some release) (some url) = some (record {
  app_name = name;
  package_version = version;
  release_version = release;
  repository_url = url;
})
constants_of (some name) (some version) (some release) none = none
constants_of (some name) (some version) none url = none
constants_of (some name) none release url = none
constants_of none version release url = none

unfoldable pub constants : Variables → Option Constants
constants vars =
    constants_of (vars (text "CARGO_PKG_NAME")) (vars (text "CARGO_PKG_VERSION"))
      (vars (text "VORTO_RELEASE_VERSION")) (vars (text "CARGO_PKG_REPOSITORY"))

unfoldable pub print : Constants → Variables → List Text
print c vars =
    ((c.app_name ++ text " " ++ c.release_version)
      ∷ (text "Package version: " ++ c.package_version)
      ∷ (text "Repository: " ++ c.repository_url)
      ∷ [])
    ++ line_of (text "Commit: ") (git_sha vars)
    ++ line_of (text "Commit range: ") (commit_range vars)
    ++ line_of (text "Built at: ") (build_timestamp vars)

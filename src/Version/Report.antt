-- ===== src/Version/Report.antt =====
-- The constants of src/version.rs after build.rs has run.
use vorto.Prelude.{
  ◌≡◌, refl, ◌∙◌, Bool, true, not, Option, none, some, [], ◌∷◌, ◌++◌, arith, is_yes,
}
use vorto.Text.{Text, text, Text-discrete}
use vorto.Version.{
  Variables, Git, Settings, git_output, if_missing, set_if_missing, fallback, version_or_zero,
  build, compiled, constants,
}

-- The release that a build is of: the one given, or the package's with the commit.
abbrev pub release : Variables → Git → Text
release env git = elim (env (text "VORTO_RELEASE_VERSION")) [
  | some given ↦ given
  | none ↦
      fallback (version_or_zero (env (text "CARGO_PKG_VERSION")))
        (git_output git (text "rev-parse" ∷ text "--short=12" ∷ text "HEAD" ∷ []))
]

compiled-append :
    (s t : Settings) (env : Variables) (key : Text)
    → compiled (s ++ t) env key ≡ compiled s (compiled t env) key
compiled-append [] t env key = refl
compiled-append ((k, v) ∷ s) t env key = ground (arith, compiled-append s t env key)

abbrev differ : Text → Text → Bool
differ s t = not (is_yes (Text-discrete s t))

-- The script does not set the name.
abbrev IsOther : Text → Type 0
IsOther key =
    (differ (text "VORTO_GIT_SHA") key ≡ true)
    × (differ (text "VORTO_RELEASE_VERSION") key ≡ true)
    × (differ (text "VORTO_BUILD_TIMESTAMP") key ≡ true)

name-IsOther : IsOther (text "CARGO_PKG_NAME")
unfolding text Text-discrete
name-IsOther = (refl, refl, refl)

version-IsOther : IsOther (text "CARGO_PKG_VERSION")
unfolding text Text-discrete
version-IsOther = (refl, refl, refl)

repository-IsOther : IsOther (text "CARGO_PKG_REPOSITORY")
unfolding text Text-discrete
repository-IsOther = (refl, refl, refl)

commit_differs : differ (text "VORTO_GIT_SHA") (text "VORTO_RELEASE_VERSION") ≡ true
unfolding text Text-discrete
commit_differs = refl

date_differs : differ (text "VORTO_BUILD_TIMESTAMP") (text "VORTO_RELEASE_VERSION") ≡ true
unfolding text Text-discrete
date_differs = refl

-- A setting of one name leaves the others as they are.
other_unset :
    (present : Option Text) (k : Text) (value : Option Text) (env : Variables) (key : Text)
    → differ k key ≡ true
    → compiled (if_missing present k value) env key ≡ env key
other_unset (some x) k value env key ne = refl
other_unset none k none env key ne = refl
other_unset none k (some v) env key ne = ground arith

released :
    (present : Option Text) (value : Text) (env : Variables) (key : Text)
    → env key ≡ present
    → compiled (if_missing present key (some value)) env key
      ≡ some (elim present [ some given ↦ given | none ↦ value ])
unfolding Text-discrete
released (some given) value env key h = h
released none value env key h = ground arith

module _ (env : Variables) (git : Git) where
  abbrev sha : Option Text
  sha = git_output git (text "rev-parse" ∷ text "--short=12" ∷ text "HEAD" ∷ [])

  abbrev commit_settings : Settings
  commit_settings = if_missing (env (text "VORTO_GIT_SHA")) (text "VORTO_GIT_SHA") sha

  abbrev release_settings : Settings
  release_settings =
      if_missing (env (text "VORTO_RELEASE_VERSION")) (text "VORTO_RELEASE_VERSION")
        (some (fallback (version_or_zero (env (text "CARGO_PKG_VERSION"))) sha))

  abbrev date_settings : Settings
  date_settings =
      if_missing (env (text "VORTO_BUILD_TIMESTAMP")) (text "VORTO_BUILD_TIMESTAMP")
        (git_output git (text "show" ∷ text "-s" ∷ text "--format=%cI" ∷ text "HEAD" ∷ []))

  -- The settings are looked up one after the other.
  compiled-build :
      (key : Text)
      → differ (text "VORTO_GIT_SHA") key ≡ true
      → compiled (build env git) env key
        ≡ compiled release_settings (compiled date_settings env) key
  unfolding build set_if_missing
  compiled-build key ne =
      compiled-append (commit_settings ++ release_settings) date_settings env key
      ∙ compiled-append commit_settings release_settings (compiled date_settings env) key
      ∙ other_unset (env (text "VORTO_GIT_SHA")) (text "VORTO_GIT_SHA") sha
          (compiled release_settings (compiled date_settings env)) key ne

  -- A name that the script does not set keeps its value.
  untouched : (key : Text) → IsOther key → compiled (build env git) env key ≡ env key
  untouched key (a, b, c) =
      compiled-build key a
      ∙ other_unset (env (text "VORTO_RELEASE_VERSION")) (text "VORTO_RELEASE_VERSION") _
          (compiled date_settings env) key b
      ∙ other_unset (env (text "VORTO_BUILD_TIMESTAMP")) (text "VORTO_BUILD_TIMESTAMP") _ env key c

  release_of_build :
      compiled (build env git) env (text "VORTO_RELEASE_VERSION") ≡ some (release env git)
  release_of_build =
      compiled-build (text "VORTO_RELEASE_VERSION") commit_differs
      ∙ released (env (text "VORTO_RELEASE_VERSION")) _ (compiled date_settings env)
          (text "VORTO_RELEASE_VERSION")
          (other_unset (env (text "VORTO_BUILD_TIMESTAMP")) (text "VORTO_BUILD_TIMESTAMP") _ env
            (text "VORTO_RELEASE_VERSION") date_differs)

  -- If cargo sets the name, the version and the repository of the package, then after the build
  -- script all four constants of the version report are there, and the release is the one given
  -- in the environment, or else the version of the package with the commit, if git knows one.
  pub constants_of_build :
      (name version url : Text)
      → env (text "CARGO_PKG_NAME") ≡ some name
      → env (text "CARGO_PKG_VERSION") ≡ some version
      → env (text "CARGO_PKG_REPOSITORY") ≡ some url
      → constants (compiled (build env git) env)
        ≡ some (record {
          app_name = name;
          package_version = version;
          release_version = release env git;
          repository_url = url;
        })
  unfolding constants
  constants_of_build name version url n v u =
      rw
        (
          untouched (text "CARGO_PKG_NAME") name-IsOther,
          untouched (text "CARGO_PKG_VERSION") version-IsOther,
          untouched (text "CARGO_PKG_REPOSITORY") repository-IsOther,
          release_of_build,
          n,
          v,
          u,
        )
        refl

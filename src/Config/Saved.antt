-- ===== src/Config/Saved.antt =====
-- What loading and saving in src/config.rs guarantee: a loaded configuration is valid, and a save
-- replaces the file at once or leaves it as it was.
use vorto.Prelude.{
  ℕ, ◌≡◌, refl, ◌∙◌, ap, subst, ◌≢◌, ◌⊎◌, inl, inr, true, false, Option, none, some, List, [], ◌∷◌,
  ◌++◌, map, not, arith, is_empty, length, length-append, Bool-cases,
}
use vorto.Text.{Text, text, trim, decimal}
use vorto.Result.{AppResult, ok, fail_if, >>=-eq-ok, AppResult-cases}
use vorto.Fs.{FilePath, Fs, SameAt, IsLawful}
use vorto.Config.Tunnel.{TunnelConfig, AppConfig, default_config}
use vorto.Config.Validate.{validate}
use vorto.Config.Valid.{IsValid, validate_iff}
use vorto.Config.Store.{
  Yaml, RawConfig, deserialize, serialize, deserialize_tunnel, serialize_tunnel, parse,
  load_or_default, load_for_runtime, temp_path, replace, save,
}

-- What the YAML library documents: a document that it writes is not blank and is read back.
pub record IsRoundTrip (Y : Yaml) : Type 0 where
  pub reads_back : (r : RawConfig) (t : Text) → Y.to_string r ≡ ok t → Y.from_str t ≡ ok r
  pub not_blank : (r : RawConfig) (t : Text) → Y.to_string r ≡ ok t → is_empty (trim t) ≡ false

deserialize-serialize_tunnels :
    (ts : List TunnelConfig) → map deserialize_tunnel (map serialize_tunnel ts) ≡ ts
unfolding deserialize_tunnel serialize_tunnel
deserialize-serialize_tunnels [] = refl
deserialize-serialize_tunnels (t ∷ ts) = ap (◌∷◌ t) (deserialize-serialize_tunnels ts)

-- A configuration is decoded from its own encoding unchanged.
pub deserialize-serialize : (c : AppConfig) → deserialize (serialize c) ≡ c
unfolding deserialize serialize
deserialize-serialize c = ground (arith, deserialize-serialize_tunnels c.tunnels)

file_name-ne : (n r : Text) → b'.' ∷ n ++ text ".tmp." ++ r ≢ n
file_name-ne n r e = omega (
  arith,
  ap length e,
  length-append (b'.' ∷ n ++ text ".tmp.") r,
  length-append (b'.' ∷ n) (text ".tmp."),
)

-- A save never writes to the file itself.
temp_path-ne : (pid : ℕ) (p : FilePath) → temp_path pid p ≢ p
unfolding temp_path
temp_path-ne pid p e = go p.file_name refl
  where
    go : (f : Option Text) → p.file_name ≡ f → ⊥
    go none h = ground (arith, ap (λ (q : FilePath). q.file_name) e)
    go (some n) h =
        ground (arith, ap (λ (q : FilePath). q.file_name) e, file_name-ne n (decimal pid))

module _ (F : Fs) where
  -- The file holds the new text after success, and is as it was after a failure.
  abbrev Replaced : FilePath → Text → F.State → AppResult (Unit {0}) × F.State → Type 0
  Replaced p t s r =
      ((r.0 ≡ ok tt) × (F.exists r.1 p ≡ true) × (F.read_to_string r.1 p ≡ ok t))
      ⊎ ((r.0 ≢ ok tt) × SameAt F p r.1 s)

  SameAt-trans : {p : FilePath} {s t u : F.State} → SameAt F p s t → SameAt F p t u → SameAt F p s u
  SameAt-trans a b = record { exists = a.exists ∙ b.exists; content = a.content ∙ b.content }

  replace-Replaced :
      IsLawful F
      → (temp p : FilePath) (t : Text) (s : F.State) → temp ≢ p
      → Replaced p t s (replace F temp p t s)
  unfolding replace
  replace-Replaced L temp p t s ne = elim (AppResult-cases (F.write s temp t).0) [
    | inr (e, failed) ↦
        rw (failed, replace) (inr ((λ h. ground arith), L.write_elsewhere s temp p t ne))
    | inl (_, written) ↦
        rw (written, replace)
          (elim (AppResult-cases (F.rename (F.write s temp t).1 temp p).0) [
            | inl (_, renamed) ↦
                let (found, content) = L.rename_here (F.write s temp t).1 temp p renamed in
                let (found', content') = L.write_here s temp t written in
                inl (renamed, found ∙ found', content ∙ content')
            | inr (e, failed) ↦
                let kept = L.rename_fails (F.write s temp t).1 temp p p (λ h. ground arith) in
                inr ((λ h. ground arith), SameAt-trans kept (L.write_elsewhere s temp p t ne))
          ])
  ]

module _ (Y : Yaml) where
  pub parse-IsValid : (content : Text) (c : AppConfig) → parse Y content ≡ ok c → IsValid c
  unfolding parse
  parse-IsValid content c h =
      let (raw, _, h1) = >>=-eq-ok (Y.from_str content) _ h in
      let (_, valid, same) = >>=-eq-ok (validate (deserialize raw)) _ h1 in
      (validate_iff c).0 (ground (arith, valid, same))

  default_config-IsValid : IsValid default_config
  default_config-IsValid = record {
    tunnels = tt;
    distinct = tt;
    nft_mode = λ e. absurd (ground arith);
  }

  module _ (F : Fs) where
    -- A configuration that `load_for_runtime` returns is valid.
    pub load_for_runtime-IsValid :
        (s : F.State) (p : FilePath) (c : AppConfig) → load_for_runtime Y F s p ≡ ok c → IsValid c
    unfolding load_for_runtime
    load_for_runtime-IsValid s p c h =
        let (_, _, h1) = >>=-eq-ok (fail_if (not (F.exists s p)) _) _ h in
        let (content, _, h2) = >>=-eq-ok (F.read_to_string s p) _ h1 in
        let (_, _, h3) = >>=-eq-ok (fail_if (is_empty (trim content)) _) _ h2 in
        parse-IsValid content c h3

    pub load_for_runtime-SameAt :
        (s t : F.State) (p : FilePath)
        → SameAt F p s t
        → load_for_runtime Y F s p ≡ load_for_runtime Y F t p
    unfolding load_for_runtime
    load_for_runtime-SameAt s t p e = rw (e.exists, e.content)

    -- A configuration that `load_or_default` returns is valid, also the default one for a missing
    -- or blank file.
    pub load_or_default-IsValid :
        (s : F.State) (p : FilePath) (c : AppConfig) → load_or_default Y F s p ≡ ok c → IsValid c
    unfolding load_or_default
    load_or_default-IsValid s p c h = elim (Bool-cases (F.exists s p)) [
      | inr missing ↦ subst IsValid (missing_default missing) default_config-IsValid
      | inl found ↦
          let h1 = rw found at h in
          let (content, _, h2) = >>=-eq-ok (F.read_to_string s p) _ h1 in
          elim (Bool-cases (is_empty (trim content))) [
            | inl blank ↦
                subst IsValid (blank_default content (rw blank at h2)) default_config-IsValid
            | inr full ↦ parse-IsValid content c (rw full at h2)
          ]
    ]
      where
        blank_default :
            (content : Text)
            → ◌≡◌ {A = AppResult AppConfig} (ok default_config) (ok c)
            → default_config ≡ c
        blank_default content e = ground arith

        missing_default : F.exists s p ≡ false → default_config ≡ c
        missing_default e = ground arith

    parse-of-written :
        (L : IsRoundTrip Y) (c : AppConfig) (t : Text)
        → validate c ≡ ok tt
        → Y.to_string (serialize c) ≡ ok t
        → parse Y t ≡ ok c
    unfolding parse
    parse-of-written L c t v w = rw (L.reads_back (serialize c) t w, deserialize-serialize c, v)

    load_of_written :
        IsRoundTrip Y
        → (c : AppConfig) (p : FilePath) (t : Text) (s : F.State) → validate c ≡ ok tt
        → Y.to_string (serialize c) ≡ ok t
        → F.exists s p ≡ true
        → F.read_to_string s p ≡ ok t
        → load_for_runtime Y F s p ≡ ok c
    unfolding load_for_runtime
    load_of_written R c p t s valid written found content =
        rw (found, content, R.not_blank (serialize c) t written)
          (parse-of-written R c t valid written)

    -- With a YAML library that reads back what it writes and a file system that writes and
    -- renames as documented, a save either succeeds, and the file then loads as the saved
    -- configuration, or fails, and the file then loads as before.
    pub load_for_runtime-save :
        IsRoundTrip Y
        → IsLawful F
        → (pid : ℕ) (c : AppConfig) (p : FilePath) (s : F.State)
        → let r = save Y F pid c p s in
          ((r.0 ≡ ok tt) × (load_for_runtime Y F r.1 p ≡ ok c))
          ⊎ ((r.0 ≢ ok tt) × (load_for_runtime Y F r.1 p ≡ load_for_runtime Y F s p))
    unfolding save
    load_for_runtime-save R L pid c p s = elim (AppResult-cases (validate c)) [
      | inr (e, invalid) ↦ rw (invalid, save) (inr ((λ h. ground arith), refl))
      | inl (_, valid) ↦ elim (AppResult-cases (Y.to_string (serialize c))) [
        | inr (e, failed) ↦ rw (valid, failed, save) (inr ((λ h. ground arith), refl))
        | inl (t, written) ↦
            rw (valid, written, save)
              (elim (replace-Replaced F L (temp_path pid p) p t s (temp_path-ne pid p)) [
                | inl (done, found, content) ↦
                    inl (done, load_of_written R c p t _ valid written found content)
                | inr (failed, same) ↦ inr (failed, load_for_runtime-SameAt _ s p same)
              ])
      ]
    ]

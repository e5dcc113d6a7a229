-- ===== src/Daemon/OtherUnix.antt =====
-- How src/main.rs recognises the daemon's process on a Unix other than Linux: by what `ps` prints.
pub mod Commands
use mathlib.Core.List.{append_assoc}
use vorto.Prelude.{
  ℕ, ◌≡◌, refl, sym, ap, ◌∙◌, Bool, true, false, ◌&&◌, some, List, [], ◌∷◌, ◌++◌, arith, is_yes,
  ℕ_discrete, contains,
}
use vorto.Text.{Text, text, Text-discrete, is_whitespace, trim}
use vorto.Text.Words.{
  split_whitespace, split_whitespace-trim, split_whitespace-append, split_whitespace_of_Unspaced,
  Unspaced,
}
use vorto.Result.{AppResult, ok, ◌>>=◌}
use vorto.Fs.{FilePath, Fs}
use vorto.Daemon.Control.{Processes, current_binary_name}
use vorto.Daemon.Cmdline.{as_bytes, utf8_char, daemon_worker, daemon_program_name}
use vorto.Daemon.Recognition.{IsFileName, is_no, is_same, file_name_of_path, current_binary_name_of}

-- The first word is the program, the second marks the worker.
abbrev pub is_worker_words : List Text → Text → Bool
is_worker_words [] binary_name = false
is_worker_words (program ∷ []) binary_name = false
is_worker_words (program ∷ worker_arg ∷ parts) binary_name =
    daemon_program_name (as_bytes program) binary_name
    && is_yes (Text-discrete worker_arg daemon_worker)

unfoldable pub is_daemon_worker_command : Text → Text → Bool
is_daemon_worker_command command binary_name =
    is_worker_words (split_whitespace command) binary_name

-- What is asked of `ps -p <pid> -o command=`: whether it succeeds, and its output as decoded.
pub record Ps (P : Processes) : Type 0 where
  pub output : P.State → ℕ → AppResult (Bool × Text)

module _ (F : Fs) (P : Processes) (Q : Ps P) where
  abbrev pub matching_output : Bool × Text → P.State → AppResult Bool
  matching_output (false, stdout) p = ok false
  matching_output (true, stdout) p = do
    binary_name ← current_binary_name F P p
    ok (is_daemon_worker_command (trim stdout) binary_name)

  unfoldable pub daemon_process_matches : ℕ → P.State → AppResult Bool
  daemon_process_matches pid p = do output ← Q.output p pid; matching_output output p

-- The line that `ps` prints for a worker: its arguments with a space between them.
abbrev pub ps_line : Text → Text
ps_line path = path ++ 32 ∷ (daemon_worker ++ 10 ∷ [])

worker_words : split_whitespace (daemon_worker ++ 10 ∷ []) ≡ daemon_worker ∷ []
unfolding split_whitespace is_whitespace text
worker_words = refl

words_of_line :
    (path : Text)
    → split_whitespace (trim (ps_line path)) ≡ split_whitespace path ++ daemon_worker ∷ []
unfolding is_whitespace
words_of_line path =
    split_whitespace-trim (ps_line path)
    ∙ split_whitespace-append path 32 (daemon_worker ++ 10 ∷ []) refl
    ∙ ap (λ ws. split_whitespace path ++ ws) worker_words

as_bytes-append : (s t : Text) → as_bytes (s ++ t) ≡ as_bytes s ++ as_bytes t
unfolding as_bytes
as_bytes-append [] t = refl
as_bytes-append (c ∷ s) t =
    ap (λ bs. utf8_char c ++ bs) (as_bytes-append s t)
    ∙ sym (append_assoc (utf8_char c) (as_bytes s) (as_bytes t))

as_bytes_of_path :
    (dir name : Text) → as_bytes (dir ++ b'/' ∷ name) ≡ as_bytes dir ++ b'/' ∷ as_bytes name
unfolding as_bytes
as_bytes_of_path dir name = as_bytes-append dir (b'/' ∷ name)

program_in_dir :
    (dir name : Text)
    → IsFileName (as_bytes name)
    → daemon_program_name (as_bytes (dir ++ b'/' ∷ name)) name ≡ true
unfolding daemon_program_name
program_in_dir dir name n =
    rw
      (
        as_bytes_of_path dir name,
        file_name_of_path (as_bytes dir) (as_bytes name) n,
        is_same (Text-discrete (as_bytes name) (as_bytes name)),
      )
      refl

-- A path that is not empty and has no white space is one word.
word_of_path :
    (dir name : Text)
    → Unspaced (dir ++ b'/' ∷ name)
    → split_whitespace (dir ++ b'/' ∷ name) ≡ (dir ++ b'/' ∷ name) ∷ []
word_of_path [] name u = split_whitespace_of_Unspaced b'/' name u
word_of_path (c ∷ dir) name u = split_whitespace_of_Unspaced c (dir ++ b'/' ∷ name) u

slash_in_path : (dir name : Text) → contains ℕ_discrete (dir ++ b'/' ∷ name) b'/' ≡ true
slash_in_path [] name = ground arith
slash_in_path (c ∷ dir) name = ground (arith, slash_in_path dir name)

no_slash_in_worker : contains ℕ_discrete daemon_worker b'/' ≡ false
unfolding text ℕ_discrete
no_slash_in_worker = refl

-- A path with a directory is not the argument of a worker.
path-ne-worker :
    (dir name : Text) → is_yes (Text-discrete (dir ++ b'/' ∷ name) daemon_worker) ≡ false
path-ne-worker dir name = is_no (Text-discrete (dir ++ b'/' ∷ name) daemon_worker) (λ e. absurd (
    ground
      (arith, ap (λ t. contains ℕ_discrete t b'/') e, slash_in_path dir name, no_slash_in_worker)))

module _ (F : Fs) (P : Processes) (Q : Ps P) (p : P.State) (pid : ℕ) (dir name : Text)
    (listed : Q.output p pid ≡ ok (true, ps_line (dir ++ b'/' ∷ name)))
    (named : (exe : FilePath) × (P.current_exe p ≡ ok exe) × (exe.file_name ≡ some name)) where
  matches_of_words :
      daemon_process_matches F P Q pid p
      ≡ ok (is_worker_words (split_whitespace (dir ++ b'/' ∷ name) ++ daemon_worker ∷ []) name)
  unfolding daemon_process_matches is_daemon_worker_command
  matches_of_words =
      rw (listed, current_binary_name_of F P p name named, words_of_line (dir ++ b'/' ∷ name)) refl

  -- If `ps` prints the path of the current executable and the argument of a worker with a space
  -- between them, and the path has no white space, then the process is taken for the daemon.
  pub worker-matches :
      IsFileName (as_bytes name)
      → Unspaced (dir ++ b'/' ∷ name)
      → daemon_process_matches F P Q pid p ≡ ok true
  worker-matches n u =
      matches_of_words
      ∙ rw
          (
            word_of_path dir name u,
            program_in_dir dir name n,
            is_same (Text-discrete daemon_worker daemon_worker),
          )
          refl

  -- If `ps` prints the path of the current executable and the argument of a worker with a space
  -- between them, and one directory of the path has a space in its name, then the process is not
  -- taken for the daemon.
  pub worker_in_spaced_dir-mismatches :
      (c d : ℕ) (first rest : Text)
      → dir ≡ (c ∷ first) ++ d ∷ rest
      → is_whitespace d ≡ true
      → Unspaced (c ∷ first)
      → Unspaced (rest ++ b'/' ∷ name)
      → daemon_process_matches F P Q pid p ≡ ok false
  worker_in_spaced_dir-mismatches c d first rest e space u v =
      matches_of_words ∙ rw (e, words) (rw (path-ne-worker rest name) (ground arith))
    where
      words :
          split_whitespace (((c ∷ first) ++ d ∷ rest) ++ b'/' ∷ name)
          ≡ (c ∷ first) ∷ (rest ++ b'/' ∷ name) ∷ []
      words =
          ap split_whitespace (append_assoc (c ∷ first) (d ∷ rest) (b'/' ∷ name))
          ∙ split_whitespace-append (c ∷ first) d (rest ++ b'/' ∷ name) space
          ∙ rw (split_whitespace_of_Unspaced c first u, word_of_path rest name v) refl

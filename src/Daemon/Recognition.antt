-- ===== src/Daemon/Recognition.antt =====
-- The process that `start_daemon` of src/main.rs starts is recognised by its command line.
use vorto.Prelude.{
  ℕ, ◌<◌, ◌^◌, ◌≡◌, ◌≢◌, refl, Bool, true, false, not, ◌&&◌, some, List, [], ◌∷◌, ◌++◌, arith, All,
  All-append, keep_if, is_empty, is_yes,
}
use vorto.Text.{Text, text, Text-discrete}
use vorto.Result.{ok}
use vorto.Fs.{FilePath, Fs, IsLawful}
use vorto.Config.Store.{Yaml}
use vorto.Daemon.Control.{
  Processes, Report, Host, current_binary_name, daemon_process_matches, start_daemon, print_status,
}
use vorto.Daemon.Safety.{read_pid-start_daemon}
use vorto.Daemon.Splitting.{
  split-append, split_of_unmarked, split_of_nothing, keep_if-append, last_part-append,
}
use vorto.Daemon.Cmdline.{
  as_bytes, split_at_byte, daemon_worker, file_name, daemon_program_name, is_daemon_worker_cmdline,
}

-- The last component of a path, if it is a name.
pub record IsFileName (name : List ℕ) : Type 0 where
  pub no_slash : All (λ c. c ≢ b'/') name
  pub no_zero : All (λ c. c ≢ 0) name
  pub not_empty : name ≢ []
  pub not_dot : name ≢ b'.' ∷ []
  pub not_dots : name ≢ b'.' ∷ b'.' ∷ []

-- The parts of a path that count.
abbrev counts : List ℕ → Bool
counts p = not (is_yes (Text-discrete p (b'.' ∷ []))) && not (is_empty p)

pub is_no {ℓ} : {A : Type ℓ} (d : Dec A) → (A → ⊥) → is_yes d ≡ false
is_no (yes a) h = absurd (h a)
is_no (no n) h = refl

pub is_same {ℓ} : {A : Type ℓ} {a : A} (d : Dec (a ≡ a)) → is_yes d ≡ true
is_same (yes e) = refl
is_same (no n) = absurd (n refl)

is_named : (name : List ℕ) → name ≢ [] → is_empty name ≡ false
is_named [] h = absurd (h refl)
is_named (c ∷ name) h = refl

counts_name : (name : List ℕ) → IsFileName name → counts name ≡ true
counts_name name n =
    rw (is_no (Text-discrete name (b'.' ∷ [])) n.not_dot, is_named name n.not_empty) refl

parts_of_path :
    (dir name : List ℕ)
    → IsFileName name
    → keep_if counts (split_at_byte b'/' (dir ++ b'/' ∷ name))
      ≡ keep_if counts (split_at_byte b'/' dir) ++ name ∷ []
parts_of_path dir name n =
    rw
      (
        split-append b'/' dir name,
        split_of_unmarked b'/' name n.no_slash,
        keep_if-append counts (split_at_byte b'/' dir) (name ∷ []),
        counts_name name n,
      )
      refl

pub file_name_of_path :
    (dir name : List ℕ) → IsFileName name → file_name (dir ++ b'/' ∷ name) ≡ some name
unfolding file_name
file_name_of_path dir name n =
    rw
      (
        file_name,
        parts_of_path dir name n,
        last_part-append (keep_if counts (split_at_byte b'/' dir)) name,
        is_no (Text-discrete name (b'.' ∷ b'.' ∷ [])) n.not_dots,
      )
      refl

is_empty_of_path : (dir : List ℕ) (c : ℕ) (name : List ℕ) → is_empty (dir ++ c ∷ name) ≡ false
is_empty_of_path [] c name = refl
is_empty_of_path (d ∷ dir) c name = refl

-- What the process finds in its arguments.
parts_of_cmdline :
    (path worker : List ℕ)
    → All (λ c. c ≢ 0) path
    → split_at_byte 0 worker ≡ worker ∷ []
    → split_at_byte 0 (path ++ (0 ∷ (worker ++ (0 ∷ [])))) ≡ path ∷ worker ∷ [] ∷ []
parts_of_cmdline path worker p w =
    rw
      (
        split-append 0 path (worker ++ 0 ∷ []),
        split-append 0 worker [],
        split_of_nothing 0,
        split_of_unmarked 0 path p,
        w,
      )
      refl

daemon_worker-split : split_at_byte 0 (as_bytes daemon_worker) ≡ as_bytes daemon_worker ∷ []
unfolding split_at_byte as_bytes text
daemon_worker-split = refl

-- The first argument is a path to the program, the second marks the worker.
abbrev pub worker_cmdline : List ℕ → Text → List ℕ
worker_cmdline dir name =
    (dir ++ b'/' ∷ as_bytes name) ++ (0 ∷ (as_bytes daemon_worker ++ (0 ∷ [])))

-- A command line that names the program in a directory and marks the worker is recognised.
is_daemon_worker_cmdline_of_worker :
    (dir : List ℕ) (name : Text)
    → All (λ c. c ≢ 0) dir
    → IsFileName (as_bytes name)
    → is_daemon_worker_cmdline (worker_cmdline dir name) name ≡ true
unfolding is_daemon_worker_cmdline daemon_program_name as_bytes text
is_daemon_worker_cmdline_of_worker dir name d n =
    let path = dir ++ b'/' ∷ as_bytes name in
    rw
      (
        parts_of_cmdline path (as_bytes daemon_worker)
            (All-append (λ c. c ≢ 0) dir (b'/' ∷ as_bytes name) d ((λ e. ground arith), n.no_zero))
            daemon_worker-split,
        is_empty_of_path dir b'/' (as_bytes name),
        file_name_of_path dir (as_bytes name) n,
        is_same (Text-discrete (as_bytes name) (as_bytes name)),
        is_same (Text-discrete (as_bytes daemon_worker) (as_bytes daemon_worker)),
      )
      refl

-- The process has the command line that a start of the worker gives it.
pub record IsWorker (P : Processes) (p : P.State) (pid : ℕ) (dir : List ℕ) (name : Text)
    : Type 0 where
  pub exists : P.has_proc_dir p pid ≡ true
  pub cmdline : P.read_cmdline p pid ≡ ok (worker_cmdline dir name)
  pub named : (exe : FilePath) × (P.current_exe p ≡ ok exe) × (exe.file_name ≡ some name)
  pub no_zero : All (λ c. c ≢ 0) dir
  pub is_file_name : IsFileName (as_bytes name)

module _ (F : Fs) (P : Processes) where
  pub current_binary_name_of :
      (p : P.State) (name : Text)
      → ((exe : FilePath) × (P.current_exe p ≡ ok exe) × (exe.file_name ≡ some name))
      → current_binary_name F P p ≡ ok name
  unfolding current_binary_name
  current_binary_name_of p name (exe, here, named) = ground (arith, here, named)

  IsWorker-matches :
      (p : P.State) (pid : ℕ) (dir : List ℕ) (name : Text)
      → IsWorker P p pid dir name
      → daemon_process_matches F P pid p ≡ ok true
  unfolding daemon_process_matches
  IsWorker-matches p pid dir name w =
      rw
        (
          w.exists,
          w.cmdline,
          current_binary_name_of p name w.named,
          is_daemon_worker_cmdline_of_worker dir name w.no_zero w.is_file_name,
        )
        refl

  -- If the file system writes and renames as documented, a start of the daemon reports a started
  -- process whose id fits in 32 bits, and that process has the command line of a worker of the
  -- current executable, then the status afterwards is that the daemon runs with this id.
  pub print_status-start_daemon :
      (Y : Yaml)
      → IsLawful F
      → (config_path path log_path : FilePath) (h : Host F P) (pid : ℕ) (dir : List ℕ) (name : Text)
      → pid < 2 ^ 32
      → (start_daemon F P Y config_path path log_path h).0 ≡ ok (Report.started pid)
      → IsWorker P ((start_daemon F P Y config_path path log_path h).1).1 pid dir name
      → print_status F P path (start_daemon F P Y config_path path log_path h).1
        ≡ ok (Report.running pid)
  unfolding print_status
  print_status-start_daemon Y L config_path path log_path (s, p) pid dir name fits started w =
      let (s1, p1) = (start_daemon F P Y config_path path log_path (s, p)).1 in
      rw
        (
          read_pid-start_daemon F P Y L config_path path log_path pid fits s p started,
          IsWorker-matches p1 pid dir name w,
        )
        refl

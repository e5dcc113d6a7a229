-- ===== src/Examples/Systems.antt =====
-- Small concrete systems for the interfaces of Fs, Nft/Cli, Runtime/System and HashMap, and the laws
-- that the theorems ask of them.
use mathlib.Core.List.{append_assoc}
use vorto.Prelude.{
  Bool-cases, inl, inr, ℕ, suc, ap, ◌≡◌, refl, subst, ◌≢◌, Bool, true, false, not, ◌&&◌, ◌||◌,
  Option, none, some, [], ◌∷◌, ◌++◌, arith, is_yes, ℕ_discrete, if◌then◌else◌,
}
use vorto.Text.{Text, text, starts_with, contains_text, Text-discrete}
use vorto.HashMap.{Hasher, IsReordering}
use vorto.Result.{AppResult, ok, err, io, os, ErrorKind, ok_or}
use vorto.Fs as Fs
use vorto.Fs.{FilePath, SameAt}
use vorto.Nft.Script.{writeln}
use vorto.Nft.Cli as Cli
use vorto.Nft.Cli.{NftCommand, Output}
use vorto.Runtime.System.{Os, Ending}

-- Iteration in the order of the list.
abbrev pub listed : Hasher
listed = record { order = λ V m. m }

pub listed-IsReordering : IsReordering listed
listed-IsReordering = record { get_order = λ k m u. refl; distinct_order = λ m u. u }

unfoldable pub FilePath-discrete : Discrete FilePath
unfolding ℕ_discrete
FilePath-discrete = hlevel ℕ_discrete

-- Files in memory.
abbrev pub Files : Type 0
Files = FilePath → Option Text

abbrev pub put : FilePath → Option Text → Files → Files
put p t s q = if is_yes (FilePath-discrete p q) then t else s q

abbrev is_some : Option Text → Bool
is_some none = false
is_some (some t) = true

abbrev missing : Option Text → AppResult Text
missing o = ok_or o (io ErrorKind.not_found (text "missing"))

abbrev moved : FilePath → FilePath → Option Text → Files → AppResult (Unit {0}) × Files
moved p q none s = (err (io ErrorKind.not_found (text "missing")), s)
moved p q (some t) s = (ok tt, put q (some t) (put p none s))

abbrev pub memory : Fs.Fs
memory = record {
  State = Files;
  exists = λ s p. is_some (s p);
  read_to_string = λ s p. missing (s p);
  write = λ s p t. (ok tt, put p (some t) s);
  rename = λ s p q. moved p q (s p) s;
  remove_file = λ s p. (ok tt, put p none s);
}

put_here : (p : FilePath) (t : Option Text) (s : Files) → put p t s p ≡ t
put_here p t s = ground arith

put_elsewhere : (p q : FilePath) (t : Option Text) (s : Files) → p ≢ q → put p t s q ≡ s q
put_elsewhere p q t s ne = ground arith

memory-rename_fails :
    (s : Files) (p q r : FilePath) (o : Option Text)
    → (moved p q o s).0 ≢ ok tt
    → (moved p q o s).1 r ≡ s r
memory-rename_fails s p q r none h = refl
memory-rename_fails s p q r (some t) h = absurd (h refl)

memory-rename_here :
    (s : Files) (p q : FilePath) (o : Option Text)
    → (moved p q o s).0 ≡ ok tt
    → (moved p q o s).1 q ≡ o
memory-rename_here s p q none h = ground arith
memory-rename_here s p q (some t) h = put_here q (some t) (put p none s)

pub memory-IsLawful : Fs.IsLawful memory
memory-IsLawful = record {
  write_elsewhere = λ s p q t ne. same (put p (some t) s) s q (put_elsewhere p q (some t) s ne);
  write_here = λ s p t h. rw (put_here p (some t) s) (refl, refl);
  rename_here = λ s p q h. rw (memory-rename_here s p q (s p) h) (refl, refl);
  rename_fails = λ s p q r h. same (moved p q (s p) s).1 s r (memory-rename_fails s p q r (s p) h);
  remove_elsewhere = λ s p q ne. same (put p none s) s q (put_elsewhere p q none s ne);
  remove_here = λ s p h. ap is_some (put_here p none s);
}
  where
    same : (s t : Files) (q : FilePath) → s q ≡ t q → SameAt memory q s t
    same s t q e = record { exists = ap is_some e; content = ap missing e }

-- Tables in memory, the script given last, and whether scripts are refused.
pub record Tables : Type 0 where
  pub present : Text → Bool
  pub script : Text
  pub refuses : Bool

abbrev pub no_tables : Tables
no_tables = record { present = λ t. false; script = []; refuses = false }

abbrev outcome : Bool → Output
outcome b = record { success = b; stderr = text "No such file or directory" }

-- A script that begins by adding a table adds that table.
abbrev adds : Text → Text → Bool
adds script t = starts_with script (text "add table ip " ++ t ++ 10 ∷ [])

abbrev carried_out : Bool → Tables → AppResult Output × Tables
carried_out true s = (ok (outcome false), s)
carried_out false s =
    (ok (outcome true), record s { present = λ t. s.present t || adds s.script t })

abbrev pub tables : NftCommand
tables = record {
  State = Tables;
  has_table = λ s t. s.present t;
  input = λ s child. s.script;
  delete = λ s t. (
    ok (outcome (s.present t)),
    record s { present = λ u. not (is_yes (Text-discrete t u)) && s.present u },
  );
  spawn = λ s. (ok 1, s);
  write_all = λ s child t. (ok tt, record s { script = t });
  wait_with_output = λ s child. carried_out s.refuses s;
}

starts_with-append : (s t : Text) → starts_with (s ++ t) s ≡ true
unfolding starts_with
starts_with-append [] t = refl
starts_with-append (c ∷ s) t = ground (arith, starts_with-append s t)

adds-writeln : (t rest : Text) → adds (writeln (text "add table ip " ++ t) rest) t ≡ true
adds-writeln t rest =
    subst (λ x. starts_with x (text "add table ip " ++ t ++ 10 ∷ []) ≡ true) (assoc t)
      (starts_with-append (text "add table ip " ++ t ++ 10 ∷ []) rest)
  where
    assoc :
        (t : Text)
        → (text "add table ip " ++ t ++ 10 ∷ []) ++ rest ≡ writeln (text "add table ip " ++ t) rest
    assoc t = simp append_assoc

pub tables-IsLawful : Cli.IsLawful tables
tables-IsLawful = record {
  delete_gone = λ s t o h k. rw (not_same t) refl;
  delete_never_adds = λ s t h. rw h (false_right (not (is_yes (Text-discrete t t))));
  spawn_keeps = λ s t. refl;
  write_keeps = λ s child script t. refl;
  write_input = λ s child script h. refl;
  wait_fails = λ s child t h. refused s s.refuses t h;
  wait_adds =
      λ s child t rest o done success given. accepted s s.refuses t rest o done success given;
}
  where
    not_same : (t : Text) → not (is_yes (Text-discrete t t)) ≡ false
    not_same t = ground arith

    false_right : (b : Bool) → (b && false) ≡ false
    false_right b = ground arith

    refused :
        (s : Tables) (b : Bool) (t : Text)
        → ((o : Output) → (carried_out b s).0 ≡ ok o → o.success ≡ false)
        → (carried_out b s).1.present t ≡ s.present t
    refused s true t h = refl
    refused s false t h = absurd (ground (arith, h (outcome true) refl))

    true_right : (b : Bool) → (b || true) ≡ true
    true_right b = ground arith

    accepted :
        (s : Tables) (b : Bool) (t rest : Text) (o : Output)
        → (carried_out b s).0 ≡ ok o
        → o.success ≡ true
        → s.script ≡ writeln (text "add table ip " ++ t) rest
        → (carried_out b s).1.present t ≡ true
    accepted s true t rest o done success given = ground arith
    accepted s false t rest o done success given =
        rw (given, adds-writeln t rest) (true_right (s.present t))

pub tables-delete : (t : Text) (s : Tables) → (Cli.delete_table tables t s).0 ≡ ok tt
unfolding Cli.delete_table contains_text starts_with text
tables-delete t s = elim (Bool-cases (s.present t)) [ inl h ↦ rw h refl | inr h ↦ rw h refl ]

-- An operating system that counts its sockets, on which port 1 is taken.
abbrev taken : Text
taken = text "127.0.0.1:1"

abbrev bound {ℓ} : {A : Type ℓ} → A → Text → AppResult A
bound a address = if is_yes (Text-discrete address taken) then err (os 98) else ok a

abbrev pub machine : Os
machine = record {
  State = ℕ;
  bind_tcp = λ address s. (bound tt address, s);
  bind_udp = λ address s. (bound s address, suc s);
  setsockopt = λ fd name value s. (0, s);
  last_os_error = λ s. 0;
  await_within_grace = λ handle s. (Ending.completed, s);
  abort = λ handle s. s;
}

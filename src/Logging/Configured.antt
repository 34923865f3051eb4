-- ===== src/Logging/Configured.antt =====
-- What the settings of the log amount to, in any order.
use multus_cni.Base.{
  ◌<◌, String, ◌≡◌, ◌≢◌, ap, refl, sym, ◌∙◌, Bool, false, Bool-cases, inl, inr, Option, none, some,
  List, [], ◌∷◌, ◌==◌, string_eq, nat_eq, if◌then◌else◌, ltb, arith,
}
use multus_cni.Logging.{
  Level, panic_level, error_level, verbose_level, debug_level, max_level, unknown_level, rank,
  LogOptions, Logger, Logging, init, default_logger, with_options, renamed, set_log_options,
  set_options_of, set_log_file, set_log_stderr, set_log_level, get_logging_level, level_of_lower,
  complain, load_logging,
}

pub data Setting : Type 0 where
  to_stderr : Bool → Setting
  log_options : Option LogOptions → Setting
  log_file : String → Setting
  log_level : String → Setting

module _ (lower : String → String) where
  unfoldable pub apply : Setting → Logging → Logging
  unfolding set_log_stderr set_log_options set_log_file set_log_level
  apply (to_stderr enable) = set_log_stderr enable
  apply (log_options options) = set_log_options options
  apply (log_file name) = set_log_file name
  apply (log_level name) = set_log_level lower name

  unfoldable pub run : List Setting → Logging → Logging
  unfolding apply
  run [] s = s
  run (x ∷ more) s = run more (apply x s)

-- The last file that is named, and the one before if none is.
abbrev pub last_file : Option String → List Setting → Option String
last_file name [] = name
last_file name (log_file n ∷ more) = last_file (if n == "" then name else some n) more
last_file name (to_stderr _ ∷ more) = last_file name more
last_file name (log_options _ ∷ more) = last_file name more
last_file name (log_level _ ∷ more) = last_file name more

abbrev pub file_of : Option Logger → Option String
file_of none = none
file_of (some l) = some l.filename

abbrev IsNamed : Option Logger → Type 0
IsNamed none = Unit
IsNamed (some l) = (l.filename == "") ≡ false

-- Lines go to the file of the logger, which has a name, and the level is one of the four.
pub record IsConsistent (s : Logging) : Type 0 where
  pub writer : s.logging_w ≡ s.logger
  pub named : IsNamed s.logger
  pub level : rank s.logging_level < 4

abbrev Follows : Option String → Logging → Type 0
Follows name s = IsConsistent s × (file_of s.logger ≡ name)

complain-Follows :
    (text : String) (level : Level) (name : Option String) (s : Logging)
    → Follows name s
    → Follows name (complain text level s)
unfolding complain
complain-Follows text unknown_level name s (c, f) =
    (record { writer = c.writer; named = c.named; level = c.level }, f)
complain-Follows text panic_level name s h = h
complain-Follows text error_level name s h = h
complain-Follows text verbose_level name s h = h
complain-Follows text debug_level name s h = h
complain-Follows text max_level name s h = h

set_log_level-Follows :
    (lower : String → String) (text : String) (name : Option String) (s : Logging)
    → Follows name s
    → Follows name (set_log_level lower text s)
unfolding set_log_level get_logging_level rank
set_log_level-Follows lower text name s h =
    let level = level_of_lower (lower text) in
    let (c, f) = complain-Follows text level name s h in
    elim (Bool-cases (ltb (rank level) 4)) [
      | inl below ↦
          rw below (record { writer = c.writer; named = c.named; level = ground arith }, f)
      | inr above ↦ rw above (c, f)
    ]

with_options-filename :
    (o : Option LogOptions) (l : Logger) → (with_options o l).filename ≡ l.filename
unfolding with_options
with_options-filename none l = refl
with_options-filename (some o) l = refl

set_options_of-Follows :
    (options : Option LogOptions) (o : Option Logger) (name : Option String) (s : Logging)
    → s.logger ≡ o
    → Follows name s
    → Follows name (set_options_of options o s)
unfolding set_options_of
set_options_of-Follows options none name s e h = h
set_options_of-Follows options (some l) name s e (c, f) = elim (Bool-cases (l.filename == "")) [
  | inl empty ↦ rw empty (c, f)
  | inr named ↦
      let same = with_options-filename options (default_logger l.filename l.local_time) in
      rw named (
        record { writer = refl; named = rw same named; level = c.level },
        ap some same ∙ (sym (ap file_of e) ∙ f),
      )
]

set_log_options-Follows :
    (options : Option LogOptions) (name : Option String) (s : Logging)
    → Follows name s
    → Follows name (set_log_options options s)
unfolding set_log_options
set_log_options-Follows options name s h = set_options_of-Follows options s.logger name s refl h

renamed-filename : (n : String) (o : Option Logger) → (renamed n o).filename ≡ n
unfolding renamed
renamed-filename n none = refl
renamed-filename n (some l) = refl

set_log_file-Follows :
    (n : String) (name : Option String) (s : Logging)
    → Follows name s
    → Follows (if n == "" then name else some n) (set_log_file n s)
unfolding set_log_file
set_log_file-Follows n name s (c, f) = elim (Bool-cases (n == "")) [
  | inl e ↦ rw e (c, f)
  | inr e ↦
      let same = renamed-filename n s.logger in
      rw e (record { writer = refl; named = rw same e; level = c.level }, ap some same)
]

module _ (lower : String → String) where
  run-Follows :
      (settings : List Setting) (name : Option String) (s : Logging)
      → Follows name s
      → Follows (last_file name settings) (run lower settings s)
  unfolding run apply set_log_stderr
  run-Follows [] name s f = f
  run-Follows (to_stderr b ∷ more) name s (c, f) =
      run-Follows more name (set_log_stderr b s)
        (record { writer = c.writer; named = c.named; level = c.level }, f)
  run-Follows (log_options o ∷ more) name s f =
      run-Follows more name (set_log_options o s) (set_log_options-Follows o name s f)
  run-Follows (log_file n ∷ more) name s f =
      run-Follows more (if n == "" then name else some n) (set_log_file n s)
        (set_log_file-Follows n name s f)
  run-Follows (log_level t ∷ more) name s f =
      run-Follows more name (set_log_level lower t s) (set_log_level-Follows lower t name s f)

  -- Whatever settings a process makes, and in whatever order, lines go to the file of the logger, which is
  -- the last one that was named, and the level is one of the four.
  pub run-IsConsistent :
      (settings : List Setting)
      → IsConsistent (run lower settings init)
        × (file_of (run lower settings init).logger ≡ last_file none settings)
  unfolding rank
  run-IsConsistent settings =
      run-Follows settings none init
        (record { writer = refl; named = tt; level = omega arith }, refl)

  -- LoadNetConf sets the options before the file: in a process that has named no file yet they are
  -- lost, and the file gets the default options.
  pub load_logging-default :
      (enable : Bool) (options : Option LogOptions) (name level : String) (s : Logging)
      → s.logger ≡ none
      → name ≢ ""
      → (load_logging lower enable options name level s).logger ≡ some (default_logger name false)
  unfolding load_logging set_log_stderr set_log_options set_log_file set_log_level get_logging_level
      complain renamed rank
  load_logging-default enable options name level s e ne = ground (arith, e, ne)

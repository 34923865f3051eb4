-- ===== src/Conf/Readiness.antt =====
-- GetReadinessIndicatorFile and ReadinessIndicatorExistsNow.
use multus_cni.Base.{String, Bool, true, false, Option, none, some, List, [], ◌∷◌}
use multus_cni.Base.Result.{Result, ok, err, Error, Kind, errorf, context, ◌>>=◌}

-- filepath.Clean and Abs, os.Stat of a path now, and what os.Stat answers to the attempts that
-- PollImmediate makes until its timeout.
pub record FileStat : Type 0 where
  pub abs : String → Result String
  pub stat : String → Option Error
  pub polls : String → List (Option Error)

unfoldable pub wait_for_file : List (Option Error) → Result (Unit {0})
wait_for_file [] = err (errorf "timed out waiting for the condition")
wait_for_file (none ∷ polls) = ok tt
wait_for_file (some _ ∷ polls) = wait_for_file polls

abbrev absolute : FileStat → String → Result String
absolute S raw = context "failed to get absolute path of readinessIndicatorFile: " (S.abs raw)

unfoldable pub get_readiness_indicator_file : FileStat → String → Result (Unit {0})
unfolding wait_for_file
get_readiness_indicator_file S raw = absolute S raw >>= λ path. wait_for_file (S.polls path)

exists_by_error : Option Error → Result Bool
exists_by_error none = ok true
exists_by_error (some e) = elim e.kind [ Kind.not_exist ↦ ok false | _ ↦ err e ]

unfoldable pub readiness_indicator_exists_now : FileStat → String → Result Bool
unfolding exists_by_error
readiness_indicator_exists_now S raw = absolute S raw >>= λ path. exists_by_error (S.stat path)

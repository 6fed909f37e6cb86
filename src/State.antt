-- ===== src/State.antt =====
-- The state of the whole linter: class `_CppLintState` and the module's global variables
-- (build_support/cpplint.py), with what is written to the two streams.
use lamp.Prelude.{ℕ, Bool, false, List, [], ◌∷◌}
use lamp.Text.{Text, codes}
use lamp.Dict.{Key}

-- an entry of `_junit_failures`
pub record Failure : Type 0 where
  pub filename : Text
  pub linenum : ℕ
  pub message : Text
  pub category : Text
  pub confidence : ℕ

-- The verbosity is a natural number here.
pub record CppLintState : Type 0 where
  pub verbose_level : ℕ
  pub error_count : ℕ
  pub filters : List Text
  pub filters_backup : List Text
  pub counting : Text
  pub errors_by_category : List (Text × ℕ)
  pub quiet : Bool
  pub output_format : Text
  pub junit_errors : List Text
  pub junit_failures : List Failure

-- `_cpplint_state`, `_error_suppressions`, `_global_error_suppressions`, `_quiet` and the streams.
pub record World : Type 0 where
  pub lint : CppLintState
  pub error_suppressions : List (Key × List ℕ)
  pub global_error_suppressions : List (Text × Bool)
  pub quiet_info : Bool
  pub out : List Text
  pub err : List Text

-- The arguments of a call of the error handler.
pub record Report : Type 0 where
  pub filename : Text
  pub linenum : ℕ
  pub category : Text
  pub confidence : ℕ
  pub message : Text

abbrev pub default_filters : List Text
default_filters = codes "-build/include_alpha" ∷ []

abbrev pub init_state : CppLintState
init_state = record {
  verbose_level = 1;
  error_count = 0;
  filters = default_filters;
  filters_backup = default_filters;
  counting = codes "total";
  errors_by_category = [];
  quiet = false;
  output_format = codes "emacs";
  junit_errors = [];
  junit_failures = [];
}

abbrev pub init_world : World
init_world = record {
  lint = init_state;
  error_suppressions = [];
  global_error_suppressions = [];
  quiet_info = false;
  out = [];
  err = [];
}

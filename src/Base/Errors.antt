-- ===== src/Base/Errors.antt =====
-- Go's `error` values as the program builds and inspects them (internal/database/errors.go,
-- PreCheckError of pkg/controllers/conditions, the standard library's errors and fmt). `nil` is
-- `none` of an `Option GoError`.
use Prim.Native.String.{◌++◌ as str_append}
use rosa_hyperfleet_kube_app.Prelude.{
  ℕ, String, Bool, true, false, ◌||◌, Option, none, some, List, [], ◌∷◌,
}

-- The text of a `fmt.Sprintf`, from its pieces.
unfoldable pub concat : List String → String
concat [] = ""
concat (s ∷ ss) = str_append s (concat ss)

pub data GoError : Type 0 where
  -- the sentinels of errors.go
  not_found precondition_failed already_exists : GoError
  -- *types.ConditionalCheckFailedException of the DynamoDB client, with its text
  conditional_check_failed : String → GoError
  -- *apierrors.StatusError of the Kubernetes client, with its code and its text
  status_error : ℕ → String → GoError
  -- &PreCheckError{Err: err}
  pre_check : GoError → GoError
  -- errors.New, fmt.Errorf with no %w, and an error of a library that nothing inspects
  plain : String → GoError
  -- fmt.Errorf("prefix: %w", err)
  wrap : String → GoError → GoError
  -- errors.Join of two errors
  join : GoError → GoError → GoError

-- err.Error()
unfoldable pub error_text : GoError → String
unfolding concat
error_text not_found = "not found"
error_text precondition_failed = "precondition failed"
error_text already_exists = "already exists"
error_text (conditional_check_failed s) = s
error_text (status_error c s) = s
error_text (pre_check e) = error_text e
error_text (plain s) = s
error_text (wrap s e) = concat (s ∷ ": " ∷ error_text e ∷ [])
error_text (join e f) = concat (error_text e ∷ "\n" ∷ error_text f ∷ [])

-- The tree that errors.Is and errors.As walk.
unfoldable pub chain_any : (GoError → Bool) → GoError → Bool
chain_any p (pre_check e) = p (pre_check e) || chain_any p e
chain_any p (wrap s e) = p (wrap s e) || chain_any p e
chain_any p (join e f) = p (join e f) || (chain_any p e || chain_any p f)
chain_any p not_found = p not_found
chain_any p precondition_failed = p precondition_failed
chain_any p already_exists = p already_exists
chain_any p (conditional_check_failed s) = p (conditional_check_failed s)
chain_any p (status_error c s) = p (status_error c s)
chain_any p (plain s) = p (plain s)

-- Of a value that may be nil.
unfoldable pub error_any : (GoError → Bool) → Option GoError → Bool
error_any p none = false
error_any p (some e) = chain_any p e

abbrev pub is_not_found_value : GoError → Bool
is_not_found_value not_found = true
is_not_found_value _ = false

abbrev pub is_precondition_failed_value : GoError → Bool
is_precondition_failed_value precondition_failed = true
is_precondition_failed_value _ = false

abbrev pub is_already_exists_value : GoError → Bool
is_already_exists_value already_exists = true
is_already_exists_value _ = false

abbrev pub is_conditional_check_failed_value : GoError → Bool
is_conditional_check_failed_value (conditional_check_failed s) = true
is_conditional_check_failed_value _ = false

abbrev pub is_pre_check_value : GoError → Bool
is_pre_check_value (pre_check e) = true
is_pre_check_value _ = false

unfoldable pub is_not_found_error : Option GoError → Bool
unfolding error_any chain_any
is_not_found_error = error_any is_not_found_value

unfoldable pub is_precondition_failed_error : Option GoError → Bool
unfolding error_any chain_any
is_precondition_failed_error = error_any is_precondition_failed_value

unfoldable pub is_already_exists_error : Option GoError → Bool
unfolding error_any chain_any
is_already_exists_error = error_any is_already_exists_value

unfoldable pub is_conditional_check_failed : Option GoError → Bool
unfolding error_any chain_any
is_conditional_check_failed = error_any is_conditional_check_failed_value

-- errors.As(err, &statusErr): the code of the first *StatusError of the tree.
abbrev or_else : Option ℕ → Option ℕ → Option ℕ
or_else none o = o
or_else (some c) o = some c

unfoldable pub as_status_error : GoError → Option ℕ
as_status_error (status_error c s) = some c
as_status_error (pre_check e) = as_status_error e
as_status_error (wrap s e) = as_status_error e
as_status_error (join e f) = or_else (as_status_error e) (as_status_error f)
as_status_error _ = none

-- errors.Join(err, err'): nil values are discarded.
unfoldable pub errors_join : Option GoError → Option GoError → Option GoError
errors_join none none = none
errors_join none (some f) = some f
errors_join (some e) none = some e
errors_join (some e) (some f) = some (join e f)

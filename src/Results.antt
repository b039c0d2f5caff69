-- ===== src/Results.antt =====
-- internal/results/result.go: the types of a Provider's review result. The checks are in the
-- modules below: `Validate`, the result index and the comparison of passes.
pub mod Validate
pub mod Index
pub mod Compare
pub mod Records
use diffdossier.Prelude.{ℕ, String, Bool, List, Slice}

pub record Reviewer : Type 0 where
  pub provider : String
  pub model : String
  pub model_family : String
  pub pass_id : String
  pub perspective : String
  pub prompt_digest : String
  pub context_isolation : String

pub record Coverage : Type 0 where
  pub scope : String
  pub path_bytes_base64 : String
  pub status : String
  pub evidence : String

-- A line number: Go's `int`, so that it may be negative.
pub data Line : Type 0 where
  line : ℕ → Line
  negative : ℕ → Line

pub record Finding : Type 0 where
  pub id : String
  pub severity : String
  pub confidence : String
  pub category : String
  pub path_bytes_base64 : String
  pub trigger_path_bytes_base64 : String
  pub line : Line
  pub evidence : String
  pub impact : String
  pub remediation : String
  pub verification : String
  pub state : String
  pub line_presence_known : Bool
  pub line_present : Bool

pub record Confirmation : Type 0 where
  pub id : String
  pub question : String
  pub owner : String

pub record ResidualRisk : Type 0 where
  pub id : String
  pub risk : String
  pub owner : String
  pub review_trigger : String

pub record Result : Type 0 where
  pub schema_version : String
  pub task_id : String
  pub snapshot_id : String
  pub task_input_hash : String
  pub reviewer : Reviewer
  pub coverage : Slice Coverage
  pub findings : Slice Finding
  pub needs_confirmation : Slice Confirmation
  pub residual_risks : Slice ResidualRisk
  pub status : String

pub record Validation : Type 0 where
  pub accepted : Bool
  pub completed : Bool

-- ===== src/Inventory.antt =====
-- internal/inventory/inventory.go and internal/contracts/contracts.go: the types of a snapshot's
-- entries and of its contract graph. Sizes are natural numbers: those of a snapshot are not
-- negative and add up to less than 2 ^ 63.
use diffdossier.Prelude.{ℕ, String, Bool, Option, none, some, List}
use diffdossier.Digests.{joined}

pub record PathIdentity : Type 0 where
  pub bytes_base64 : String
  pub utf8 : Option String

unfoldable pub display : PathIdentity → String
display path = elim path.utf8 [ none ↦ joined "base64:" path.bytes_base64 | some text ↦ text ]

pub record Entry : Type 0 where
  pub scope : String
  pub status : String
  pub path : PathIdentity
  pub old_path : Option PathIdentity
  pub kind : String
  pub mode : String
  pub size : ℕ
  pub content_hash : String
  pub binary : Bool
  pub link_target : Option PathIdentity
  pub git_object : String
  pub lfs_oid : String
  pub lfs_size : ℕ
  pub submodule_dirty : Bool
  pub content : List ℕ
  pub previous_kind : String
  pub previous_mode : String
  pub previous_size : ℕ
  pub previous_content_hash : String
  pub previous_git_object : String
  pub previous_content : List ℕ

pub record Contract : Type 0 where
  pub id : String
  pub type_name : String
  pub path_bytes_base64 : String
  pub signals : List String
  pub candidate_only : Bool

pub record Rule : Type 0 where
  pub path : String
  pub scope : String
  pub digest : String

pub record Graph : Type 0 where
  pub schema_version : String
  pub rules : List Rule
  pub contracts : List Contract

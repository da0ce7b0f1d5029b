-- ===== src/Storage/Models.antt =====
-- src/storage/models.rs, and the rows of the three tables of src/storage/db.rs.
use uni_mail.Common.{ℕ, String, ◌≡◌, refl, Bool, true, false, Option, List, ◌==◌, if◌then◌else◌}

-- Whether an account is usable.
pub data AccountStatus : Type 0 where
  active disconnected : AccountStatus

-- `AccountStatus::parse`: every text but "disconnected" is an active account.
unfoldable pub parse_status : String → AccountStatus
parse_status s = if s == "disconnected" then disconnected else active

-- `AccountStatus::as_str`
unfoldable pub as_str : AccountStatus → String
as_str active = "active"
as_str disconnected = "disconnected"

-- `a == b` of the derived `PartialEq`
abbrev pub is_disconnected : AccountStatus → Bool
is_disconnected active = false
is_disconnected disconnected = true

pub record Account : Type 0 where
  pub id : String
  pub tenant_id : String
  pub email_address : String
  pub display_name : Option String
  pub provider : String
  pub status : AccountStatus
  pub created_at : String
  pub updated_at : String

-- A row of `accounts`; the status is a text column.
pub record AccountRow : Type 0 where
  pub id : String
  pub tenant_id : String
  pub email_address : String
  pub display_name : Option String
  pub provider : String
  pub status : String
  pub created_at : String
  pub updated_at : String

-- A row of `tokens`: encrypted blobs, and times as RFC 3339 texts.
pub record TokenRow : Type 0 where
  pub account_id : String
  pub access_token_encrypted : List ℕ
  pub refresh_token_encrypted : List ℕ
  pub scope : Option String
  pub expires_at : Option String
  pub last_used_at : Option String
  pub updated_at : String

-- A row of `oauth_flows`.
pub record FlowRow : Type 0 where
  pub state : String
  pub verifier : List ℕ
  pub tenant_id : String
  pub created_at : ℕ

-- Reading back a written status gives that status.
pub parse_status-as_str : (s : AccountStatus) → parse_status (as_str s) ≡ s
unfolding parse_status as_str
parse_status-as_str active = refl
parse_status-as_str disconnected = refl

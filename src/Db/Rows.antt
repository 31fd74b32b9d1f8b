-- ===== src/Db/Rows.antt =====
-- The rows of the tables of cloud-backend/pkg/db/schema.sql, as postgres.go fills and reads them.
use cloudeagent.Prelude.{ℕ, Option, List, [], Text, length, leb, if◌then◌else◌}
use cloudeagent.Types.{Err, Status, Instance, ReviewStatus, Finding, Review}

-- The rows of `agent_instances` and `code_reviews`; those of the other tables are the records
-- themselves.
pub record InstanceRow : Type 0 where
  pub user_id : Text
  pub instance_name : Text
  pub status : Status
  pub workspace : Text
  pub endpoint : Text
  pub port : ℕ
  pub sandbox_id : Text
  pub error : Option Err
  pub created_at : ℕ
  pub updated_at : ℕ

pub record ReviewRow : Type 0 where
  pub review_id : Text
  pub user_id : Text
  pub repo : Text
  pub pr_number : ℕ
  pub status : ReviewStatus
  pub model : Text
  pub findings : Text
  pub error : Text
  pub created_at : ℕ
  pub updated_at : ℕ

-- `json.Marshal` and `json.Unmarshal` of findings, through a JSONB column, and a time through a
-- TIMESTAMPTZ column.
pub record Columns : Type 0 where
  pub encode : List Finding → Text
  pub decode : Text → List Finding
  pub stamp : ℕ → ℕ

-- `scanInstance`
unfoldable pub scan_instance : InstanceRow → Instance
scan_instance row = record {
  user_id = row.user_id;
  instance_name = row.instance_name;
  status = row.status;
  workspace = row.workspace;
  endpoint = row.endpoint;
  port = row.port;
  sandbox_id = row.sandbox_id;
  error = row.error;
  last_active_at = 0;
  ws_connections = 0;
  created_at = row.created_at;
  updated_at = row.updated_at;
}

module _ (columns : Columns) where
  unfoldable pub instance_row : Instance → InstanceRow
  instance_row inst = record {
    user_id = inst.user_id;
    instance_name = inst.instance_name;
    status = inst.status;
    workspace = inst.workspace;
    endpoint = inst.endpoint;
    port = inst.port;
    sandbox_id = inst.sandbox_id;
    error = inst.error;
    created_at = columns.stamp inst.created_at;
    updated_at = columns.stamp inst.updated_at;
  }

  -- The columns that `UpdateInstance` sets.
  unfoldable pub set_instance : Instance → InstanceRow → InstanceRow
  set_instance inst row = record row {
    instance_name = inst.instance_name;
    status = inst.status;
    workspace = inst.workspace;
    endpoint = inst.endpoint;
    port = inst.port;
    sandbox_id = inst.sandbox_id;
    error = inst.error;
    updated_at = columns.stamp inst.updated_at;
  }

  unfoldable pub review_row : Review → ReviewRow
  review_row r = record {
    review_id = r.id;
    user_id = r.user_id;
    repo = r.repo;
    pr_number = r.pr_number;
    status = r.status;
    model = r.model;
    findings = columns.encode r.findings;
    error = r.error;
    created_at = columns.stamp r.created_at;
    updated_at = columns.stamp r.updated_at;
  }

  -- The columns that `UpdateReview` sets.
  unfoldable pub set_review : Review → ReviewRow → ReviewRow
  set_review r row = record row {
    status = r.status;
    findings = columns.encode r.findings;
    error = r.error;
    updated_at = columns.stamp r.updated_at;
  }

  -- `scanReview`
  unfoldable pub scan_review : ReviewRow → Review
  scan_review row = record {
    id = row.review_id;
    user_id = row.user_id;
    repo = row.repo;
    pr_number = row.pr_number;
    status = row.status;
    model = row.model;
    findings = if leb (length row.findings) 0 then [] else columns.decode row.findings;
    error = row.error;
    created_at = row.created_at;
    updated_at = row.updated_at;
  }

-- ===== src/Model.antt =====
-- internal/model/model.go: findings, and the report that is built from them. `Severity` is a Go
-- string: `other` is any text but those of the constants.
use devsec.Base.{ℕ, List, String}

pub data Severity : Type 0 where
  critical high medium low info : Severity
  other : String → Severity

pub record Location : Type 0 where
  pub file : String
  pub start_line : ℕ
  pub end_line : ℕ
  pub column : ℕ

pub record Finding : Type 0 where
  pub id : String
  pub title : String
  pub description : String
  pub rule : String
  pub scanner : String
  pub severity : Severity
  pub location : Location

pub record Summary : Type 0 where
  pub total : ℕ
  pub critical : ℕ
  pub high : ℕ
  pub medium : ℕ
  pub low : ℕ
  pub info : ℕ

pub record Report : Type 0 where
  pub metadata : List (String × String)
  pub timestamp : String
  pub findings : List Finding
  pub summary : Summary

-- ===== src/Session/Tables.antt =====
-- The tables that the modelled operations read and write, and what a session takes from outside.
use message_router.Prelude.{ℕ, Bool, List, Text}
use message_router.Models.{
  Uuid, Moment, User, Team, TeamMembership, WeComChannel, Case, CaseEntry, CaseEntryPart, Delivery,
  DeliveryItem, IssueStatusUpdateJob, IssueIntakeDraft, BugDailySequence, WebSession,
}

pub record Db : Type 0 where
  pub users : List User
  pub teams : List Team
  pub memberships : List TeamMembership
  pub channels : List WeComChannel
  pub cases : List Case
  pub entries : List CaseEntry
  pub parts : List CaseEntryPart
  pub deliveries : List Delivery
  pub items : List DeliveryItem
  pub jobs : List IssueStatusUpdateJob
  pub drafts : List IssueIntakeDraft
  pub stored_media : List Uuid
  pub bug_sequences : List BugDailySequence
  pub web_sessions : List WebSession

-- A calendar day: `isoformat()` is its key, and `%m%d` its two numbers.
pub record LocalDay : Type 0 where
  pub date_key : Text
  pub month : ℕ
  pub day : ℕ

-- What the code takes from other packages and from the host: the time (read once in a session), the
-- UUIDs that `uuid4` returns, the draws of `secrets.choice`, Shanghai's calendar by `zoneinfo`, and
-- the tables of Unicode behind `\w` and `str.upper`; the text of a UUID; and the address of the web site, which the
-- service is configured with.
pub record Env : Type 0 where
  pub now : Moment
  pub uuid : ℕ → Uuid
  pub choice : ℕ → ℕ
  pub shanghai : Moment → LocalDay
  pub is_word : ℕ → Bool
  pub upper : ℕ → Text
  pub show_uuid : Uuid → Text
  pub web_base_url : Text

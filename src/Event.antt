-- ===== src/Event.antt =====
-- src/gossip/member_event.h: the events that SWIM messages carry.
pub mod Wire
mod Examples
use mini_dynamo.Base.{ℕ}
use mini_dynamo.Text.{Str}

-- `unknown c` is a character that the cast of a malformed message makes an EventType.
pub data EventType : Type 0 where
  join suspect dead leave alive : EventType
  unknown : ℕ → EventType

pub record MemberEvent : Type 0 where
  pub type : EventType
  pub node_id : Str
  pub host : Str
  pub port : ℕ
  pub incarnation : ℕ

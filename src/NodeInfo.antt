-- ===== src/NodeInfo.antt =====
-- src/node_info.h: identity and address of a cluster member.
use mini_dynamo.Base.{ℕ}
use mini_dynamo.Text.{Str}

pub record NodeInfo : Type 0 where
  pub node_id : Str
  pub host : Str
  pub port : ℕ

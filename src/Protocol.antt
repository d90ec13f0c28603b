-- ===== src/Protocol.antt =====
-- internal/protocol/message.go: the messages between the panel and the agents. A payload is raw
-- text; what reads it is the JSON package, a parameter where it is used.
pub mod MsgType
pub mod Action
use dst_go_backend.Base.{String, Bool, ℤ}

pub record Envelope : Type 0 where
  pub id : String
  pub msg_type : String
  pub payload : String

pub record CmdPayload : Type 0 where
  pub action : String
  pub slot : ℤ
  pub cluster_token : String

pub record Log : Type 0 where
  pub content : String

pub record Ack : Type 0 where
  pub accepted : Bool
  pub reason : String

pub record Result : Type 0 where
  pub action : String
  pub slot : ℤ
  pub success : Bool
  pub exit_code : ℤ
  pub error : String

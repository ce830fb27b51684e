-- ===== src/Messages.antt =====
-- protobuf/message.proto: the messages that nodes exchange, as records of their fields. Their wire
-- format is generated code and the protobuf library's.
use cbsignal_redis.Base.{List, Bytes}

pub record SignalReq : Type 0 where
  pub to_peer_id : Bytes
  pub payload : Bytes

pub record SignalBatchReq : Type 0 where
  pub items : List SignalReq

-- ===== src/Nodes/Node.antt =====
-- nodes/node.go: another instance of the service, what is sent to its queue in Redis, and its
-- heartbeat. The node's aggregator is the one of nodes/aggregator.go with the options below; here its
-- event queue and what TryEnqueue does with it. protobuf and JSON encoding are parameters.
pub mod Trim
pub mod Heartbeat
use cbsignal_redis.Base.{
  ℕ, suc, ◌+◌, Bool, true, false, ◌||◌, not, Option, List, [], ◌∷◌, ltb, if◌then◌else◌, length,
  Bytes,
}
use cbsignal_redis.Errors.{Result, node_not_alive, ok, err}
use cbsignal_redis.Messages.{SignalReq, SignalBatchReq}
use cbsignal_redis.Redis.{
  push_msg_to_mq, get_len_mq, clear_mq, trim_mq, get_node_client_count, Cmdable, BigCache,
  RedisState,
}
use cbsignal_redis.Nodes.Aggregator.{try_enqueue, AggregatorOption}

abbrev pub ping_max_retrys : ℕ
ping_max_retrys = 2

abbrev pub mq_max_len : ℕ
mq_max_len = 1000

abbrev pub mq_len_after_trim : ℕ
mq_len_after_trim = 500

abbrev pub max_pipe_len : ℕ
max_pipe_len = 60

abbrev pub consume_interval : ℕ
consume_interval = 70

-- `addr` is an address in Redis; `event_queue` is the aggregator's channel.
pub record Node : Type 0 where
  pub addr : Bytes
  pub is_alive : Bool
  pub num_client : ℕ
  pub ping_retrys : ℕ
  pub is_dead : Bool
  pub event_queue : List SignalReq

-- The option function that NewNode passes to NewAggregator.
abbrev pub node_option : AggregatorOption → AggregatorOption
node_option option = record option {
  batch_size = max_pipe_len;
  workers = 1;
  channel_buffer_size = max_pipe_len + 10;
  linger_time = consume_interval;
  has_error_handler = true;
}

unfoldable pub new_node : Bytes → Node
new_node addr = record {
  addr = addr;
  is_alive = true;
  num_client = 0;
  ping_retrys = 0;
  is_dead = false;
  event_queue = [];
}

-- SignalResp, a message to a client; `reply_data` is its `data` as JSON, if it has one.
pub record SignalResp : Type 0 where
  pub action : Bytes
  pub from_peer_id : Bytes
  pub from : Bytes
  pub reply_data : Option Bytes
  pub reason : Bytes

-- sonic.Marshal of a SignalResp, and proto.Marshal of a batch.
pub record Codec : Type 0 where
  pub marshal_resp : SignalResp → Result Bytes
  pub marshal_batch : SignalBatchReq → Result Bytes

module _ (E : Codec) where
  -- SendMsgSignal. `queue'` is what the queue holds at TryEnqueue's second try. A request that finds
  -- no room is dropped, and the call still returns no error.
  unfoldable pub send_msg_signal :
      SignalResp → Bytes → List SignalReq → Node → Result (Unit {0}) × Node
  unfolding try_enqueue
  send_msg_signal signal_resp to_peer_id queue' node =
      if not node.is_alive then (err node_not_alive, node) else elim (E.marshal_resp signal_resp) [
        | err e ↦ (err e, node)
        | ok b ↦
            let req : SignalReq = record { to_peer_id = to_peer_id; payload = b } in
            let (accepted, queue) = try_enqueue (max_pipe_len + 10) req node.event_queue queue' in
            (ok tt, record node { event_queue = queue })
      ]

module _ (E : Codec) (C : Cmdable) (B : BigCache) where
  -- The part of sendBatchReq behind the push; the lengths only show in log lines, and no error of
  -- the trimming is returned.
  unfoldable pub trim_if_long : Bytes → ℕ → RedisState C B → RedisState C B
  trim_if_long addr length s =
      if ltb mq_max_len length
      then (let (r, s') = trim_mq C B addr mq_len_after_trim s in
          elim r [ err e ↦ s' | ok u ↦ (get_len_mq C B addr s').1 ])
      else s

  unfoldable pub after_push : Bytes → Result ℕ × RedisState C B → Result (Unit {0}) × RedisState C B
  after_push addr (err e, s) = (err e, s)
  after_push addr (ok length, s) = (ok tt, trim_if_long addr length s)

  unfoldable pub send_batch_req :
      Bytes → List SignalReq → RedisState C B → Result (Unit {0}) × RedisState C B
  send_batch_req addr items s = elim (E.marshal_batch (record { items = items })) [
    | err e ↦ (err e, s)
    | ok raw ↦ after_push addr (push_msg_to_mq C B addr raw s)
  ]

  -- The batch processor and the error handler that NewNode makes.
  unfoldable pub batch_process :
      Bytes → List SignalReq → RedisState C B → Result (Unit {0}) × RedisState C B
  batch_process addr [] s = (ok tt, s)
  batch_process addr (item ∷ items) s = send_batch_req addr (item ∷ items) s

  unfoldable pub error_handler : Bytes → List SignalReq → RedisState C B → RedisState C B
  error_handler addr items s = (send_batch_req addr items s).1

module _ (C : Cmdable) (B : BigCache) where
  -- The first failed ping empties the node's queue.
  unfoldable pub empty_queue : Bytes → RedisState C B → RedisState C B
  empty_queue addr s =
      let (r, s') = get_len_mq C B addr s in
      elim r [ err e ↦ s' | ok length ↦ if ltb 0 length then (clear_mq C B addr s').1 else s' ]

  unfoldable pub ping_failed : Node → RedisState C B → Node × RedisState C B
  ping_failed node s = (
    record node { is_alive = false; ping_retrys = suc node.ping_retrys },
    if node.is_alive then empty_queue node.addr s else s,
  )

  unfoldable pub ping_answered : ℕ → Node → Node
  ping_answered count node = record node { is_alive = true; ping_retrys = 0; num_client = count }

  -- What the loop of StartHeartbeat does after its sleep.
  unfoldable pub ping : Node → RedisState C B → Node × RedisState C B
  ping node s =
      let (r, s') = get_node_client_count C B node.addr s in
      elim r [ err e ↦ ping_failed node s' | ok count ↦ (ping_answered count node, s') ]

  -- The test at the head of the loop.
  unfoldable pub gives_up : Node → Bool
  gives_up node = ltb ping_max_retrys node.ping_retrys || node.is_dead

  abbrev pub die : Node → Node
  die node = record node { is_dead = true }

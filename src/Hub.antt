-- ===== src/Hub.antt =====
-- hub/hub.go: the clients of this instance, and what other instances send to them. Log lines are left
-- out. Init starts 18 goroutines that run `consume` for good; SendJsonToClient's `recover` is not
-- modelled, since no call in the model panics.
pub mod Registry
pub mod Kept
use cbsignal_redis.Base.{
  ℕ, suc, ◌≡◌, Bool, true, false, Option, none, some, List, [], ◌∷◌, ◌==◌, if◌then◌else◌, Bytes,
  str_eq,
}
use cbsignal_redis.Errors.{GoError, Result, ok, err}
use cbsignal_redis.Redis.{set_local_peer, del_local_peer, block_pop_mq}
use cbsignal_redis.Client.{Sent, send_message, close_client, Client}
use cbsignal_redis.Messages.{SignalReq}
use cbsignal_redis.Nodes.Node.{SignalResp}
use cbsignal_redis.World.{Env, World}

abbrev pub mq_block_duration : ℕ
mq_block_duration = 5

module _ (E : Env) where
  -- A write to the client at an address.
  abbrev pub store : ℕ → Client → World E → World E
  store p c w = record w { heap = λ q. if p == q then c else w.heap q }

  unfoldable pub get_client_count : World E → ℕ
  get_client_count w = E.fast_map.count_no_lock w.clients

  unfoldable pub get_client_num_per_map : World E → List ℕ
  get_client_num_per_map w = E.fast_map.count_per_map_no_lock w.clients

  unfoldable pub get_client : Bytes → World E → Option ℕ
  get_client id w = E.fast_map.get id w.clients

  unfoldable pub do_register : ℕ → World E → World E
  do_register p w =
      let id = (w.heap p).peer_id in
      record w {
        clients = E.fast_map.set id p w.clients;
        redis = (set_local_peer E.cmdable E.big_cache id w.redis).1;
      }

  unfoldable pub remove_client : Bytes → World E → World E
  remove_client id w = record w { clients = E.fast_map.remove id w.clients }

  -- ClearAll, of which the map may make several outcomes
  unfoldable pub ClearsAll : World E → World E → Type 0
  ClearsAll w w' = E.fast_map.Clears w.clients w'.clients × (w' ≡ record w { clients = w'.clients })

  -- Has and Remove without another goroutine between them; System/Race has them apart.
  unfoldable pub do_unregister : Bytes → World E → Bool × World E
  do_unregister peer_id w =
      if str_eq peer_id []
      then (false, w)
      else if E.fast_map.has peer_id w.clients
      then (
        true,
        record w {
          clients = E.fast_map.remove peer_id w.clients;
          redis = (del_local_peer E.cmdable E.big_cache peer_id w.redis).1;
        },
      )
      else (false, w)

  -- c.SendMessage(b)
  unfoldable pub send_to : ℕ → Bytes → World E → Sent × World E
  send_to p b w =
      let (sent, c, net') = send_message E.network b (w.heap p) w.net in
      (sent, record (store p c w) { net = net' })

  -- c.Close()
  unfoldable pub close : ℕ → World E → World E
  close p w = record w { pool = p ∷ w.pool; net = close_client E.network (w.heap p) w.net }

  unfoldable pub marshalled : ℕ → Result Bytes → World E → Sent × World E
  marshalled p (err e) w = ((some e, false), w)
  marshalled p (ok b) w = send_to p b w

  -- c.SendMsgClose, given what sonic.Marshal makes of its SignalCloseResp; the error that it returns
  unfoldable pub send_msg_close : ℕ → Result Bytes → World E → Option GoError × World E
  send_msg_close p r w = let ((error, fatal), w') = marshalled p r w in (error, w')

  unfoldable pub send_json_to_client : ℕ → SignalResp → World E → Sent × World E
  send_json_to_client p resp w = marshalled p (E.codec.marshal_resp resp) w

  -- `if ok := DoUnregister(id); ok { c.Close() }`
  unfoldable pub drop_client : Bytes → ℕ → World E → Bool × World E
  drop_client id p w =
      let (done, w') = do_unregister id w in (done, if done then close p w' else w')

  -- A client to which a message cannot be sent is dropped.
  unfoldable pub after_send : ℕ → Sent × World E → World E
  after_send p ((none, fatal), w) = w
  after_send p ((some e, fatal), w) = (drop_client (w.heap p).peer_id p w).1

  -- The body of the loop of sendMessageToLocalPeer.
  unfoldable pub deliver : SignalReq → World E → World E
  deliver item w = elim (get_client item.to_peer_id w) [
    | none ↦ w
    | some p ↦ after_send p (send_to p item.payload w)
  ]

  unfoldable pub deliver_all : List SignalReq → World E → World E
  deliver_all [] w = w
  deliver_all (item ∷ items) w = deliver_all items (deliver item w)

  unfoldable pub send_message_to_local_peer : Bytes → World E → World E
  send_message_to_local_peer raw w = elim (E.unmarshal_batch raw) [
    | err e ↦ w
    | ok req ↦ deliver_all req.items w
  ]

  abbrev consumed : Result Bytes → World E → World E
  consumed (err e) w = w
  consumed (ok b) w = send_message_to_local_peer b w

  -- One round of Consume's loop; the batch is handled by a goroutine of its own.
  unfoldable pub consume : Bytes → World E → World E
  consume addr w =
      let (r, s) = block_pop_mq E.cmdable E.big_cache mq_block_duration addr w.redis in
      consumed r (record w { redis = s })

  -- clientPool.Get(), after the pool's choice: a client put back, or a new one
  unfoldable pub allocate_from : Option (ℕ × List ℕ) → World E → ℕ × World E
  allocate_from none w = (w.next, record w { next = suc w.next; gets = suc w.gets })
  allocate_from (some (p, rest)) w = (p, record w { pool = rest; gets = suc w.gets })

  unfoldable pub allocate : World E → ℕ × World E
  allocate w = allocate_from (E.pool_get w.gets w.pool) w

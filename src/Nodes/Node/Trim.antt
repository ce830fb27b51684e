-- ===== src/Nodes/Node/Trim.antt =====
-- node.go: sendBatchReq against a Redis that answers.
use cbsignal_redis.Base.{
  ℕ, suc, ◌-◌, ◌≤◌, ◌<◌, ◌≡◌, refl, ap, ◌∙◌, inl, inr, List, [], ◌∷◌, ◌++◌, arith, ltb,
  if◌then◌else◌, Bool-cases, length, drop, length-append, length-drop, Bytes,
}
use cbsignal_redis.Base.Int.{sub_ℕ, ℤ, pos, negsuc}
use cbsignal_redis.Errors.{ok}
use cbsignal_redis.Messages.{SignalReq}
use cbsignal_redis.Redis.{
  key_for_mq, push_msg_to_mq, get_len_mq, trim_mq, Cmdable, BigCache, RedisState,
}
use cbsignal_redis.Nodes.Node.{
  mq_max_len, mq_len_after_trim, trim_if_long, after_push, send_batch_req, Codec,
}

-- The list commands of a server that answers, as Redis documents them; `list_at` is the list at a key.
pub record AnsweringLists (C : Cmdable) : Type 0 where
  pub list_at : Bytes → C.Db → List Bytes
  pub rpush_answers :
      (k v : Bytes) (db : C.Db) → (C.rpush k v db).0 ≡ ok (suc (length (list_at k db)))
  pub rpush_appends :
      (k v : Bytes) (db : C.Db) → list_at k (C.rpush k v db).1 ≡ list_at k db ++ v ∷ []
  pub llen_answers : (k : Bytes) (db : C.Db) → (C.llen k db).0 ≡ ok (length (list_at k db))
  pub llen_keeps : (k j : Bytes) (db : C.Db) → list_at j (C.llen k db).1 ≡ list_at j db
  pub ltrim_answers : (k : Bytes) (from to : ℤ) (db : C.Db) → (C.ltrim k from to db).0 ≡ ok tt
  pub ltrim_last :
      (k : Bytes) (n : ℕ) (db : C.Db)
      → 0 < n
      → list_at k (C.ltrim k (sub_ℕ 0 n) (negsuc 0) db).1
        ≡ drop (length (list_at k db) - n) (list_at k db)
  pub ltrim_none : (k : Bytes) (db : C.Db) → list_at k (C.ltrim k (pos 1) (pos 0) db).1 ≡ []

module _ (E : Codec) (C : Cmdable) (B : BigCache) (laws : AnsweringLists C) where
  -- The queue of a node in Redis.
  abbrev pub queue_of : Bytes → RedisState C B → List Bytes
  queue_of addr s = laws.list_at (key_for_mq addr) s.db

  -- What a push leaves of a queue.
  abbrev pub trimmed : List Bytes → List Bytes
  trimmed l = if ltb mq_max_len (length l) then drop (length l - mq_len_after_trim) l else l

  queue_of-trim_if_long :
      (addr : Bytes) (s : RedisState C B)
      → queue_of addr (trim_if_long E C B addr (length (queue_of addr s)) s)
        ≡ trimmed (queue_of addr s)
  unfolding trim_if_long trim_mq get_len_mq
  queue_of-trim_if_long addr s = elim (Bool-cases (ltb mq_max_len (length (queue_of addr s)))) [
    | inl long ↦
        rw (long, laws.ltrim_answers, laws.llen_keeps)
          (laws.ltrim_last (key_for_mq addr) mq_len_after_trim s.db (omega arith))
    | inr short ↦ rw short
  ]

  pub after_push_lem :
      (addr raw : Bytes) (s : RedisState C B)
      → let (r, s') = after_push E C B addr (push_msg_to_mq C B addr raw s) in
        (r ≡ ok tt) × (queue_of addr s' ≡ trimmed (queue_of addr s ++ raw ∷ []))
  unfolding after_push push_msg_to_mq
  after_push_lem addr raw s =
      let key = key_for_mq addr in
      let pushed : RedisState C B = record s { db = (C.rpush key raw s.db).1 } in
      let grown : queue_of addr pushed ≡ queue_of addr s ++ raw ∷ [] =
        laws.rpush_appends key raw s.db in
      let count : suc (length (queue_of addr s)) ≡ length (queue_of addr pushed) =
        omega (arith, ap length grown, length-append (queue_of addr s) (raw ∷ [])) in
      rw (laws.rpush_answers key raw s.db, count)
        (refl, queue_of-trim_if_long addr pushed ∙ ap trimmed grown)

  -- Against a Redis that answers, a batch that can be encoded is appended to the node's queue, no
  -- error is reported, and a queue of more than 1000 batches is cut to the last 500.
  pub send_batch_req_trims :
      (addr raw : Bytes) (items : List SignalReq) (s : RedisState C B)
      → E.marshal_batch (record { items = items }) ≡ ok raw
      → let (r, s') = send_batch_req E C B addr items s in
        (r ≡ ok tt) × (queue_of addr s' ≡ trimmed (queue_of addr s ++ raw ∷ []))
  unfolding send_batch_req
  send_batch_req_trims addr raw items s encoded =
      rw (encoded, send_batch_req) (after_push_lem addr raw s)

  length-trimmed : (l : List Bytes) → length (trimmed l) ≤ mq_max_len
  length-trimmed l = ground (arith, length-drop (length l - mq_len_after_trim) l)

  -- After such a batch the node's queue holds at most 1000 batches.
  send_batch_req_bounded :
      (addr raw : Bytes) (items : List SignalReq) (s : RedisState C B)
      → E.marshal_batch (record { items = items }) ≡ ok raw
      → length (queue_of addr (send_batch_req E C B addr items s).1) ≤ mq_max_len
  send_batch_req_bounded addr raw items s encoded =
      rw (send_batch_req_trims addr raw items s encoded).1
        (length-trimmed (queue_of addr s ++ raw ∷ []))

-- ===== src/Router/Receive.antt =====
-- What `bc_router_receive` does with a message, on each of its branches.
use bit_chat.Prelude.{
  ℕ, ◌+◌, ◌-◌, ◌≡◌, inl, inr, sym, ap, ◌∙◌, Bool, true, false, List, ◌++◌, arith, ◌==◌, some,
  Bool-cases, length, replicate, length-append, length-replicate, take-length,
}
use bit_chat.Status.{Status, err_duplicate, Env, returned, IsAmple, returned-injective}
use bit_chat.Sodium.{Memcmp}
use bit_chat.Message.{Message, IsMessage, header_size}
use bit_chat.Message.Format.{encode, length-encode, serialize_into_exact}
use bit_chat.Message.Serialize.{needed_size}
use bit_chat.Message.RoundTrip.{deserialize-encode}
use bit_chat.Dedup
use bit_chat.Dedup.Insert.{contains-insert}
use bit_chat.Router.{
  Router, World, mark_seen, forward_to_peers, serialize_and_forward, receive_message,
  receive_parsed, receive_packet, broadcast_message,
}
use bit_chat.Router.Valid.{IsValid}

-- One hop: what is delivered, stored or sent on.
abbrev pub hop : Message → Message
hop m = record m { ttl = m.ttl - 1 }

module _ ⦃mem : Memcmp⦄ {S T U : Type 0} where
  -- The router knows a UUID.
  abbrev pub has_seen : Router S T U → List ℕ → Bool
  has_seen r uuid = Dedup.contains r.dedup_table r.dedup_cap uuid

  pub has_seen-mark_seen :
      {r : Router S T U} (env : Env) (uuid : List ℕ)
      → IsValid r
      → has_seen (mark_seen env r uuid) uuid ≡ true
  has_seen-mark_seen {r} env uuid v =
      contains-insert r.dedup_table r.dedup_cap v.sized v.pos r.config.dedup_max_age uuid env.now

  -- After a message was received, whatever came of it, the router knows its UUID.
  pub has_seen-receive :
      {r : Router S T U} (env : Env) (w : World S T U) (m : Message)
      → IsValid r
      → has_seen (receive_message env r w m).1 m.uuid ≡ true
  unfolding receive_message
  has_seen-receive {r} env w m v = elim (Bool-cases (has_seen r m.uuid)) [
    | inl old ↦ rw old old
    | inr new ↦ rw new (ground (arith, has_seen-mark_seen env m.uuid v))
  ]

  -- After a broadcast, whatever came of it, the router knows the UUID.
  pub has_seen-broadcast :
      {r : Router S T U} (env : Env) (w : World S T U) (m : Message)
      → IsValid r
      → has_seen (broadcast_message env r w m).1 m.uuid ≡ true
  unfolding broadcast_message
  has_seen-broadcast env w m v = ground (arith, has_seen-mark_seen env m.uuid v)

  pub receive_message_again :
      (env : Env) (r : Router S T U) (w : World S T U) (m : Message)
      → has_seen r m.uuid ≡ true
      → receive_message env r w m ≡ (err_duplicate, r, w)
  unfolding receive_message
  receive_message_again env r w m seen = rw seen

  -- A packet that holds a message is handled as that message.
  pub receive_packet-encode :
      (env : Env) (r : Router S T U) (w : World S T U) (m : Message) (rest : List ℕ)
      → IsMessage m
      → IsAmple env
      → receive_packet env r w (some (encode m ++ rest)) ≡ returned (receive_message env r w m)
  unfolding receive_packet receive_parsed
  receive_packet-encode env r w m rest v a =
      let filled : (length (encode m ++ rest) == 0) ≡ false =
        ground (arith, length-append (encode m) rest, length-encode v) in
      rw (filled, deserialize-encode env m rest v a)

  -- Of two packets of one message that a router receives one directly after the other, with no other call
  -- on the router between, the second is answered with `BC_ERR_DUPLICATE`, and changes neither the router
  -- nor its world, whatever the first one came to, whatever the world is then and whatever follows the
  -- message in the packets, if the router is valid and memory is not exhausted.
  pub receive_twice :
      {r r' : Router S T U} (env env' : Env) (w w' w₂ : World S T U) (m : Message)
      (rest rest' : List ℕ) (rc : Status)
      → IsValid r
      → IsMessage m
      → IsAmple env
      → IsAmple env'
      → receive_packet env r w (some (encode m ++ rest)) ≡ returned (rc, r', w')
      → receive_packet env' r' w₂ (some (encode m ++ rest')) ≡ returned (err_duplicate, r', w₂)
  receive_twice {r} {r'} env env' w w' w₂ m rest rest' rc v s a a' e =
      let first = receive_packet-encode env r w m rest s a in
      let known : has_seen r' m.uuid ≡ true =
        rw (← ap (λ t. t.1) (returned-injective (sym first ∙ e))) (has_seen-receive env w m v) in
      receive_packet-encode env' r' w₂ m rest' s a'
      ∙ ap returned (receive_message_again env' r' w₂ m known)

  -- A message that the router broadcast itself is a duplicate when the mesh brings it back.
  receive-broadcast :
      {r : Router S T U} (env env' : Env) (w w₂ : World S T U) (m : Message) (rest : List ℕ)
      → IsValid r
      → IsMessage m
      → IsAmple env'
      → let r' = (broadcast_message env r w m).1 in
        receive_packet env' r' w₂ (some (encode m ++ rest)) ≡ returned (err_duplicate, r', w₂)
  receive-broadcast {r} env env' w w₂ m rest v s a' =
      let r' = (broadcast_message env r w m).1 in
      receive_packet-encode env' r' w₂ m rest s a'
      ∙ ap returned (receive_message_again env' r' w₂ m (has_seen-broadcast env w m v))

  -- Serializing for the transport hands it the wire format.
  pub serialize_and_forward_lem :
      (env : Env) (r : Router S T U) (m : Message) (w : World S T U)
      → IsMessage m
      → IsAmple env
      → serialize_and_forward env r m w ≡ (forward_to_peers r (encode m) w).1
  unfolding serialize_and_forward
  serialize_and_forward_lem env r m w v a = rw (
    serialize_into_exact m (replicate (needed_size m) 0) v (length-replicate (needed_size m) 0),
    a.granted,
    take-length (encode m) (header_size + length m.payload) (length-encode v),
  )

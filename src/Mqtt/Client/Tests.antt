-- ===== src/Mqtt/Client/Tests.antt =====
-- Runs of the client on the network of Sample, on which the theorems about it are applied.
use remotus_hardware.Base.{
  ap, sym, ℤ, inl, ℕ, ◌+◌, ◌-◌, ◌≤◌, ◌<◌, ◌≡◌, ◌≢◌, refl, true, false, none, some, List, [], ◌∷◌,
  ◌++◌, ◌==◌, leb, if◌then◌else◌, length, drop, replicate, map, pos, arith,
}
use remotus_hardware.Mqtt.Header.{header_type, header_byte}
use remotus_hardware.Mqtt.Writer.Bytes.{length_bytes, digits}
use remotus_hardware.Mqtt.Publish.{PublishOut}
use remotus_hardware.Mqtt.Client.Countdown.{Countdown, expired, countdown_ms}
use remotus_hardware.Mqtt.Client.PacketId.{after_calls, get_next_distinct}
use remotus_hardware.Mqtt.Client.Topic.{is_topic_matched}
use remotus_hardware.Mqtt.Client.Topic.Laws.{
  word, any_word, Filter, any_rest, then_filter, Name, last, then_name, print_filter, accepts,
  name_string, is_topic_matched_lem,
}
use remotus_hardware.Mqtt.Client.Run.{Run, done, fault, out_of_fuel, ◌>>=◌, Ends}
use remotus_hardware.Mqtt.Client.State.{
  Env, Client, MessageData, MessageHandler, success, failure, store_at,
}
use remotus_hardware.Mqtt.Client.Transfer.{
  has_expired, time_left, record_sent, record_received, send_packet, read_char, decode_packet,
  read_into, read_rest, read_length, read_packet,
}
use remotus_hardware.Mqtt.Writer.{encode, put}
use remotus_hardware.Mqtt.Reader.{decode}
use remotus_hardware.Mqtt.Stream.{first_char, type_at_start}
use remotus_hardware.Mqtt.Client.Cycle.Laws.{cycle_hides_failure, with_puback, on_publish_acks}
use remotus_hardware.Mqtt.Client.Transfer.Laws.{send_packet_split}
use remotus_hardware.Mqtt.Client.Transfer.Receive.{read_packet_lem}
use remotus_hardware.Mqtt.Client.Cycle.{
  deliver_message, keepalive, on_publish, cycle, waitfor, yield, message_of, deliver_loop,
  handler_matches, call_attached,
}
use remotus_hardware.Mqtt.Client.Cycle.Deliver.{
  Slot, print_slot, receivers, call_all, result_for, deliver_message_lem,
}
use remotus_hardware.Mqtt.Client.Session.{
  connect, default_options, subscribe, unsubscribe, publish_with_id, disconnect, attach_granted,
  close_on_failure, wait_connack,
}
use remotus_hardware.Mqtt.Client.Session.Laws.{subscribe_attaches}
use remotus_hardware.Mqtt.Client.Session.Refusal.{with_connack, connect_hides_refusal}
use remotus_hardware.Mqtt.Client.Progress.{Closes, Connects, Publishes, Disconnects}
use remotus_hardware.Mqtt.Client.Progress.Wait.{Waited, waitfor-Ends, Yielded, yield-Ends}
use remotus_hardware.Mqtt.Client.Progress.Api.{calls_end}
use remotus_hardware.Mqtt.Client.Sample.{
  Wire, wire_env, wire_clock, wire-Moves, wire-Supplies, no_handler, on_wire, on_network, lost_env,
  lost-Moves,
}

get_next_distinct_example :
    (0 < after_calls 4 65535)
    × (after_calls 4 65535 ≤ 65535)
    × (after_calls 4 65535 ≢ after_calls 71 65535)
get_next_distinct_example = get_next_distinct 65535 3 70 (omega arith) (omega arith) (omega arith)

abbrev wind : Filter
wind = then_filter (word (b'w' ∷ [])) (then_filter any_word any_rest)

abbrev wind_speed : Name
wind_speed = then_name (b'w' ∷ []) (then_name (b'1' ∷ []) (last (b's' ∷ [])))

is_topic_matched_lem_example :
    is_topic_matched (print_filter wind) (name_string wind_speed (b'7' ∷ []))
    ≡ some (accepts wind wind_speed)
is_topic_matched_lem_example =
    is_topic_matched_lem wind wind_speed (b'7' ∷ []) (omega arith) (omega arith)

-- An empty level, and the name that a filter with `#` behind it extends, are not matched.
empty_level :
    is_topic_matched (b'a' ∷ b'/' ∷ b'+' ∷ []) (name_string (then_name (b'a' ∷ []) (last [])) [])
    ≡ some false
unfolding is_topic_matched
empty_level = refl

parent_level :
    is_topic_matched (b'a' ∷ b'/' ∷ b'#' ∷ []) (name_string (last (b'a' ∷ [])) []) ≡ some false
unfolding is_topic_matched
parent_level = refl

abbrev env : Env Wire
env = wire_env 100

abbrev timer : Countdown
timer = record { started = some 5; interval_end_ms = 3 }

abbrev quiet : Client Wire
quiet = on_wire []

-- The first write takes two bytes, those after it all.
abbrev late : Env Wire
late = record env {
  write =
      λ bytes t w. (pos (if w.time == 5 then 2 else length bytes), record w { time = w.time + 1 });
}

-- The packet has seven of the buffer's eight bytes.
send_packet_split_example : send_packet late 7 timer quiet ≡ fault
unfolding has_expired expired
send_packet_split_example =
    send_packet_split late 7 2 5 timer quiet (omega arith) (omega arith) (omega arith) (omega arith)
      refl refl refl (λ inside. absurd (omega arith))

abbrev body : List ℕ
body = 2 ∷ 1 ∷ []

abbrev puback : Client Wire
puback = on_wire (0x40 ∷ (length_bytes 2 ++ (body ++ (9 ∷ []))))

read_packet_lem_example :
    (w' : Wire) × (read_packet env timer puback ≡ (
      if leb 2 (length puback.readbuf - length (0x40 ∷ length_bytes 2))
      then done (
        pos (header_type 0x40),
        record_received env (record puback {
          ipstack = w';
          readbuf =
              (0x40 ∷ length_bytes 2)
              ++ (body ++ drop 2 (drop (length (0x40 ∷ length_bytes 2)) puback.readbuf));
        }),
      )
      else fault))
    × (w'.incoming ≡ 9 ∷ [])
unfolding digits
read_packet_lem_example =
    read_packet_lem env (λ w. w.incoming) (wire-Supplies 100) 0x40 body (9 ∷ []) timer puback
      (omega arith) (omega arith) refl

-- A packet of more bytes than the buffer has.
long_packet : read_packet env timer (on_wire (0x40 ∷ 8 ∷ replicate 8 0)) ≡ fault
unfolding read_packet read_into read_length decode_packet read_rest read_char time_left store_at
    decode encode put first_char
long_packet = refl

abbrev listening : Client Wire
listening = record quiet {
  message_handlers =
      map print_slot
        (record { filter = some wind; fp = some 1 } ∷ record { filter = none; fp = none } ∷ []);
}

abbrev message : MessageData
message = record {
  message = record {
    qos = 0;
    retained = 0;
    dup = 0;
    id = 0;
    payload = b'7' ∷ [];
    payloadlen = pos 1;
  };
  topic_name = name_string wind_speed (b'7' ∷ []);
}

abbrev slots : List Slot
slots = record { filter = some wind; fp = some 1 } ∷ record { filter = none; fp = none } ∷ []

deliver_message_lem_example :
    deliver_message env message listening
    ≡ done (
      result_for (receivers slots none wind_speed),
      record listening {
        ipstack = call_all env message (receivers slots none wind_speed) listening.ipstack;
      },
    )
deliver_message_lem_example =
    deliver_message_lem env wind_speed message (b'7' ∷ []) refl (omega arith) slots listening
      (omega arith) refl

abbrev no_bytes : Client Wire
no_bytes = record quiet { ipstack = record { incoming = []; time = 6; called = [] } }

nothing_read : read_packet env timer quiet ≡ done (failure, no_bytes)
unfolding read_packet read_into time_left store_at
nothing_read = refl

cycle_hides_failure_example :
    cycle env timer quiet ≡ (keepalive env no_bytes >>= λ (_, c). done (pos 65535, c))
cycle_hides_failure_example = cycle_hides_failure env timer quiet no_bytes nothing_read

-- A publish at QoS 1 with the packet id 258 in the buffer.
abbrev published : Client Wire
published = record quiet {
  readbuf = 0x32 ∷ 5 ∷ 0 ∷ 1 ∷ b'w' ∷ 1 ∷ 2 ∷ 7 ∷ [];
  sendbuf = replicate 100 0;
}

abbrev published_out : PublishOut
published_out = record {
  dup = 0;
  qos = 1;
  retained = 0;
  packetid = 258;
  topic = record {
    cstring = none;
    lenstring = record { len = 1; bytes = some (b'w' ∷ 1 ∷ 2 ∷ 7 ∷ []) };
  };
  payload = 7 ∷ [];
  payloadlen = pos 0;
}

publish_delivered :
    deliver_message env (message_of published_out) published ≡ done (failure, published)
unfolding deliver_message deliver_loop handler_matches call_attached
publish_delivered = refl

abbrev acked : Client Wire
acked = record (with_puback env 258 published) {
  ipstack = record { incoming = []; time = 6; called = [] };
}

on_publish_acks_example :
    on_publish env timer published
    ≡ (keepalive env (record_sent env acked) >>= λ (_, c). done (success, c))
unfolding digits has_expired expired header_byte
on_publish_acks_example =
    on_publish_acks env timer published published 0 0 258 (b'w' ∷ []) [] (7 ∷ []) failure (pos 4)
      acked.ipstack (omega arith) (omega arith) (omega arith) refl publish_delivered refl refl refl
      (inl refl)

waitfor-Ends_example :
    Ends
      (Waited env wire_clock 1 (wire-Moves 100) 9 (countdown_ms 5 3) puback)
      (waitfor env 20 9 (countdown_ms 5 3) puback)
unfolding digits
waitfor-Ends_example =
    waitfor-Ends env wire_clock 1 (wire-Moves 100) 20 9 5 3 puback (omega arith) (omega arith)

-- The connection is lost in the fifth millisecond.
abbrev lost : Client ℕ
lost = on_network 5400

yield-Ends_example :
    Ends (Yielded lost_env (λ w. w) 1000 lost-Moves (countdown_ms 5 3)) (yield lost_env 3001 3 lost)
yield-Ends_example = yield-Ends lost_env (λ w. w) 1000 lost-Moves 3001 3 lost (omega arith)

abbrev topic : List ℕ
topic = b'w' ∷ []

calls_end_example :
    Ends (Connects lost_env (λ w. w) lost) (connect lost_env 3001 default_options lost)
    × Ends (Closes lost_env (λ w. w) lost) (subscribe lost_env 3001 topic 1 none lost)
    × Ends (Closes lost_env (λ w. w) lost) (unsubscribe lost_env 3001 topic lost)
    × Ends
        (Publishes lost_env (λ w. w) lost)
        (publish_with_id lost_env 3001 topic (7 ∷ []) 1 0 1 0 lost)
    × Ends (Disconnects lost_env (λ w. w) lost) (disconnect lost_env 3001 lost)
calls_end_example =
    calls_end lost_env (λ w. w) 1000 lost-Moves 3001 default_options topic topic (7 ∷ []) 1 1 0 0
      none lost (omega arith)

abbrev taken_handler : MessageHandler
taken_handler = record { topic_filter = some topic; fp = some 1 }

subscribe_attaches_example :
    (close_on_failure (
        attach_granted env 9 topic
          (some 2)
          (pos 1, record quiet { message_handlers = taken_handler ∷ no_handler ∷ [] }))
      ≡ (
        success,
        record quiet {
          message_handlers = taken_handler ∷ record { topic_filter = some topic; fp = some 2 } ∷ [];
        },
      ))
    × (close_on_failure (
          attach_granted env 9 topic
            (some 2)
            (pos 1, record quiet { message_handlers = taken_handler ∷ [] }))
        ≡ (
          pos 1,
          record quiet {
            message_handlers = taken_handler ∷ [];
            isconnected = if 1 == 0 then true else false;
          },
        ))
subscribe_attaches_example =
    subscribe_attaches env 9 topic (some 2) 1 quiet (taken_handler ∷ []) [] no_handler
      (λ e. omega arith) (tt, tt) refl

-- A connack that refuses, with return code 5, and a publish at QoS 2 in flight.
abbrev refused : Client Wire
refused = record quiet {
  ipstack = record { incoming = 0x20 ∷ 2 ∷ 0 ∷ 5 ∷ []; time = 5; called = [] };
  isconnected = false;
  pubbuf = 0x34 ∷ 5 ∷ 0 ∷ 1 ∷ b'w' ∷ 1 ∷ 2 ∷ 7 ∷ [];
  inflight_len = 7;
  inflight_msgid = 258;
  inflight_qos = 2;
}

abbrev long_timer : Countdown
long_timer = record { started = some 5; interval_end_ms = 30 }

abbrev wire_of : Run (ℤ × Client Wire) → Wire
wire_of (done (rc, c)) = c.ipstack
wire_of fault = quiet.ipstack
wire_of out_of_fuel = quiet.ipstack

-- The connack takes three reads.
after_connack :
    (w : Wire)
    → read_packet env long_timer refused ≡ done (pos 2, with_connack env refused w 0 5)
    → w ≡ record { incoming = []; time = 8; called = [] }
unfolding read_packet read_into read_length decode_packet read_rest read_char time_left store_at
    decode encode put first_char type_at_start record_received
after_connack w e = ap wire_of (sym e)

connect_hides_refusal_example :
    (c' : Client Wire) × (wait_connack env 9 long_timer refused ≡ done (success, c'))
    × (c'.isconnected ≡ true)
unfolding has_expired expired
connect_hides_refusal_example =
    connect_hides_refusal env (λ w. w.incoming) (wire-Supplies 100) 8 long_timer refused 0 5 [] refl
      (omega arith) refl refl (omega arith) (λ e. omega arith) (omega arith) (omega arith)
      (λ w e. rw (after_connack w e) (refl, refl))

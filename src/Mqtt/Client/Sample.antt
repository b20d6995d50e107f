-- ===== src/Mqtt/Client/Sample.antt =====
-- A network in memory with a clock, and a client on it, on which the theorems about the client are
-- run.
use remotus_hardware.Base.{
  ℕ, ◌+◌, ◌/◌, ◌≡◌, refl, Bool-cases, inl, inr, true, false, none, List, [], ◌∷◌, ◌++◌, leb,
  if◌then◌else◌, length, take, drop, replicate, ℤ, pos, negsuc, arith, length-append, le→leb,
  take-append, drop-append,
}
use remotus_hardware.Mqtt.Text.{null_string}
use remotus_hardware.Mqtt.Client.Countdown.{Countdown}
use remotus_hardware.Mqtt.Client.State.{Env, Client, MessageHandler}
use remotus_hardware.Mqtt.Client.Transfer.Receive.{Supplies}
use remotus_hardware.Mqtt.Client.Progress.{Moves}

-- The bytes that have arrived, the time, and the callbacks made so far.
pub record Wire : Type 0 where
  pub incoming : List ℕ
  pub time : ℕ
  pub called : List ℕ

-- A read or a write takes a millisecond; a read answers -1 where there are too few bytes.
abbrev pub read_wire : ℕ → ℤ → Wire → ℤ × List ℕ × Wire
read_wire n t w =
    if leb n (length w.incoming)
    then (pos n, take n w.incoming, record w { incoming = drop n w.incoming; time = w.time + 1 })
    else (negsuc 0, [], record w { time = w.time + 1 })

-- No more than `most` bytes are taken by a write.
abbrev pub wire_env : ℕ → Env Wire
wire_env most = record {
  read = read_wire;
  write = λ bytes t w. (
    pos (if leb (length bytes) most then length bytes else most),
    record w { time = w.time + 1 },
  );
  now = λ w. w.time;
  call = λ f md w. record w { called = w.called ++ (f ∷ []) };
  automatic = record {
    dup = 0;
    qos = 0;
    retained = 0;
    packetid = 0;
    topic = null_string;
    payload = [];
    payloadlen = pos 0;
  };
}

abbrev pub wire_clock : Wire → ℕ
wire_clock w = w.time

read_wire-time : (n : ℕ) (t : ℤ) (w : Wire) → (read_wire n t w).2.time ≡ w.time + 1
read_wire-time n t w = elim (Bool-cases (leb n (length w.incoming))) [
  | inl y ↦ rw y refl
  | inr n ↦ rw n refl
]

pub wire-Moves : (most : ℕ) → Moves (wire_env most) wire_clock 1
wire-Moves most = record {
  clock_now = λ w. (omega arith, omega arith);
  read_now = λ n t w. omega (arith, read_wire-time n t w);
  read_clock = λ n t w. omega (arith, read_wire-time n t w);
  write_now = λ bytes t w. omega arith;
  write_clock = λ bytes t w. omega arith;
  write_moves = λ bytes k n w e. omega arith;
  call_now = λ f md w. omega arith;
  call_clock = λ f md w. omega arith;
}

read_wire-append :
    (bytes rest : List ℕ) (t : ℤ) (w : Wire)
    → w.incoming ≡ bytes ++ rest
    → read_wire (length bytes) t w
      ≡ (pos (length bytes), bytes, record w { incoming = rest; time = w.time + 1 })
read_wire-append bytes rest t w e =
    rw
      (
        e,
        le→leb (length bytes) (length (bytes ++ rest)) (omega (arith, length-append bytes rest)),
        take-append bytes rest,
        drop-append bytes rest,
      )
      refl

pub wire-Supplies : (most : ℕ) → Supplies (wire_env most) (λ w. w.incoming)
wire-Supplies most = record {
  supplies = λ n t w bytes rest e v. (
    record w { incoming = rest; time = w.time + 1 },
    rw (← e) (read_wire-append bytes rest t w v),
    refl,
  );
}

abbrev pub idle : Countdown
idle = record { started = none; interval_end_ms = 0 }

abbrev pub no_handler : MessageHandler
no_handler = record { topic_filter = none; fp = none }

-- A client that is connected.
abbrev pub on_network : {W : Type 0} → W → Client W
on_network w = record {
  ipstack = w;
  command_timeout_ms = 3;
  sendbuf = replicate 8 0;
  readbuf = replicate 8 7;
  last_sent = idle;
  last_received = idle;
  keep_alive_interval = 0;
  ping_outstanding = false;
  cleansession = 1;
  next_id = 65535;
  message_handlers = replicate 2 no_handler;
  default_message_handler = none;
  isconnected = true;
  pubbuf = replicate 8 0;
  inflight_len = 0;
  inflight_msgid = 0;
  inflight_qos = 0;
}

-- with these bytes on the wire
abbrev pub on_wire : List ℕ → Client Wire
on_wire bytes = on_network (record { incoming = bytes; time = 5; called = [] })

-- A lost connection: every read and write answers -1 at once, in a thousandth of a millisecond, and
-- the world is a clock of these.
abbrev pub lost_env : Env ℕ
lost_env = record {
  read = λ n t w. (negsuc 0, [], w + 1);
  write = λ bytes t w. (negsuc 0, w + 1);
  now = λ w. w / 1000;
  call = λ f md w. w;
  automatic = (wire_env 0).automatic;
}

pub lost-Moves : Moves lost_env (λ w. w) 1000
lost-Moves = record {
  clock_now = λ w. (omega arith, omega arith);
  read_now = λ n t w. omega arith;
  read_clock = λ n t w. omega arith;
  write_now = λ bytes t w. omega arith;
  write_clock = λ bytes t w. omega arith;
  write_moves = λ bytes k n w e. absurd (cc e);
  call_now = λ f md w. omega arith;
  call_clock = λ f md w. omega arith;
}

-- ===== src/Mqtt/Client/Progress.antt =====
-- The calls of the client end: what is asked of the network, the time and the callbacks for that, and
-- the loops of sendPacket, waitfor and yield.
pub mod Send
pub mod Wait
pub mod Calls
pub mod Requests
pub mod Api
use remotus_hardware.Base.{
  refl, ℕ, zero, suc, ◌+◌, ◌-◌, ◌*◌, ◌≤◌, ◌<◌, ◌≡◌, ◌∙◌, Bool, false, not, ◌&&◌, ◌||◌, List, ℤ, pos,
  is_nat, arith,
}
use remotus_hardware.Mqtt.Client.Run.{Run, done, fault, out_of_fuel, Ends}
use remotus_hardware.Mqtt.Client.State.{Env, Client, MessageData, MessageHandler}

module _ {W : Type 0} (env : Env W) (clock : W → ℕ) where
  -- `clock` counts ticks, of which a millisecond has `rate`: the cycles of the processor, for instance.
  -- No call turns the time back. A read takes a tick at least, also where it fails at once, as on a
  -- lost connection. A write that may wait and reports no error takes a byte or a millisecond.
  pub record Moves (rate : ℕ) : Type 0 where
    pub clock_now : (w : W) → (rate * env.now w ≤ clock w) × (clock w < rate * suc (env.now w))
    pub read_now : (n : ℕ) (t : ℤ) (w : W) → env.now w ≤ env.now (env.read n t w).2
    pub read_clock : (n : ℕ) (t : ℤ) (w : W) → clock w < clock (env.read n t w).2
    pub write_now : (bs : List ℕ) (t : ℤ) (w : W) → env.now w ≤ env.now (env.write bs t w).1
    pub write_clock : (bs : List ℕ) (t : ℤ) (w : W) → clock w ≤ clock (env.write bs t w).1
    pub write_moves :
        (bs : List ℕ) (k n : ℕ) (w : W)
        → (env.write bs (pos (suc k)) w).0 ≡ pos n
        → env.now w < env.now (env.write bs (pos (suc k)) w).1 + n
    pub call_now : (f : ℕ) (md : MessageData) (w : W) → env.now w ≤ env.now (env.call f md w)
    pub call_clock : (f : ℕ) (md : MessageData) (w : W) → clock w ≤ clock (env.call f md w)

  -- The world afterwards.
  abbrev pub Later : W → W → Type 0
  Later w w' = (env.now w ≤ env.now w') × (clock w ≤ clock w')

  -- What the calls that only move packets leave as it was.
  abbrev pub frame : Client W → Bool × List MessageHandler × ℕ × ℕ
  frame c = (c.isconnected, c.message_handlers, c.next_id, c.inflight_msgid)

  -- The world that a call leaves, its result aside, and the frame as it was.
  abbrev pub Framed : Client W → ℤ × Client W → Type 0
  Framed c (_, c') = Later c.ipstack c'.ipstack × (frame c' ≡ frame c)

  -- The same, where the clock has moved.
  abbrev pub Forward : Client W → ℤ × Client W → Type 0
  Forward c (_, c') =
      Later c.ipstack c'.ipstack × (clock c.ipstack < clock c'.ipstack) × (frame c' ≡ frame c)

  -- The same, where the client is connected if it was.
  abbrev pub Kept : Client W → ℤ × Client W → Type 0
  Kept c (_, c') = Later c.ipstack c'.ipstack × (c'.isconnected ≡ c.isconnected)

  pub Kept-trans :
      (c c' : Client W) (rc : ℤ) (r : Run (ℤ × Client W))
      → Kept c (rc, c')
      → Ends (Kept c') r
      → Ends (Kept c) r
  Kept-trans c c' rc (done (rc', c'')) (p, e) (q, f) = ((omega arith, omega arith), f ∙ e)
  Kept-trans c c' rc fault p q = tt
  Kept-trans c c' rc out_of_fuel p q = absurd q

  pub Framed-trans :
      (c c' : Client W) (rc : ℤ) (r : Run (ℤ × Client W))
      → Framed c (rc, c')
      → Ends (Framed c') r
      → Ends (Framed c) r
  Framed-trans c c' rc (done (rc', c'')) (p, e) (q, f) = ((omega arith, omega arith), f ∙ e)
  Framed-trans c c' rc fault p q = tt
  Framed-trans c c' rc out_of_fuel p q = absurd q

  -- A call and what follows it.
  pub Forward-trans :
      (c c' : Client W) (rc : ℤ) (r : Run (ℤ × Client W))
      → Forward c (rc, c')
      → Ends (Framed c') r
      → Ends (Forward c) r
  Forward-trans c c' rc (done (rc', c'')) (p, m, e) (q, f) =
      ((omega arith, omega arith), omega arith, f ∙ e)
  Forward-trans c c' rc fault p q = tt
  Forward-trans c c' rc out_of_fuel p q = absurd q

  -- After a call that closes on failure, the client is connected if it was and the call succeeded.
  abbrev pub Closes : Client W → ℤ × Client W → Type 0
  Closes c (rc, c') = Later c.ipstack c'.ipstack × (c'.isconnected ≡ (is_nat rc 0 && c.isconnected))

  -- After connect on a client that was not connected, it is connected if the call succeeded.
  abbrev pub Opens : Client W → ℤ × Client W → Type 0
  Opens c (rc, c') = Later c.ipstack c'.ipstack × (c'.isconnected ≡ is_nat rc 0)

  -- After connect, the client is connected if it was before or the call succeeded.
  abbrev pub Connects : Client W → ℤ × Client W → Type 0
  Connects c (rc, c') =
      Later c.ipstack c'.ipstack × (c'.isconnected ≡ (is_nat rc 0 || c.isconnected))

  -- After a publish that succeeded, the client is connected.
  abbrev pub Publishes : Client W → ℤ × ℕ × Client W → Type 0
  Publishes c (rc, _, c') =
      Later c.ipstack c'.ipstack × ((is_nat rc 0 && not c'.isconnected) ≡ false)

  -- After disconnect, it is not.
  abbrev pub Disconnects : Client W → ℤ × Client W → Type 0
  Disconnects c (_, c') = Later c.ipstack c'.ipstack × (c'.isconnected ≡ false)

mul_add : (r a b : ℕ) → r * (a + b) ≡ r * a + r * b
mul_add zero a b = omega arith
mul_add (suc r) a b = omega (arith, mul_add r a b)

mul_le : (r a b : ℕ) → a ≤ b → r * a ≤ r * b
mul_le zero a b h = omega arith
mul_le (suc r) a b h = omega (arith, mul_le r a b h)

module _ {W : Type 0} (env : Env W) (clock : W → ℕ) (rate : ℕ) (m : Moves env clock rate) where
  -- The time is not over as long as the clock has not reached its last tick.
  pub before_end :
      (start T : ℕ) (w : W)
      → start ≤ env.now w
      → env.now w - start < T
      → clock w < rate * (start + T)
  before_end start T w s h =
      omega (arith, m.clock_now w, mul_le rate (suc (env.now w)) (start + T) (omega arith))

  -- A wait that began has no more ticks left than its time has.
  pub ticks_left :
      (start T : ℕ) (w : W) → start ≤ env.now w → rate * (start + T) - clock w ≤ rate * T
  ticks_left start T w s =
      omega (arith, m.clock_now w, mul_le rate start (env.now w) s, mul_add rate start T)

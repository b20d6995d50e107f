-- ===== src/Lib.antt =====
-- Remotus-Hardware is a weather station on an mbed board: it reads its sensors and talks to a broker
-- over MQTT. This library models its MQTT client, MQTT/MQTTClient.h, and below it the packet library,
-- the C code of MQTT/MQTTPacket, which the client calls to build the packets that it sends and to take
-- apart those that it receives; and the RTX kernel under mbed-rtos/rtx/TARGET_CORTEX_M, which runs the
-- tasks of the station: its memory pools, its lists of tasks, the choice of the task that runs,
-- semaphores, mutexes, mailboxes, events, delays and the requests of interrupts; and the humidity and
-- temperature sensor of DHT.
--
-- The parts, each with the code that it models (paths from the repository's root):
-- Base is what the other modules share: Base/Tests the Boolean tests on numbers, Base/Lists and
-- Base/Arrays lists measured by native numbers and arrays that are stored into, Base/Int the C type
-- int, Base/Fault the chains in which an access outside an object is `none`.
-- Mqtt/MsgType and Mqtt/Header are the packet types and the header byte of MQTTPacket.h.
-- Mqtt/Writer is writeChar, writeInt, writeCString, MQTTPacket_encode and MQTTPacket_len of
-- MQTTPacket.c; Mqtt/Reader is readChar, readInt, readMQTTLenString, MQTTPacket_decode, bufchar and
-- MQTTPacket_decodeBuf; Mqtt/Text is MQTTString with writeMQTTString, MQTTstrlen and
-- MQTTPacket_equals; Mqtt/Stream is MQTTPacket_read.
-- Mqtt/Connect and Mqtt/Connack are MQTTConnect.h, MQTTConnectClient.c and MQTTConnectServer.c;
-- Mqtt/Publish and Mqtt/Ack are MQTTSerializePublish.c and MQTTDeserializePublish.c; Mqtt/Subscribe
-- and Mqtt/Suback are MQTTSubscribeClient.c and MQTTSubscribeServer.c; Mqtt/Unsubscribe is
-- MQTTUnsubscribeClient.c and MQTTUnsubscribeServer.c, whose unsuback stands in Mqtt/Ack with the
-- disconnect and pingreq packets of MQTTConnectClient.c.
-- Mqtt/Client is MQTT/MQTTClient.h: Countdown the timer of MQTT/MQTTmbed.h, PacketId the class of that
-- name, Topic isTopicMatched (its child Laws the levels of filters and names), State the members of
-- Client and what it is given, Run the ends of a call, Transfer sendPacket, decodePacket and readPacket
-- (Laws sending, Receive receiving), Cycle deliverMessage, keepalive, cycle, waitfor and yield (Deliver
-- the callbacks, Laws the acknowledgement), Session connect, subscribe, unsubscribe, publish and
-- disconnect (Refusal what connect does from the bytes of a connack on). Progress is about the end of every call: Send and Wait its loops, Calls, Requests and Api
-- the session. Sample is a network in memory, and Tests the runs on it.
--
-- Rtx/MemBox is rt_MemBox.c: Links is the list of free blocks in memory and the loop of _init_box,
-- Laws the pool as an invariant of its calls, Init what _init_box makes, Clear _calloc_box, Runs what
-- tasks may do with a pool and its blocks.
-- Rtx/Block is OS_TCB with the constants of rt_Task.h and rt_List.h, and the store in which control
-- blocks stand at their addresses. Rtx/PrioList is the part of rt_List.c on lists ordered by priority:
-- Laws the list that a head links and the insertion, Order the order by priority and the calls at the
-- head, Frame what an insertion leaves alone, Back the links back. Rtx/DelayList is rt_put_dly,
-- rt_dec_dly and rt_rmv_dly:
-- Links the list of delays against the times of its tasks, Put, Remove, Leave, Expire and Tick the
-- calls. Rtx/PostQueue is rt_psq_enq with rt_inc_qi of rt_HAL_CM.h.
-- Rtx/Kernel is the variables of the kernel as a record, with its objects (rt_TypeDef.h) and the
-- registers in which a task that waits finds its result (rt_ret_val of HAL_CM.c). Rtx/Task is rt_Task.c:
-- Ready the ready list against the task that runs, Schedule and Yield the calls that choose who
-- runs, Blocking rt_block. Rtx/Waiting is what semaphores, mutexes and mailboxes do alike with tasks
-- that wait; on it stand Rtx/Semaphore (rt_Semaphore.c), Rtx/Mutex (rt_Mutex.c) and Rtx/Mailbox
-- (rt_Mailbox.c, with Ring the array as a queue). Rtx/Event is rt_Event.c, Rtx/Time is rt_Time.c and
-- rt_Robin.c, and Rtx/System is rt_System.c: rt_pop_req, which takes the requests that the isr calls
-- have posted and hands each to the object it is for, the tick, and rt_suspend and rt_resume.
-- Rtx/Sample is a kernel for the tests.
-- Sensors/Dht is DHT/DHT.cpp: one reading of the sensor, over a pin and a clock that are parameters.
--
-- How state and operations correspond to the code. A function keeps its name without the prefix
-- MQTT: MQTTSerialize_connect is `serialize_connect`, readMQTTLenString is `read_len_string`,
-- rt_alloc_box is `alloc_box`. A member of a struct is a field, and `os_tsk.run->prio` is `(k.blocks
-- k.run).prio`. A pointer into the buffer that is written is a `Writer` (the bytes before it and
-- those from it on), a pointer into the packet that is read is a `Reader` (its offset and the bytes
-- from it on). A store or a load outside an object is a fault, and the whole call is then `none`.
-- Variables that the caller passes by reference are a record, taken with what they held before and
-- returned with what they hold after the call, on every path. A serializer returns its result and
-- the buffer. A component's child Layout says what bytes its packet has, its child Laws what the two
-- sides do, its child Tests runs them on concrete packets.
-- A call of the client takes the record of its members and returns its result with the record after
-- it, in a `Run`: a value, a fault, or fuel that ran out. The network, the time and the callbacks are
-- the fields of `Env`, functions on a world of any type, of which the member `ipstack` holds the state:
-- each read, write and callback gives the world after it. A packet id that a call returns by reference
-- is part of its result. A callback does not call the client.
--
-- Bounds and fuel. Lengths that are of type int are natural numbers here, as every caller passes
-- them. A remaining length is below 2 ^ 28, what four bytes hold. MQTTPacket_encode recurs on
-- accessibility of the number. MQTTPacket_decode has four rounds, as in the code, which then stops.
-- The loops over filters and return codes have the remaining length and one as fuel: every round moves
-- the pointer by one byte at least, so that they are rounds enough.
-- The loop of sendPacket has as many rounds as the packet has bytes and the timer milliseconds, and one:
-- a round sends a byte or takes a millisecond. The loops of waitfor and yield take their fuel from the
-- caller of the model; more than the ticks of a clock that the timer has left are enough, as every
-- round reads from the network and takes a tick. Both rest on `Moves`, what the network, the clock and
-- the callbacks do: time does not run back, a read takes a tick at least, also where it fails at once on
-- a lost connection, and a write that may wait and reports no error takes a byte or a millisecond.
-- The waits of the sensor's reading are counted in the code, and these counts are the rounds here.
-- The loop of _init_box has the size of the box as fuel: a round moves the pointer by a block. The
-- loop of _calloc_box runs over the words of a block, whose size is a multiple of 4.
-- A call of the kernel has one number of rounds as fuel for each search of a list in it; more than the
-- lists have tasks are enough for rt_put_prio and rt_put_dly, and one more for each task that is put on
-- a list before another search. The loop of rt_dec_dly has the same number for its own rounds.
-- A pool is a function from addresses to words; every access of rt_MemBox.c is to a whole word.
-- The type char has no sign, as on the ARM processor of the board.
--
-- Not modelled: MQTTPacket_toString, which formats text; getLenStringLen, which nothing calls; the
-- tracing macros, which are empty in this build; the parameters that the code never reads
-- (buflen of the deserializers but MQTTDeserialize_connect's, maxcount of the two deserializers that
-- ignore it). `getfn`, the caller's function that reads from the network, is a parameter of Mqtt/Stream,
-- and `Delivers` is what MQTTPacket_read relies on.
-- Of the client: the branches of MQTTCLIENT_QOS2, which is 0 in this build, and the traces of
-- MQTT_DEBUG. `Supplies` is what readPacket relies on where a packet has arrived. mbed's Timer does not
-- wrap around here, and the pointer to a filter that subscribe keeps is to a text that stays.
-- Of the kernel: the stacks of tasks, and with them rt_tsk_create, rt_tsk_delete and rt_sys_init; the
-- switch to `new_tsk`, which the exception handlers make; rt_tsk_lock and rt_tsk_unlock; sysTimerTick
-- of rt_CMSIS.c, an argument of the tick; rt_psh_req, which asks the processor for an exception; and
-- the layer of rt_CMSIS.c above it. A call of os_error does not return, and a read through NULL faults;
-- both are `none`. rt_Task.h selects the variant for CMSIS-RTOS, in which a task that gets a mutex or a
-- place in a mailbox finds osOK. The network stack, the other sensors and the application are outside
-- this library.
pub mod Base
pub mod Mqtt
pub mod Rtx
pub mod Sensors

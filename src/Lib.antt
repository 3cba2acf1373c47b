-- ===== src/Lib.antt =====
-- The firmware of the smart door lock (smartDoor/): a door that is worked by MQTT messages and a
-- timer, a Bluetooth scanner whose finds are published, and the cellular modem that carries
-- MQTT.
--
-- The parts and their files:
--   * Clock: smartDoor/timer.c. The counter of milliseconds is a number below 2 ^ 32
--     (`sys_tick_handler` is `SysTick_Handler`); `sub32` is the difference of two
--     `uint32_t` times. The sleep timer of the SDK, on which periodic timers run, is the
--     parameter `SleepTimer`.
--   * Door: smartDoor/smart_door.c, `dr_iot`, `mqtt_message_cb`, `periodic_timeout`.
--     Door.Command is the table of states and commands, Door.Lock the door over sequences
--     of events, Door.Timing the interval for which it opens. Door.Preempt takes
--     `mqtt_message_cb` apart into its accesses to `dr_iot`, between which the timer may
--     interrupt it; Door.Preempt.Came, Door.Preempt.Stores and Door.Preempt.Sequential
--     compare it with the callback in one piece.
--   * Scan: smartDoor/smart_door.c, `bt_lst`, `sent_lst`, `is_available`, `add_bt_device`,
--     `send_device`, `sl_bt_on_event`. Scan.Record is about the list, Scan.Publish,
--     Scan.Found and Scan.Duplicates about publication, Scan.Address about the text of an
--     address.
--   * SerialIo: smartDoor/serial_io.h, the port as a record of operations and laws.
--     Cellular takes it as a parameter.
--   * Serial: smartDoor/serial_io_EFR32BG1P232F256GM48.c, the driver of the UART. Serial
--     has the two circular buffers and the interrupt handlers, Serial.Driver the functions
--     that run beside them. Serial.Ring and Serial.View are about a circular buffer as a
--     queue; Serial.Receive, Serial.Inside, Serial.Stream, Serial.Recv, Serial.Fetch and
--     Serial.Fifo about receiving; Serial.Transmit, Serial.Send and Serial.Drain about sending;
--     Serial.Elapsed and Serial.Progress show that `SerialRecv` returns, Serial.Finish that
--     `SerialSend` does; Serial.OnePiece and Serial.Whole have `UartPutData` and `SerialSend` with
--     interrupts inside the rounds of the copy; Serial.Race shows what interrupts do between the
--     load and the store of a count and between two readings of one; Serial.Quiet and Serial.Port fill the record of SerialIo with the driver.
--   * Strtok: `strtok` of the C library as it works on an array, which Cellular and Lcd
--     call; Strtok.Splits compares it with the tokens of a text.
--   * Lcd: smartDoor/EFR32Print/print.c, the display of the debug prints, as the list of
--     the calls that draw on it. Lcd.Remove is about `remove_char`; Lcd.Rows, Lcd.Taken and
--     Lcd.Wrap about the rows of a line, Lcd.Print about `lcd_printf`, Lcd.Screen about the
--     display from `lcd_init` on.
--   * Exec: functions that return 0 or -1, as actions on a state; a `fault` is an access
--     outside an array.
--   * Cellular: smartDoor/cellular.c over that port. Cellular.Text has the texts and the C
--     string functions, Cellular.Modem the start and the registration, Cellular.Operators
--     the search for operators with `strtok`, Cellular.Signal the signal queries,
--     Cellular.Identity IMEI and ICCID, Cellular.Profile the profiles, Cellular.Connection
--     the connection and the flag `transparentMode`. Cellular.Script is a port that gives
--     scripted replies, on which the tests run.
--   * Socket: smartDoor/socket_linux_modem.c, a TCP socket on the modem's functions.
--   * MqttNet: smartDoor/MQTTClient.c, the callbacks that the MQTT library calls, on the
--     socket. MqttNet.Codes is about what they return, MqttNet.Delivery about the way of a
--     packet through all layers to the UART and back.
--   * Session: smartDoor/smart_door.c, the context `MQTTCtx` (Session.Context), the packet
--     ids (Session.PacketId), the MQTT session (Session.Open, Session.Requests), `run_app`
--     from power-on (Session.Start) and its rounds, which work the door and the scanner
--     (Session.Lock, Session.Near, Session.Rounds). Session.Keeps and Session.NoEntry are about what
--     messages can do to the door in the whole program. The MQTT library is the parameter
--     `Library`: it calls `mqtt_message_cb`, and through the callbacks of MqttNet the
--     socket.
--   * Base: numbers, lists, integers and byte strings that the parts share.
--
-- How the code is read. The globals of a part are the fields of a record, and an operation
-- takes it and returns it. A function keeps its name in lower case: `CellularGetIMEI` is
-- `cellular_get_imei`. A byte is a number, a buffer a list, a C string the part of a list
-- before its first NUL. A pointer that the code tests for NULL is an `Option` in
-- Cellular.Identity, Cellular.Profile and Socket; the other functions are taken with pointers
-- that are not NULL. `cur_time()` may advance while a loop runs, so the loops of Scan take a
-- function that gives each reading; in Session each scan event and each call of `send_device`
-- has its own. An `int` is an integer without bounds; `strtol` clamps to a 32-bit `long`. In
-- Serial the interrupts that are to come stand in a list of lists, one for each look of the
-- program at a variable that it shares with them; a run that uses the list up has not
-- returned. In Lcd the values of GLIB's context and fonts are a parameter, what `vsnprintf`
-- makes of a format is an argument, and `LINE_SIZE`, which may be -1, is kept as the size
-- `LINE_SIZE + 1` of `line_buf`.
--
-- Bounds and fuel. All loops are recursions on a list or on the number of rounds of the
-- source (5 list entries, 7 rounds). The decimal digits of `n` are made on a fuel of `n + 1`,
-- which is more than its digits. The loop of `SerialRecv` has a fuel of `max_len` and that of
-- `SerialSend` one of the length of its array: each round moves at least one byte or ends the
-- loop. The loops that wait for an interrupt are recursions on the list of interrupts. The
-- loop of `remove_char` has a fuel of the text's length and 1, that over a long line one of
-- its length, that over the lines one of the array's size and 1: a round writes or moves on
-- by at least one byte where `LINE_SIZE` is positive. The loop of `run_app` that opens the
-- session has no bound in the source and takes its fuel as an argument.
--
-- Assumptions. Of the port: a send that does not return -1 has put exactly its bytes on the
-- line, and receiving and flushing send nothing; Serial.Port shows this of the driver, with a
-- call that never returns taken as -1 and no interrupt inside the three lines of
-- `UartPutData` that put a byte. That cannot be told from an interrupt before them while TXBL
-- is disabled, as it is in the first piece of a send on an empty buffer. In `UartGetData` an
-- interrupt may come at any access to a shared variable; the flag `lost_update` of the model,
-- which no code reads, records a byte that comes inside `pendingBytes--`.
-- `SerialFlushInputBuff` and `SerialDisable` are not interrupted inside. That no more bytes
-- come back than were asked for (`IsBounded`) does not hold of the driver where a byte comes
-- between its two readings of `pendingBytes`; what is written past an array then is not
-- modelled, the bytes stand in the list that is returned. The C library and `snprintf` are as
-- the standard says. Of wolfMQTT nothing is assumed. Apart from Door.Preempt, the callbacks
-- of the door run one after the other; there, the timer interrupts the message callback less
-- than 30000 ms after it has read the clock.
--
-- Not modelled: the registers of the UART beyond its two enable flags, the answers of the
-- Bluetooth stack, `app_init` and the entry point, which only start the SDK, and the Python
-- server (server/), which is another program. wolfMQTT and the Silicon Labs SDK are not in
-- the repository. The debug prints are left out where they are called: Lcd treats the display
-- by itself. The `EFM_ASSERT` on the status of GLIB in `lcd_puts` is left out.
pub mod Base
pub mod Cellular
pub mod Clock
pub mod Door
pub mod Exec
pub mod MqttNet
pub mod Scan
pub mod SerialIo
pub mod Session
pub mod Socket
pub mod Strtok
pub mod Lcd
pub mod Serial

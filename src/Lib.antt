-- ===== src/Lib.antt =====
-- The firmware of the robot's RP2040 board: it answers an Android host over a serial link, keeps a log, and
-- drives motors, battery gauge, charger and wireless charging over I2C, GPIO and ADC. The files
-- stand in src/ and include/ of the repository.
--
-- Parts, and the files that model them:
--   Crc          src/crc.c: `crc16_ccitt`. Crc.ShiftRegister has the independent description.
--   BitOps       src/bit_ops.c: bits and bit ranges of a byte, used for the registers' fields.
--   Log          src/rp2040_log.c: the ring of log lines. Log.Valid has the well-formedness of the ring and
--                its texts, Log.Spec what logging does to a list of texts, Log.Refine that the
--                ring does it.
--   Events       src/interupts.c: the names of GPIO events.
--   Serial       src/serial_comm_manager.c: frames, commands and replies; Serial.Receive is `get_block`,
--                Serial.State the packed struct that is sent.
--   Machine      the shape of the drivers' programs: a state of the log and of everything else, and
--                no result where a call does not return (a failed `assert` stops the core).
--   Hardware     the I2C calls with retries and the call queue of src/robot.c; Hardware.Sdk is the interface
--                to the Pico SDK. Hardware.Logic is what a property of programs has to keep for all of the
--                drivers to have it; Hardware.Returns and Hardware.Keeps are two such properties, and the
--                `Holds` modules beside the drivers show their programs to have each.
--                Hardware.Post says what holds of the result of one call when it has returned,
--                Hardware.Runs that it returns, too, Hardware.Device what it leaves in a device, and
--                Hardware.Waits is about the loops that wait for a response.
--   Battery      src/bq27742_g1.c, the battery gauge; Battery.Block is the block of its data flash,
--                Battery.Gauge a device that keeps one.
--   Motors       src/drv8830.c, the motor drivers; Motors.Voltage has `set_voltage`, Motors.Scope the
--                test with an oscilloscope.
--   Charger      src/max77976.c, the battery charger; Charger.Settings is a device that keeps what its
--                registers are sent.
--   Power        src/ncp3901.c, src/STWLC38JRM.c, src/max77857.c, src/sn74ahc125rgyr.c.
--   TypeC        src/max77958.c, the Type-C controller: registers, opcodes and their queue, interrupts,
--                unit tests, init and shutdown.
--   Encoders     src/quad_encoders.c.
--   Robot        src/robot.c: the state that is reported, motor levels, dispatch of interrupts and of the
--                entries of the call queue; Robot.Setup has the queues and buses, Robot.Startup the
--                start, the main loop and the shutdown. Robot.System is the whole as a step relation,
--                Robot.Calls the call queue as core 1 sees it, Robot.Arming the gauge's
--                interrupt (with Robot.Edges and Robot.Configuring), Robot.Places the free
--                places of the queues (with Robot.QueueCalls and Robot.Spending).
--   Base         names, Boolean tests, lists and the binary digits of numbers.
--
-- How they interact: an interrupt handler (Robot.robot_interrupt_handler) puts an entry on the call
-- queue; core 1 takes entries and runs them (Robot.core1_entry, Robot.run_entry); the Type-C
-- controller's opcodes wait in a queue of their own and go to the call queue one at a time; core 0,
-- after the start, runs `get_block`, which calls `handle_packet`, which calls `set_motor_levels`
-- and `get_state`, which ask the drivers. Serial takes the two calls as a parameter (RobotOps), and
-- Robot.robot_ops fills it. All of them write to the log, which GET_LOG transmits and empties.
--
-- How state and code correspond: the static variables are fields of records (Log.CircularBufferLog,
-- Serial.Comm, Hardware.Devices) that every function takes and returns. Numbers are natural
-- numbers, and a conversion to a narrower integer is a remainder. Addresses are the lists of the
-- bytes that lie there; what a function prints is its result. A function name keeps the source's
-- words, without the prefix of its driver where the module has it. Each function is one step: no
-- other core or interrupt runs in the middle of it, but for the waits of the start and the
-- shutdown, where what happens during a sleep is an argument. Robot.System puts the steps together
-- in any order.
--
-- Bounds and fuel: the loop that makes room in the log runs on fuel, one more than there are lines,
-- and each round drops a line. The loops that wait for a response run for at most 1001 rounds, and
-- stop the core in the last. The retries are three. The waits of src/max77958.c and of
-- `free_queues`, `core1_entry` and the main loop have no end of their own: they run on fuel, and
-- having none left is no result for a wait, and the state reached for the main loop. All other
-- loops run over a list or down a count.
--
-- The build is the default of CMakeLists.txt: LOG_LEVEL WARNING, LOGGER USB, build type Debug, so
-- that `assert` is in force; without BOARD_PICO and ENABLE_LATENCY_BENCHMARK. Calls of
-- `rp2040_log_d` and `rp2040_log_i` are then compiled out, arguments included, and do not stand in
-- the model. Motors.Scope is the code that a build with DRV8830_SCOPE_TEST has besides.
--
-- Parameters: the Pico SDK and the C library (Hardware.Sdk), with one law, that what a format
-- prints holds no null byte; the bytes that arrive, and when they time out (Serial.Receive); the
-- constants of max77958_driver.h, which the repository does not hold (TypeC.Registers.Constants);
-- the arithmetic of float and double (Motors.Voltage.Floats). Theorems that need the I2C bus to
-- answer, the queues to have places free, the queues to be first in, first out, a device to keep what it
-- is sent, or a pin's interrupt to be enabled as it was asked take this as a record
-- (Robot.Returns.Answers, Robot.Places.Places, TypeC.Fifo.Fifo, Robot.Calls.CallQueue,
-- Battery.Gauge.Gauge, Charger.Settings.ChargerDevice, Robot.Edges.IrqPin).
--
-- Not modelled: the PIO program src/quadrature_encoder.pio, which counts; the host tools and tests.
-- Behaviour that C leaves undefined is not modelled: the bytes that `max77976_get_chg_details`
-- reads behind its buffer are a parameter, `max77976_get_interrupt_vals` writes no byte behind its
-- own, and `test_max77958_snk_pdo_request` reads none behind its own; the difference of two counts
-- in `quad_encoder_update` wraps modulo 2 ^ 32, also where the subtraction of the two `int32_t`
-- overflows.
pub mod Base
pub mod Crc
pub mod BitOps
pub mod Log
pub mod Events
pub mod Machine
pub mod Serial
pub mod Hardware
pub mod Battery
pub mod Motors
pub mod Power
pub mod Charger
pub mod TypeC
pub mod Encoders
pub mod Robot

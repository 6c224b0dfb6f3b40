-- ===== src/Lib.antt =====
-- Verification of motor_test, a C program for a motor test bench: it drives two motors over a CAN bus
-- with the MIT protocol, reads a torque sensor on a serial line, and runs commands from a shell.
--
-- The parts and their files:
-- - Base: native numbers, Boolean tests, lists, the integers and the lemmas on bitwise operations
--   that the other files share; Base/Memory has buffers of bytes.
-- - Rounding, Float: an executable model of IEEE 754 binary32 and binary64, the types `float` and
--   `double`. A number is a sign and a count of units: 2^-149 for binary32, 2^-1074 for binary64.
--   Arithmetic rounds to nearest, ties to even, and `none` is a conversion to `int` that C leaves
--   undefined. Float/Finite has the numbers that are neither infinite nor a NaN.
-- - MathOps: src/math_ops.c, limits and the scaling of floats to codes of some bits and back.
-- - Protocol: src/mit_protocol.c and src/mit_protocol.h, the frames that a motor understands.
--   `read_fields` of Protocol/Layout is an independent receiver of the command frame.
-- - Pid: src/pid_control.c, the speed controller. `pid_update` is what `pid_caculate` does to the
--   structure that it is given. Pid/Bounds has what holds with NaNs, Pid/Range what holds without,
--   and Pid/Faults what a NaN does.
-- - Motor: the first part of src/test.c. `Motors` is `g_motor`; Motor/Receive is the callback
--   `motor_test_can_call`, Motor/Cycle the body of `commu_thread`, Motor/Init `motor_test_init`.
--   Motor/Sound has the invariant that the communication thread relies on; Motor/Rounds, Motor/Modes,
--   Motor/Start and Motor/Replies have the theorems on a round, on its frames, on the initialisation
--   and on received frames.
-- - Bench: the shell commands of src/test.c. A command is a list of actions: writes to the motors,
--   waits, and a fault where a null pointer is used. Bench/Commands has those that set a value,
--   Bench/Ramps and Bench/Programs the test programs; Bench/Endings, Bench/Extreme and Bench/Limits
--   have the theorems on them.
-- - Torque: src/torque_sensor.c. `packet_cycle` is the handling of six bytes, `fill` the loop that
--   reads them, and `dy200_thread` some turns of the thread's loop, over what its reads return.
-- - Can: src/can_create_socket.c, and src/can_thread.c in Can/Thread. Descriptors and memory that are
--   taken and given back are listed as effects.
-- - Uart: src/uart_op.c and the start of the torque sensor.
-- - Common: src/common.c, the clock and the waits.
-- - Shell: libfinsh/finsh.c and libfinsh/finsh.h, the shell that reads the commands. `finsh_key` of
--   Shell/Keys is one turn of the loop in `finsh`, from a byte of the input to the shell afterwards
--   and the command that was run; Shell/History, Shell/Complete, Shell/Split, Shell/Exec and
--   Shell/Table have the functions that it calls. Buffers are lists of bytes, whose moves in
--   Base/Memory give `none` where an access is outside; so do the history and `msh_split` at an entry
--   or an argument that does not exist. Shell/Pushed has the history after a line where all is inside.
--   Shell/Safe has the invariant of the shell, and the other files below Shell what its parts promise:
--   Shell/Editor a text with a cursor, Shell/Words and Shell/Dispatch words and the command that they
--   name, Shell/Completion what a tab does, Shell/Recall the history, Shell/Registry the table of
--   commands, Shell/Desk the line and the history as a person sees them, Shell/Session and Shell/Start
--   lines that are typed and entered, and Shell/Overrun what happens behind a full line.
-- - System: the threads of the program as a step relation over the motors. A step is an action of the
--   shell, a received frame, or one of the two halves of a motor's turn in `commu_thread`: choosing
--   and packing the frame, and sending it and noting the enable flag. Each step is taken as one whole.
-- - Program: src/main.c and the commands that the program registers. Program/Registered, Program/Names
--   and Program/Lines find a command by its name and words, Program/Typed types it at the prompt, and
--   Program/Frames goes from a typed line through the motors to the frame on the bus.
-- - Tests: single runs, and the theorems at concrete arguments.
--
-- What is assumed: a little-endian machine on which `int` has 32 bits, `float` and `double` are
-- evaluated in their own precision, and NaNs are not told apart. `atof`, `atoi`, the random numbers,
-- `sqrt`, and the answers of the operating system are arguments.
--
-- Fuel: the rounding of a quotient halves it until it fits the precision, at most `rounding_fuel` =
-- 4096 times; the quotients of two floats stay below 2^4096, and then `round_to-more_fuel` of
-- Rounding/Laws applies; `magnitude_bits` has 254 steps, one for each exponent of binary32. `split`,
-- the loop of `msh_split`, has one turn more than the command has bytes, and each turn but the last takes
-- a byte; `split-words` of Shell/Words/Argv shows that they are enough. All other loops are structural:
-- a ramp on its number of rounds, a read loop on the reads, the thread of the sensor on its turns, a
-- polling loop on the number of polls, a wait on the readings of the clock, the loop of the shell on the
-- bytes of the input.
--
-- What is not modelled: the printing and the files that the commands write, the waits of the threads,
-- the spin locks, whose use is commented out, the command `p_info`, which only prints, the
-- functions of src/mit_protocol.c that are not compiled, and of the shell the printing, the settings of
-- the terminal, the handling of signals and the lines of the log. While a line is run, a read of the line
-- or of a name behind its end gives 0 and is not told apart. libfinsh/list.h is another project's;
-- the record `ListOps` of Shell/Table has what the shell uses of it.
pub mod Base
pub mod Rounding
pub mod Float
pub mod MathOps
pub mod Protocol
pub mod Pid
pub mod Motor
pub mod Bench
pub mod Shell
pub mod System
pub mod Program
pub mod Torque
pub mod Common
pub mod Uart
pub mod Can
pub mod Tests

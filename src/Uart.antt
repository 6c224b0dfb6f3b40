-- ===== src/Uart.antt =====
-- src/uart_op.c and the start of the torque sensor in src/torque_sensor.c: opening the serial line.
use motor_test.Base.{ℕ, zero, Bool, if◌then◌else◌, ◌==◌, not, Option, some, none}
use motor_test.Base.Int.{ℤ, pos, negsuc}
use motor_test.Can.{is_positive}

-- The speeds of the line that the code knows.
pub data Speed : Type 0 where
  b2400 b4800 b9600 b115200 b460800 : Speed

-- Any other speed is taken as 9600.
unfoldable pub speed_of : ℕ → Speed
speed_of bud =
    if bud == 2400
    then b2400
    else if bud == 4800
    then b4800
    else if bud == 9600
    then b9600
    else if bud == 115200
    then b115200
    else if bud == 460800
    then b460800
    else b9600

-- What is set on the line: raw bytes, eight bits each, `vmin` of them at least in a blocking read.
pub record Line : Type 0 where
  pub fd : ℕ
  pub speed : Speed
  pub vtime : ℕ
  pub vmin : ℕ
  pub blocking : Bool

-- `opened` is the result of `open`.
unfoldable pub uart_open_normal : ℤ → ℕ → ℕ → ℤ × Option Line
unfolding speed_of
uart_open_normal (negsuc n) bud block = (negsuc 0, none)
uart_open_normal (pos fd) bud block =
    let blocking = not (block == 0) in
    let line : Line = record {
      fd = fd;
      speed = speed_of bud;
      vtime = 0;
      vmin = 1;
      blocking = blocking;
    } in
    (pos fd, some line)

-- The thread counts as not started only where `pthread_create` returns -1.
unfoldable pub sensor_thread : ℤ → ℤ
sensor_thread (negsuc zero) = negsuc 0
sensor_thread other = pos 0

-- The line is opened for blocking reads; a result of 0 counts as a failure, like a negative one.
unfoldable pub dy200_init : ℤ → ℤ → ℕ → ℤ
unfolding uart_open_normal sensor_thread
dy200_init opened thread_result bud =
    if not (is_positive (uart_open_normal opened bud 1).0)
    then negsuc 0
    else sensor_thread thread_result

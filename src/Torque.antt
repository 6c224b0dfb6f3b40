-- ===== src/Torque.antt =====
-- src/torque_sensor.c: the torque sensor on the serial line. A packet has six bytes: torque and speed,
-- most significant byte first, and a checksum, least significant byte first.
pub mod Table
pub mod Checksum
pub mod Packet
pub mod Thread
use motor_test.Base.{
  ℕ, zero, suc, ◌+◌, ◌-◌, ◌*◌, ◌/◌, ◌%◌, ◌^◌, ◌==◌, if◌then◌else◌, not, get_or, leb,
}
use motor_test.Base.{
  List, [], ◌∷◌, ◌++◌, Option, some, none, Bool, true, false, bit_and, bit_or, bit_xor,
}
use motor_test.Base.Int.{ℤ, pos, negsuc}
use motor_test.Float.{Float, float32, float64, lit, mul, div}
use motor_test.Float.Convert.{of_int, narrow, widen}
use Table.{table}

-- One byte: the low byte of `xor` picks the table's entry.
unfoldable pub crc_step : ℕ → ℕ → ℕ
crc_step crc byte = let low = bit_xor byte crc % 2 ^ 8 in bit_xor (crc / 2 ^ 8) (get_or table low 0)

unfoldable pub crc_loop : ℕ → List ℕ → ℕ
unfolding crc_step
crc_loop crc [] = crc
crc_loop crc (b ∷ bytes) = crc_loop (crc_step crc b) bytes

unfoldable pub modbus_crc16 : List ℕ → ℕ
unfolding crc_loop
modbus_crc16 bytes = crc_loop 0xFFFF bytes

-- `SWAP_UINT16`, stored in a `uint16_t`.
unfoldable pub swap_uint16 : ℕ → ℕ
swap_uint16 x = bit_or (x / 2 ^ 8) (x * 2 ^ 8) % 2 ^ 16

-- Two bytes of the buffer read as a `uint16_t`, least significant first.
abbrev pub word_at : List ℕ → ℕ → ℕ
word_at buf i = get_or buf i 0 + get_or buf (i + 1) 0 * 2 ^ 8

-- `g_torque`, `g_speed` and `g_power`.
pub record Sensor : Type 0 where
  pub torque : Float
  pub speed : Float
  pub power : Float

-- `M_PI / 30.f`, in `double`.
unfoldable pub pi_over_30 : Float
pi_over_30 =
    div float64 (lit float64 false 314159265358979323846 (10 ^ 20)) (lit float64 false 30 1)

-- The values of a packet whose checksum holds: the top bit of the speed is the sign of the torque.
unfoldable pub measure : ℕ → ℕ → Sensor
unfolding pi_over_30
measure torque speed =
    let sign = if bit_and speed 0x8000 == 0 then pos 1 else negsuc 0 in
    let g_torque =
      mul float32 (div float32 (of_int float32 (pos torque)) (lit float32 false 10 1))
        (of_int float32 sign) in
    let g_speed = of_int float32 (pos (bit_and speed 0x7FFF)) in
    let g_power = narrow (mul float64 (widen (mul float32 g_torque g_speed)) pi_over_30) in
    record { torque = g_torque; speed = g_speed; power = g_power }

-- What the thread does with six bytes in its buffer: the values afterwards, and whether the checksum
-- held. Where it does not, the line is flushed and the values stay.
unfoldable pub packet_cycle : Sensor → List ℕ → Sensor × Bool
packet_cycle g buf =
    if not (
      modbus_crc16 (get_or buf 0 0 ∷ get_or buf 1 0 ∷ get_or buf 2 0 ∷ get_or buf 3 0 ∷ [])
      == word_at buf 4)
    then (g, false)
    else (measure (swap_uint16 (word_at buf 0)) (swap_uint16 (word_at buf 2)), true)

-- One call of `uart_recv`: some bytes, at most as many as were asked for, or -1.
pub data Read : Type 0 where
  got : List ℕ → Read
  failed : Read

-- The loop that fills the buffer: it ends with a full buffer and the later reads, runs out of input, or writes in front of
-- the buffer, since a failed read moves `index` back and asks for one byte more.
pub data Fill : Type 0 where
  full : List ℕ → List Read → Fill
  waiting : Fill
  overrun : Fill

abbrev pub count : List ℕ → ℕ
count [] = 0
count (b ∷ bytes) = suc (count bytes)

abbrev pub drop_last : List ℕ → List ℕ
drop_last [] = []
drop_last (b ∷ []) = []
drop_last (b ∷ c ∷ bytes) = b ∷ drop_last (c ∷ bytes)

-- With a negative `index`, the next byte that is read goes in front of the buffer.
unfoldable pub fill_before : List Read → Fill
fill_before [] = waiting
fill_before (failed ∷ reads) = fill_before reads
fill_before (got [] ∷ reads) = fill_before reads
fill_before (got (b ∷ bytes) ∷ reads) = overrun

-- `buf` is what the buffer holds below `index`; `rest` bytes are still asked for.
unfoldable pub fill : List ℕ → ℕ → List Read → Fill
unfolding fill_before
fill buf zero reads = full buf reads
fill buf (suc rest) [] = waiting
fill buf (suc rest) (got bytes ∷ reads) = fill (buf ++ bytes) (suc rest - count bytes) reads
fill [] (suc rest) (failed ∷ reads) = fill_before reads
fill (b ∷ buf) (suc rest) (failed ∷ reads) = fill (drop_last (b ∷ buf)) (suc (suc rest)) reads

-- The thread after some turns of its loop: the values and the reads that it has not come to; or it waits
-- for a byte in the middle of a packet; or it has written in front of its buffer.
pub data Heard : Type 0 where
  heard : Sensor → List Read → Heard
  silent : Sensor → Heard
  outside : Heard

-- The thread over what its calls of `uart_recv` return. A flush throws away what has come in and not been
-- read, which no later read returns.
unfoldable pub dy200_thread : ℕ → Sensor → List Read → Heard
unfolding fill packet_cycle
dy200_thread zero g reads = heard g reads
dy200_thread (suc turns) g reads = elim (fill [] 6 reads) [
  | full buf rest ↦ dy200_thread turns (packet_cycle g buf).0 rest
  | waiting ↦ silent g
  | overrun ↦ outside
]

-- `get_dy200_info`: each value is copied where a pointer is given; the result is 0.
unfoldable pub get_dy200_info : Sensor → ℤ × Float × Float × Float
get_dy200_info g = (pos 0, g.torque, g.speed, g.power)

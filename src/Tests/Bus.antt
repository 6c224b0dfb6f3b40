-- ===== src/Tests/Bus.antt =====
-- The theorems on the torque sensor, the CAN bus and the clock at concrete arguments.
use motor_test.Base.{ℕ, ◌≡◌, refl, arith, true, some, none, List, [], ◌∷◌, ◌++◌}
use motor_test.Base.{map}
use motor_test.Base.Int.{pos, negsuc}
use motor_test.Float.{zero_float}
use motor_test.Torque.{Sensor, modbus_crc16, measure, packet_cycle, heard, dy200_thread}
use motor_test.Torque.Table.{table}
use motor_test.Torque.Checksum.{shift_bits, bitwise_crc, modbus_crc16-eq-bitwise_crc}
use motor_test.Torque.Packet.{joined}
use motor_test.Torque.Thread.{
  all_reads, last_taken, dy200_thread-packets, dy200_thread-packet_of, Carries,
}
use motor_test.Can.{
  SocketAnswers, Effect, opened, allocated, freed, can_creat_interface, can_delet_interface,
}
use motor_test.Can.{CanHandle, can_rx}
use motor_test.Can.Thread.{Turn, can_rx_func}
use motor_test.Can.Laws.{
  each_fresh, received_of, open_after, can_rx_func-fresh, can_creat_interface-leak,
}
use motor_test.Can.Laws.{can_delet_interface-closes}
use motor_test.Common.{TimeVal, delay_us}
use motor_test.Common.Delay.{delay_us-first}

abbrev idle_sensor : Sensor
idle_sensor = record { torque = zero_float; speed = zero_float; power = zero_float }

modbus_crc16-eq-bitwise_crc_example :
    modbus_crc16 (1 ∷ 3 ∷ 255 ∷ []) ≡ bitwise_crc 0xFFFF (1 ∷ 3 ∷ 255 ∷ [])
modbus_crc16-eq-bitwise_crc_example = modbus_crc16-eq-bitwise_crc (1 ∷ 3 ∷ 255 ∷ []) (omega arith)

packet_accepted : (packet_cycle idle_sensor (0 ∷ 25 ∷ 128 ∷ 7 ∷ 241 ∷ 225 ∷ [])).1 ≡ true
unfolding packet_cycle modbus_crc16 table
packet_accepted = refl

-- A good packet in two reads, and one with a wrong checksum in one.
abbrev two_packets : List (List (List ℕ))
two_packets =
    ((0 ∷ 25 ∷ []) ∷ (128 ∷ 7 ∷ 241 ∷ 225 ∷ []) ∷ [])
    ∷ ((0 ∷ 26 ∷ 128 ∷ 7 ∷ 241 ∷ 225 ∷ []) ∷ [])
    ∷ []

dy200_thread-packets_example :
    dy200_thread 2 idle_sensor (all_reads two_packets ++ [])
    ≡ heard (last_taken idle_sensor (map joined two_packets)) []
dy200_thread-packets_example =
    dy200_thread-packets two_packets idle_sensor []
      (((omega arith, omega arith), refl, omega arith), ((omega arith, refl, omega arith), tt))

-- The torque 2.5, with the sign of a speed of -7.
carried : Carries (((0 ∷ 25 ∷ []) ∷ (128 ∷ 7 ∷ 241 ∷ 225 ∷ []) ∷ []) ∷ []) ((25, 32775) ∷ [])
unfolding bitwise_crc shift_bits
carried = ((omega arith, omega arith), refl, omega arith, omega arith, tt)

dy200_thread-packet_of_example :
    dy200_thread 1 idle_sensor
      (all_reads (((0 ∷ 25 ∷ []) ∷ (128 ∷ 7 ∷ 241 ∷ 225 ∷ []) ∷ []) ∷ []) ++ [])
    ≡ heard (measure 25 32775) []
dy200_thread-packet_of_example =
    dy200_thread-packet_of (((0 ∷ 25 ∷ []) ∷ (128 ∷ 7 ∷ 241 ∷ 225 ∷ []) ∷ []) ∷ [])
      ((25, 32775) ∷ []) idle_sensor [] carried

abbrev turns : List Turn
turns =
    record { run = pos 1; received = 18 ∷ 0 ∷ 0 ∷ 0 ∷ 8 ∷ [] }
    ∷ record { run = pos 1; received = [] }
    ∷ record { run = pos 1; received = 17 ∷ [] }
    ∷ record { run = pos 0; received = 9 ∷ [] }
    ∷ []

can_rx_func-fresh_example : can_rx_func true turns ≡ each_fresh (received_of turns)
can_rx_func-fresh_example = can_rx_func-fresh turns

abbrev no_bind : SocketAnswers
no_bind = record { socket_result = pos 3; ioctl_result = pos 0; bind_result = negsuc 0 }

abbrev all_well : SocketAnswers
all_well = record { socket_result = pos 3; ioctl_result = pos 0; bind_result = pos 0 }

abbrev can0 : List ℕ
can0 = 99 ∷ 97 ∷ 110 ∷ 48 ∷ []

abbrev lost : List Effect
lost = allocated ∷ opened 3 ∷ freed ∷ []

no_bind-fails : can_creat_interface true no_bind can_rx can0 0 0xFFFF ≡ some (none, lost)
unfolding can_creat_interface
no_bind-fails = refl

can_creat_interface-leak_example : open_after [] lost ≡ 3 ∷ []
can_creat_interface-leak_example =
    can_creat_interface-leak no_bind can0 0 0xFFFF 3 lost refl no_bind-fails

abbrev made : CanHandle
made = record { fd = pos 3; dev_name = can0; kind = can_rx; id = 0; id_mask = 0xFFFF }

all_well-succeeds :
    can_creat_interface true all_well can_rx can0 0 0xFFFF
    ≡ some (some made, allocated ∷ opened 3 ∷ [])
unfolding can_creat_interface
all_well-succeeds = refl

can_delet_interface-closes_example :
    open_after [] ((allocated ∷ opened 3 ∷ []) ++ can_delet_interface (some made)) ≡ []
can_delet_interface-closes_example =
    can_delet_interface-closes all_well can0 0 0xFFFF 2 made (allocated ∷ opened 3 ∷ []) refl
      all_well-succeeds

abbrev at_second : ℕ → TimeVal
at_second n = record { tv_sec = n; tv_usec = 5 }

delay_us-first_example :
    delay_us 2000000
      (at_second 7 ∷ ((at_second 7 ∷ at_second 8 ∷ []) ++ at_second 9 ∷ at_second 10 ∷ []))
    ≡ some (at_second 9)
delay_us-first_example =
    delay_us-first 2000000 (at_second 7) (at_second 7 ∷ at_second 8 ∷ []) (at_second 9)
      (at_second 10 ∷ []) (omega arith) (omega arith) (omega arith)

-- ===== src/Can/Thread.antt =====
-- src/can_thread.c: the thread that receives frames from a CAN handle and passes them on.
use motor_test.Base.{
  ℕ, zero, suc, ◌%◌, ◌^◌, Bool, true, false, if◌then◌else◌, List, [], ◌∷◌, ◌++◌, length,
}
use motor_test.Base.{Option, some, none}
use motor_test.Base.Int.{ℤ, pos, negsuc}
use motor_test.Can.{SocketAnswers, Effect, allocated, freed, CanHandle, can_rx}
use motor_test.Can.{can_creat_interface, can_delet_interface}

abbrev pub can_buf_size : ℕ
can_buf_size = 16

abbrev pub zeros : ℕ → List ℕ
zeros zero = []
zeros (suc n) = 0 ∷ zeros n

abbrev pub drop : ℕ → List ℕ → List ℕ
drop zero xs = xs
drop (suc n) [] = []
drop (suc n) (x ∷ xs) = drop n xs

-- `recv` writes the front of the buffer.
unfoldable pub overwrite : List ℕ → List ℕ → List ℕ
overwrite buf bytes = bytes ++ drop (length bytes) buf

-- A turn of the loop: the flag `run` when it is read, and the bytes that are received, none where the
-- call timed out or failed.
pub record Turn : Type 0 where
  pub run : ℤ
  pub received : List ℕ

-- One turn: `skipped` and `cleared` are what the loop does from then on with the buffer as it is and
-- with a cleared one.
unfoldable pub rx_turn :
    List ℕ → ℤ → List ℕ → List (List ℕ × ℕ) → List (List ℕ × ℕ) → List (List ℕ × ℕ)
unfolding overwrite
rx_turn buf (pos zero) bytes skipped cleared = []
rx_turn buf other [] skipped cleared = skipped
rx_turn buf other (b ∷ bytes) skipped cleared =
    (overwrite buf (b ∷ bytes), suc (length bytes)) ∷ cleared

-- The loop: what it passes to the callback, the buffer and the length, in order.
unfoldable pub rx_loop : List ℕ → List Turn → List (List ℕ × ℕ)
unfolding rx_turn
rx_loop buf [] = []
rx_loop buf (turn ∷ turns) =
    rx_turn buf turn.run turn.received (rx_loop buf turns) (rx_loop (zeros can_buf_size) turns)

-- The thread: its buffer is allocated and cleared first.
unfoldable pub can_rx_func : Bool → List Turn → List (List ℕ × ℕ)
unfolding rx_loop
can_rx_func false turns = []
can_rx_func true turns = rx_loop (zeros can_buf_size) turns

-- The handle of the thread; `func` and its arguments are those of `motor_test_init`.
pub record CanCommu : Type 0 where
  pub run : ℤ
  pub flag : ℤ
  pub can_tx : Option CanHandle
  pub can_rx : Option CanHandle

-- What the system answers: `malloc` twice, the socket's calls and `pthread_create`.
pub record CommuAnswers : Type 0 where
  pub own_memory : Bool
  pub handle_memory : Bool
  pub socket : SocketAnswers
  pub thread_result : ℤ

-- Once the receiving side is there: the thread counts as not started only at a result of -1.
unfoldable pub start_thread : ℤ → CanHandle → ℤ → List Effect → Option CanCommu × List Effect
unfolding can_delet_interface
start_thread flag handle (negsuc zero) effects =
    (none, effects ++ (can_delet_interface none ++ can_delet_interface (some handle)))
start_thread flag handle other effects =
    (some (record { run = pos 1; flag = flag; can_tx = none; can_rx = some handle }), effects)

-- The identifier and the mask are cut to the 16 bits of the parameters they are passed to.
unfoldable pub can_commu_init :
    CommuAnswers → List ℕ → ℕ → ℕ → ℤ → Option (Option CanCommu × List Effect)
unfolding can_creat_interface can_delet_interface start_thread
can_commu_init a dev_rc id_rc mask_rc flag =
    if a.own_memory
    then elim (can_creat_interface a.handle_memory a.socket can_rx dev_rc (id_rc % 2 ^ 16)
        (mask_rc % 2 ^ 16)) [
          | none ↦ none
          | some (none, effects) ↦ some (none, allocated ∷ (effects ++ can_delet_interface none))
          | some (some handle, effects) ↦
              some (start_thread flag handle a.thread_result (allocated ∷ effects))
        ]
    else some (none, [])

-- Both handles are deleted and the memory is freed, while the thread may still use them.
unfoldable pub can_commu_del : CanCommu → List Effect
unfolding can_delet_interface
can_commu_del commu =
    can_delet_interface commu.can_tx ++ (can_delet_interface commu.can_rx ++ freed ∷ [])

-- ===== src/Can/Laws.antt =====
-- What the CAN handles and the receiving thread do.
use motor_test.Base.{
  ℕ, zero, suc, ◌-◌, ◌≡◌, refl, ap, sym, arith, List, [], ◌∷◌, ◌++◌, length, Option, some, none,
}
use motor_test.Base.{true, ◌==◌, if◌then◌else◌, ◌∙◌, leb, Bool-cases, inl, inr, ◌⊎◌}
use mathlib.Core.Option.{some-injective}
use motor_test.Base.Int.{ℤ, pos, negsuc}
use motor_test.Can.{SocketAnswers, Effect, opened, closed, allocated, freed, CanHandle}
use motor_test.Can.{
  can_creat_interface, can_delet_interface, can_rx, creat_by_type, can_creat_rx_socket,
}
use motor_test.Can.{
  SocketResult, bind_socket, after_socket, keep_result, error_exit, keep_handle, is_positive,
  is_negative,
}
use motor_test.Can.Thread.{
  Turn, rx_loop, rx_turn, can_rx_func, zeros, drop, can_buf_size, overwrite,
}

drop-zeros : (n k : ℕ) → drop n (zeros k) ≡ zeros (k - n)
drop-zeros zero k = let e : k ≡ k - 0 = omega arith in ap zeros e
drop-zeros (suc n) zero = let e : 0 ≡ 0 - suc n = omega arith in ap zeros e
drop-zeros (suc n) (suc k) =
    let e : k - n ≡ suc k - suc n = omega arith in drop-zeros n k ∙ ap zeros e

-- The turns before the first one that reads the flag as 0, those without bytes left out, each with its
-- bytes in a fresh buffer.
abbrev pub fresh : List ℕ → List ℕ × ℕ
fresh bytes = (bytes ++ zeros (can_buf_size - length bytes), length bytes)

abbrev pub taken : ℤ → List ℕ → List (List ℕ) → List (List ℕ)
taken (pos zero) bytes rest = []
taken other [] rest = rest
taken other (b ∷ bytes) rest = (b ∷ bytes) ∷ rest

abbrev pub received_of : List Turn → List (List ℕ)
received_of [] = []
received_of (turn ∷ turns) = taken turn.run turn.received (received_of turns)

abbrev pub each_fresh : List (List ℕ) → List (List ℕ × ℕ)
each_fresh [] = []
each_fresh (bytes ∷ rest) = fresh bytes ∷ each_fresh rest

overwrite-zeros : (bytes : List ℕ) → overwrite (zeros can_buf_size) bytes ≡ (fresh bytes).0
unfolding overwrite
overwrite-zeros bytes = ap (λ rest. bytes ++ rest) (drop-zeros (length bytes) can_buf_size)

rx_turn-fresh :
    (r : ℤ) (bytes : List ℕ) (rest : List (List ℕ))
    → rx_turn (zeros can_buf_size) r bytes (each_fresh rest) (each_fresh rest)
      ≡ each_fresh (taken r bytes rest)
unfolding rx_turn
rx_turn-fresh (pos zero) bytes rest = refl
rx_turn-fresh (pos (suc n)) [] rest = refl
rx_turn-fresh (pos (suc n)) (b ∷ bytes) rest =
    ap (λ buf. (buf, suc (length bytes)) ∷ each_fresh rest) (overwrite-zeros (b ∷ bytes))
rx_turn-fresh (negsuc n) [] rest = refl
rx_turn-fresh (negsuc n) (b ∷ bytes) rest =
    ap (λ buf. (buf, suc (length bytes)) ∷ each_fresh rest) (overwrite-zeros (b ∷ bytes))

rx_loop-fresh :
    (turns : List Turn) → rx_loop (zeros can_buf_size) turns ≡ each_fresh (received_of turns)
unfolding rx_loop
rx_loop-fresh [] = refl
rx_loop-fresh (turn ∷ turns) =
    rw (rx_loop-fresh turns) (rx_turn-fresh turn.run turn.received (received_of turns))

-- Until it is told to stop, the thread passes on what it receives, each time in a buffer that is zero
-- behind the bytes received: nothing of an earlier, longer frame is left.
pub can_rx_func-fresh :
    (turns : List Turn) → can_rx_func true turns ≡ each_fresh (received_of turns)
unfolding can_rx_func
can_rx_func-fresh turns = rx_loop-fresh turns

-- The descriptors that are open once the effects have happened.
abbrev pub close_one : List ℕ → ℤ → List ℕ
close_one [] fd = []
close_one (x ∷ xs) (negsuc n) = x ∷ xs
close_one (x ∷ xs) (pos n) = let rest = close_one xs (pos n) in if x == n then xs else x ∷ rest

abbrev pub open_after : List ℕ → List Effect → List ℕ
open_after fds [] = fds
open_after fds (opened fd ∷ es) = open_after (fd ∷ fds) es
open_after fds (closed fd ∷ es) = open_after (close_one fds fd) es
open_after fds (allocated ∷ es) = open_after fds es
open_after fds (freed ∷ es) = open_after fds es

abbrev bound_socket : ℕ → SocketResult
bound_socket fd = record { code = pos 0; socket_fd = pos fd; effects = opened fd ∷ [] }

bind_socket-cases :
    (a : SocketAnswers) (fd : ℕ)
    → (bind_socket a fd ≡ bound_socket fd) ⊎ (bind_socket a fd ≡ error_exit (pos fd))
unfolding bind_socket
bind_socket-cases a fd = elim (Bool-cases (is_positive a.ioctl_result)) [
  | inl p ↦ inr (rw p refl)
  | inr p ↦ elim (Bool-cases (is_negative a.bind_result)) [
    | inl q ↦ inr (rw (p, q) refl)
    | inr q ↦ inl (rw (p, q) refl)
  ]
]

abbrev rx_handle : List ℕ → ℕ → ℕ → ℕ → CanHandle
rx_handle dev_name id id_mask fd = record {
  fd = pos fd;
  dev_name = dev_name;
  kind = can_rx;
  id = id;
  id_mask = id_mask;
}

abbrev Outcome : Type 0
Outcome = Option CanHandle × List Effect

abbrev cleared_handle : List ℕ → ℕ → ℕ → CanHandle
cleared_handle dev_name id id_mask = record {
  fd = pos 0;
  dev_name = dev_name;
  kind = can_rx;
  id = id;
  id_mask = id_mask;
}

creat_by_type-rx :
    (a : SocketAnswers) (handle : CanHandle) (fd : ℕ)
    → a.socket_result ≡ pos fd
    → creat_by_type a handle can_rx
      ≡ keep_result handle
          (if leb 16 (length handle.dev_name) then none else some (bind_socket a fd))
unfolding creat_by_type can_creat_rx_socket after_socket
creat_by_type-rx a handle fd s = ap (λ r. keep_result handle (after_socket a handle.dev_name r)) s

rx_outcome :
    (a : SocketAnswers) (dev_name : List ℕ) (id id_mask fd : ℕ) (r : Outcome)
    → a.socket_result ≡ pos fd
    → can_creat_interface true a can_rx dev_name id id_mask ≡ some r
    → (r ≡ (some (rx_handle dev_name id id_mask fd), allocated ∷ opened fd ∷ []))
      ⊎ (r ≡ (none, allocated ∷ opened fd ∷ freed ∷ []))
unfolding can_creat_interface error_exit keep_result keep_handle
rx_outcome a dev_name id id_mask fd r s h =
    let made = creat_by_type-rx a (cleared_handle dev_name id id_mask) fd s in
    elim (Bool-cases (leb 64 (length dev_name))) [
      | inl p ↦ let bad : none ≡ some r = rw p at h in cc
      | inr p ↦ elim (Bool-cases (leb 16 (length dev_name))) [
        | inl q ↦ let bad : none ≡ some r = rw (p, made, q) at h in cc
        | inr q ↦ elim (bind_socket-cases a fd) [
          | inl b ↦ inl (sym (some-injective _ _ (rw (p, made, q, b) at h)))
          | inr b ↦ inr (sym (some-injective _ _ (rw (p, made, q, b) at h)))
        ]
      ]
    ]

-- A handle that is not created leaves the descriptor that `socket` returned open.
pub can_creat_interface-leak :
    (a : SocketAnswers) (dev_name : List ℕ) (id id_mask fd : ℕ) (es : List Effect)
    → a.socket_result ≡ pos fd
    → can_creat_interface true a can_rx dev_name id id_mask ≡ some (none, es)
    → open_after [] es ≡ fd ∷ []
can_creat_interface-leak a dev_name id id_mask fd es s h =
    elim (rx_outcome a dev_name id id_mask fd (none, es) s h) [
      | inl e ↦
          let bad : none ≡ some (rx_handle dev_name id id_mask fd) = ap (λ (x : Outcome). x.0) e in
          cc
      | inr e ↦
          let f : es ≡ allocated ∷ opened fd ∷ freed ∷ [] = ap (λ (x : Outcome). x.1) e in rw f refl
    ]

-- A handle that is created and deleted leaves no descriptor open, but 0.
pub can_delet_interface-closes :
    (a : SocketAnswers) (dev_name : List ℕ) (id id_mask fd : ℕ) (handle : CanHandle)
    (es : List Effect)
    → a.socket_result ≡ pos (suc fd)
    → can_creat_interface true a can_rx dev_name id id_mask ≡ some (some handle, es)
    → open_after [] (es ++ can_delet_interface (some handle)) ≡ []
unfolding can_delet_interface
can_delet_interface-closes a dev_name id id_mask fd handle es s h =
    elim (rx_outcome a dev_name id id_mask (suc fd) (some handle, es) s h) [
      | inl e ↦
          let f : es ≡ allocated ∷ opened (suc fd) ∷ [] = ap (λ (x : Outcome). x.1) e in
          let g : handle ≡ rx_handle dev_name id id_mask (suc fd) =
            some-injective _ _ (ap (λ (x : Outcome). x.0) e) in
          rw (f, g) (ground arith)
      | inr e ↦ let bad : some handle ≡ none = ap (λ (x : Outcome). x.0) e in cc
    ]

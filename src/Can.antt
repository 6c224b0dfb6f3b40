-- ===== src/Can.antt =====
-- src/can_create_socket.c: CAN sockets and their handles. What the operating system answers is an
-- argument; the calls that take or give back a descriptor or a block of memory are listed as effects.
pub mod Thread
pub mod Laws
use motor_test.Base.{
  ℕ, zero, suc, Bool, true, false, if◌then◌else◌, leb, List, [], ◌∷◌, ◌++◌, length,
}
use motor_test.Base.{Option, some, none}
use motor_test.Base.Int.{ℤ, pos, negsuc}

-- The answers of `socket`, `ioctl` and `bind`.
pub record SocketAnswers : Type 0 where
  pub socket_result : ℤ
  pub ioctl_result : ℤ
  pub bind_result : ℤ

pub data Effect : Type 0 where
  opened : ℕ → Effect
  closed : ℤ → Effect
  allocated : Effect
  freed : Effect

abbrev pub is_negative : ℤ → Bool
is_negative (pos n) = false
is_negative (negsuc n) = true

abbrev pub is_positive : ℤ → Bool
is_positive (pos (suc n)) = true
is_positive other = false

-- The result, `*socket_fd` and the effects.
pub record SocketResult : Type 0 where
  pub code : ℤ
  pub socket_fd : ℤ
  pub effects : List Effect

-- The label `error`: a descriptor is closed, and cleared, where it is negative.
unfoldable pub error_exit : ℤ → SocketResult
error_exit (pos fd) = record { code = negsuc 0; socket_fd = pos fd; effects = opened fd ∷ [] }
error_exit (negsuc n) = record {
  code = negsuc 0;
  socket_fd = pos 0;
  effects = closed (negsuc n) ∷ [];
}

-- After `socket`: `ioctl` counts as failed where it returns a positive number.
unfoldable pub bind_socket : SocketAnswers → ℕ → SocketResult
unfolding error_exit
bind_socket a fd =
    if is_positive a.ioctl_result
    then error_exit (pos fd)
    else if is_negative a.bind_result
    then error_exit (pos fd)
    else record { code = pos 0; socket_fd = pos fd; effects = opened fd ∷ [] }

-- What follows `socket`, by its result. The name is copied to 16 bytes; `none` is a name that does not
-- fit. The same text stands in both functions below.
unfoldable pub after_socket : SocketAnswers → List ℕ → ℤ → Option SocketResult
unfolding error_exit bind_socket
after_socket a dev_name (negsuc n) = some (error_exit (negsuc n))
after_socket a dev_name (pos fd) =
    if leb 16 (length dev_name) then none else some (bind_socket a fd)

unfoldable pub can_creat_tx_socket : SocketAnswers → List ℕ → Option SocketResult
unfolding after_socket
can_creat_tx_socket a dev_name = after_socket a dev_name a.socket_result

-- The identifier and its mask are not used: the filter is commented out.
unfoldable pub can_creat_rx_socket : SocketAnswers → List ℕ → ℕ → ℕ → Option SocketResult
unfolding after_socket
can_creat_rx_socket a dev_name id id_mask = after_socket a dev_name a.socket_result

pub data CanType : Type 0 where
  can_tx can_rx can_tx_rx : CanType

pub record CanHandle : Type 0 where
  pub fd : ℤ
  pub dev_name : List ℕ
  pub kind : CanType
  pub id : ℕ
  pub id_mask : ℕ

-- The handle is kept where its socket was created, and its memory is freed otherwise.
unfoldable pub keep_handle : CanHandle → SocketResult → Option CanHandle × List Effect
keep_handle handle r = elim r.code [
  | pos zero ↦ (some (record handle { fd = r.socket_fd }), allocated ∷ r.effects)
  | other ↦ (none, allocated ∷ (r.effects ++ freed ∷ []))
]

unfoldable pub keep_result :
    CanHandle → Option SocketResult → Option (Option CanHandle × List Effect)
unfolding keep_handle
keep_result handle none = none
keep_result handle (some r) = some (keep_handle handle r)

-- Creation where `malloc` gave memory: the switch.
unfoldable pub creat_by_type :
    SocketAnswers → CanHandle → CanType → Option (Option CanHandle × List Effect)
unfolding can_creat_tx_socket can_creat_rx_socket keep_result
creat_by_type a handle can_tx = keep_result handle (can_creat_tx_socket a handle.dev_name)
creat_by_type a handle can_rx =
    keep_result handle (can_creat_rx_socket a handle.dev_name handle.id handle.id_mask)
creat_by_type a handle can_tx_rx = some (none, allocated ∷ freed ∷ [])

-- `memory` says whether `malloc` gave memory. The result is the handle, `none` the null pointer.
unfoldable pub can_creat_interface :
    Bool → SocketAnswers → CanType → List ℕ → ℕ → ℕ → Option (Option CanHandle × List Effect)
unfolding creat_by_type
can_creat_interface false a kind dev_name id id_mask = some (none, [])
can_creat_interface true a kind dev_name id id_mask =
    let handle : CanHandle = record {
      fd = pos 0;
      dev_name = dev_name;
      kind = kind;
      id = id;
      id_mask = id_mask;
    } in
    if leb 64 (length dev_name) then none else creat_by_type a handle kind

-- The descriptor is closed where it is positive, and the memory is freed.
unfoldable pub can_delet_interface : Option CanHandle → List Effect
can_delet_interface none = []
can_delet_interface (some handle) =
    if is_positive handle.fd then closed handle.fd ∷ freed ∷ [] else freed ∷ []

-- `send` and `recv` are the system's calls, here by the descriptor, the bytes or none, and the length;
-- what they return is passed on. The Boolean says whether the call returns without waiting.
module _ (send : ℤ → List ℕ → ℕ → ℤ) (recv : ℤ → ℕ → Bool → ℤ) where
  unfoldable pub can_interface_send : CanHandle → List ℕ → ℕ → ℤ
  can_interface_send handle buf len = send handle.fd buf len

  unfoldable pub can_interface_recv : CanHandle → ℕ → Bool → ℤ
  can_interface_recv handle len nodelay = recv handle.fd len nodelay

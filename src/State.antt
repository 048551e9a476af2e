-- ===== src/State.antt =====
-- The state that the transport server of 722device/server shares among its files: `tls_server_t`
-- (tls_server.h), with the transmitter `tls_transmit_t` (tls_transmit.h) and the receive queue of
-- `tls_receive_t` (tls_receive.h) that it points to.
--
-- Threads, mutexes and sockets are not part of the state: `wire` lists the buffers that
-- `tls_udp_socket_transmit` was called with, oldest first, and an event object is its flag.
use ai_coding_for_business.Common.{ℕ, Bool, Option, List}
use ai_coding_for_business.TlsBuff.{Buff, BuffQueue}
use ai_coding_for_business.TlsBuff.Memory.{Mem}

-- `tls_transmit_t`. `queues p` is the list of `queue_transmits_[p]`; `current` is `queue_transmit_`,
-- as an index into that array, or `none` where the pointer is null.
pub record Transmit : Type 0 where
  pub start : Bool
  pub queues : ℕ → List Buff
  pub current : Option ℕ
  pub run : Bool
  pub evt_loop : Bool

-- `tls_receive_t`. `queue` is the list of `queue_receive_`.
pub record Receive : Type 0 where
  pub start : Bool
  pub queue : List Buff
  pub run : Bool

-- The parts of `tls_param_t` that messages are built from: `local_ip` is what inet_addr reads from
-- `local_ip_`, and of each callback it is kept whether it is set.
pub record Param : Type 0 where
  pub local_ip : ℕ
  pub local_id : ℕ
  pub local_sub_id : ℕ
  pub on_register : Bool
  pub on_receive : Bool

-- A call of `on_tls_register_callback` with its status, or of `on_tls_receive_callback` with the size
-- that it is told, and the bytes that lie in the storage from the payload on, up to that size.
pub data Call : Type 0 where
  registered : ℕ → Call
  received : ℕ → List ℕ → Call

-- `tls_server_t`. `calls` lists the calls of the application's callbacks, oldest first.
pub record Server : Type 0 where
  pub start : Bool
  pub param : Param
  pub sequence : ℕ
  pub transmit : Transmit
  pub receive : Receive
  pub work_run : Bool
  pub evt_work_loop : Bool
  pub send_pool : BuffQueue
  pub recv_pool : BuffQueue
  pub transmit_pool : ℕ → BuffQueue
  pub mem : Mem
  pub wire : List Buff
  pub tx_output : ℕ
  pub calls : List Call

-- `TLS_QUEUE_PRI_7`, `TLS_BUFF_TYPE_TX`, `TLS_BUFF_TYPE_RX`, `TLS_UDP` and `TLS_VSOA`.
abbrev pub pri_7 : ℕ
pri_7 = 7

abbrev pub type_tx : ℕ
type_tx = 0

abbrev pub type_rx : ℕ
type_rx = 1

abbrev pub udp : ℕ
udp = 0

abbrev pub vsoa : ℕ
vsoa = 1

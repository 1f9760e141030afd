-- ===== src/Mux/Rpc.antt =====
-- rpc/proto/request.proto and response.proto: the messages between an interceptor and muQuinetd.
use mu_quinet.Prelude.{ℕ, List, Bool, true, false, Option, none, some, ℤ}

-- `sockaddr_in`; port and address in network byte order.
pub record SockAddr : Type 0 where
  pub family : ℕ
  pub port : ℕ
  pub addr : ℕ

-- The alternatives of `calling`.
pub data Calling : Type 0 where
  socket_call : (domain type protocol : ℕ) → Calling
  connect_call : SockAddr → Calling
  close_call : Calling
  recvfrom_call : (len flags : ℕ) → (require_addr : Bool) → Calling
  sendto_call : (buf : List ℕ) → (flags : ℕ) → Option SockAddr → Calling
  poll_call select_call getpeername_call getsockname_call : Calling
  getsockopt_call setsockopt_call fcntl_call : Calling
  atstart_action : (progname : List ℕ) → Calling
  calling_not_set : Calling

pub record Request : Type 0 where
  pub pid : ℕ
  pub calling : Calling

pub data RetCode : Type 0 where
  ok error wait_next : RetCode

-- The alternatives of `returning` that some code fills, each with its `ret` and `errno_`.
pub data Returning : Type 0 where
  not_set : Returning
  socket_ret connect_ret close_ret sendto_ret : ℤ → Option ℕ → Returning
  recvfrom_ret : ℤ → Option ℕ → (buf : Option (List ℕ)) → (addr : Option SockAddr) → Returning
  getpeername_ret getsockname_ret : ℤ → Option ℕ → Option SockAddr → Returning
  atstart_ret : (startfd count : ℕ) → Returning

-- `retCode` is a required field, `none` when it is not set.
pub record Response : Type 0 where
  pub retcode : Option RetCode
  pub returning : Returning

abbrev pub empty_response : Response
empty_response = record { retcode = none; returning = Returning.not_set }

-- `IsInitialized`: the required fields of the alternatives are set in every value of `Returning`.
unfoldable pub is_initialized : Response → Bool
is_initialized r = elim r.retcode [ none ↦ false | some c ↦ true ]

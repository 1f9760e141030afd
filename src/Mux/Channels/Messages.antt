-- ===== src/Mux/Channels/Messages.antt =====
-- ReqRespChannel.cpp: one request is read, handled and answered. The messages' encoding is that of
-- the protobuf library.
use mu_quinet.Prelude.{
  ℕ, ◌≤◌, ◌<◌, ◌≡◌, sym, ap, ◌∙◌, List, [], ◌∷◌, false, Option, none, some, arith, leb, ◌==◌,
  if◌then◌else◌, length, take, take-length,
}
use mu_quinet.Tcp.{TcpPcb}
use mu_quinet.Mux.Rpc.{Request, Response, is_initialized}
use mu_quinet.Mux.Socket.{RecvQueue}
use mu_quinet.Mux.Handler.{Stack, Channel, handle_request}
use mu_quinet.Mux.Handler.Answers.{leaves_unset, handle_request-is_initialized}
use mu_quinet.Mux.Loop.Operations.{Operation, unregisters}

-- `RPC_MESSAGE_MAX_SIZE`
abbrev pub message_max_size : ℕ
message_max_size = 81920

-- `ParseFromArray` on what was read and on a size of -1, `ByteSize` and `SerializeToArray`. `garbled`
-- is the message after a parse that failed, which the code does not test.
pub record Codec : Type 0 where
  pub parse : List ℕ → Request
  pub parse_negative : Request
  pub byte_size : Response → ℕ
  pub serialize : Response → List ℕ

pub record CodecLaws (codec : Codec) (encode : Request → List ℕ) : Type 0 where
  pub parse-encode : (req : Request) → codec.parse (encode req) ≡ req
  pub length-serialize : (resp : Response) → length (codec.serialize resp) ≡ codec.byte_size resp

-- What `read` gives: -1 with an `errno`, or bytes, none at the end.
pub data Read : Type 0 where
  failed : (errno : ℕ) → Read
  got : List ℕ → Read

-- `EAGAIN` and `EWOULDBLOCK` are one number.
abbrev pub e_again : ℕ
e_again = 11

-- What `onReadReady` comes to: nothing, `removeRRChannel`, an assertion that fails, or bytes given to
-- `write`.
pub data Reading (Q : Type 0) : Type 0 where
  nothing : Reading Q
  removed : Reading Q
  aborted : Reading Q
  writes : Stack → Channel Q → List ℕ → Reading Q

-- `write`, as far as the bytes that it gives to the system: `none` is an assertion that fails.
unfoldable pub bytes_of : Codec → Response → Option (List ℕ)
unfolding is_initialized
bytes_of codec resp =
    if is_initialized resp
    then if leb (codec.byte_size resp) message_max_size
      then some (take (codec.byte_size resp) (codec.serialize resp))
      else none
    else none

-- `write`, after the system's: -1 takes the channel out of the loop, a short write is only logged.
unfoldable pub after_write : (channel : ℕ) → Option ℕ → List (ℕ × Operation)
after_write c none = (c, unregisters) ∷ []
after_write c (some n) = []

module _ {Q : Type 0} (ops : RecvQueue Q) (garbage : TcpPcb) (codec : Codec) where
  -- The handling of a parsed message. A handler that fails has failed an assertion.
  abbrev pub answer : Stack → Channel Q → Request → Reading Q
  answer s c req = elim (handle_request ops garbage s c req) [
    | none ↦ aborted
    | some (s', c', resp) ↦ elim (bytes_of codec resp) [
      | none ↦ aborted
      | some bytes ↦ writes s' c' bytes
    ]
  ]

  -- `onReadReady`
  unfoldable pub on_read_ready : Stack → Channel Q → Read → Reading Q
  unfolding handle_request bytes_of
  on_read_ready s c (failed errno) =
      if errno == e_again then nothing else answer s c codec.parse_negative
  on_read_ready s c (got []) = removed
  on_read_ready s c (got (b ∷ bs)) = answer s c (codec.parse (b ∷ bs))

  answer-writes :
      (s : Stack) (c : Channel Q) (req : Request) (s' : Stack) (c' : Channel Q) (resp : Response)
      (encode : Request → List ℕ)
      → CodecLaws codec encode
      → handle_request ops garbage s c req ≡ some (s', c', resp)
      → leaves_unset c.socket req.calling ≡ false
      → codec.byte_size resp ≤ message_max_size
      → answer s c req ≡ writes s' c' (codec.serialize resp)
  unfolding bytes_of
  answer-writes s c req s' c' resp encode laws e u k =
      let (_, i) = handle_request-is_initialized ops garbage s c req s' c' resp e in
      let t : take (codec.byte_size resp) (codec.serialize resp) ≡ codec.serialize resp =
        ap (λ n. take n (codec.serialize resp)) (sym (laws.length-serialize resp))
        ∙ take-length (codec.serialize resp) in
      ground (arith, e, i u, k, t)

  -- A request that the interceptor encodes is parsed back, handled, and answered with the whole
  -- encoding of the handler's response, if the handler does not abort, the request is none of those
  -- left without a return code, and the response fits in `RPC_MESSAGE_MAX_SIZE` bytes.
  pub on_read_ready-encode :
      (encode : Request → List ℕ)
      → CodecLaws codec encode
      → (s : Stack) (c : Channel Q) (req : Request) (s' : Stack) (c' : Channel Q) (resp : Response)
      → 0 < length (encode req)
      → handle_request ops garbage s c req ≡ some (s', c', resp)
      → leaves_unset c.socket req.calling ≡ false
      → codec.byte_size resp ≤ message_max_size
      → on_read_ready s c (got (encode req)) ≡ writes s' c' (codec.serialize resp)
  unfolding on_read_ready
  on_read_ready-encode encode laws s c req s' c' resp k e u b =
      go (encode req) (laws.parse-encode req) k
    where
      go :
          (l : List ℕ)
          → codec.parse l ≡ req
          → 0 < length l
          → on_read_ready s c (got l) ≡ writes s' c' (codec.serialize resp)
      go (x ∷ xs) p h = ap (answer s c) p ∙ answer-writes s c req s' c' resp encode laws e u b
      go [] p h = absurd (ground (arith, h))
